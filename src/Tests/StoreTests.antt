-- ===== src/Tests/StoreTests.antt =====
-- The document store at concrete inputs: two writers of one document.
use podcast_digest.Common.{
  ℕ, zero, suc, arith, none, some, List, [], ◌∷◌, ◌≡◌, refl, lookup, insert,
}
use podcast_digest.Errors.{Result, ok, err, conflict_error}
use podcast_digest.Store.{
  Doc, Rev, MemoryStore, Op, puts, run, step, put, get, empty, write, conflicts, next_rev,
}
use podcast_digest.Store.Revisions.{IsSound, IsSound-empty, run-IsSound, stale_write_refused}
use podcast_digest.Store.Update.{update_doc, update_doc-Outcome, Outcome}
use podcast_digest.Tests.Sample.{tally, tally_distinct, new_doc}

abbrev one_doc : MemoryStore ℕ
one_doc = run tally empty (puts (new_doc "a" 1) ∷ [])

one_doc-IsSound : IsSound tally one_doc
one_doc-IsSound = run-IsSound tally empty (puts (new_doc "a" 1) ∷ []) (IsSound-empty tally)

abbrev first_rev : Rev
first_rev = record { generation = 1; tag = "" }

abbrev as_stored : ℕ → Doc ℕ
as_stored n = record { id = some "a"; rev = some first_rev; attachments = none; body = n }

-- Another client writes the document between the read and the write: the write is refused.
race :
    put tally (run tally one_doc (puts (as_stored 7) ∷ [])) (as_stored 9)
    ≡ (err conflict_error, run tally one_doc (puts (as_stored 7) ∷ []))
unfolding run step put write next_rev lookup insert empty conflicts
race = refl

stale_write_refused_example :
    get (run tally one_doc (puts (new_doc "b" 2) ∷ [])) "a" ≡ some (as_stored 1)
unfolding run step put write next_rev lookup insert empty conflicts get
stale_write_refused_example =
    stale_write_refused tally tally_distinct one_doc (puts (new_doc "b" 2) ∷ []) "a" (as_stored 1)
      (as_stored 9) one_doc-IsSound refl refl refl

abbrev twice : Doc ℕ → Result (Doc ℕ)
twice d = ok (record d { body = 2 })

-- A rival writes during the first attempt only.
rival : ℕ → List (Op ℕ)
rival (suc (suc (suc (suc zero)))) = puts (as_stored 7) ∷ []
rival n = []

twice_keeps : (d d' : Doc ℕ) → twice d ≡ ok d' → (d'.id ≡ d.id) × (d'.rev ≡ d.rev)
twice_keeps d d' h = ground arith

update_doc-Outcome_example :
    Outcome tally twice rival 5 "a" one_doc (update_doc tally 5 "a" twice rival one_doc)
update_doc-Outcome_example =
    update_doc-Outcome tally tally_distinct twice twice_keeps 5 "a" rival one_doc one_doc-IsSound

-- The second attempt lands on what the rival wrote.
second_attempt_lands :
    (update_doc tally 5 "a" twice rival one_doc).0 ≡ ok ("a", record { generation = 3; tag = "ii" })
unfolding update_doc rival run step put write next_rev lookup insert empty conflicts get
second_attempt_lands = refl
