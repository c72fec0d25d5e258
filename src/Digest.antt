-- ===== src/Digest.antt =====
-- podcast_agent/digest/generate.py: the claiming of episodes by a digest, and its completion after
-- a crash. Episodes are the documents of the store, and the digest's own document is its list of
-- episodes and its flag. Rendering and the files are left out.
pub mod Complete
pub mod Listing
pub mod Sections
pub mod Marking
pub mod Effect
pub mod Once
pub mod Recovery
use podcast_digest.Common.{
  ℕ, zero, suc, ◌+◌, String, Bool, true, false, Option, none, some, List, [], ◌∷◌, ◌==◌, string_eq,
  not, if◌then◌else◌,
}
use Prim.Native.String.{◌++◌ as ◌<>◌}
use podcast_digest.Errors.{Result, ok, err}
use podcast_digest.Status.{EpisodeStatus, published, member, digestable_statuses}
use podcast_digest.Store.{Doc, Rev, MemoryStore, Op, get}
use podcast_digest.Store.Update.{update_doc}
use podcast_digest.Episode.{Episode, current_status}
use podcast_digest.Episode.Stored.{transition, max_retries, on_body}

-- podcast_agent/utils.py
unfoldable pub digest_doc_id : String → String
digest_doc_id period_key = "digest:" <> period_key

-- `episode.get("digest_id")` is truthy.
unfoldable pub claimed : Episode → Bool
claimed doc = elim doc.digest_id [ none ↦ false | some d ↦ not (d == "") ]

-- The `_apply` of `_mark_published`.
unfoldable pub claim_for : String → Episode → Episode
claim_for digest_id doc = record doc { digest_id = some digest_id }

-- A failed write is logged, and the episode is not counted.
abbrev pub counted {ℓ} :
    {A : Type ℓ} → Result A × MemoryStore Episode → Result Bool × MemoryStore Episode
counted p = (elim p.0 [ ok v ↦ ok true | err e ↦ ok false ], p.1)

abbrev pub count_one : Bool → Result ℕ → Result ℕ
count_one b (err e) = err e
count_one b (ok n) = ok (if b then suc n else n)

module _ (uuid4 : ℕ → String) where
  -- One round of the loop, for the document that was read; `env` is what others write meanwhile.
  unfoldable pub mark_read :
      (ℕ → List (Op Episode))
      → String
      → ℕ
      → String
      → Episode
      → MemoryStore Episode
      → Result Bool × MemoryStore Episode
  mark_read env digest_id now i episode s =
      if claimed episode then (ok false, s) else elim (current_status episode) [
        | err e ↦ (err e, s)
        | ok status ↦
            if member status digestable_statuses
            then counted (transition uuid4 env i published (claim_for digest_id) now s)
            else counted (
                update_doc uuid4 max_retries i (on_body (λ doc. ok (claim_for digest_id doc))) env
                  s)
      ]

  unfoldable pub mark_one :
      (ℕ → List (Op Episode))
      → String
      → ℕ
      → String
      → MemoryStore Episode
      → Result Bool × MemoryStore Episode
  mark_one env digest_id now i s = elim (get s i) [
    | none ↦ (ok false, s)
    | some d ↦ mark_read env digest_id now i d.body s
  ]

  -- `_mark_published`: the number of episodes claimed; a status that is no status ends it.
  unfoldable pub mark_published :
      (ℕ → List (Op Episode))
      → String
      → ℕ
      → List String
      → MemoryStore Episode
      → Result ℕ × MemoryStore Episode
  mark_published env digest_id now [] s = (ok 0, s)
  mark_published env digest_id now (i ∷ ids) s =
      let one = mark_one env digest_id now i s in
      let rest = mark_published env digest_id now ids one.1 in
      elim one.0 [ err e ↦ (err e, one.1) | ok b ↦ (count_one b rest.0, rest.1) ]

-- The parts of a digest document that say what it claims.
pub record DigestDoc : Type 0 where
  pub episode_ids : List String
  pub marking_complete : Bool

-- `_reconcile`: the marking is finished, or there is nothing to finish and the caller goes on. The
-- flag is set only when the marking returned; a write of the flag that fails is left out.
unfoldable pub reconcile :
    (uuid4 : ℕ → String)
    → (ℕ → List (Op Episode))
    → String
    → ℕ
    → DigestDoc
    → MemoryStore Episode
    → Result (Option ℕ) × DigestDoc × MemoryStore Episode
unfolding mark_published
reconcile uuid4 env digest_id now digest s =
    let marked = mark_published uuid4 env digest_id now digest.episode_ids s in
    if digest.marking_complete then (ok none, digest, s) else elim marked.0 [
      | err e ↦ (err e, digest, marked.1)
      | ok n ↦ (ok (some n), record digest { marking_complete = true }, marked.1)
    ]
