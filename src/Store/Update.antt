-- ===== src/Store/Update.antt =====
-- podcast_agent/db/base.py, `update_doc`: read, change, write, and start again on a conflict.
-- `env n` are the calls that other clients make between the read and the write of the attempt
-- that leaves `n` attempts.
use podcast_digest.Common.{
  ℕ, zero, suc, String, Bool, true, false, Option, none, some, List, [], ◌∷◌, ◌++◌, ◌≡◌, refl, sym,
  ap, subst, ◌∙◌, ◌⊎◌, inl, inr, Option-cases, Bool-cases, some_inj, lookup, string_eq, ◌==◌,
  beq_refl, not, if◌then◌else◌,
}
use podcast_digest.Errors.{Error, Result, ok, err, conflict_error, not_found_error, Result-cases}
use podcast_digest.Store.Defs.{
  Doc, Rev, MemoryStore, Op, run, put, get, write, conflicts, step, next_rev, doc_rev, rev_opt_beq,
  rev_eq, put_named,
}
use podcast_digest.Store.Mvcc.{put_cases}
use podcast_digest.Store.Revisions.{IsSound, run-IsSound, stale_write_refused}

abbrev pub is_conflict {ℓ} : {A : Type ℓ} → Result A → Bool
is_conflict (err conflict_error) = true
is_conflict _ = false

module _ {ℓ} {B : Type ℓ} (uuid4 : ℕ → String) where
  unfoldable pub update_doc :
      ℕ
      → String
      → (Doc B → Result (Doc B))
      → (ℕ → List (Op B))
      → MemoryStore B
      → Result (String × Rev) × MemoryStore B
  update_doc zero i mutator env s = (err conflict_error, s)
  update_doc (suc n) i mutator env s = elim (get s i) [
    | none ↦ (err not_found_error, s)
    | some doc ↦ elim (mutator doc) [
      | err e ↦ (err e, s)
      | ok candidate ↦
          let written = put uuid4 (run uuid4 s (env n)) candidate in
          let again = update_doc n i mutator env written.1 in
          if is_conflict written.0 then again else written
    ]
  ]

  run-append :
      (s : MemoryStore B) (xs ys : List (Op B))
      → run uuid4 (run uuid4 s xs) ys ≡ run uuid4 s (xs ++ ys)
  unfolding run
  run-append s [] ys = refl
  run-append s (x ∷ xs) ys = run-append (step uuid4 s x) xs ys

module _ {ℓ} {B : Type ℓ} where
  -- What the store has heard from other clients when `update_doc`, with `n` attempts, ends: the calls
  -- that they made during its first attempts, attempt by attempt, and nothing else.
  pub data Heard (env : ℕ → List (Op B)) : ℕ → List (Op B) → Type ℓ where
    at_once : (n : ℕ) → Heard env n []
    in_last : (n : ℕ) → Heard env (suc n) (env n)
    and_then : (n : ℕ) (ops : List (Op B)) → Heard env n ops → Heard env (suc n) (env n ++ ops)

module _ {ℓ} {B : Type ℓ} (uuid4 : ℕ → String) (mutator : Doc B → Result (Doc B)) where
  -- The calls of other clients, and at most one write: the mutator's, on the document that is
  -- there at that moment.
  pub data Outcome (env : ℕ → List (Op B)) (n : ℕ) (i : String) (s : MemoryStore B)
      (r : Result (String × Rev) × MemoryStore B) : Type ℓ where
    failed :
        (e : Error) (ops : List (Op B))
        → Heard env n ops
        → r ≡ (err e, run uuid4 s ops)
        → Outcome env n i s r
    updated :
        (ops : List (Op B)) (d d' : Doc B) (v : Rev)
        → Heard env n ops
        → get (run uuid4 s ops) i ≡ some d
        → mutator d ≡ ok d'
        → r ≡ (ok (i, v), write uuid4 (run uuid4 s ops) i d')
        → Outcome env n i s r

module _ {ℓ} {B : Type ℓ} (uuid4 : ℕ → String) (distinct : (m n : ℕ) → uuid4 m ≡ uuid4 n → m ≡ n)
    (mutator : Doc B → Result (Doc B))
    (keeps : (d d' : Doc B) → mutator d ≡ ok d' → (d'.id ≡ d.id) × (d'.rev ≡ d.rev)) where
  Outcome-run :
      {env : ℕ → List (Op B)} {n : ℕ} {i : String} {r : Result (String × Rev) × MemoryStore B}
      (s : MemoryStore B)
      → Outcome uuid4 mutator env n i (run uuid4 s (env n)) r
      → Outcome uuid4 mutator env (suc n) i s r
  Outcome-run {env} {n} s (failed e ops heard h) =
      let xs = env n in
      failed e (xs ++ ops) (and_then n ops heard)
        (h ∙ ap (λ t. (err e, t)) (run-append uuid4 s xs ops))
  Outcome-run {env} {n} {i} s (updated ops d d' v heard g m h) =
      let xs = env n in
      let q = run-append uuid4 s xs ops in
      updated (xs ++ ops) d d' v (and_then n ops heard) (ap (λ t. get t i) (sym q) ∙ g) m
        (h ∙ ap (λ t. (ok (i, v), write uuid4 t i d')) q)

  -- A write to `i` either raises and changes nothing, or lands.
  abbrev Put : String → MemoryStore B → Doc B → Result (String × Rev) × MemoryStore B → Type ℓ
  Put i u d' p =
      ((e : Error) × (p ≡ (err e, u)))
      ⊎ ((v : Rev) × (conflicts (get u i) d'.rev ≡ false) × (p ≡ (ok (i, v), write uuid4 u i d')))

  put-Put :
      (i : String) (u : MemoryStore B) (d' : Doc B) → d'.id ≡ some i → Put i u d' (put uuid4 u d')
  unfolding get
  put-Put i u d' hi =
      put_cases uuid4 (Put i u d') u d' (λ e. inl (e, refl))
        λ j hj c.
          let q : j ≡ i = some_inj (sym hj ∙ hi) in
          subst
            (λ k.
              Put i u d'
                (ok (k, next_rev uuid4 (doc_rev (lookup k u.docs)) u.draws), write uuid4 u k d'))
            (sym q)
            (inr (
              next_rev uuid4 (doc_rev (lookup i u.docs)) u.draws,
              subst (λ k. conflicts (lookup k u.docs) d'.rev ≡ false) q c,
              refl,
            ))

  -- One round: a conflict leads to the next round, and all else ends the loop.
  round :
      (env : ℕ → List (Op B)) (n : ℕ) (i : String) (s : MemoryStore B) (d d' : Doc B)
      (again : MemoryStore B → Result (String × Rev) × MemoryStore B)
      (p : Result (String × Rev) × MemoryStore B)
      → mutator d ≡ ok d'
      → (conflicts (get (run uuid4 s (env n)) i) d'.rev ≡ false
          → get (run uuid4 s (env n)) i ≡ some d)
      → Put i (run uuid4 s (env n)) d' p
      → Outcome uuid4 mutator env n i (run uuid4 s (env n)) (again (run uuid4 s (env n)))
      → Outcome uuid4 mutator env (suc n) i s (if is_conflict p.0 then again p.1 else p)
  round env n i s d d' again p m same (inl (e, q)) next =
      rw q (elim (Bool-cases (is_conflict {A = String × Rev} (err e))) [
        | inl c ↦ rw c (Outcome-run s next)
        | inr c ↦ rw c (failed e (env n) (in_last n) refl)
      ])
  round env n i s d d' again p m same (inr (v, c, q)) next =
      rw q (updated (env n) d d' v (in_last n) (same c) m refl)

  -- On a sound store, with a mutator that keeps `_id` and `_rev`, with any number of attempts, and
  -- whatever calls other clients make between its reads and its writes: `update_doc` either raises,
  -- and then the store is what these calls made of it, so it has written nothing itself, or it
  -- returns, and then the store differs from that by one write, the mutator's result on the version
  -- that was stored at that moment. (Revision tags are never drawn twice.)
  pub update_doc-Outcome :
      (n : ℕ) (i : String) (env : ℕ → List (Op B)) (s : MemoryStore B)
      → IsSound uuid4 s
      → Outcome uuid4 mutator env n i s (update_doc uuid4 n i mutator env s)
  unfolding update_doc
  update_doc-Outcome zero i env s h = failed conflict_error [] (at_once zero) (unfold run in refl)
  update_doc-Outcome (suc n) i env s h = elim (Option-cases (get s i)) [
    | inl absent ↦
        rw (absent, update_doc) (failed not_found_error [] (at_once (suc n)) (unfold run in refl))
    | inr (d, found) ↦ elim (Result-cases (mutator d)) [
      | inr (e, raised) ↦
          rw (found, update_doc) (rw raised (failed e [] (at_once (suc n)) (unfold run in refl)))
      | inl (d', changed) ↦
          rw (found, update_doc)
            (rw changed (
              round env n i s d d' (update_doc uuid4 n i mutator env) _ changed
                (λ c.
                  stale_write_refused uuid4 distinct s (env n) i d d' h found (keeps d d' changed).1
                    c)
                (put-Put i (run uuid4 s (env n)) d'
                  ((keeps d d' changed).0 ∙ h.keyed i d (unfold get in found)))
                (update_doc-Outcome n i env (run uuid4 s (env n)) (run-IsSound uuid4 s (env n) h))))
    ]
  ]

rev_opt_beq_refl : (r : Option Rev) → rev_opt_beq r r ≡ true
rev_opt_beq_refl none = refl
rev_opt_beq_refl (some r) = beq_refl r

module _ {ℓ} {B : Type ℓ} (uuid4 : ℕ → String) where
  -- A write with the stored revision is accepted.
  pub put_fits :
      (i : String) (s : MemoryStore B) (d d' : Doc B)
      → get s i ≡ some d
      → d'.id ≡ some i
      → d'.rev ≡ d.rev
      → (i == "") ≡ false
      → put uuid4 s d' ≡ (ok (i, next_rev uuid4 d.rev s.draws), write uuid4 s i d')
  unfolding put conflicts get
  put_fits i s d d' g hi hr named =
      let free : conflicts (lookup i s.docs) d'.rev ≡ false =
        ap (λ o. conflicts o d'.rev) g
        ∙ ap (conflicts (some d)) hr
        ∙ ap not (rev_opt_beq_refl d.rev) in
      subst
        (λ o. put_named uuid4 s d' o ≡ (ok (i, next_rev uuid4 d.rev s.draws), write uuid4 s i d'))
        (sym hi)
        (rw named
          (rw free (ap (λ o. (ok (i, next_rev uuid4 (doc_rev o) s.draws), write uuid4 s i d')) g)))

  -- With nobody else writing, an existing document with a non-empty `_id`, and a mutator that returns
  -- a document with the same `_id` and `_rev`, the first attempt of `update_doc` succeeds and writes that
  -- document.
  pub update_doc_alone :
      (n : ℕ) (i : String) (mutator : Doc B → Result (Doc B)) (s : MemoryStore B) (d d' : Doc B)
      → get s i ≡ some d
      → mutator d ≡ ok d'
      → d'.id ≡ some i
      → d'.rev ≡ d.rev
      → (i == "") ≡ false
      → update_doc uuid4 (suc n) i mutator (λ _. []) s
        ≡ (ok (i, next_rev uuid4 d.rev s.draws), write uuid4 s i d')
  unfolding update_doc run
  update_doc_alone n i mutator s d d' g m hi hr named =
      rw (g, update_doc) (rw m (rw (put_fits i s d d' g hi hr named)))
