-- ===== src/Store/Mvcc.antt =====
-- What every call of the store does to one document, and what follows for a client that holds a
-- revision while others write.
use podcast_digest.Common.{
  ℕ, suc, ◌≤◌, ◌<◌, String, false, Option, none, some, List, [], ◌∷◌, ◌==◌, lookup, insert, remove,
  lookup-insert, lookup-remove, Bool-cases, Option-cases, ◌≡◌, refl, ap, subst, ◌∙◌, inl, inr,
  arith, string_eq,
}
use podcast_digest.Errors.{Error, Result, ok, err, conflict_error, store_error}
use podcast_digest.Store.Defs.{
  Doc, Rev, Blob, MemoryStore, Op, puts, creates, deletes, attaches, detaches, step, run, put,
  create, delete, put_attachment, delete_attachment, write, conflicts, next_rev, doc_rev,
  rev_opt_beq, rev_eq, stubs_of, is_some, put_named,
}

-- A document is stored under its own `_id`.
abbrev pub KeyedAt {ℓ} : {B : Type ℓ} → String → MemoryStore B → Type ℓ
KeyedAt {B = B} i s = (d : Doc B) → lookup i s.docs ≡ some d → d.id ≡ some i

pub tag-next_rev :
    (uuid4 : ℕ → String) (o : Option Rev) (n : ℕ) → (next_rev uuid4 o n).tag ≡ uuid4 n
unfolding next_rev
tag-next_rev uuid4 none n = refl
tag-next_rev uuid4 (some r) n = refl

module _ {ℓ} {B : Type ℓ} (uuid4 : ℕ → String) where
  -- What one call may do to the document at `i`: nothing, remove it, or give it a new revision.
  pub data Change (i : String) (s t : MemoryStore B) : Type ℓ where
    same : lookup i t.docs ≡ lookup i s.docs → s.draws ≤ t.draws → Change i s t
    gone : lookup i t.docs ≡ none → s.draws ≤ t.draws → Change i s t
    renewed :
        (d : Doc B) (r : Rev)
        → lookup i t.docs ≡ some d
        → d.rev ≡ some r
        → r.tag ≡ uuid4 s.draws
        → t.draws ≡ suc s.draws
        → (KeyedAt i s → d.id ≡ some i)
        → Change i s t

  unchanged : (i : String) (s : MemoryStore B) → Change i s s
  unchanged i s = same refl (omega arith)

  insert-Change :
      (i j : String) (s t : MemoryStore B) (d : Doc B) (o : Option Rev)
      → d.rev ≡ some (next_rev uuid4 o s.draws)
      → t.docs ≡ insert j d s.docs
      → t.draws ≡ suc s.draws
      → (KeyedAt j s → d.id ≡ some j)
      → Change i s t
  insert-Change i j s t d o hr hd hn keyed = elim (Bool-cases (j == i)) [
    | inl e ↦
        renewed d (next_rev uuid4 o s.draws) (ap (lookup i) hd ∙ lookup-insert j i d s.docs ∙ rw e)
          hr (tag-next_rev uuid4 o s.draws) hn
          (subst (λ k. KeyedAt k s → d.id ≡ some k) ((string_eq.same_iff j i).0 e) keyed)
    | inr e ↦ same (ap (lookup i) hd ∙ lookup-insert j i d s.docs ∙ rw e) (omega arith)
  ]

  remove-Change :
      (i j : String) (s t : MemoryStore B)
      → t.docs ≡ remove j s.docs
      → t.draws ≡ s.draws
      → Change i s t
  remove-Change i j s t hd hn = elim (Bool-cases (j == i)) [
    | inl e ↦ gone (ap (lookup i) hd ∙ lookup-remove j i s.docs ∙ rw e) (omega arith)
    | inr e ↦ same (ap (lookup i) hd ∙ lookup-remove j i s.docs ∙ rw e) (omega arith)
  ]

  -- The ways a `put` can end.
  module _ {κ} (P : Result (String × Rev) × MemoryStore B → Type κ) (s : MemoryStore B) (d : Doc B)
      (refused : (e : Error) → P (err e, s))
      (written : (i : String)
        → d.id ≡ some i
        → conflicts (lookup i s.docs) d.rev ≡ false
        → P (ok (i, next_rev uuid4 (doc_rev (lookup i s.docs)) s.draws), write uuid4 s i d)) where
    put_named_cases : (o : Option String) → d.id ≡ o → P (put_named uuid4 s d o)
    put_named_cases none e = refused store_error
    put_named_cases (some i) e = elim (Bool-cases (i == "")) [
      | inl blank ↦ rw blank (refused store_error)
      | inr named ↦ rw named (elim (Bool-cases (conflicts (lookup i s.docs) d.rev)) [
        | inl c ↦ rw c (refused conflict_error)
        | inr c ↦ rw c (written i e c)
      ])
    ]

    pub put_cases : P (put uuid4 s d)
    unfolding put
    put_cases = put_named_cases d.id refl

  put-Change : (i : String) (s : MemoryStore B) (d : Doc B) → Change i s (put uuid4 s d).1
  put-Change i s d =
      put_cases (λ p. Change i s p.1) s d (λ e. unchanged i s)
        λ j e c.
          unfold write in
          insert-Change i j s _ _ (doc_rev (lookup j s.docs)) refl refl refl (λ _. e)

  create-Change : (i : String) (s : MemoryStore B) (d : Doc B) → Change i s (create uuid4 s d).1
  unfolding create
  create-Change i s d = elim (Option-cases d.id) [
    | inl e ↦ rw (e, create) (unchanged i s)
    | inr (j, e) ↦ elim (Bool-cases (j == "")) [
      | inl blank ↦ rw (e, create) (rw blank (unchanged i s))
      | inr named ↦ elim (Bool-cases (is_some d.rev)) [
        | inl r ↦ rw (e, create) (rw named (rw r (unchanged i s)))
        | inr r ↦ elim (Bool-cases (is_some (lookup j s.docs))) [
          | inl l ↦ rw (e, create) (rw named (rw r (rw l (unchanged i s))))
          | inr l ↦ rw (e, create) (rw named (rw r (rw l (put-Change i s d))))
        ]
      ]
    ]
  ]

  delete-Change : (i j : String) (r : Rev) (s : MemoryStore B) → Change i s (delete s j r).1
  unfolding delete
  delete-Change i j r s = elim (Option-cases (lookup j s.docs)) [
    | inl e ↦ rw (e, delete) (unchanged i s)
    | inr (d, e) ↦ elim (Bool-cases (rev_opt_beq d.rev (some r))) [
      | inl m ↦ rw (e, delete) (rw m (remove-Change i j s _ refl refl))
      | inr m ↦ rw (e, delete) (rw m (unchanged i s))
    ]
  ]

  put_attachment-Change :
      (i j n : String) (b : Blob) (c : String) (s : MemoryStore B)
      → Change i s (put_attachment uuid4 s j n b c).1
  unfolding put_attachment
  put_attachment-Change i j n b c s = elim (Option-cases (lookup j s.docs)) [
    | inl e ↦ rw (e, put_attachment) (unchanged i s)
    | inr (d, e) ↦
        rw (e, put_attachment) (insert-Change i j s _ _ d.rev refl refl refl (λ h. h d e))
  ]

  delete_attachment-Change :
      (i j n : String) (s : MemoryStore B) → Change i s (delete_attachment uuid4 s j n).1
  unfolding delete_attachment
  delete_attachment-Change i j n s = elim (Option-cases (lookup j s.docs)) [
    | inl e ↦ rw (e, delete_attachment) (unchanged i s)
    | inr (d, e) ↦ elim (Bool-cases (is_some (lookup n (stubs_of d)))) [
      | inl l ↦
          rw (e, delete_attachment)
            (rw l (insert-Change i j s _ _ d.rev refl refl refl (λ h. h d e)))
      | inr l ↦ rw (e, delete_attachment) (rw l (same refl (omega arith)))
    ]
  ]

  pub step-Change : (i : String) (s : MemoryStore B) (o : Op B) → Change i s (step uuid4 s o)
  unfolding step
  step-Change i s (puts d) = put-Change i s d
  step-Change i s (creates d) = create-Change i s d
  step-Change i s (deletes j r) = delete-Change i j r s
  step-Change i s (attaches j n b c) = put_attachment-Change i j n b c s
  step-Change i s (detaches j n) = delete_attachment-Change i j n s

  -- Where the document at `i` stands, for a client that last saw `o` at the draw count `m`.
  pub data Since (i : String) (o : Option (Doc B)) (m : ℕ) (t : MemoryStore B) : Type ℓ where
    as_read : lookup i t.docs ≡ o → m ≤ t.draws → Since i o m t
    removed : lookup i t.docs ≡ none → m ≤ t.draws → Since i o m t
    rewritten :
        (d : Doc B) (r : Rev) (n : ℕ)
        → lookup i t.docs ≡ some d
        → d.rev ≡ some r
        → r.tag ≡ uuid4 n
        → m ≤ n
        → n < t.draws
        → Since i o m t

  Since-draws :
      {i : String} {o : Option (Doc B)} {m : ℕ} {t : MemoryStore B} → Since i o m t → m ≤ t.draws
  Since-draws (as_read _ h) = h
  Since-draws (removed _ h) = h
  Since-draws (rewritten _ _ n _ _ _ h k) = omega arith

  pub Since-Change :
      {i : String} {o : Option (Doc B)} {m : ℕ} {t u : MemoryStore B}
      → Since i o m t
      → Change i t u
      → Since i o m u
  Since-Change (as_read e h) (same f k) = as_read (f ∙ e) (omega arith)
  Since-Change (removed e h) (same f k) = removed (f ∙ e) (omega arith)
  Since-Change (rewritten d r n e a b h l) (same f k) = rewritten d r n (f ∙ e) a b h (omega arith)
  Since-Change p (gone f k) = removed f (omega (arith, Since-draws p))
  Since-Change {t = t} p (renewed d r e a b f _) =
      rewritten d r t.draws e a b (Since-draws p) (omega arith)

  pub run-Since :
      (i : String) (o : Option (Doc B)) (m : ℕ) (t : MemoryStore B) (ops : List (Op B))
      → Since i o m t
      → Since i o m (run uuid4 t ops)
  unfolding run
  run-Since i o m t [] p = p
  run-Since i o m t (op ∷ ops) p =
      run-Since i o m (step uuid4 t op) ops (Since-Change p (step-Change i t op))
