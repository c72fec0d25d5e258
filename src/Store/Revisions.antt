-- ===== src/Store/Revisions.antt =====
-- podcast_agent/db/memory.py: the revisions that a store has issued, over many calls.
use podcast_digest.Common.{
  ℕ, ◌<◌, String, true, false, Option, none, some, List, [], ◌∷◌, ◌==◌, lookup, ◌≡◌, sym, ap, ◌∙◌,
  arith, string_eq, Bool-cases, inl, inr,
}
use podcast_digest.Store.Defs.{
  Doc, Rev, MemoryStore, Op, step, run, get, conflicts, rev_eq, rev_beq_iff, empty,
}
use podcast_digest.Store.Mvcc.{
  KeyedAt, Change, same, gone, renewed, step-Change, Since, as_read, removed, rewritten, run-Since,
}

module _ {ℓ} {B : Type ℓ} (uuid4 : ℕ → String) where
  -- The revision of `d` was drawn before the `n`-th draw.
  abbrev pub IssuedBefore : ℕ → Doc B → Type 0
  IssuedBefore n d = (r : Rev) × (k : ℕ) × (d.rev ≡ some r) × (r.tag ≡ uuid4 k) × (k < n)

  -- Every stored document has a revision that this store has drawn, and its own `_id` for key.
  pub record IsSound (s : MemoryStore B) : Type ℓ where
    pub issued : (i : String) (d : Doc B) → lookup i s.docs ≡ some d → IssuedBefore s.draws d
    pub keyed : (i : String) → KeyedAt i s

  pub IsSound-empty : IsSound empty
  unfolding empty lookup
  IsSound-empty = record { issued = λ i d e. cc; keyed = λ i d e. cc }

  issued_after :
      {i : String} {s t : MemoryStore B}
      → IsSound s
      → Change uuid4 i s t
      → (d : Doc B) → lookup i t.docs ≡ some d
      → IssuedBefore t.draws d
  issued_after {i} h (same e k) d f =
      let (r, n, a, b, c) = h.issued i d (sym e ∙ f) in (r, n, a, b, omega arith)
  issued_after h (gone e k) d f = cc
  issued_after {s = s} h (renewed d' r e a b k _) d f = (r, s.draws, cc, b, omega arith)

  keyed_after : {i : String} {s t : MemoryStore B} → IsSound s → Change uuid4 i s t → KeyedAt i t
  keyed_after {i} h (same e k) d f = h.keyed i d (sym e ∙ f)
  keyed_after h (gone e k) d f = cc
  keyed_after {i} h (renewed d' r e a b k g) d f = cc (g (h.keyed i))

  pub step-IsSound : (s : MemoryStore B) (o : Op B) → IsSound s → IsSound (step uuid4 s o)
  step-IsSound s o h = record {
    issued = λ i. issued_after h (step-Change uuid4 i s o);
    keyed = λ i. keyed_after h (step-Change uuid4 i s o);
  }

  pub run-IsSound : (s : MemoryStore B) (ops : List (Op B)) → IsSound s → IsSound (run uuid4 s ops)
  unfolding run
  run-IsSound s [] h = h
  run-IsSound s (o ∷ ops) h = run-IsSound (step uuid4 s o) ops (step-IsSound s o h)

module _ {ℓ} {B : Type ℓ} (uuid4 : ℕ → String)
    (distinct : (m n : ℕ) → uuid4 m ≡ uuid4 n → m ≡ n) where
  fresh_conflicts :
      (d d' : Doc B) (r r' : Rev) (k n : ℕ)
      → d.rev ≡ some r
      → r.tag ≡ uuid4 k
      → d'.rev ≡ some r'
      → r'.tag ≡ uuid4 n
      → k < n
      → conflicts (some d') d.rev ≡ true
  unfolding conflicts
  fresh_conflicts d d' r r' k n a b c e h =
      rw (c, conflicts)
        (rw a (elim (Bool-cases (r' == r)) [
          | inl same_rev ↦ absurd (
              clash (
                distinct n k (sym e ∙ ap (λ (x : Rev). x.tag) ((rev_beq_iff r' r).0 same_rev) ∙ b)))
          | inr other ↦ rw other
        ]))
    where
      clash : n ≡ k → ⊥
      clash p = omega arith

  gone_conflicts :
      (o : Option (Doc B)) (v : Option Rev) (r : Rev) → o ≡ none → v ≡ some r → conflicts o v ≡ true
  unfolding conflicts
  gone_conflicts o v r e f = rw (e, conflicts) (rw f)

  -- A revision that fits, after any changes since `d` was read: `d` is what is stored.
  pub Since-fits :
      (i : String) (m : ℕ) (t : MemoryStore B) (d d' : Doc B)
      → IssuedBefore uuid4 m d
      → Since uuid4 i (some d) m t
      → d'.rev ≡ d.rev
      → conflicts (lookup i t.docs) d'.rev ≡ false
      → lookup i t.docs ≡ some d
  Since-fits i m t d d' h (as_read f _) same_rev accepted = f
  Since-fits i m t d d' (r, k, a, b, c) (removed f _) same_rev accepted =
      absurd (cc (gone_conflicts _ d'.rev r f (same_rev ∙ a), accepted))
  Since-fits i m t d d' (r, k, a, b, c) (rewritten d2 r2 n f a2 b2 l _) same_rev accepted = absurd (
      cc (
        fresh_conflicts d d2 r r2 k n a b a2 b2 (omega arith),
        ap (λ o. conflicts o d.rev) f,
        accepted,
      ))

  -- On a sound store, with revision tags that are never drawn twice: a writer holds the version `d`
  -- of a document, other clients make any calls, and then its write with the revision of `d` is
  -- accepted: the stored document is still exactly `d`.
  pub stale_write_refused :
      (s : MemoryStore B) (ops : List (Op B)) (i : String) (d d' : Doc B)
      → IsSound uuid4 s
      → get s i ≡ some d
      → d'.rev ≡ d.rev
      → conflicts (get (run uuid4 s ops) i) d'.rev ≡ false
      → get (run uuid4 s ops) i ≡ some d
  unfolding get
  stale_write_refused s ops i d d' h e same_rev accepted =
      Since-fits i s.draws (run uuid4 s ops) d d' (h.issued i d e)
        (run-Since uuid4 i (some d) s.draws s ops (as_read e (omega arith))) same_rev accepted
