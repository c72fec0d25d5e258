-- ===== src/Retention/Loop.antt =====
-- podcast_agent/retention.py, `_expire_llm_calls` and the three functions like it: when the loop
-- over batches ends, and what is left then.
use podcast_digest.Common.{
  ℕ, zero, suc, ◌≤◌, ◌<◌, String, Bool, true, false, ◌&&◌, not, none, some, List, [], ◌∷◌, ◌==◌,
  string_eq, nat_eq, ltb, keep_if, take, take_whole, length, Dict, lookup, All, All-keep_if, All-or,
  All-take, keep_if-All, All-map, length-take, length-take-keep_if, length-keep_if-both, Bool-cases,
  List-cases, some_inj, ◌≡◌, refl, sym, ap, subst, ◌∙◌, ◌⊎◌, inl, inr, arith,
}
use podcast_digest.Store.{MemoryStore}
use podcast_digest.Retention.{
  Fields, RetentionStats, Entry, matched, find, batch_limit, delete_batch, expire,
}
use podcast_digest.Retention.Batches.{
  Filed, Proper, is_selected, is_refused, Round, current, delete_batch-Round, delete_batch-progress,
}

pub All-at {ℓ κ} :
    {V : Type ℓ} (P : String × V → Type κ) (d : Dict String V) (k : String) (v : V)
    → All P d
    → lookup k d ≡ some v
    → P (k, v)
unfolding lookup
All-at P [] k v h e = absurd cc
All-at {V = W} P ((j, w) ∷ d) k v (h, t) e = elim (Bool-cases (j == k)) [
  | inl same ↦ subst P (same_entry ((string_eq.same_iff j k).0 same) (some_inj (rw same at e))) h
  | inr other ↦ All-at P d k v t (rw other at e)
]
  where
    same_entry : j ≡ k → w ≡ v → ◌≡◌ {A = String × W} (j, w) (k, v)
    same_entry p r = cc

module _ (refuses : String → Bool) (counted : RetentionStats → RetentionStats)
    (selects : Fields → Bool) where
  abbrev pub left : MemoryStore Fields → ℕ
  left s = length (keep_if (is_selected refuses counted selects) s.docs)

  -- How many of the selected documents the database refuses to delete.
  abbrev pub refused_count : MemoryStore Fields → ℕ
  refused_count s = length (keep_if (is_refused refuses counted selects) s.docs)

  -- What the job leaves: of the selected documents only those that are refused, and the others as they
  -- were.
  pub record Swept (s t : MemoryStore Fields) : Type 0 where
    pub only_refused : All (λ e. selects e.1.body ≡ true → refuses e.0 ≡ true) t.docs
    pub refused_kept :
        keep_if (λ e. selects e.1.body && refuses e.0) t.docs
        ≡ keep_if (λ e. selects e.1.body && refuses e.0) s.docs
    pub others_kept :
        keep_if (λ e. not (selects e.1.body)) t.docs ≡ keep_if (λ e. not (selects e.1.body)) s.docs

  find-Filed :
      (s : MemoryStore Fields)
      → Proper s
      → All (λ e. Filed s e × (is_selected refuses counted selects e ≡ true)) (find selects s)
  unfolding find matched
  find-Filed s h = All-take _ batch_limit _ (
      both (keep_if (λ e. selects e.1.body) s.docs)
        (All-keep_if (Filed s) (λ e. selects e.1.body) s.docs h)
        (keep_if-All (λ e. selects e.1.body) s.docs))
    where
      both :
          (es : List Entry)
          → All (Filed s) es
          → All (λ e. selects e.1.body ≡ true) es
          → All (λ e. Filed s e × (selects e.1.body ≡ true)) es
      both [] a b = tt
      both (e ∷ es) (a, more) (b, bs) = ((a, b), both es more bs)

  find-Round :
      (s : MemoryStore Fields) (stats : RetentionStats)
      → Proper s
      → Round refuses counted selects
          (find selects s)
          s
          (delete_batch refuses counted (find selects s) s stats).0
  find-Round s stats h = delete_batch-Round refuses counted selects (find selects s) s stats h (
      All-map _ (λ e f. (current refuses counted selects s e f.0, f.1)) (find selects s)
        (find-Filed s h))

  -- A round over all the selected documents is the last one.
  last_round :
      (s : MemoryStore Fields) (stats : RetentionStats)
      → Proper s
      → length (find selects s) < batch_limit
      → Swept s (delete_batch refuses counted (find selects s) s stats).0
  unfolding find matched
  last_round s stats h short = record {
    only_refused = All-map _ swept t.docs r.proper;
    refused_kept = r.stubborn_kept;
    others_kept = r.others_kept;
  }
    where
      t : MemoryStore Fields
      t = (delete_batch refuses counted (find selects s) s stats).0

      r : Round refuses counted selects (find selects s) s t
      r = find-Round s stats h

      all_gone :
          All
            (λ e. (refuses e.0 ≡ false → lookup e.0 t.docs ≡ none) ⊎ (selects e.1.body ≡ false))
            s.docs
      all_gone =
          All-or _ (λ e. selects e.1.body) s.docs
            (subst (All (λ e. refuses e.0 ≡ false → lookup e.0 t.docs ≡ none))
              (take_whole batch_limit _ short) r.gone)

      swept : (e : Entry) → Filed t e → selects e.1.body ≡ true → refuses e.0 ≡ true
      swept e f y = elim (Bool-cases (refuses e.0)) [
        | inl x ↦ x
        | inr x ↦ elim (r.only_lost e.0) [
          | inr lost ↦ absurd (cc (lost, f.0))
          | inl same ↦ elim (All-at _ s.docs e.0 e.1 all_gone (sym same ∙ f.0)) [
            | inl g ↦ absurd (cc (g x, f.0))
            | inr n ↦ absurd (cc (n, y))
          ]
        ]
      ]

  -- Nothing is selected, so nothing is left to delete.
  nothing_selected : (s : MemoryStore Fields) → length (find selects s) ≡ 0 → Swept s s
  unfolding find matched
  nothing_selected s h = record {
    only_refused =
        All-map _ (λ e o y. none_there e o y) s.docs
          (All-or (λ e. ⊥) (λ e. selects e.1.body) s.docs empty);
    refused_kept = refl;
    others_kept = refl;
  }
    where
      none_there :
          (e : Entry)
          → ⊥ ⊎ (selects e.1.body ≡ false)
          → selects e.1.body ≡ true
          → refuses e.0 ≡ true
      none_there e (inl o) y = absurd o
      none_there e (inr n) y = absurd (cc (n, y))

      empty : All (λ e. ⊥) (keep_if (λ e. selects e.1.body) s.docs)
      empty = elim (List-cases (keep_if (λ e. selects e.1.body) s.docs)) [
        | inl e ↦ rw e tt
        | inr (y, ys, e) ↦
            let one : suc (length (take 499 ys)) ≡ 0 = rw e at h in absurd (omega (arith, one))
      ]

  Swept-then :
      (s t u : MemoryStore Fields)
      → Round refuses counted selects (find selects s) s t
      → Swept t u
      → Swept s u
  Swept-then s t u r w = record {
    only_refused = w.only_refused;
    refused_kept = w.refused_kept ∙ r.stubborn_kept;
    others_kept = w.others_kept ∙ r.others_kept;
  }

  full_round :
      (s : MemoryStore Fields) (stats : RetentionStats)
      → Proper s
      → refused_count s < batch_limit
      → batch_limit ≤ length (find selects s)
      → left (delete_batch refuses counted (find selects s) s stats).0 < left s
  unfolding find matched
  full_round s stats h few full =
      elim (delete_batch-progress refuses counted selects (find selects s) s stats h
        (find-Filed s h)) [
          | inr less ↦ less
          | inl all ↦ absurd (
              omega (
                arith,
                few,
                full,
                length-take-keep_if (λ e. selects e.1.body) (λ e. refuses e.0) batch_limit s.docs
                    all,
              ))
        ]

  -- On a store in which every document stands under its own `_id`, once, with a revision: if the
  -- database refuses to delete fewer than 500 of the selected documents, the loop ends. After more
  -- rounds than documents are selected, at the latest, it returns, and then the selected documents that
  -- are left are the refused ones, and all others are as they were.
  pub expire-ends :
      (rounds : ℕ) (s : MemoryStore Fields) (stats : RetentionStats)
      → Proper s
      → refused_count s < batch_limit
      → left s < rounds
      → (t : MemoryStore Fields) × (stats' : RetentionStats) × (expire refuses counted selects
            rounds s stats
          ≡ some (t, stats'))
        × Swept s t
  unfolding expire
  expire-ends zero s stats h few enough = absurd (omega (arith, enough))
  expire-ends (suc rounds) s stats h few enough = elim (Bool-cases (length (find selects s) == 0)) [
    | inl e ↦ (s, stats, rw e refl, nothing_selected s (ground (arith, e)))
    | inr e ↦ elim (Bool-cases (ltb (length (find selects s)) batch_limit)) [
      | inl short ↦
          let out : MemoryStore Fields × RetentionStats =
            delete_batch refuses counted (find selects s) s stats in
          (out.0, out.1, rw (e, short) refl, last_round s stats h (ground (arith, short)))
      | inr full ↦
          let out : MemoryStore Fields × RetentionStats =
            delete_batch refuses counted (find selects s) s stats in
          let r : Round refuses counted selects (find selects s) s out.0 = find-Round s stats h in
          let less : left out.0 < left s = full_round s stats h few (ground (arith, full)) in
          let more =
            expire-ends rounds out.0 out.1 r.proper (omega (arith, few, ap length r.stubborn_kept))
              (omega (arith, less, enough)) in
          (more.0, more.1, rw (e, full) more.2, Swept-then s out.0 more.0 r more.3)
    ]
  ]

  -- The loop does not end if the database refuses to delete 500 or more of the selected documents:
  -- whatever the number of rounds, it is not over by then.
  pub expire-stuck :
      (rounds : ℕ) (s : MemoryStore Fields) (stats : RetentionStats)
      → Proper s
      → batch_limit ≤ refused_count s
      → expire refuses counted selects rounds s stats ≡ none
  unfolding expire find matched
  expire-stuck zero s stats h many = refl
  expire-stuck (suc rounds) s stats h many =
      let out : MemoryStore Fields × RetentionStats =
        delete_batch refuses counted (find selects s) s stats in
      let r : Round refuses counted selects (find selects s) s out.0 = find-Round s stats h in
      let again : expire refuses counted selects rounds out.0 out.1 ≡ none =
        expire-stuck rounds out.0 out.1 r.proper (omega (arith, many, ap length r.stubborn_kept)) in
      let e : (length (find selects s) == 0) ≡ false = ground (arith, full_batch) in
      let f : ltb (length (find selects s)) batch_limit ≡ false = ground (arith, full_batch) in
      rw (e, f) again
    where
      full_batch : length (find selects s) ≡ batch_limit
      full_batch = omega (
        arith,
        many,
        length-take batch_limit (matched selects s),
        length-keep_if-both (λ e. selects e.1.body) (λ e. refuses e.0) s.docs,
      )
