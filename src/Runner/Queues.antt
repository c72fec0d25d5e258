-- ===== src/Runner/Queues.antt =====
-- podcast_agent/pipeline/runner.py, `_queue`: which document a queue has for an id, in a store that
-- has each id once.
use podcast_digest.Common.{
  ℕ, zero, suc, ◌≤◌, String, Bool, true, false, Option, none, some, [], ◌∷◌, ◌++◌, ◌==◌, string_eq,
  if◌then◌else◌, keep_if, take, length, sort_by, insert_in_order, Dict, lookup, insert,
  lookup-insert, Bool-cases, beq_refl, ◌≡◌, refl, sym, ap, subst, some_inj, ◌∙◌, inl, inr, arith,
}

module _ {ℓ} {A : Type ℓ} where
  -- Each key once.
  abbrev pub Unique : Dict String A → Type ℓ
  Unique [] = Unit
  Unique ((k, v) ∷ d) = (lookup k d ≡ none) × Unique d

  -- `d.get(k)`, if the value passes the test.
  abbrev pub when : (A → Bool) → Option A → Option A
  when p none = none
  when p (some v) = if p v then some v else none

  -- The first value there is.
  abbrev pub first_of : Option A → Option A → Option A
  first_of none b = b
  first_of (some a) b = some a

  pub when-none : (p : A → Bool) (o : Option A) → o ≡ none → when p o ≡ none
  when-none p o h = rw h refl

  pub lookup-keep_if :
      (p : A → Bool) (k : String) (d : Dict String A)
      → Unique d
      → lookup k (keep_if (λ e. p e.1) d) ≡ when p (lookup k d)
  unfolding lookup keep_if
  lookup-keep_if p k [] u = refl
  lookup-keep_if p k ((j, v) ∷ d) (absent, u) = elim (Bool-cases (j == k)) [
    | inl same ↦ elim (Bool-cases (p v)) [
      | inl e ↦ rw (e, same) (rw e refl)
      | inr e ↦
          rw (e, same)
            (rw e (
              lookup-keep_if p k d u
              ∙ when-none p (lookup k d)
                  (subst (λ x. lookup x d ≡ none) ((string_eq.same_iff j k).0 same) absent)))
    ]
    | inr other ↦ elim (Bool-cases (p v)) [
      | inl e ↦ rw (e, other) (lookup-keep_if p k d u)
      | inr e ↦ rw (e, other) (lookup-keep_if p k d u)
    ]
  ]

  keep_if-absent :
      (q : String × A → Bool) (k : String) (d : Dict String A)
      → lookup k d ≡ none
      → lookup k (keep_if q d) ≡ none
  unfolding lookup keep_if
  keep_if-absent q k [] h = refl
  keep_if-absent q k ((j, v) ∷ d) h = elim (Bool-cases (j == k)) [
    | inl same ↦ absurd (cc (rw same at h))
    | inr other ↦
        let rest = keep_if-absent q k d (rw other at h) in
        elim (Bool-cases (q (j, v))) [ inl e ↦ rw e (rw other rest) | inr e ↦ rw e rest ]
  ]

  pub keep_if-Unique : (q : String × A → Bool) (d : Dict String A) → Unique d → Unique (keep_if q d)
  unfolding keep_if
  keep_if-Unique q [] u = tt
  keep_if-Unique q ((j, v) ∷ d) (absent, u) = elim (Bool-cases (q (j, v))) [
    | inl e ↦ rw e (keep_if-absent q j d absent, keep_if-Unique q d u)
    | inr e ↦ rw e (keep_if-Unique q d u)
  ]

  behind :
      (k j : String) (v : A) (c d : Dict String A)
      → lookup k c ≡ lookup k d
      → lookup k ((j, v) ∷ c) ≡ lookup k ((j, v) ∷ d)
  unfolding lookup
  behind k j v c d h = ap (λ o. if j == k then some v else o) h

  module _ (earlier : String × A → String × A → Bool) where
    lookup-insert_in_order :
        (k j : String) (v : A) (d : Dict String A)
        → lookup j d ≡ none
        → lookup k (insert_in_order earlier (j, v) d) ≡ lookup k ((j, v) ∷ d)
    unfolding lookup insert_in_order
    lookup-insert_in_order k j v [] h = refl
    lookup-insert_in_order k j v ((i, w) ∷ d) h = elim (Bool-cases (i == j)) [
      | inl same ↦ absurd (cc (rw same at h))
      | inr other ↦
          let rest = lookup-insert_in_order k j v d (rw other at h) in
          ground
            (arith, rest, string_eq.same_iff i k, string_eq.same_iff j k, string_eq.same_iff i j)
    ]

    pub lookup-sort_by :
        (k : String) (d : Dict String A) → Unique d → lookup k (sort_by earlier d) ≡ lookup k d
    unfolding sort_by
    lookup-sort_by k [] u = refl
    lookup-sort_by k ((j, v) ∷ d) (absent, u) =
        lookup-insert_in_order k j v (sort_by earlier d) (lookup-sort_by j d u ∙ absent)
        ∙ behind k j v (sort_by earlier d) d (lookup-sort_by k d u)

    insert_in_order-Unique :
        (j : String) (v : A) (d : Dict String A)
        → lookup j d ≡ none
        → Unique d
        → Unique (insert_in_order earlier (j, v) d)
    unfolding lookup insert_in_order
    insert_in_order-Unique j v [] h u = (refl, tt)
    insert_in_order-Unique j v ((i, w) ∷ d) h (absent, u) = elim (Bool-cases (i == j)) [
      | inl same ↦ absurd (cc (rw same at h))
      | inr other ↦
          let rest : lookup j d ≡ none = rw other at h in
          elim (Bool-cases (earlier (i, w) (j, v))) [
            | inl e ↦ rw e (
              lookup-insert_in_order i j v d rest
                  ∙ ground (arith, absent, other, string_eq.same_iff i j, string_eq.same_iff j i),
              insert_in_order-Unique j v d rest u,
            )
            | inr e ↦ rw e (h, (absent, u))
          ]
    ]

    pub sort_by-Unique : (d : Dict String A) → Unique d → Unique (sort_by earlier d)
    unfolding sort_by
    sort_by-Unique [] u = tt
    sort_by-Unique ((j, v) ∷ d) (absent, u) =
        insert_in_order-Unique j v (sort_by earlier d) (lookup-sort_by j d u ∙ absent)
          (sort_by-Unique d u)

  pub take-absent :
      (n : ℕ) (k : String) (d : Dict String A) → lookup k d ≡ none → lookup k (take n d) ≡ none
  unfolding lookup
  take-absent zero k d h = refl
  take-absent (suc n) k [] h = refl
  take-absent (suc n) k ((j, v) ∷ d) h = elim (Bool-cases (j == k)) [
    | inl same ↦ absurd (cc (rw same at h))
    | inr other ↦ rw other (take-absent n k d (rw other at h))
  ]

  pub take-Unique : (n : ℕ) (d : Dict String A) → Unique d → Unique (take n d)
  take-Unique zero d u = tt
  take-Unique (suc n) [] u = tt
  take-Unique (suc n) ((j, v) ∷ d) (absent, u) = (take-absent n j d absent, take-Unique n d u)

  -- A write keeps the keys unique, and their number if the key was there.
  insert-absent :
      (k j : String) (v : A) (d : Dict String A)
      → (k == j) ≡ false
      → lookup j d ≡ none
      → lookup j (insert k v d) ≡ none
  insert-absent k j v d other h = lookup-insert k j v d ∙ rw other h

  pub insert-Unique : (k : String) (v : A) (d : Dict String A) → Unique d → Unique (insert k v d)
  unfolding insert
  insert-Unique k v [] u = (unfold lookup in refl, tt)
  insert-Unique k v ((j, w) ∷ d) (absent, u) = elim (Bool-cases (j == k)) [
    | inl same ↦ rw same (absent, u)
    | inr other ↦ rw other (
      insert-absent k j v d (ground (arith, other, string_eq.same_iff j k, string_eq.same_iff k j))
          absent,
      insert-Unique k v d u,
    )
  ]

  -- A write to a value that passes a test makes no more of them.
  pub length-keep_if-insert :
      (p : A → Bool) (k : String) (v : A) (d : Dict String A) (w : A)
      → lookup k d ≡ some w
      → p w ≡ true
      → length (keep_if (λ e. p e.1) (insert k v d)) ≤ length (keep_if (λ e. p e.1) d)
  unfolding lookup insert keep_if
  length-keep_if-insert p k v [] w h yes_w = absurd (cc h)
  length-keep_if-insert p k v ((j, x) ∷ d) w h yes_w = elim (Bool-cases (j == k)) [
    | inl same ↦
        let x_is : x ≡ w = some_inj (rw same at h) in
        let yes_x : p x ≡ true = subst (λ y. p y ≡ true) (sym x_is) yes_w in
        rw (same, yes_x)
          (elim (Bool-cases (p v)) [ inl e ↦ rw e (omega arith) | inr e ↦ rw e (omega arith) ])
    | inr other ↦
        let rest = length-keep_if-insert p k v d w (rw other at h) yes_w in
        elim (Bool-cases (p x)) [
          | inl e ↦ rw (other, e) (omega (arith, rest))
          | inr e ↦ rw (other, e) rest
        ]
  ]

  pub lookup-append :
      (k : String) (c d : Dict String A) → lookup k (c ++ d) ≡ first_of (lookup k c) (lookup k d)
  unfolding lookup
  lookup-append k [] d = refl
  lookup-append k ((j, v) ∷ c) d = elim (Bool-cases (j == k)) [
    | inl same ↦ rw same refl
    | inr other ↦ rw other (lookup-append k c d)
  ]

  -- Whoever is not in the first, is as in the second.
  pub append-Unique :
      (c d : Dict String A)
      → Unique c
      → Unique d
      → ((k : String) (v : A) → lookup k c ≡ some v → lookup k d ≡ none)
      → Unique (c ++ d)
  append-Unique [] d u v apart = v
  append-Unique ((j, x) ∷ c) d (absent, u) v apart = (
    lookup-append j c d
        ∙ ap (λ o. first_of o (lookup j d)) absent
        ∙ apart j x (unfold lookup in rw (beq_refl j) refl),
    append-Unique c d u v (λ k w h. elim (Bool-cases (j == k)) [
      | inl same ↦ apart k x (unfold lookup in rw same refl)
      | inr other ↦ apart k w (unfold lookup in rw other h)
    ]),
  )
