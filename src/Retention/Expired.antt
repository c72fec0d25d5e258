-- ===== src/Retention/Expired.antt =====
-- podcast_agent/retention.py: what a deletion does to the documents that a test selects.
use podcast_digest.Common.{
  ◌≤◌, ◌<◌, String, Bool, true, false, none, some, [], ◌∷◌, ◌==◌, string_eq, keep_if, length, Dict,
  lookup, remove, All, Bool-cases, some_inj, ◌≡◌, refl, ap, subst, inl, inr, arith,
}

module _ {ℓ} {V : Type ℓ} where
  pub remove-All {κ} :
      (P : String × V → Type κ) (k : String) (d : Dict String V)
      → All P d
      → All (λ e. P e × ((e.0 == k) ≡ false)) (remove k d)
  unfolding remove
  remove-All P k [] h = tt
  remove-All P k ((j, v) ∷ d) (h, t) = elim (Bool-cases (j == k)) [
    | inl e ↦ rw e (remove-All P k d t)
    | inr e ↦ rw e ((h, e), remove-All P k d t)
  ]

  pub remove_absent : (k : String) (d : Dict String V) → lookup k d ≡ none → remove k d ≡ d
  unfolding remove lookup
  remove_absent k [] h = refl
  remove_absent k ((j, v) ∷ d) h = elim (Bool-cases (j == k)) [
    | inl e ↦ absurd (cc (rw e at h))
    | inr e ↦ rw e (ap (λ l. (j, v) ∷ l) (remove_absent k d (rw e at h)))
  ]

  -- A removal does not touch what a test selects, if the test selects nothing under the key.
  pub keep_if-remove :
      (q : String × V → Bool) (k : String) (d : Dict String V)
      → All (λ e. (e.0 == k) ≡ true → q e ≡ false) d
      → keep_if q (remove k d) ≡ keep_if q d
  unfolding remove keep_if
  keep_if-remove q k [] h = refl
  keep_if-remove q k ((j, v) ∷ d) (h, t) = elim (Bool-cases (j == k)) [
    | inl e ↦ rw (e, h e) (keep_if-remove q k d t)
    | inr e ↦ rw e (elim (Bool-cases (q (j, v))) [
      | inl y ↦ rw y (ap (λ l. (j, v) ∷ l) (keep_if-remove q k d t))
      | inr n ↦ rw n (keep_if-remove q k d t)
    ])
  ]

  pub length-keep_if-remove :
      (q : String × V → Bool) (k : String) (d : Dict String V)
      → length (keep_if q (remove k d)) ≤ length (keep_if q d)
  unfolding remove keep_if
  length-keep_if-remove q k [] = omega arith
  length-keep_if-remove q k ((j, v) ∷ d) = ground (arith, length-keep_if-remove q k d)

  pub removal_counts :
      (q : String × V → Bool) (k : String) (v : V) (d : Dict String V)
      → lookup k d ≡ some v
      → q (k, v) ≡ true
      → length (keep_if q (remove k d)) < length (keep_if q d)
  unfolding remove keep_if lookup
  removal_counts q k v [] h y = absurd cc
  removal_counts q k v ((j, w) ∷ d) h y = elim (Bool-cases (j == k)) [
    | inl e ↦
        let here : q (j, w) ≡ true =
          subst (λ p. q p ≡ true) (same_entry ((string_eq.same_iff j k).0 e) (some_inj (rw e at h)))
            y in
        rw (e, here) (omega (arith, length-keep_if-remove q k d))
    | inr e ↦ elim (Bool-cases (q (j, w))) [
      | inl z ↦ rw (e, z) (omega (arith, removal_counts q k v d (rw e at h) y))
      | inr z ↦ rw (e, z) (removal_counts q k v d (rw e at h) y)
    ]
  ]
    where
      same_entry : {j : String} {w : V} → j ≡ k → w ≡ v → ◌≡◌ {A = String × V} (k, v) (j, w)
      same_entry p r = cc
