-- ===== src/Query/Indexes.antt =====
-- podcast_agent/db/base.py, `resolve_index` and `check_indexable`: which index a query gets.
use mathlib.Core.List.{Memᴰ}
use podcast_digest.Common.{
  ℕ, ◌≤◌, ◌<◌, String, Bool, true, false, ◌&&◌, ◌||◌, Option, none, some, List, [], ◌∷◌, ◌==◌,
  string_eq, nat_eq, ltb, keep_if, any_of, length, All, All-map, All-or, Bool-cases, some_inj, ◌≡◌,
  ◌↔◌, refl, ap, ◌∙◌, ◌⊎◌, inl, inr, arith,
}
use podcast_digest.Errors.{ok}
use podcast_digest.Query.{
  Selector, Index, indexes, constrains, prefix_score, first_min, ranked_before, best_index,
  resolve_index, check_indexable, text_before, name_of, names_index, passed,
}
use podcast_digest.Query.Pinned.{Pinned, constrains-Pinned}
use podcast_digest.Query.Minima.{first_min-Least, in_keep_if, none_kept, All-at, least_of}

-- An index is as good as another: it narrows more fields, or as many and is not wider.
pub data AsGood (selector : Selector) (i j : Index) : Type 0 where
  narrower : prefix_score selector j.fields < prefix_score selector i.fields → AsGood selector i j
  not_wider :
      prefix_score selector i.fields ≡ prefix_score selector j.fields
      → length i.fields ≤ length j.fields
      → AsGood selector i j

module _ (selector : Selector) where
  AsGood-trans : (i j k : Index) → AsGood selector i j → AsGood selector j k → AsGood selector i k
  AsGood-trans i j k (narrower a) (narrower b) = narrower (omega (arith, a, b))
  AsGood-trans i j k (narrower a) (not_wider b c) = narrower (omega (arith, a, b))
  AsGood-trans i j k (not_wider a c) (narrower b) = narrower (omega (arith, a, b))
  AsGood-trans i j k (not_wider a c) (not_wider b d) = not_wider (a ∙ b) (omega (arith, c, d))

  abbrev score : Index → ℕ
  score i = prefix_score selector i.fields

  numbers_before :
      (a b m n : ℕ) (t : Bool)
      → (ltb b a || (a == b && (ltb m n || (m == n && t)))) ≡ true
      → (b < a) ⊎ ((a ≡ b) × (m ≤ n))
  numbers_before a b m n t h = ground arith

  numbers_not :
      (a b m n : ℕ) (t : Bool)
      → (ltb b a || (a == b && (ltb m n || (m == n && t)))) ≡ false
      → (a < b) ⊎ ((b ≡ a) × (n ≤ m))
  numbers_not a b m n t h = ground arith

  either :
      (i j : Index)
      → (score j < score i) ⊎ ((score i ≡ score j) × (length i.fields ≤ length j.fields))
      → AsGood selector i j
  either i j (inl h) = narrower h
  either i j (inr (e, h)) = not_wider e h

  ranked : (i j : Index) → ranked_before selector i j ≡ true → AsGood selector i j
  ranked i j h = either i j (
      numbers_before (score i) (score j) (length i.fields) (length j.fields)
        (text_before i.name j.name) h)

  not_ranked : (i j : Index) → ranked_before selector i j ≡ false → AsGood selector j i
  not_ranked i j h = either j i (
      numbers_not (score i) (score j) (length i.fields) (length j.fields)
        (text_before i.name j.name) h)

all_named : All (λ i. (i.name == "") ≡ false) indexes
unfolding indexes
all_named = (
  refl,
  (
    refl,
    (refl, (refl, (refl, (refl, (refl, (refl, (refl, (refl, (refl, (refl, (refl, tt))))))))))),
  ),
)

name_of-some :
    (o : Option Index) (name : String)
    → name_of o ≡ some name
    → (i : Index) × (o ≡ some i) × (i.name ≡ name)
name_of-some none name h = absurd (cc h)
name_of-some (some i) name h = (i, refl, some_inj h)

is_named : (i : Index) → Memᴰ i indexes → names_index (some i.name) ≡ true
is_named i declared = rw (All-at (λ j. (j.name == "") ≡ false) i indexes declared all_named) refl

module _ (selector : Selector) where
  -- The index that an unsorted query gets: it is declared, the selector narrows at least one of its
  -- leading fields, and no declared index is better: none is narrowed on more of its leading fields, and
  -- none that is narrowed on as many has fewer fields.
  pub resolve_index-best :
      (name : String)
      → resolve_index selector [] ≡ some name
      → (i : Index) × (i.name ≡ name)
        × (Memᴰ i indexes)
        × (0 < prefix_score selector i.fields)
        × (All (AsGood selector i) indexes)
  unfolding resolve_index best_index
  resolve_index-best name h =
      let (i, found, named) = name_of-some (best_index selector []) name h in
      let (among, least) =
        first_min-Least (ranked_before selector) (AsGood selector)
          (λ j. not_wider refl (omega arith)) (AsGood-trans selector) (ranked selector)
          (not_ranked selector) (keep_if (λ j. ltb 0 (prefix_score selector j.fields)) indexes) i
          found in
      let (declared, positive) =
        in_keep_if (λ j. ltb 0 (prefix_score selector j.fields)) i indexes among in
      let some_field : 0 < prefix_score selector i.fields = ground (arith, positive) in
      (
        i,
        named,
        declared,
        some_field,
        All-map (λ j. AsGood selector i j ⊎ (ltb 0 (prefix_score selector j.fields) ≡ false))
            (λ j k. elim k [
              | inl good ↦ good
              | inr nothing ↦ narrower (ground (arith, nothing, some_field))
            ])
            indexes
            (All-or (AsGood selector i) (λ j. ltb 0 (prefix_score selector j.fields)) indexes
              least),
      )

  untyped :
      (constrains selector "type").0 ≡ false
      → (fields : List String) → ltb 0 (prefix_score selector ("type" ∷ fields)) ≡ false
  unfolding prefix_score
  untyped h fields = rw h refl

  nothing_scored :
      (constrains selector "type").0 ≡ false
      → keep_if (λ i. ltb 0 (prefix_score selector i.fields)) indexes ≡ []
  unfolding indexes
  nothing_scored h =
      let z = untyped h in
      none_kept (λ i. ltb 0 (prefix_score selector i.fields)) indexes
        (
          z _,
          (z _, (z _, (z _, (z _, (z _, (z _, (z _, (z _, (z _, (z _, (z _, (z _, tt)))))))))))),
        )

  typed_score :
      (constrains selector "type").0 ≡ true → ltb 0 (prefix_score selector ("type" ∷ [])) ≡ true
  unfolding prefix_score
  typed_score e = elim (Bool-cases (constrains selector "type").1) [
    | inl f ↦ rw (e, f) refl
    | inr f ↦ rw (e, f) refl
  ]

  some_scored :
      (constrains selector "type").0 ≡ true
      → any_of (λ i. ltb 0 (prefix_score selector i.fields)) indexes ≡ true
  unfolding any_of indexes
  some_scored e = rw (typed_score e) refl

  check_indexable-constrains :
      (check_indexable selector [] none ≡ ok passed) ↔ ((constrains selector "type").0 ≡ true)
  unfolding check_indexable resolve_index best_index
  check_indexable-constrains = (
    λ h. elim (Bool-cases (constrains selector "type").0) [
      | inl e ↦ e
      | inr e ↦ absurd (cc (rw (nothing_scored e, first_min) at h))
    ],
    λ e.
        let (m, least, declared) =
          least_of (ranked_before selector) (λ i. ltb 0 (prefix_score selector i.fields)) indexes
            (some_scored e) in
        rw (ap (λ o. names_index (name_of o)) least ∙ is_named m declared) refl,
  )

  -- An unsorted query passes the check exactly if it compares `type` with a value, or tests it by
  -- operators each of which is `$exists: True` or one of `$eq`, `$in`, `$lt`, `$lte`, `$gt` and `$gte`,
  -- at least one of the latter.
  pub check_indexable_iff : (check_indexable selector [] none ≡ ok passed) ↔ Pinned selector "type"
  check_indexable_iff =
      let (a, b) = check_indexable-constrains in
      let (c, d) = constrains-Pinned selector "type" in (λ h. c (a h), λ p. b (d p))
