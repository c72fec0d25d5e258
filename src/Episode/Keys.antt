-- ===== src/Episode/Keys.antt =====
-- `filter_interest_keys` of podcast_agent/episodes.py. `normalize` is `str(key).strip().lower()`.
use podcast_digest.Common.{
  String, Bool, true, false, ◌&&◌, not, List, [], ◌∷◌, ◌==◌, string_eq, if◌then◌else◌, ◌≡◌, refl,
  arith, eq_iff, inl, inr, Bool-cases, map,
}

-- `key in keys`
unfoldable pub contains : String → List String → Bool
contains k [] = false
contains k (x ∷ xs) = let rest = contains k xs in if x == k then true else rest

-- The keys of an interest profile, and the text operation behind the comparison with them.
pub record InterestKeys : Type 0 where
  pub normalize : String → String
  pub keys : List String

module _ (normalize : String → String) where
  unfoldable pub keep_keys : List String → List String → List String → List String
  unfolding contains
  keep_keys valid seen [] = []
  keep_keys valid seen (key ∷ rest) =
      let n = normalize key in
      let fits = contains n valid && not (contains n seen) in
      let kept = keep_keys valid (if fits then n ∷ seen else seen) rest in
      if fits then n ∷ kept else kept

  unfoldable pub filter_interest_keys : List String → List String → List String
  unfolding keep_keys
  filter_interest_keys claimed valid = keep_keys valid [] claimed

-- No key occurs twice.
abbrev pub Distinct : List String → Type 0
Distinct [] = Unit
Distinct (x ∷ xs) = (contains x xs ≡ false) × Distinct xs

both :
    (a b c : Bool)
    → (a ≡ true → (b ≡ true) × (c ≡ true))
    → (b ≡ true → c ≡ true → a ≡ true)
    → a ≡ (b && c)
both true b c f g = let (p, q) = f refl in rw (p, q)
both false true true f g = g refl refl
both false true false f g = refl
both false false c f g = refl

module _ (normalize : String → String) (valid : List String) where
  -- What is kept is valid, was claimed, and was not seen before.
  keep_keys_sound :
      (seen claimed : List String) (k : String)
      → contains k (keep_keys normalize valid seen claimed) ≡ true
      → (contains k valid ≡ true)
        × (contains k seen ≡ false)
        × (contains k (map normalize claimed) ≡ true)
  unfolding keep_keys
  keep_keys_sound seen [] k h = absurd (ground arith)
  keep_keys_sound seen (key ∷ rest) k h =
      let n = normalize key in
      ground (arith, keep_keys_sound (n ∷ seen) rest k, keep_keys_sound seen rest k, eq_iff n k)

  fresh-kept :
      (seen claimed : List String) (n : String)
      → contains n seen ≡ true
      → contains n (keep_keys normalize valid seen claimed) ≡ false
  fresh-kept seen claimed n h =
      elim (Bool-cases (contains n (keep_keys normalize valid seen claimed))) [
        | inl e ↦ cc ((keep_keys_sound seen claimed n e).1)
        | inr e ↦ e
      ]

  keep_keys-Distinct :
      (seen claimed : List String) → Distinct (keep_keys normalize valid seen claimed)
  unfolding keep_keys
  keep_keys-Distinct seen [] = tt
  keep_keys-Distinct seen (key ∷ rest) =
      let n = normalize key in
      elim (Bool-cases (contains n valid && not (contains n seen))) [
        | inl e ↦ rw e (
          fresh-kept (n ∷ seen) rest n (rw ((eq_iff n n).1 refl)),
          keep_keys-Distinct (n ∷ seen) rest,
        )
        | inr e ↦ rw e (keep_keys-Distinct seen rest)
      ]

  keep_keys_complete :
      (seen claimed : List String) (k : String)
      → contains k valid ≡ true
      → contains k seen ≡ false
      → contains k (map normalize claimed) ≡ true
      → contains k (keep_keys normalize valid seen claimed) ≡ true
  unfolding keep_keys
  keep_keys_complete seen [] k v s h = absurd (ground arith)
  keep_keys_complete seen (key ∷ rest) k v s h =
      let n = normalize key in
      ground
        (arith, keep_keys_complete (n ∷ seen) rest k, keep_keys_complete seen rest k, eq_iff n k)

  -- The kept keys are distinct, and they are exactly the claimed keys, normalized, that the profile has.
  pub filter_interest_keys-exact :
      (claimed : List String)
      → Distinct (filter_interest_keys normalize claimed valid)
        × ((k : String)
            → contains k (filter_interest_keys normalize claimed valid)
              ≡ (contains k valid && contains k (map normalize claimed)))
  unfolding filter_interest_keys
  filter_interest_keys-exact claimed = (keep_keys-Distinct [] claimed, λ k. same k)
    where
      same :
          (k : String)
          → contains k (keep_keys normalize valid [] claimed)
            ≡ (contains k valid && contains k (map normalize claimed))
      same k =
          both _ _ _ (λ h. let (v, _, c) = keep_keys_sound [] claimed k h in (v, c))
            (λ v c. keep_keys_complete [] claimed k v refl c)
