-- ===== src/Common/Lists.antt =====
-- Lists measured by native numbers, and the list functions of Python that the program uses.
use Prim.Native.Nat.{ℕ, zero, suc, ◌+◌, ◌-◌, min, ◌≤◌, ◌<◌}
use mathlib.Core.Path.{◌≡◌, refl, ap}
use mathlib.Core.Logic.{◌⊎◌, inl, inr}
use mathlib.Core.Bool.{Bool, true, false, ◌&&◌}
use mathlib.Core.List.{List, [], ◌∷◌, ◌++◌}
use native.Mathlib.Omega.{arith}
use podcast_digest.Common.Tests.{if◌then◌else◌, Bool-cases}

module _ {ℓ} {A : Type ℓ} where
  abbrev pub length : List A → ℕ
  length [] = 0
  length (x ∷ xs) = suc (length xs)

  abbrev pub take : ℕ → List A → List A
  take zero xs = []
  take (suc n) [] = []
  take (suc n) (x ∷ xs) = x ∷ take n xs

  abbrev pub drop : ℕ → List A → List A
  drop zero xs = xs
  drop (suc n) [] = []
  drop (suc n) (x ∷ xs) = drop n xs

  -- `[x for x in xs if p(x)]`
  unfoldable pub keep_if : (A → Bool) → List A → List A
  keep_if p [] = []
  keep_if p (x ∷ xs) = let rest = keep_if p xs in if p x then x ∷ rest else rest

  unfoldable pub any_of : (A → Bool) → List A → Bool
  any_of p [] = false
  any_of p (x ∷ xs) = let rest = any_of p xs in if p x then true else rest

  unfoldable pub all_of : (A → Bool) → List A → Bool
  all_of p [] = true
  all_of p (x ∷ xs) = let rest = all_of p xs in if p x then rest else false

  pub length-append : (xs ys : List A) → length (xs ++ ys) ≡ length xs + length ys
  length-append [] ys = omega arith
  length-append (x ∷ xs) ys = omega (arith, length-append xs ys)

  pub length-take : (n : ℕ) (xs : List A) → length (take n xs) ≡ min n (length xs)
  length-take zero xs = omega arith
  length-take (suc n) [] = omega arith
  length-take (suc n) (x ∷ xs) = omega (arith, length-take n xs)

  pub length-drop : (n : ℕ) (xs : List A) → length (drop n xs) ≡ length xs - n
  length-drop zero xs = omega arith
  length-drop (suc n) [] = omega arith
  length-drop (suc n) (x ∷ xs) = omega (arith, length-drop n xs)

  pub take-append-drop : (n : ℕ) (xs : List A) → take n xs ++ drop n xs ≡ xs
  take-append-drop zero xs = refl
  take-append-drop (suc n) [] = refl
  take-append-drop (suc n) (x ∷ xs) = rw (take-append-drop n xs)

-- A predicate that holds at each element.
abbrev pub All {ℓ κ} : {A : Type ℓ} → (A → Type κ) → List A → Type κ
All holds (first ∷ others) = holds first × All holds others
All holds [] = Unit

pub List-cases {ℓ} :
    {A : Type ℓ} (xs : List A) → (xs ≡ []) ⊎ ((y : A) × (ys : List A) × (xs ≡ y ∷ ys))
List-cases [] = inl refl
List-cases (x ∷ xs) = inr (x, xs, refl)

pub length-keep_if {ℓ} :
    {A : Type ℓ} (p : A → Bool) (xs : List A) → length (keep_if p xs) ≤ length xs
unfolding keep_if
length-keep_if p [] = omega arith
length-keep_if p (x ∷ xs) = ground (arith, length-keep_if p xs)

pub keep_if-All {ℓ} :
    {A : Type ℓ} (p : A → Bool) (xs : List A) → All (λ x. p x ≡ true) (keep_if p xs)
unfolding keep_if
keep_if-All p [] = tt
keep_if-All p (x ∷ xs) = elim (Bool-cases (p x)) [
  | inl e ↦ rw e (e, keep_if-All p xs)
  | inr e ↦ rw e (keep_if-All p xs)
]

module _ {ℓ κ} {A : Type ℓ} (P : A → Type κ) where
  pub All-keep_if : (p : A → Bool) (xs : List A) → All P xs → All P (keep_if p xs)
  unfolding keep_if
  All-keep_if p [] h = tt
  All-keep_if p (x ∷ xs) (h, t) = elim (Bool-cases (p x)) [
    | inl e ↦ rw e (h, All-keep_if p xs t)
    | inr e ↦ rw e (All-keep_if p xs t)
  ]

  -- What holds of those that are kept, holds of each that passes the test.
  pub All-or :
      (p : A → Bool) (xs : List A) → All P (keep_if p xs) → All (λ x. P x ⊎ (p x ≡ false)) xs
  unfolding keep_if
  All-or p [] h = tt
  All-or p (x ∷ xs) h = elim (Bool-cases (p x)) [
    | inl e ↦ let k : P x × All P (keep_if p xs) = rw e at h in (inl k.0, All-or p xs k.1)
    | inr e ↦ let k : All P (keep_if p xs) = rw e at h in (inr e, All-or p xs k)
  ]

  pub All-append : (xs ys : List A) → All P (xs ++ ys) → All P xs × All P ys
  All-append [] ys h = (tt, h)
  All-append (x ∷ xs) ys (h, t) = let k = All-append xs ys t in ((h, k.0), k.1)

  pub append-All : (xs ys : List A) → All P xs → All P ys → All P (xs ++ ys)
  append-All [] ys h k = k
  append-All (x ∷ xs) ys (h, t) k = (h, append-All xs ys t k)

  pub All-map {ι} : {Q : A → Type ι} (f : (x : A) → P x → Q x) (xs : List A) → All P xs → All Q xs
  All-map f [] h = tt
  All-map f (x ∷ xs) (h, t) = (f x h, All-map f xs t)

  pub All-take : (n : ℕ) (xs : List A) → All P xs → All P (take n xs)
  All-take zero xs h = tt
  All-take (suc n) [] h = tt
  All-take (suc n) (x ∷ xs) (h, t) = (h, All-take n xs t)

pub take_whole {ℓ} : {A : Type ℓ} (n : ℕ) (xs : List A) → length (take n xs) < n → take n xs ≡ xs
take_whole zero xs h = absurd (omega (arith, h))
take_whole (suc n) [] h = refl
take_whole (suc n) (x ∷ xs) h = ap (λ l. x ∷ l) (take_whole n xs (omega (arith, h)))

-- Of the elements that pass one test, a prefix that passes another one as well.
pub length-take-keep_if {ℓ} :
    {A : Type ℓ} (p q : A → Bool) (n : ℕ) (xs : List A)
    → All (λ x. q x ≡ true) (take n (keep_if p xs))
    → length (take n (keep_if p xs)) ≤ length (keep_if (λ x. p x && q x) xs)
unfolding keep_if
length-take-keep_if p q zero xs h = omega arith
length-take-keep_if p q (suc n) [] h = omega arith
length-take-keep_if p q (suc n) (x ∷ xs) h = elim (Bool-cases (p x)) [
  | inr e ↦ rw e (length-take-keep_if p q (suc n) xs (rw e at h))
  | inl e ↦
      let k : (q x ≡ true) × All (λ x. q x ≡ true) (take n (keep_if p xs)) = rw e at h in
      rw (e, k.0) (omega (arith, length-take-keep_if p q n xs k.1))
]

pub length-keep_if-both {ℓ} :
    {A : Type ℓ} (p q : A → Bool) (xs : List A)
    → length (keep_if (λ x. p x && q x) xs) ≤ length (keep_if p xs)
unfolding keep_if
length-keep_if-both p q [] = omega arith
length-keep_if-both p q (x ∷ xs) = ground (arith, length-keep_if-both p q xs)

pub take_all {ℓ} : {A : Type ℓ} (n : ℕ) (xs : List A) → length xs ≤ n → take n xs ≡ xs
take_all zero [] h = refl
take_all zero (x ∷ xs) h = absurd (omega (arith, h))
take_all (suc n) [] h = refl
take_all (suc n) (x ∷ xs) h = ap (λ l. x ∷ l) (take_all n xs (omega (arith, h)))
