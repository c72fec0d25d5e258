-- ===== src/Common/Sorting.antt =====
-- Python's stable `list.sort`, for a test that says when one element stands strictly before another.
use Prim.Native.Nat.{suc}
use native.Mathlib.Omega.{arith}
use mathlib.Core.Bool.{Bool}
use mathlib.Core.List.{List, [], ◌∷◌, Perm}
use mathlib.Core.List.Perm
use mathlib.Core.Path.{◌≡◌, refl}
use mathlib.Core.Logic.{inl, inr}
use podcast_digest.Common.Tests.{if◌then◌else◌, Bool-cases}
use podcast_digest.Common.Lists.{All, length}

module _ {ℓ} {A : Type ℓ} (earlier : A → A → Bool) where
  -- An element goes behind those that stand strictly before it.
  unfoldable pub insert_in_order : A → List A → List A
  insert_in_order x [] = x ∷ []
  insert_in_order x (y ∷ ys) =
      let rest = insert_in_order x ys in if earlier y x then y ∷ rest else x ∷ y ∷ ys

  unfoldable pub sort_by : List A → List A
  sort_by [] = []
  sort_by (x ∷ xs) = insert_in_order x (sort_by xs)

  insert_in_order-perm : (x : A) (ys : List A) → Perm (insert_in_order x ys) (x ∷ ys)
  unfolding insert_in_order
  insert_in_order-perm x [] = Perm.refl (x ∷ [])
  insert_in_order-perm x (y ∷ ys) = elim (Bool-cases (earlier y x)) [
    | inl e ↦ rw e (Perm.trans (Perm.cons y (insert_in_order-perm x ys)) (Perm.swap x y ys))
    | inr e ↦ rw e (Perm.refl (x ∷ y ∷ ys))
  ]

  -- Sorting loses nothing and repeats nothing.
  pub sort_by-perm : (xs : List A) → Perm (sort_by xs) xs
  unfolding sort_by
  sort_by-perm [] = Perm.nil
  sort_by-perm (x ∷ xs) =
      Perm.trans (insert_in_order-perm x (sort_by xs)) (Perm.cons x (sort_by-perm xs))

  length-insert_in_order : (x : A) (ys : List A) → length (insert_in_order x ys) ≡ suc (length ys)
  unfolding insert_in_order
  length-insert_in_order x [] = refl
  length-insert_in_order x (y ∷ ys) = elim (Bool-cases (earlier y x)) [
    | inl e ↦ rw e (omega (arith, length-insert_in_order x ys))
    | inr e ↦ rw e refl
  ]

  pub length-sort_by : (xs : List A) → length (sort_by xs) ≡ length xs
  unfolding sort_by
  length-sort_by [] = refl
  length-sort_by (x ∷ xs) = omega (arith, length-insert_in_order x (sort_by xs), length-sort_by xs)

module _ {ℓ κ} {A : Type ℓ} (P : A → Type κ) (earlier : A → A → Bool) where
  All-insert_in_order :
      (x : A) (ys : List A) → P x → All P ys → All P (insert_in_order earlier x ys)
  unfolding insert_in_order
  All-insert_in_order x [] p h = (p, tt)
  All-insert_in_order x (y ∷ ys) p (q, h) = elim (Bool-cases (earlier y x)) [
    | inl e ↦ rw e (q, All-insert_in_order x ys p h)
    | inr e ↦ rw e (p, (q, h))
  ]

  pub All-sort_by : (xs : List A) → All P xs → All P (sort_by earlier xs)
  unfolding sort_by
  All-sort_by [] h = tt
  All-sort_by (x ∷ xs) (p, h) = All-insert_in_order x (sort_by earlier xs) p (All-sort_by xs h)
