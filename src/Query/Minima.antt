-- ===== src/Query/Minima.antt =====
-- podcast_agent/db/base.py, Python's `min` over the declared indexes: what it returns is a least element
-- of the list.
use mathlib.Core.List.{Memᴰ}
use podcast_digest.Common.{
  Bool, true, false, none, some, List, [], ◌∷◌, keep_if, any_of, All, All-map, Bool-cases,
  Option-cases, some_inj, ◌≡◌, refl, sym, ap, subst, ◌∙◌, inl, inr,
}
use podcast_digest.Query.{first_min}

module _ {ℓ} {A : Type ℓ} (before : A → A → Bool) (UpTo : A → A → Type 0)
    (reflexive : (x : A) → UpTo x x) (transitive : (x y z : A) → UpTo x y → UpTo y z → UpTo x z)
    (is_before : (x y : A) → before x y ≡ true → UpTo x y)
    (is_not : (x y : A) → before x y ≡ false → UpTo y x) where
  first_min-some : (x : A) (xs : List A) → (m : A) × (first_min before (x ∷ xs) ≡ some m)
  unfolding first_min
  first_min-some x xs = elim (Option-cases (first_min before xs)) [
    | inl e ↦ (x, rw e refl)
    | inr (y, e) ↦ elim (Bool-cases (before y x)) [
      | inl b ↦ (y, rw e (rw b refl))
      | inr b ↦ (x, rw e (rw b refl))
    ]
  ]

  first_min-none : (xs : List A) → first_min before xs ≡ none → xs ≡ []
  first_min-none [] h = refl
  first_min-none (x ∷ xs) h = absurd (cc (h, (first_min-some x xs).1))

  up_to_all : (x y : A) (xs : List A) → UpTo x y → All (UpTo y) xs → All (UpTo x) xs
  up_to_all x y xs first h = All-map (UpTo y) (λ z k. transitive x y z first k) xs h

  -- What `min` returns is in the list, and up to each of its elements.
  pub first_min-Least :
      (xs : List A) (m : A) → first_min before xs ≡ some m → Memᴰ m xs × All (UpTo m) xs
  unfolding first_min
  first_min-Least [] m h = absurd (cc h)
  first_min-Least (x ∷ xs) m h = elim (Option-cases (first_min before xs)) [
    | inl e ↦
        let alone : x ≡ m = some_inj (rw e at h) in
        subst (λ z. Memᴰ z (x ∷ xs) × (UpTo z x × All (UpTo z) xs)) alone
          (
            Memᴰ.head refl,
            (reflexive x, subst (λ l. All (UpTo x) l) (sym (first_min-none xs e)) tt),
          )
    | inr (y, e) ↦
        let (among, least) = first_min-Least xs y e in
        elim (Bool-cases (before y x)) [
          | inl b ↦
              let same : y ≡ m = some_inj (rw b at (rw e at h)) in
              subst (λ z. Memᴰ z (x ∷ xs) × (UpTo z x × All (UpTo z) xs)) same
                (Memᴰ.tail among, (is_before y x b, least))
          | inr b ↦
              let same : x ≡ m = some_inj (rw b at (rw e at h)) in
              subst (λ z. Memᴰ z (x ∷ xs) × (UpTo z x × All (UpTo z) xs)) same
                (Memᴰ.head refl, (reflexive x, up_to_all x y xs (is_not y x b) least))
        ]
  ]

module _ {ℓ} {A : Type ℓ} (p : A → Bool) where
  pub in_keep_if : (x : A) (xs : List A) → Memᴰ x (keep_if p xs) → Memᴰ x xs × (p x ≡ true)
  unfolding keep_if
  in_keep_if x [] h = elim h [ ]
  in_keep_if x (y ∷ ys) h = elim (Bool-cases (p y)) [
    | inl e ↦ head_or_tail (λ k. in_keep_if x ys k) (rw e at h) e
    | inr e ↦ let (among, kept) = in_keep_if x ys (rw e at h) in (Memᴰ.tail among, kept)
  ]
    where
      head_or_tail :
          (Memᴰ x (keep_if p ys) → Memᴰ x ys × (p x ≡ true))
          → Memᴰ x (y ∷ keep_if p ys)
          → p y ≡ true
          → Memᴰ x (y ∷ ys) × (p x ≡ true)
      head_or_tail further (Memᴰ.head same) e =
          (Memᴰ.head same, subst (λ z. p z ≡ true) (sym same) e)
      head_or_tail further (Memᴰ.tail k) e =
          let (among, kept) = further k in (Memᴰ.tail among, kept)

  pub none_kept : (xs : List A) → All (λ x. p x ≡ false) xs → keep_if p xs ≡ []
  unfolding keep_if
  none_kept [] h = refl
  none_kept (x ∷ xs) (e, h) = rw e (none_kept xs h)

pub All-at {ℓ κ} : {A : Type ℓ} (P : A → Type κ) (x : A) (xs : List A) → Memᴰ x xs → All P xs → P x
All-at P x [] a h = elim a [ ]
All-at P x (y ∷ xs) (Memᴰ.head same) (h, k) = subst (λ z. P z) (sym same) h
All-at P x (y ∷ xs) (Memᴰ.tail a) (h, k) = All-at P x xs a k

any_kept {ℓ} :
    {A : Type ℓ} (p : A → Bool) (xs : List A)
    → any_of p xs ≡ true
    → (x : A) × (ys : List A) × (keep_if p xs ≡ x ∷ ys)
unfolding any_of keep_if
any_kept p [] h = absurd (cc h)
any_kept p (x ∷ xs) h = elim (Bool-cases (p x)) [
  | inl e ↦ (x, keep_if p xs, rw e refl)
  | inr e ↦ let (y, ys, k) = any_kept p xs (rw e at h) in (y, ys, rw e k)
]

-- Where a list has elements that pass a test, `min` finds one of them.
pub least_of {ℓ} :
    {A : Type ℓ} (before : A → A → Bool) (p : A → Bool) (xs : List A)
    → any_of p xs ≡ true
    → (m : A) × (first_min before (keep_if p xs) ≡ some m) × (Memᴰ m xs)
least_of before p xs h =
    let (x, ys, kept) = any_kept p xs h in
    let (m, found) =
      first_min-some before (λ a b. Unit) (λ a. tt) (λ a b c d e. tt) (λ a b c. tt) (λ a b c. tt) x
        ys in
    let least : first_min before (keep_if p xs) ≡ some m = ap (first_min before) kept ∙ found in
    let (among, _) =
      first_min-Least before (λ a b. Unit) (λ a. tt) (λ a b c d e. tt) (λ a b c. tt) (λ a b c. tt)
        (keep_if p xs) m least in
    (m, least, (in_keep_if p m xs among).0)
