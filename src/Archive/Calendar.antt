-- ===== src/Archive/Calendar.antt =====
-- Months into the past: their order, and the lists of consecutive ones.
use podcast_digest.Common.{
  ℕ, zero, suc, ◌+◌, ◌*◌, ◌≤◌, List, [], ◌∷◌, ◌++◌, ◌==◌, nat_eq, ltb, Bool-cases, ◌≡◌, refl, ap,
  inl, inr, arith,
}
use podcast_digest.Archive.{Month, previous_month, earlier, floor_from_anchor}

abbrev pub IsMonth : Month → Type 0
IsMonth m = (1 ≤ m.month) × (m.month ≤ 12)

-- Months since the year 0.
abbrev pub index : Month → ℕ
index m = 12 * m.year + m.month

pub previous_month-index :
    (m : Month)
    → IsMonth m
    → 13 ≤ index m
    → IsMonth (previous_month m) × (index (previous_month m) + 1 ≡ index m)
unfolding previous_month
previous_month-index m h k = elim (Bool-cases (m.month == 1)) [
  | inl e ↦ rw e ((omega arith, omega arith), grind (arith, e))
  | inr e ↦ rw e ((grind (arith, e), omega arith), grind (arith, e))
]

pub back-index :
    (n : ℕ) (m : Month)
    → IsMonth m
    → n + 12 ≤ index m
    → IsMonth (floor_from_anchor m n) × (index (floor_from_anchor m n) + n ≡ index m)
unfolding floor_from_anchor
back-index zero m h k = (h, omega arith)
back-index (suc n) m h k =
    let (v, e) = previous_month-index m h (omega arith) in
    let (w, f) = back-index n (previous_month m) v (omega arith) in (w, omega arith)

pub earlier-index : (a b : Month) → IsMonth a → IsMonth b → earlier a b ≡ ltb (index a) (index b)
unfolding earlier
earlier-index a b h k = grind arith

-- The months from `m` on into the past.
unfoldable pub descend : ℕ → Month → List Month
descend zero m = []
descend (suc n) m = m ∷ descend n (previous_month m)

pub previous_month-floor :
    (n : ℕ) (m : Month) → previous_month (floor_from_anchor m n) ≡ floor_from_anchor m (suc n)
unfolding floor_from_anchor
previous_month-floor zero m = refl
previous_month-floor (suc n) m = previous_month-floor n (previous_month m)

pub descend-append :
    (j i k : ℕ) (m : Month)
    → descend j (floor_from_anchor m k) ++ descend i (floor_from_anchor m (k + j))
      ≡ descend (j + i) (floor_from_anchor m k)
unfolding descend
descend-append zero i k m =
    let e : k + 0 ≡ k = omega arith in let f : 0 + i ≡ i = omega arith in rw (e, f) refl
descend-append (suc j) i k m =
    let e : k + suc j ≡ suc k + j = omega arith in
    let f : suc j + i ≡ suc (j + i) = omega arith in
    rw (e, f)
      (rw (previous_month-floor k m)
        (ap (λ l. floor_from_anchor m k ∷ l) (descend-append j i (suc k) m)))
