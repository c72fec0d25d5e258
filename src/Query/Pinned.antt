-- ===== src/Query/Pinned.antt =====
-- podcast_agent/db/base.py, `_constrains`: the conditions on a field that an index can answer.
use mathlib.Core.List.{Memᴰ}
use podcast_digest.Common.{
  String, Bool, true, false, if◌then◌else◌, not, some, List, [], ◌∷◌, string_eq, keep_if, all_of,
  All, Bool-cases, Option-cases, lookup, ◌≡◌, ◌↔◌, refl, sym, subst, ◌⊎◌, inl, inr, arith,
}
use podcast_digest.Query.{
  Value, Test, equals, differs, one_of, none_of, exists, regex, below, at_most, above, at_least,
  unsupported, null, boolean, number, text, Condition, plain, tests, Selector, constrains,
  is_indexable, is_presence, usable_tests,
}

-- The operators that an index answers.
pub data Answerable : Test → Type 0 where
  equal_to : (v : Value) → Answerable (equals v)
  among : (vs : List Value) → Answerable (one_of vs)
  less : (v : Value) → Answerable (below v)
  less_or_equal : (v : Value) → Answerable (at_most v)
  more : (v : Value) → Answerable (above v)
  more_or_equal : (v : Value) → Answerable (at_least v)

abbrev pub Presence : Test → Type 0
Presence t = t ≡ exists (boolean true)

-- The field is compared with a value, or by operators that are `$exists: True` or answered by an
-- index, one of these at least.
pub data Pinned (selector : Selector) (field : String) : Type 0 where
  by_value : (v : Value) → lookup field selector ≡ some (plain v) → Pinned selector field
  by_tests :
      (ts : List Test) (t : Test)
      → lookup field selector ≡ some (tests ts)
      → All (λ u. Presence u ⊎ Answerable u) ts
      → Memᴰ t ts
      → Answerable t
      → Pinned selector field

indexable-Answerable : (t : Test) → is_indexable t ≡ true → Answerable t
indexable-Answerable (equals v) h = equal_to v
indexable-Answerable (one_of vs) h = among vs
indexable-Answerable (below v) h = less v
indexable-Answerable (at_most v) h = less_or_equal v
indexable-Answerable (above v) h = more v
indexable-Answerable (at_least v) h = more_or_equal v
indexable-Answerable (differs v) h = absurd cc
indexable-Answerable (none_of vs) h = absurd cc
indexable-Answerable (exists v) h = absurd cc
indexable-Answerable (regex s) h = absurd cc
indexable-Answerable (unsupported s) h = absurd cc

Answerable-indexable : (t : Test) → Answerable t → (is_indexable t ≡ true) × (is_presence t ≡ false)
Answerable-indexable t (equal_to v) = (refl, refl)
Answerable-indexable t (among vs) = (refl, refl)
Answerable-indexable t (less v) = (refl, refl)
Answerable-indexable t (less_or_equal v) = (refl, refl)
Answerable-indexable t (more v) = (refl, refl)
Answerable-indexable t (more_or_equal v) = (refl, refl)

is_presence-Presence : (t : Test) → is_presence t ≡ true → Presence t
is_presence-Presence (exists (boolean true)) h = refl
is_presence-Presence (exists (boolean false)) h = absurd cc
is_presence-Presence (exists null) h = absurd cc
is_presence-Presence (exists (number n)) h = absurd cc
is_presence-Presence (exists (text s)) h = absurd cc
is_presence-Presence (equals v) h = absurd cc
is_presence-Presence (one_of vs) h = absurd cc
is_presence-Presence (below v) h = absurd cc
is_presence-Presence (at_most v) h = absurd cc
is_presence-Presence (above v) h = absurd cc
is_presence-Presence (at_least v) h = absurd cc
is_presence-Presence (differs v) h = absurd cc
is_presence-Presence (none_of vs) h = absurd cc
is_presence-Presence (regex s) h = absurd cc
is_presence-Presence (unsupported s) h = absurd cc

Presence-is_presence : (t : Test) → Presence t → is_presence t ≡ true
Presence-is_presence t h = rw h refl

abbrev left_over : List Test → List Test
left_over ts = keep_if (λ t. not (is_presence t)) ts

abbrev Fine : Test → Type 0
Fine u = Presence u ⊎ Answerable u

and_both : (a b : Bool) → (if a then b else false) ≡ true → (a ≡ true) × (b ≡ true)
and_both a b h = ground arith

all-Fine : (ts : List Test) → all_of is_indexable (left_over ts) ≡ true → All Fine ts
unfolding keep_if all_of
all-Fine [] h = tt
all-Fine (t ∷ ts) h = elim (Bool-cases (is_presence t)) [
  | inl e ↦ (inl (is_presence-Presence t e), all-Fine ts (rw e at h))
  | inr e ↦
      let (first, rest) =
        and_both (is_indexable t) (all_of is_indexable (left_over ts)) (rw e at h) in
      (inr (indexable-Answerable t first), all-Fine ts rest)
]

Fine-all : (ts : List Test) → All Fine ts → all_of is_indexable (left_over ts) ≡ true
unfolding keep_if all_of
Fine-all [] h = refl
Fine-all (t ∷ ts) (inl p, h) = rw (Presence-is_presence t p) (Fine-all ts h)
Fine-all (t ∷ ts) (inr a, h) =
    let (indexable, other) = Answerable-indexable t a in rw other (rw indexable (Fine-all ts h))

kept_one :
    (t : Test) (ts : List Test)
    → Memᴰ t ts
    → Answerable t
    → (u : Test) × (us : List Test) × (left_over ts ≡ u ∷ us)
unfolding keep_if
kept_one t [] m a = elim m [ ]
kept_one t (u ∷ ts) (Memᴰ.head same) a =
    let other : is_presence u ≡ false =
      subst (λ x. is_presence x ≡ false) same (Answerable-indexable t a).1 in
    (u, left_over ts, rw other refl)
kept_one t (u ∷ ts) (Memᴰ.tail m) a = elim (Bool-cases (is_presence u)) [
  | inl e ↦ let (v, vs, q) = kept_one t ts m a in (v, vs, rw e q)
  | inr e ↦ (u, left_over ts, rw e refl)
]

-- What is left over has a first element, and that is one of the operators.
some_left :
    (ts us : List Test) (u : Test)
    → left_over ts ≡ u ∷ us
    → (t : Test) × (Memᴰ t ts) × (is_presence t ≡ false)
unfolding keep_if
some_left [] us u h = absurd (cc h)
some_left (t ∷ ts) us u h = elim (Bool-cases (is_presence t)) [
  | inl e ↦ let (v, m, q) = some_left ts us u (rw e at h) in (v, Memᴰ.tail m, q)
  | inr e ↦ (t, Memᴰ.head refl, e)
]

picked :
    (t : Test) (ts : List Test) → Memᴰ t ts → All Fine ts → is_presence t ≡ false → Answerable t
picked t [] m h e = elim m [ ]
picked t (u ∷ ts) (Memᴰ.head same) (inl p, h) e =
    absurd (cc (e, subst (λ x. is_presence x ≡ true) (sym same) (Presence-is_presence u p)))
picked t (u ∷ ts) (Memᴰ.head same) (inr a, h) e = subst Answerable (sym same) a
picked t (u ∷ ts) (Memᴰ.tail m) (f, h) e = picked t ts m h e

usable_some :
    (ks : List Test)
    → (usable_tests ks).0 ≡ true
    → (all_of is_indexable ks ≡ true) × ((u : Test) × (us : List Test) × (ks ≡ u ∷ us))
usable_some [] h = absurd cc
usable_some (u ∷ us) h = elim (Bool-cases (all_of is_indexable (u ∷ us))) [
  | inl e ↦ (e, (u, us, refl))
  | inr e ↦ absurd (cc (rw e at h))
]

usable_all :
    (ks : List Test) (u : Test) (us : List Test)
    → ks ≡ u ∷ us
    → all_of is_indexable ks ≡ true
    → (usable_tests ks).0 ≡ true
usable_all ks u us e h =
    subst (λ l. (usable_tests l).0 ≡ true) (sym e)
      (rw (subst (λ l. all_of is_indexable l ≡ true) e h) refl)

pub constrains-Pinned :
    (selector : Selector) (field : String)
    → ((constrains selector field).0 ≡ true) ↔ Pinned selector field
unfolding constrains
constrains-Pinned selector field = (
  λ h. elim (Option-cases (lookup field selector)) [
    | inl e ↦ absurd (cc (rw (e, constrains) at h))
    | inr (c, e) ↦ by_condition c e h
  ],
  λ p. elim p [
    | by_value v e ↦ rw (e, constrains) refl
    | by_tests ts t e h m a ↦
        let (u, us, q) = kept_one t ts m a in
        rw (e, constrains) (usable_all (left_over ts) u us q (Fine-all ts h))
  ],
)
  where
    by_condition :
        (c : Condition)
        → lookup field selector ≡ some c
        → (constrains selector field).0 ≡ true
        → Pinned selector field
    by_condition (plain v) e h = by_value v e
    by_condition (tests ts) e h =
        let (all, (u, us, q)) = usable_some (left_over ts) (rw (e, constrains) at h) in
        let fine = all-Fine ts all in
        let (t, m, other) = some_left ts us u q in by_tests ts t e fine m (picked t ts m fine other)
