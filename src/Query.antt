-- ===== src/Query.antt =====
-- podcast_agent/db/base.py and podcast_agent/db/memory.py: Mango queries. A document is given by what
-- `_dig` finds under each path, and its values are scalars; a number is a natural one. Selectors are
-- conditions on fields: the program's queries have no `$and`, `$or` or `$nor`. `search` is `re.search`.
pub mod Minima
pub mod Pinned
pub mod Indexes
pub mod Answer
pub mod Selectors
use Prim.Native.String.{compare}
use Prim.Native.Nat.{Ordering}
use podcast_digest.Common.{
  ℕ, zero, suc, String, Bool, true, false, ◌&&◌, ◌||◌, not, Option, none, some, List, [], ◌∷◌, map,
  ◌==◌, string_eq, nat_eq, ltb, leb, if◌then◌else◌, keep_if, any_of, all_of, take, drop, length,
  sort_by, Dict, lookup,
}
use podcast_digest.Errors.{Result, ok, err, store_error, ◌>>=◌}

pub data Value : Type 0 where
  null : Value
  boolean : Bool → Value
  number : ℕ → Value
  text : String → Value

-- One operator of a condition with its operand, in the order of `_match_field`.
pub data Test : Type 0 where
  equals differs : Value → Test
  one_of none_of : List Value → Test
  exists : Value → Test
  regex : String → Test
  below at_most above at_least : Value → Test
  unsupported : String → Test

pub data Condition : Type 0 where
  plain : Value → Condition
  tests : List Test → Condition

abbrev pub Selector : Type 0
Selector = Dict String Condition

abbrev pub Fields : Type 0
Fields = Dict String Value

-- `True` and `False` are numbers to Python.
abbrev as_number : Value → Option ℕ
as_number (boolean true) = some 1
as_number (boolean false) = some 0
as_number (number n) = some n
as_number _ = none

abbrev numbers : (ℕ → ℕ → Bool) → Option ℕ → Option ℕ → Bool
numbers f (some a) (some b) = f a b
numbers f _ _ = false

abbrev value_eq : Value → Value → Bool
value_eq null null = true
value_eq (text a) (text b) = a == b
value_eq a b = numbers (λ m n. m == n) (as_number a) (as_number b)

abbrev truthy : Value → Bool
truthy null = false
truthy (boolean b) = b
truthy (number n) = not (n == 0)
truthy (text s) = not (s == "")

abbrev pub text_before : String → String → Bool
text_before a b = elim (compare a b) [ Ordering.lt ↦ true | _ ↦ false ]

abbrev text_up_to : String → String → Bool
text_up_to a b = elim (compare a b) [ Ordering.gt ↦ false | _ ↦ true ]

-- `_compare` on a value that is not null; other types raise `TypeError`, which is caught.
abbrev ordered : (ℕ → ℕ → Bool) → (String → String → Bool) → Value → Value → Bool
ordered f g (text a) (text b) = g a b
ordered f g a b = numbers f (as_number a) (as_number b)

abbrev member : Value → List Value → Bool
member v vs = any_of (λ w. value_eq v w) vs

abbrev is_unsupported : Test → Bool
is_unsupported (unsupported name) = true
is_unsupported t = false

module _ (search : String → String → Bool) where
  abbrev matches_text : String → Value → Bool
  matches_text pattern (text s) = search pattern s
  matches_text pattern _ = false

  -- One round of the loop of `_match_field`, for a field that is there.
  unfoldable pub holds : Value → Test → Bool
  holds v (equals w) = value_eq v w
  holds v (differs w) = not (value_eq v w)
  holds v (one_of ws) = member v ws
  holds v (none_of ws) = not (member v ws)
  holds v (exists w) = truthy w
  holds v (regex pattern) = matches_text pattern v
  holds null (below w) = true
  holds null (at_most w) = true
  holds null (above w) = false
  holds null (at_least w) = false
  holds v (below w) = ordered ltb text_before v w
  holds v (at_most w) = ordered leb text_up_to v w
  holds v (above w) = ordered (λ a b. ltb b a) (λ a b. text_before b a) v w
  holds v (at_least w) = ordered (λ a b. leb b a) (λ a b. text_up_to b a) v w
  holds v (unsupported name) = false

  -- Only `$exists` can see a missing field.
  unfoldable pub holds_missing : Test → Bool
  holds_missing (exists w) = not (truthy w)
  holds_missing t = false

  unfoldable pub match_field : Option Value → Condition → Result Bool
  unfolding holds holds_missing
  match_field none (plain w) = ok false
  match_field (some v) (plain w) = ok (value_eq v w)
  match_field none (tests ts) =
      if any_of is_unsupported ts then err store_error else ok (all_of holds_missing ts)
  match_field (some v) (tests ts) =
      if any_of is_unsupported ts then err store_error else ok (all_of (holds v) ts)

  unfoldable pub matches : Fields → Selector → Result Bool
  unfolding match_field
  matches doc [] = ok true
  matches doc ((key, condition) ∷ selector) =
      let rest = matches doc selector in
      elim (match_field (lookup key doc) condition) [
        | err e ↦ err e
        | ok b ↦ if b then rest else ok false
      ]

-- What a check returns that does not raise.
pub data Passed : Type 0 where
  passed : Passed

-- INDEXES
pub record Index : Type 0 where
  pub name : String
  pub fields : List String

abbrev index : String → List String → Index
index name fields = record { name = name; fields = fields }

unfoldable pub indexes : List Index
indexes =
    index "idx-type" ("type" ∷ [])
    ∷ index "idx-type-origin" ("type" ∷ "origin" ∷ [])
    ∷ index "idx-type-origin-status" ("type" ∷ "origin" ∷ "status" ∷ [])
    ∷ index "idx-type-status" ("type" ∷ "status" ∷ [])
    ∷ index "idx-type-published" ("type" ∷ "published_at" ∷ [])
    ∷ index "idx-type-generated" ("type" ∷ "generated_at" ∷ [])
    ∷ index "idx-type-status-published" ("type" ∷ "status" ∷ "published_at" ∷ [])
    ∷ index "idx-type-slug-published" ("type" ∷ "podcast_slug" ∷ "published_at" ∷ [])
    ∷ index "idx-type-digest-published" ("type" ∷ "digest_id" ∷ "published_at" ∷ [])
    ∷ index "idx-type-ts" ("type" ∷ "ts" ∷ [])
    ∷ index "idx-type-at" ("type" ∷ "at" ∷ [])
    ∷ index "idx-type-job-at" ("type" ∷ "job" ∷ "at" ∷ [])
    ∷ index "idx-type-transcript-at" ("type" ∷ "transcript_at" ∷ [])
    ∷ []

-- A sort: its fields, each with its direction.
abbrev pub Sort : Type 0
Sort = List (String × String)

abbrev pub typed_sort : String → String → Sort
typed_sort field direction = ("type", direction) ∷ (field, direction) ∷ []

abbrev pub is_indexable : Test → Bool
is_indexable (equals w) = true
is_indexable (one_of ws) = true
is_indexable (below w) = true
is_indexable (at_most w) = true
is_indexable (above w) = true
is_indexable (at_least w) = true
is_indexable t = false

abbrev is_equality : Test → Bool
is_equality (equals w) = true
is_equality t = false

-- `$exists: True` is redundant beside a range.
abbrev pub is_presence : Test → Bool
is_presence (exists (boolean true)) = true
is_presence t = false

abbrev pub usable_tests : List Test → Bool × Bool
usable_tests [] = (false, false)
usable_tests (t ∷ ts) =
    if all_of is_indexable (t ∷ ts) then (true, all_of is_equality (t ∷ ts)) else (false, false)

-- `(usable, is_equality)`
unfoldable pub constrains : Selector → String → Bool × Bool
constrains selector field = elim (lookup field selector) [
  | none ↦ (false, false)
  | some (plain v) ↦ (true, true)
  | some (tests ts) ↦ usable_tests (keep_if (λ t. not (is_presence t)) ts)
]

unfoldable pub prefix_score : Selector → List String → ℕ
unfolding constrains
prefix_score selector [] = 0
prefix_score selector (field ∷ fields) =
    let rest = prefix_score selector fields in
    let c = constrains selector field in if c.0 then if c.1 then suc rest else 1 else 0

abbrev pub same_texts : List String → List String → Bool
same_texts [] [] = true
same_texts (a ∷ xs) (b ∷ ys) = (a == b) && same_texts xs ys
same_texts _ _ = false

-- `index["fields"][: len(wanted)] == wanted`
abbrev pub begins_with : List String → Index → Bool
begins_with wanted i = same_texts (take (length wanted) i.fields) wanted

abbrev pub wanted_fields : Sort → List String
wanted_fields sort = map (λ s. s.0) sort

-- Python's `min`: the first of those that no other is strictly before.
unfoldable pub first_min {ℓ} : {A : Type ℓ} → (A → A → Bool) → List A → Option A
first_min before [] = none
first_min before (x ∷ xs) =
    let rest = first_min before xs in
    elim rest [ none ↦ some x | some y ↦ if before y x then some y else some x ]

abbrev pub shorter : Index → Index → Bool
shorter i j = ltb (length i.fields) (length j.fields)

-- `(-score, len(index["fields"]), name)`
abbrev pub ranked_before : Selector → Index → Index → Bool
ranked_before selector i j =
    let a = prefix_score selector i.fields in
    let b = prefix_score selector j.fields in
    ltb b a
    || (a == b
        && (shorter i j || (length i.fields == length j.fields && text_before i.name j.name)))

abbrev pub name_of : Option Index → Option String
name_of none = none
name_of (some i) = some i.name

unfoldable pub best_index : Selector → Sort → Option Index
unfolding prefix_score indexes first_min
best_index selector [] =
    first_min (ranked_before selector)
      (keep_if (λ i. ltb 0 (prefix_score selector i.fields)) indexes)
best_index selector (s ∷ sort) =
    first_min shorter (keep_if (begins_with (wanted_fields (s ∷ sort))) indexes)

unfoldable pub resolve_index : Selector → Sort → Option String
unfolding best_index
resolve_index selector sort = name_of (best_index selector sort)

abbrev pub names_index : Option String → Bool
names_index none = false
names_index (some name) = not (name == "")

unfoldable pub check_indexable : Selector → Sort → Option String → Result Passed
unfolding resolve_index
check_indexable selector sort use_index =
    if names_index use_index || names_index (resolve_index selector sort)
    then ok passed
    else err store_error

-- `len({directions}) > 1`
abbrev pub one_direction : Sort → Bool
one_direction [] = true
one_direction ((field, direction) ∷ sort) = all_of (λ s. s.1 == direction) sort

unfoldable pub check_sortable : Sort → Result Passed
unfolding indexes
check_sortable [] = ok passed
check_sortable (s ∷ sort) =
    if not (one_direction (s ∷ sort))
    then err store_error
    else if any_of (begins_with (wanted_fields (s ∷ sort))) indexes
    then ok passed
    else err store_error

-- `_sort_key`: the rank of a type, and the order within it.
abbrev rank : Option Value → ℕ
rank none = 0
rank (some null) = 0
rank (some (boolean b)) = 1
rank (some (number n)) = 2
rank (some (text s)) = 3

abbrev within_rank : Option Value → Option Value → Bool
within_rank (some v) (some w) = ordered ltb text_before v w
within_rank _ _ = false

unfoldable pub sorts_before : Option Value → Option Value → Bool
sorts_before a b = ltb (rank a) (rank b) || (rank a == rank b && within_rank a b)

-- The sorts of `find`, the last field first; `reverse` keeps the order of equals.
unfoldable pub sorted : Sort → List Fields → List Fields
unfolding sorts_before
sorted [] docs = docs
sorted ((field, direction) ∷ sort) docs =
    if direction == "desc"
    then sort_by (λ a b. sorts_before (lookup field b) (lookup field a)) (sorted sort docs)
    else sort_by (λ a b. sorts_before (lookup field a) (lookup field b)) (sorted sort docs)

module _ (search : String → String → Bool) where
  unfoldable pub matched : Selector → List Fields → Result (List Fields)
  unfolding matches
  matched selector [] = ok []
  matched selector (doc ∷ docs) = do
    hit ← matches search doc selector
    rest ← matched selector docs
    ok (if hit then doc ∷ rest else rest)

  -- `find` without a projection.
  unfoldable pub find :
      Selector → Sort → (limit skip : ℕ) → Option String → List Fields → Result (List Fields)
  unfolding matched check_sortable check_indexable sorted
  find selector sort limit skip use_index docs = do
    sortable ← check_sortable sort
    hits ← matched selector docs
    indexable ← check_indexable selector sort use_index
    ok (take limit (drop skip (sorted sort hits)))

  unfoldable pub count : Selector → List Fields → Result ℕ
  unfolding matched
  count selector docs = do hits ← matched selector docs; ok (length hits)
