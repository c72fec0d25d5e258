-- ===== src/Archive.antt =====
-- podcast_agent/backfill/ingest.py: the walk of a podcast's archive, month by month into the past,
-- over many runs. A month key "YYYY-MM" is its year and month. The feed is an argument: whether it
-- is fetched in a run, and what each of its entries of a month comes to in that run.
pub mod Calendar
pub mod Seen
pub mod Walk
use podcast_digest.Common.{
  ℕ, zero, suc, ◌+◌, ◌-◌, Bool, true, false, ◌&&◌, ◌||◌, Option, none, some, List, [], ◌∷◌, ◌++◌,
  ◌==◌, nat_eq, ltb, leb, if◌then◌else◌,
}

pub record Month : Type 0 where
  pub year : ℕ
  pub month : ℕ

unfoldable pub previous_month : Month → Month
previous_month key =
    if key.month == 1
    then record { year = key.year - 1; month = 12 }
    else record { year = key.year; month = key.month - 1 }

-- `<` on keys
unfoldable pub earlier : Month → Month → Bool
earlier a b = ltb a.year b.year || a.year == b.year && ltb a.month b.month

unfoldable pub floor_from_anchor : Month → ℕ → Month
floor_from_anchor key zero = key
floor_from_anchor key (suc months) = floor_from_anchor (previous_month key) months

-- What the podcast's document says of its walk.
pub record Progress : Type 0 where
  pub cursor : Option Month
  pub anchor : Option Month
  pub complete : Bool

-- An entry of the feed: one without a usable enclosure, or whose episode is stored already; one that
-- is stored now; one at which the store or the parsing raises.
pub data Entry : Type 0 where
  passed_over creates raises : Entry

-- One run: the current month, what is left of the run's budget, whether the feed is fetched, and the
-- entries of each month, in the order of the feed.
pub record Run : Type 0 where
  pub now : Month
  pub budget : ℕ
  pub fetched : Bool
  pub entries : Month → List Entry

-- The loop of `_ingest_month`: the episodes created, and the entries behind the one at which the
-- budget breaks it off, that one included; none for an exception.
unfoldable pub ingest_month : List Entry → (budget created : ℕ) → Option (ℕ × List Entry)
ingest_month [] budget created = some (created, [])
ingest_month (e ∷ es) budget created = elim (leb budget created) [
  | true ↦ some (created, e ∷ es)
  | false ↦ elim e [
    | passed_over ↦ ingest_month es budget created
    | creates ↦ ingest_month es budget (suc created)
    | raises ↦ none
  ]
]

-- A month that the cursor has moved past, with the entries that were not looked at.
abbrev pub Passed : Type 0
Passed = Month × List Entry

pub record BackfillConfig : Type 0 where
  pub months : ℕ
  pub months_per_run : ℕ

abbrev pub or_else : Option Month → Month → Month
or_else none m = m
or_else (some a) m = a

-- The `for` loop: the months passed, the episodes created, and the cursor.
unfoldable pub walk : Month → Run → ℕ → Month → ℕ → Option (List Passed × ℕ × Month)
unfolding ingest_month
walk floor r zero cursor created = some ([], created, cursor)
walk floor r (suc n) cursor created = elim (earlier cursor floor || leb r.budget created) [
  | true ↦ some ([], created, cursor)
  | false ↦ elim (ingest_month (r.entries cursor) (r.budget - created) 0) [
    | none ↦ none
    | some one ↦ elim (walk floor r n (previous_month cursor) (created + one.0)) [
      | none ↦ none
      | some rest ↦ some ((cursor, one.1) ∷ rest.0, rest.1, rest.2)
    ]
  ]
]

abbrev pub marked_at : Month → Month → Bool → Progress
marked_at cursor anchor complete = record {
  cursor = some cursor;
  anchor = some anchor;
  complete = complete;
}

-- `_mark_progress` of the first run, which pins the anchor.
abbrev pub pinned : Progress → Month → Month → Progress
pinned p cursor anchor = elim p.anchor [ none ↦ marked_at cursor anchor false | some a ↦ p ]

abbrev pub progressed :
    Progress → Month → Month → Month → Option (List Passed × ℕ × Month) → List Passed × Progress
progressed p floor cursor anchor none = ([], pinned p cursor anchor)
progressed p floor cursor anchor (some ([], created, c)) = ([], pinned p cursor anchor)
progressed p floor cursor anchor (some (m ∷ ms, created, c)) =
    (m ∷ ms, marked_at c anchor (earlier c floor))

-- `_backfill_show`, once its anchor and its cursor are known.
unfoldable pub show_from : BackfillConfig → Run → Progress → Month → Month → List Passed × Progress
show_from cfg r p anchor cursor =
    let floor = floor_from_anchor anchor cfg.months in
    if earlier cursor floor
    then ([], (if p.complete then p else marked_at cursor anchor true))
    else progressed p floor cursor anchor
        (if r.fetched then walk floor r cfg.months_per_run cursor 0 else none)

-- `_backfill_show`, of a podcast that has a document: the months passed, and the progress.
unfoldable pub backfill_show : BackfillConfig → Run → Progress → List Passed × Progress
backfill_show cfg r p =
    let anchor = or_else p.anchor r.now in
    show_from cfg r p anchor (or_else p.cursor (previous_month anchor))

unfoldable pub backfill_runs : BackfillConfig → List Run → Progress → List Passed × Progress
backfill_runs cfg [] p = ([], p)
backfill_runs cfg (r ∷ rs) p =
    let one = backfill_show cfg r p in
    let rest = backfill_runs cfg rs one.1 in (one.0 ++ rest.0, rest.1)
