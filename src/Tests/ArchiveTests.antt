-- ===== src/Tests/ArchiveTests.antt =====
-- The archive walk at concrete inputs: a window of three months across a new year.
use podcast_digest.Common.{ℕ, true, some, [], ◌∷◌, ◌≡◌, refl}
use podcast_digest.Archive.{
  Month, previous_month, earlier, floor_from_anchor, Run, BackfillConfig, walk, show_from,
  backfill_show, backfill_runs, creates, ingest_month,
}
use podcast_digest.Archive.Seen.{months}
use podcast_digest.Archive.Walk.{not_begun}

abbrev month_of : ℕ → ℕ → Month
month_of y m = record { year = y; month = m }

abbrev quarter : BackfillConfig
quarter = record { months = 3; months_per_run = 2 }

-- The later runs are in later months.
abbrev run_in : ℕ → Run
run_in m = record {
  now = month_of 2026 m;
  budget = 10;
  fetched = true;
  entries = λ _. creates ∷ [];
}

window_done : backfill_runs quarter (run_in 2 ∷ run_in 3 ∷ run_in 4 ∷ []) not_begun ≡ (
  (month_of 2026 1, []) ∷ (month_of 2025 12, []) ∷ (month_of 2025 11, []) ∷ [],
  record { cursor = some (month_of 2025 10); anchor = some (month_of 2026 2); complete = true },
)
unfolding backfill_runs backfill_show show_from walk floor_from_anchor previous_month earlier
    ingest_month
window_done = refl
