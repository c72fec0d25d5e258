-- ===== src/Archive/Walk.antt =====
-- podcast_agent/backfill/ingest.py: where the walk of a podcast stands after each run.
use podcast_digest.Common.{ℕ, suc, ◌+◌, ◌≤◌, true, false, none, some, List, nat_eq, ◌≡◌}
use podcast_digest.Archive.{Month, Passed, floor_from_anchor, Progress, BackfillConfig}
use podcast_digest.Archive.Calendar.{IsMonth, index, descend}
use podcast_digest.Archive.Seen.{months}

-- The progress of a podcast that the archive has not looked at.
abbrev pub not_begun : Progress
not_begun = record { cursor = none; anchor = none; complete = false }

module _ (cfg : BackfillConfig) (m0 : Month) (valid : IsMonth m0)
    (reaches : suc cfg.months + 12 ≤ index m0) where
  abbrev at : ℕ → Month
  at k = floor_from_anchor m0 k

  -- Where a walk stands that has passed `j` months.
  pub record Stands (j : ℕ) (p : Progress) : Type 0 where
    pub anchored : p.anchor ≡ some m0
    pub reached : p.cursor ≡ some (floor_from_anchor m0 (suc j))
    pub inside : j ≤ cfg.months
    pub finished : p.complete ≡ true → j ≡ cfg.months

  -- The months of one run, and where the walk stands after it.
  abbrev Advances : ℕ → List Passed × Progress → Type 0
  Advances j out = (i : ℕ) × (months out.0 ≡ descend i (at (suc j))) × Stands (j + i) out.1
