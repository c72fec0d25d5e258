-- ===== src/Tests/Sample.antt =====
-- Concrete values that the tests share.
use podcast_digest.Common.{ℕ, zero, suc, String, none, some, [], ◌∷◌, ◌≡◌, refl, ap, false}
use podcast_digest.Store.{Doc}
use podcast_digest.Episode.{Episode}

-- Pairwise distinct tags: a tally.
abbrev pub tally : ℕ → String
tally zero = ""
tally (suc n) = String.◌∷◌ "i" (tally n)

pub tally_distinct : (m n : ℕ) → tally m ≡ tally n → m ≡ n
tally_distinct zero zero h = refl
tally_distinct zero (suc n) h = cc
tally_distinct (suc m) zero h = cc
tally_distinct (suc m) (suc n) h = ap suc (tally_distinct m n (cc))

-- An episode as ingestion makes it, at a given status.
abbrev pub episode_at : String → Episode
episode_at status = record {
  podcast_slug = "risky-business";
  podcast_name = some "Risky Business";
  title = some "Weekly";
  published_at = some 20;
  origin = "routine";
  description_raw = "news";
  feed_transcripts = [];
  status = some status;
  attempts = ("transcript", 0) ∷ ("tier0", 0) ∷ ("tier1", 0) ∷ [];
  tier0 = none;
  tier1 = none;
  transcript_source = none;
  transcript_chars = none;
  transcript_at = none;
  duration_s = none;
  indexed_only = none;
  digest_id = none;
  summary_after_listing = false;
  forced_escalation = none;
  last_error = none;
  updated_at = none;
}

abbrev pub new_doc : {B : Type 0} → String → B → Doc B
new_doc i b = record { id = some i; rev = none; attachments = none; body = b }
