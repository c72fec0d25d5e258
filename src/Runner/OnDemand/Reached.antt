-- ===== src/Runner/OnDemand/Reached.antt =====
-- podcast_agent/pipeline/runner.py, `summarize_episode`: a request while the acquisition and the model
-- answer.
use podcast_digest.Common.{Bool, true, string_eq, ◌≡◌, ◌⊎◌}
use podcast_digest.Status.{EpisodeStatus, ready_for_digest, scored_low, published}
use podcast_digest.Episode.{Episode}
use podcast_digest.Transcript.{StageEnd, ended}
use podcast_digest.Runner.Steps.{At}

-- Where a request ends.
pub record Verdict (r : StageEnd × Episode) (listed : Bool) (doc : Episode) : Type 0 where
  pub verdict : EpisodeStatus
  pub left : Episode
  pub equation : r ≡ (ended verdict, left)
  pub at : At verdict left
  pub which : (verdict ≡ published) ⊎ ((verdict ≡ ready_for_digest) ⊎ (verdict ≡ scored_low))
  pub same_claim : left.digest_id ≡ doc.digest_id
  pub back : listed ≡ true → (verdict ≡ published) × (left.summary_after_listing ≡ true)
