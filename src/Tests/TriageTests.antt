-- ===== src/Tests/TriageTests.antt =====
-- Triage at concrete inputs.
use podcast_digest.Common.{ℕ, true, false, [], ◌∷◌, ◌≡◌, refl, string_eq}
use podcast_digest.Errors.{Result, ok}
use podcast_digest.Status.{value, parse_status, can_transition, is_status, assert_transition}
use podcast_digest.Episode.{Episode, status_of, apply_transition}
use podcast_digest.Triage.{
  escalate, Tier0Result, PipelineConfig, decide_route, target, triage, dispatch, Podcast,
}
use podcast_digest.Episode.Keys.{InterestKeys}
use podcast_digest.Triage.Dispatch.{Due, dispatch-triage}
use podcast_digest.Tests.Sample.{episode_at}

abbrev defaults : PipelineConfig
defaults = record {
  t_conf_high = 7;
  t_rel_low = 4;
  t_rel_high = 7;
  digest_threshold = 5;
  top_pick_threshold = 8;
}

abbrev interests : InterestKeys
interests = record { normalize = λ k. k; keys = "ai" ∷ [] }

abbrev guess : ℕ → ℕ → Tier0Result
guess r c = record {
  relevance_guess = r;
  confidence = c;
  matched_interests = [];
  reasoning = "";
  route = escalate;
}

grey : (decide_route (guess 5 8) defaults false).rule ≡ "grey_zone"
unfolding decide_route
grey = refl

abbrev verdict : Episode
verdict = elim (triage defaults false interests "p1" (guess 5 8) 10 (episode_at "NEW")) [
  | ok d ↦ d
  | Result.err e ↦ episode_at "NEW"
]

triage_succeeds :
    triage defaults false interests "p1" (guess 5 8) 10 (episode_at "NEW") ≡ ok verdict
unfolding triage apply_transition assert_transition parse_status can_transition is_status
triage_succeeds = refl

dispatch-triage_example :
    (d' : Episode) × (dispatch 20 verdict
      ≡ ok (target (decide_route (guess 5 8) defaults false).route, d'))
    × (status_of d' ≡ value (target (decide_route (guess 5 8) defaults false).route))
    × Due defaults false (guess 5 8) (target (decide_route (guess 5 8) defaults false).route)
    × (d'.tier0 ≡ verdict.tier0)
dispatch-triage_example =
    dispatch-triage defaults false interests "p1" (guess 5 8) 10 20 (episode_at "NEW")
      (unfold value in refl) verdict triage_succeeds

abbrev news : Podcast
news = record { backfill_mode = "tier0_only"; asr_enabled = true }
