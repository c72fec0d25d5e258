-- ===== src/Tests/RunnerTests.antt =====
-- The hourly run at concrete inputs: two new episodes, of which the triage model answers for one; an
-- episode left at SUMMARIZED; and one that a digest lists.
use podcast_digest.Common.{
  String, true, false, none, some, [], ◌∷◌, ◌++◌, ◌==◌, string_eq, nat_eq, if◌then◌else◌, lookup,
  keep_if, any_of, Bool-cases, ◌≡◌, ◌≢◌, refl, subst, inl, inr, arith,
}
use podcast_digest.Errors.{Error, Result, ok, err, value_error, llm_unavailable, asr_unavailable}
use podcast_digest.Status.{
  value, published, new, awaiting_transcript, summarized, can_transition, assert_transition,
  parse_status,
}
use podcast_digest.Episode.{Episode, apply_transition, attempt_count}
use podcast_digest.Transcript.{found, unavailable, backend_down, TranscriptResult, raises}
use podcast_digest.Triage.{Tier0Result, escalate, triage}
use podcast_digest.Tier1.{Tier1Config, Tier1Result}
use podcast_digest.Digest.{claimed}
use podcast_digest.Digest.Listing.{DigestRules, Period, in_window}
use podcast_digest.Runner.{
  PipelineStats, no_stats, RunConfig, Services, Episodes, queued, run_pipeline, run_queue,
  triage_stage, is_owed_work, has_text, without_llm,
}
use podcast_digest.Runner.Queues.{Unique}
use podcast_digest.Runner.Stages.{round, is_calm, Calm}
use podcast_digest.Runner.Steps.{At, OneOf}
use podcast_digest.Runner.Rounds.{IsUp, answers}
use podcast_digest.Runner.Carried.{Fits, to_do, carried_of, run_pipeline-carry}
use podcast_digest.Runner.Drained.{settled, run_pipeline-settles}
use podcast_digest.Runner.Deferred.{run_queue-deferred}
use podcast_digest.Runner.Blocked.{
  runs, run_backfill_scheduled, started, run_backfill_scheduled-blocked,
}
use podcast_digest.Runner.OnDemand.{Answers, summarize_episode, has_summary}
use podcast_digest.Runner.OnDemand.Unlisted.{summarize_episode-Unlisted}
use podcast_digest.Tests.Sample.{episode_at}

abbrev summary_config : Tier1Config
summary_config = record {
  digest_threshold = 6;
  valid_keys = record { normalize = λ k. k; keys = "ai" ∷ [] };
  profile_version = "p2";
}

abbrev cfg : RunConfig
cfg = record {
  pipeline = record {
    t_conf_high = 7;
    t_rel_low = 3;
    t_rel_high = 7;
    digest_threshold = 6;
    top_pick_threshold = 8;
  };
  tier1 = summary_config;
  max_triage_per_run = 50;
  max_transcripts_per_run = 10;
  max_summaries_per_run = 20;
  max_retries = 3;
}

abbrev suggestion : Tier0Result
suggestion = record {
  relevance_guess = 8;
  confidence = 9;
  matched_interests = "ai" ∷ [];
  reasoning = "on topic";
  route = escalate;
}

abbrev words : TranscriptResult
words = record { chars = 5; source = "feed"; duration_s = none }

abbrev seven : Tier1Result
seven = record { relevance_score = 7; matched_interests = "ai" ∷ []; summary_md = "s" }

-- The model answers for each episode but "b".
abbrev svc : Services
svc = record {
  ask0 = λ i. if i == "b" then err value_error else ok suggestion;
  always_escalate = λ slug. false;
  acquire = λ i. found words;
  load = λ i. some "hello";
  ask1 = λ i content basis. ok seven;
  strip = λ text. text;
  clock = λ stage i. 5;
}

abbrev no_verdict : Result Tier0Result
no_verdict = err value_error

not_llm : (e : Error) → no_verdict ≡ err e → without_llm e ≡ false
unfolding without_llm
not_llm e h = subst (λ x. without_llm x ≡ false) (same e h) refl
  where
    same : (e : Error) → no_verdict ≡ err e → value_error ≡ e
    same e h = cc h

up : IsUp svc
unfolding answers
up = record {
  triage_model = λ i e h. elim (Bool-cases (i == "b")) [
    | inl same ↦ not_llm e (rw same at h)
    | inr other ↦ absurd (cc (rw other at h))
  ];
  summary_model = λ i content basis e h. absurd (cc h);
  backend = λ i. refl;
}

abbrev two_episodes : Episodes
two_episodes = ("a", episode_at "NEW") ∷ ("b", episode_at "NEW") ∷ []

both_once : Unique two_episodes
unfolding lookup
both_once = (refl, (refl, tt))

room_for_two : Fits cfg (to_do two_episodes)
unfolding keep_if is_owed_work any_of has_text value
room_for_two = record {
  triages = omega arith;
  dispatches = omega arith;
  transcripts = omega arith;
  summaries = omega arith;
}

run_pipeline-carry_example :
    ((stats : PipelineStats) × ((run_pipeline cfg svc two_episodes).0 ≡ some stats))
    × ((i : String)
        → lookup i (run_pipeline cfg svc two_episodes).1
          ≡ carried_of cfg svc i (lookup i two_episodes))
run_pipeline-carry_example = run_pipeline-carry cfg svc up two_episodes both_once room_for_two

second : lookup "b" two_episodes ≡ some (episode_at "NEW")
unfolding lookup
second = refl

first : lookup "a" two_episodes ≡ some (episode_at "NEW")
unfolding lookup
first = refl

is_new : queued new (episode_at "NEW") ≡ true
unfolding queued has_text value
is_new = refl

run_pipeline-settles_example :
    (doc' : Episode) × (lookup "a" (run_pipeline cfg svc two_episodes).1 ≡ some doc')
    × OneOf settled doc'
run_pipeline-settles_example =
    run_pipeline-settles cfg svc up two_episodes both_once room_for_two "a" (episode_at "NEW") first
      is_new

-- The model is gone at "b".
abbrev gone : Services
gone = record svc { ask0 = λ i. if i == "b" then err llm_unavailable else ok suggestion }

abbrev three_episodes : Episodes
three_episodes = ("a", episode_at "NEW") ∷ ("b", episode_at "NEW") ∷ ("c", episode_at "NEW") ∷ []

answered : Calm (triage_stage cfg gone) ("a", episode_at "NEW")
unfolding triage_stage is_calm triage apply_transition assert_transition parse_status can_transition
    value
answered = refl

run_queue-deferred_example :
    let run = run_queue (triage_stage cfg gone) three_episodes no_stats three_episodes in
    ((before : PipelineStats) × (run.0
        ≡ some (record before { stages_deferred = before.stages_deferred ++ ("triage" ∷ []) })))
    × (lookup "b" run.1 ≡ some ((triage_stage cfg gone).handle "b" (episode_at "NEW")).1)
    × ((j : String) (d : Episode)
        → ("b" == j) ≡ false
        → lookup j (("a", episode_at "NEW") ∷ []) ≡ some d
        → lookup j run.1 ≡ some (round (triage_stage cfg gone) j d))
    × ((j : String)
        → ("b" == j) ≡ false
        → lookup j (("a", episode_at "NEW") ∷ []) ≡ none
        → lookup j run.1 ≡ lookup j three_episodes)
unfolding triage_stage lookup without_llm
run_queue-deferred_example =
    run_queue-deferred (triage_stage cfg gone) (("a", episode_at "NEW") ∷ [])
      (("c", episode_at "NEW") ∷ []) "b" (episode_at "NEW") llm_unavailable no_stats three_episodes
      (refl, tt) (refl, (refl, (refl, tt))) (refl, tt) (answered, tt) refl refl

abbrev left_behind : Episode
left_behind = episode_at "SUMMARIZED"

abbrev one_episode : Episodes
one_episode = ("a", left_behind) ∷ []

stranded_at : At summarized left_behind
unfolding value
stranded_at = refl

run_backfill_scheduled-blocked_example :
    (lookup "a" (runs ((cfg, svc) ∷ []) one_episode) ≡ some left_behind)
    × (run_backfill_scheduled false (runs ((cfg, svc) ∷ []) one_episode) ≢ started)
run_backfill_scheduled-blocked_example =
    run_backfill_scheduled-blocked "a" left_behind stranded_at ((cfg, svc) ∷ []) one_episode
      (unfold lookup in (refl, tt)) (unfold lookup in refl) refl

-- Listed by a digest without a summary.
abbrev listed_episode : Episode
listed_episode = record (episode_at "PUBLISHED") { digest_id = some "digest:2026-W10" }

listed_at : At published listed_episode
unfolding value
listed_at = refl

abbrev no_transcript : Answers
no_transcript = record { acquire = unavailable false; load = none; ask = λ content basis. ok seven }

abbrev no_backend : Answers
no_backend = record no_transcript { acquire = backend_down }

summarize_episode-Unlisted_example :
    (left : Episode) × (summarize_episode
        (λ text. text)
        summary_config
        3
        no_backend
        9
        listed_episode
      ≡ (raises asr_unavailable, left))
    × (At awaiting_transcript left)
    × (queued awaiting_transcript left ≡ true)
    × (is_owed_work left ≡ true)
    × ((rules : DigestRules) (period : Period) → in_window rules period left ≡ false)
summarize_episode-Unlisted_example =
    summarize_episode-Unlisted (λ text. text) summary_config 3 no_backend 9 listed_episode refl
      listed_at (unfold has_summary in refl) (unfold claimed in refl) refl
      (unfold attempt_count lookup in omega arith)

-- Scored low under an older profile.
abbrev scored_before : Episode
scored_before = record (episode_at "SCORED_LOW") {
  transcript_source = some "feed";
  tier1 = some (record {
    relevance_score = 2;
    matched_interests = [];
    summary_md = "s";
    summary_basis = "published_transcript";
    profile_version = "p1";
    at = 1;
  });
}
