-- ===== src/Runner.antt =====
-- podcast_agent/pipeline/runner.py: the hourly run over the documents of all episodes, by their id.
-- What the run asks others for (the models, the acquisition, the stored transcripts, the registry,
-- the clock) is the record `Services`; the run is the only writer, and telemetry is left out.
pub mod Queues
pub mod Listing
pub mod Stages
pub mod Steps
pub mod Rounds
pub mod Carried
pub mod Drained
pub mod Deferred
pub mod Blocked
pub mod OnDemand
pub mod Rescore
use podcast_digest.Common.{
  ℕ, suc, ◌-◌, String, Bool, true, false, ◌&&◌, Option, none, some, List, [], ◌∷◌, ◌++◌, ◌==◌,
  string_eq, ltb, if◌then◌else◌, keep_if, any_of, take, length, sort_by, Dict, insert,
}
use podcast_digest.Errors.{Error, Result, ok, err, llm_unavailable, asr_unavailable}
use podcast_digest.Status.{
  EpisodeStatus, value, new, triaged, awaiting_transcript, transcribed, transcript_failed,
  ready_for_digest, digest_direct, dropped, active_statuses, is_status,
}
use podcast_digest.Episode.{Episode, apply_error}
use podcast_digest.Transcript.{Acquisition, StageEnd, ended, raises, dies, process, settle}
use podcast_digest.Triage.{PipelineConfig, Tier0Result, triage, dispatch}
use podcast_digest.Tier1.{Tier1Config, Tier1Result, summarize}
use podcast_digest.Digest.Listing.{published_later, routine_origin}

pub record PipelineStats : Type 0 where
  pub triaged : ℕ
  pub dispatched : ℕ
  pub dropped : ℕ
  pub escalated : ℕ
  pub digest_direct : ℕ
  pub transcripts_ok : ℕ
  pub transcripts_failed : ℕ
  pub transcripts_retrying : ℕ
  pub summarized : ℕ
  pub scored_low : ℕ
  pub errors : ℕ
  pub stages_deferred : List String

abbrev pub no_stats : PipelineStats
no_stats = record {
  triaged = 0;
  dispatched = 0;
  dropped = 0;
  escalated = 0;
  digest_direct = 0;
  transcripts_ok = 0;
  transcripts_failed = 0;
  transcripts_retrying = 0;
  summarized = 0;
  scored_low = 0;
  errors = 0;
  stages_deferred = [];
}

-- The settings that a run reads.
pub record RunConfig : Type 0 where
  pub pipeline : PipelineConfig
  pub tier1 : Tier1Config
  pub max_triage_per_run : ℕ
  pub max_transcripts_per_run : ℕ
  pub max_summaries_per_run : ℕ
  pub max_retries : ℕ

-- What others answer, by the id of the episode: the two models, the registry's `always_escalate`,
-- the acquisition of a transcript, the transcript in the store, and the instant of a stage's writes.
pub record Services : Type 0 where
  pub ask0 : String → Result Tier0Result
  pub always_escalate : String → Bool
  pub acquire : String → Acquisition
  pub load : String → Option String
  pub ask1 : String → String → String → Result Tier1Result
  pub strip : String → String
  pub clock : String → String → ℕ

abbrev pub Episodes : Type 0
Episodes = Dict String Episode

-- `_queue`: the selector, and the newest first.
unfoldable pub has_text : Option String → String → Bool
has_text none text = false
has_text (some status) text = status == text

unfoldable pub queued : EpisodeStatus → Episode → Bool
unfolding has_text value
queued status e = has_text e.status (value status) && e.origin == routine_origin

abbrev pub newest_first : String × Episode → String × Episode → Bool
newest_first a b = published_later a.1.published_at b.1.published_at

unfoldable pub queue : EpisodeStatus → ℕ → Episodes → List (String × Episode)
unfolding queued
queue status limit s = take limit (sort_by newest_first (keep_if (λ e. queued status e.1) s))

-- The selector of `pending_routine_episodes`.
unfoldable pub is_owed_work : Episode → Bool
unfolding has_text value
is_owed_work e =
    any_of (λ status. has_text e.status (value status)) active_statuses
    && e.origin == routine_origin

unfoldable pub pending_routine_episodes : ℕ → Episodes → List (String × Episode)
unfolding is_owed_work
pending_routine_episodes limit s =
    take limit (sort_by newest_first (keep_if (λ e. is_owed_work e.1) s))

unfoldable pub without_llm : Error → Bool
without_llm llm_unavailable = true
without_llm e = false

unfoldable pub without_asr : Error → Bool
without_asr asr_unavailable = true
without_asr e = false

abbrev pub never : Error → Bool
never e = false

-- A stage: the exception that defers it, the name under which errors are recorded, its part of the
-- statistics, and the handling of one episode.
pub record Stage : Type 0 where
  pub name : String
  pub error_name : String
  pub defers : Error → Bool
  pub count : EpisodeStatus → PipelineStats → PipelineStats
  pub handle : String → Episode → StageEnd × Episode
  pub failed_at : String → ℕ

-- What a round leaves of the document: `mark_error`, unless the stage is deferred.
unfoldable pub left_by : Stage → String → StageEnd × Episode → Episode
left_by stage i (ended t, doc) = doc
left_by stage i (dies, doc) = doc
left_by stage i (raises e, doc) =
    if stage.defers e then doc else apply_error stage.error_name (stage.failed_at i) doc

-- The loop of a stage; no statistics are left by a process that is killed.
unfoldable pub run_queue :
    Stage → List (String × Episode) → PipelineStats → Episodes → Option PipelineStats × Episodes
unfolding left_by
run_queue stage [] stats s = (some stats, s)
run_queue stage ((i, doc) ∷ rest) stats s = elim (stage.handle i doc).0 [
  | ended t ↦
      run_queue stage rest (stage.count t stats) (insert i (left_by stage i (stage.handle i doc)) s)
  | raises e ↦ elim (stage.defers e) [
    | true ↦ (
      some (record stats { stages_deferred = stats.stages_deferred ++ (stage.name ∷ []) }),
      insert i (left_by stage i (stage.handle i doc)) s,
    )
    | false ↦
        run_queue stage rest (record stats { errors = suc stats.errors })
          (insert i (left_by stage i (stage.handle i doc)) s)
  ]
  | dies ↦ (none, insert i (left_by stage i (stage.handle i doc)) s)
]

abbrev pub triaged_episode : Episode → Result Episode → StageEnd × Episode
triaged_episode doc written = settle (ended triaged) doc written

-- A stage that returns the status, or raises with the document as it was.
abbrev pub ending : Episode → Result (EpisodeStatus × Episode) → StageEnd × Episode
ending doc (ok (t, doc')) = (ended t, doc')
ending doc (err e) = (raises e, doc)

abbrev pub count_triage : EpisodeStatus → PipelineStats → PipelineStats
count_triage t stats = record stats { triaged = suc stats.triaged }

abbrev pub count_target : EpisodeStatus → PipelineStats → PipelineStats
count_target dropped stats = record stats { dropped = suc stats.dropped }
count_target awaiting_transcript stats = record stats { escalated = suc stats.escalated }
count_target digest_direct stats = record stats { digest_direct = suc stats.digest_direct }
count_target t stats = stats

abbrev pub count_dispatch : EpisodeStatus → PipelineStats → PipelineStats
count_dispatch t stats = count_target t (record stats { dispatched = suc stats.dispatched })

abbrev pub count_transcript : EpisodeStatus → PipelineStats → PipelineStats
count_transcript transcribed stats = record stats { transcripts_ok = suc stats.transcripts_ok }
count_transcript transcript_failed stats = record stats {
  transcripts_failed = suc stats.transcripts_failed;
}
count_transcript t stats = record stats { transcripts_retrying = suc stats.transcripts_retrying }

abbrev pub count_summary : EpisodeStatus → PipelineStats → PipelineStats
count_summary ready_for_digest stats = record stats { summarized = suc stats.summarized }
count_summary t stats = record stats { scored_low = suc stats.scored_low }

-- Episodes with a transcript first; the rest of the budget goes to those without.
unfoldable pub summary_queue : RunConfig → Episodes → List (String × Episode)
unfolding queue
summary_queue cfg s =
    let budget = cfg.max_summaries_per_run in
    let with_transcript = queue transcribed budget s in
    if ltb (length with_transcript) budget
    then with_transcript ++ queue transcript_failed (budget - length with_transcript) s
    else with_transcript

module _ (cfg : RunConfig) (svc : Services) where
  abbrev pub triage_episode : String → Episode → StageEnd × Episode
  triage_episode i doc = elim (svc.ask0 i) [
    | err e ↦ (raises e, doc)
    | ok result ↦ triaged_episode doc (
        triage cfg.pipeline (svc.always_escalate doc.podcast_slug) cfg.tier1.valid_keys
          cfg.tier1.profile_version result (svc.clock "triage" i) doc)
  ]

  unfoldable pub triage_stage : Stage
  unfolding without_llm
  triage_stage = record {
    name = "triage";
    error_name = "tier0";
    defers = without_llm;
    count = count_triage;
    handle = triage_episode;
    failed_at = svc.clock "triage";
  }

  unfoldable pub dispatch_stage : Stage
  dispatch_stage = record {
    name = "dispatch";
    error_name = "dispatch";
    defers = never;
    count = count_dispatch;
    handle = λ i doc. ending doc (dispatch (svc.clock "dispatch" i) doc);
    failed_at = svc.clock "dispatch";
  }

  unfoldable pub transcript_stage : Stage
  unfolding without_asr
  transcript_stage = record {
    name = "transcripts";
    error_name = "transcript";
    defers = without_asr;
    count = count_transcript;
    handle = λ i doc. process cfg.max_retries (svc.acquire i) (svc.clock "transcripts" i) doc;
    failed_at = svc.clock "transcripts";
  }

  unfoldable pub summary_stage : Stage
  unfolding without_llm
  summary_stage = record {
    name = "summarize";
    error_name = "tier1";
    defers = without_llm;
    count = count_summary;
    handle = λ i doc. ending doc (
        summarize svc.strip cfg.tier1 none (svc.load i) (svc.ask1 i) (svc.clock "summarize" i) doc);
    failed_at = svc.clock "summarize";
  }

  unfoldable pub stage_triage : PipelineStats → Episodes → Option PipelineStats × Episodes
  unfolding run_queue triage_stage queue
  stage_triage stats s = run_queue triage_stage (queue new cfg.max_triage_per_run s) stats s

  unfoldable pub stage_dispatch : PipelineStats → Episodes → Option PipelineStats × Episodes
  unfolding run_queue dispatch_stage queue
  stage_dispatch stats s = run_queue dispatch_stage (queue triaged 500 s) stats s

  unfoldable pub stage_transcripts : PipelineStats → Episodes → Option PipelineStats × Episodes
  unfolding run_queue transcript_stage queue
  stage_transcripts stats s =
      run_queue transcript_stage (queue awaiting_transcript cfg.max_transcripts_per_run s) stats s

  unfoldable pub stage_summarize : PipelineStats → Episodes → Option PipelineStats × Episodes
  unfolding run_queue summary_stage summary_queue
  stage_summarize stats s = run_queue summary_stage (summary_queue cfg s) stats s

-- A stage after a stage; a process that was killed runs no further one.
abbrev pub after :
    (PipelineStats → Episodes → Option PipelineStats × Episodes)
    → Option PipelineStats × Episodes
    → Option PipelineStats × Episodes
after stage (none, s) = (none, s)
after stage (some stats, s) = stage stats s

-- `_run_pipeline`
unfoldable pub run_pipeline : RunConfig → Services → Episodes → Option PipelineStats × Episodes
unfolding stage_triage stage_dispatch stage_transcripts stage_summarize
run_pipeline cfg svc s = after (stage_summarize cfg svc) (
    after (stage_transcripts cfg svc)
      (after (stage_dispatch cfg svc) (stage_triage cfg svc no_stats s)))
