-- ===== src/Runner/Carried.antt =====
-- podcast_agent/pipeline/runner.py, `_run_pipeline`: the run over all episodes against the stages of
-- each episode by itself.
use podcast_digest.Common.{
  ℕ, ◌+◌, ◌-◌, ◌≤◌, ◌<◌, String, Bool, true, false, ◌&&◌, ◌||◌, not, Option, none, some, [], ◌∷◌,
  ◌++◌, string_eq, ltb, keep_if, length, lookup, Bool-cases, ◌≡◌, refl, sym, ap, subst, ◌∙◌, inl,
  inr, arith,
}
use podcast_digest.Status.{
  EpisodeStatus, new, triaged, awaiting_transcript, transcribed, transcript_failed, member,
  active_statuses, is_status,
}
use podcast_digest.Episode.{Episode}
use podcast_digest.Runner.{
  PipelineStats, no_stats, RunConfig, Services, Episodes, Stage, is_owed_work, queued, queue, after,
  triage_stage, dispatch_stage, transcript_stage, summary_stage, stage_triage, stage_dispatch,
  stage_transcripts, stage_summarize, summary_queue, run_pipeline,
}
use podcast_digest.Runner.Queues.{Unique, when, first_of, lookup-append, append-Unique}
use podcast_digest.Runner.Listing.{filtered, lookup-queue, length-queue, queue-Unique}
use podcast_digest.Runner.Stages.{work, step, step_of, Stepped, run_queue-Stepped}
use podcast_digest.Runner.Steps.{not_queued, queued-At, queued-owed}
use podcast_digest.Runner.Rounds.{
  IsUp, triage-Rounds, dispatch-Rounds, transcript-Rounds, summary-Rounds,
}

abbrev pub for_summary : Episode → Bool
for_summary doc = queued transcribed doc || queued transcript_failed doc

-- One episode through the four stages, as if it were the only one.
unfoldable pub carry : RunConfig → Services → String → Episode → Episode
carry cfg svc i doc = step (summary_stage cfg svc) for_summary i (
    step (transcript_stage cfg svc) (queued awaiting_transcript) i (
      step (dispatch_stage cfg svc) (queued triaged) i
        (step (triage_stage cfg svc) (queued new) i doc)))

abbrev pub carried_of : RunConfig → Services → String → Option Episode → Option Episode
carried_of cfg svc i none = none
carried_of cfg svc i (some doc) = some (carry cfg svc i doc)

-- No limit of the run cuts the queues of a store with `size` episodes that are owed work.
pub record Fits (cfg : RunConfig) (size : ℕ) : Type 0 where
  pub triages : size ≤ cfg.max_triage_per_run
  pub dispatches : size ≤ 500
  pub transcripts : size ≤ cfg.max_transcripts_per_run
  pub summaries : size < cfg.max_summaries_per_run

heard_or_not : (doc : Episode) → (queued transcribed doc && queued transcript_failed doc) ≡ false
heard_or_not doc = elim (Bool-cases (queued transcribed doc)) [
  | inl e ↦
      rw e
        (not_queued transcribed transcript_failed doc (queued-At transcribed doc e).0 (λ h. cc h))
  | inr e ↦ rw e refl
]

pub Fits-less : {cfg : RunConfig} {m n : ℕ} → m ≤ n → Fits cfg n → Fits cfg m
Fits-less less fits = record {
  triages = omega (arith, less, fits.triages);
  dispatches = omega (arith, less, fits.dispatches);
  transcripts = omega (arith, less, fits.transcripts);
  summaries = omega (arith, less, fits.summaries);
}

abbrev pub to_do : Episodes → ℕ
to_do s = work is_owed_work s

implies : (a b : Bool) → (a ≡ true → b ≡ true) → (not a || b) ≡ true
implies true b h = h refl
implies false b h = refl

fewer_waiting :
    (t : EpisodeStatus) (s : Episodes)
    → member t active_statuses ≡ true
    → length (filtered t s) ≤ to_do s
unfolding keep_if
fewer_waiting t [] active = omega arith
fewer_waiting t (e ∷ s) active = ground (
  arith,
  fewer_waiting t s active,
  implies (queued t e.1) (is_owed_work e.1) (queued-owed t e.1 active),
)

apart :
    (s : Episodes)
    → length (filtered transcribed s) + length (filtered transcript_failed s) ≤ to_do s
unfolding keep_if member is_status
apart [] = omega arith
apart (e ∷ s) = ground (
  arith,
  apart s,
  heard_or_not e.1,
  implies (queued transcribed e.1) (is_owed_work e.1) (queued-owed transcribed e.1 refl),
  implies (queued transcript_failed e.1) (is_owed_work e.1)
      (queued-owed transcript_failed e.1 refl),
)

for_summary-owed : (doc : Episode) → for_summary doc ≡ true → is_owed_work doc ≡ true
unfolding member is_status
for_summary-owed doc h = elim (Bool-cases (queued transcribed doc)) [
  | inl heard ↦ queued-owed transcribed doc refl heard
  | inr unheard ↦ queued-owed transcript_failed doc refl (rw unheard at h)
]

when-or :
    (o : Option Episode)
    → first_of (when (queued transcribed) o) (when (queued transcript_failed) o)
      ≡ when for_summary o
when-or none = refl
when-or (some doc) = elim (Bool-cases (queued transcribed doc)) [
  | inl e ↦ rw e refl
  | inr e ↦ rw e refl
]

module _ (cfg : RunConfig) (s : Episodes) (u : Unique s) where
  -- Both queues of the summary stage, where the budget is enough for all.
  summary_queue_whole :
      to_do s < cfg.max_summaries_per_run
      → summary_queue cfg s
        ≡ queue transcribed cfg.max_summaries_per_run s
          ++ queue transcript_failed
              (cfg.max_summaries_per_run - length (queue transcribed cfg.max_summaries_per_run s))
              s
  unfolding summary_queue
  summary_queue_whole h =
      rw
        (short (length (queue transcribed cfg.max_summaries_per_run s)) cfg.max_summaries_per_run
          (omega (arith, h, apart s, length-queue transcribed cfg.max_summaries_per_run s)))
        refl
    where
      short : (a b : ℕ) → a < b → ltb a b ≡ true
      short a b l = ground arith

  module _ (h : to_do s < cfg.max_summaries_per_run) where
    abbrev room : ℕ
    room = cfg.max_summaries_per_run - length (queue transcribed cfg.max_summaries_per_run s)

    heard :
        (k : String)
        → lookup k (queue transcribed cfg.max_summaries_per_run s)
          ≡ when (queued transcribed) (lookup k s)
    heard = lookup-queue transcribed cfg.max_summaries_per_run s u (omega (arith, h, apart s))

    unheard :
        (k : String)
        → lookup k (queue transcript_failed room s) ≡ when (queued transcript_failed) (lookup k s)
    unheard =
        lookup-queue transcript_failed room s u
          (omega (arith, h, apart s, length-queue transcribed cfg.max_summaries_per_run s))

    lookup-summary_queue :
        (k : String) → lookup k (summary_queue cfg s) ≡ when for_summary (lookup k s)
    lookup-summary_queue k =
        ap (λ q. lookup k q) (summary_queue_whole h)
        ∙ lookup-append k (queue transcribed cfg.max_summaries_per_run s)
            (queue transcript_failed room s)
        ∙ ap (λ o. first_of o (lookup k (queue transcript_failed room s))) (heard k)
        ∙ ap (λ o. first_of (when (queued transcribed) (lookup k s)) o) (unheard k)
        ∙ when-or (lookup k s)

    summary_queue-Unique : Unique (summary_queue cfg s)
    summary_queue-Unique =
        subst (λ q. Unique q) (sym (summary_queue_whole h))
          (append-Unique _ _ (queue-Unique transcribed cfg.max_summaries_per_run s u)
            (queue-Unique transcript_failed room s u)
            (λ k v e. unheard k ∙ only_heard (lookup k s) v (sym (heard k) ∙ e)))
      where
        only_heard :
            (o : Option Episode) (v : Episode)
            → when (queued transcribed) o ≡ some v
            → when (queued transcript_failed) o ≡ none
        only_heard none v e = refl
        only_heard (some d) v e = elim (Bool-cases (queued transcribed d)) [
          | inl there ↦
              rw
                (not_queued transcribed transcript_failed d (queued-At transcribed d there).0
                  (λ x. cc x))
                refl
          | inr absent ↦ absurd (cc (rw absent at e))
        ]

-- The four stages one after the other.
module _ (cfg : RunConfig) (svc : Services) (up : IsUp svc) where
  module _ (stats : PipelineStats) (s : Episodes) (u : Unique s) (fits : Fits cfg (to_do s)) where
    triage-Stepped :
        Stepped (triage_stage cfg svc) is_owed_work (queued new) s (stage_triage cfg svc stats s)
    unfolding stage_triage member is_status
    triage-Stepped =
        run_queue-Stepped (triage_stage cfg svc) is_owed_work (queued new) _ stats s
          (λ d e. queued-owed new d refl e) (queue-Unique new _ s u) u
          (lookup-queue new _ s u (omega (arith, fits.triages, fewer_waiting new s refl)))
          (λ i doc e. (triage-Rounds cfg svc up i doc e).0)

    dispatch-Stepped :
        Stepped
          (dispatch_stage cfg svc)
          is_owed_work
          (queued triaged)
          s
          (stage_dispatch cfg svc stats s)
    unfolding stage_dispatch member is_status
    dispatch-Stepped =
        run_queue-Stepped (dispatch_stage cfg svc) is_owed_work (queued triaged) _ stats s
          (λ d e. queued-owed triaged d refl e) (queue-Unique triaged 500 s u) u
          (lookup-queue triaged 500 s u
            (omega (arith, fits.dispatches, fewer_waiting triaged s refl)))
          (λ i doc e. (dispatch-Rounds cfg svc up i doc e).0)

    transcripts-Stepped :
        Stepped
          (transcript_stage cfg svc)
          is_owed_work
          (queued awaiting_transcript)
          s
          (stage_transcripts cfg svc stats s)
    unfolding stage_transcripts member is_status
    transcripts-Stepped =
        run_queue-Stepped (transcript_stage cfg svc) is_owed_work (queued awaiting_transcript) _
          stats s (λ d e. queued-owed awaiting_transcript d refl e)
          (queue-Unique awaiting_transcript _ s u) u
          (lookup-queue awaiting_transcript _ s u
            (omega (arith, fits.transcripts, fewer_waiting awaiting_transcript s refl)))
          (λ i doc e. (transcript-Rounds cfg svc up i doc e).0)

    summarize-Stepped :
        Stepped (summary_stage cfg svc) is_owed_work for_summary s (stage_summarize cfg svc stats s)
    unfolding stage_summarize
    summarize-Stepped =
        run_queue-Stepped (summary_stage cfg svc) is_owed_work for_summary _ stats s
          for_summary-owed (summary_queue-Unique cfg s u fits.summaries) u
          (lookup-summary_queue cfg s u fits.summaries)
          (λ i doc e. (summary-Rounds cfg svc up i doc e).0)

  -- A stage behind stages that completed.
  module _ (stage : Stage) (chosen : Episode → Bool)
      (run : PipelineStats → Episodes → Option PipelineStats × Episodes)
      (runs : (stats : PipelineStats) (s : Episodes)
        → Unique s
        → Fits cfg (to_do s)
        → Stepped stage is_owed_work chosen s (run stats s)) where
    behind :
        (s : Episodes) (before : Option PipelineStats × Episodes) (stats : PipelineStats)
        → before.0 ≡ some stats
        → Unique before.1
        → to_do before.1 ≤ to_do s
        → Fits cfg (to_do s)
        → Stepped stage is_owed_work chosen before.1 (after run before)
    behind s (some x, t) stats e u size fits = runs x t u (Fits-less size fits)
    behind s (none, t) stats e u size fits = absurd (cc e)

  -- A store that has each id once, services that are up (no model or backend is unavailable, and the
  -- process is not killed), and no more routine episodes that are owed work than the run takes at each
  -- stage, fewer for the summaries: the run completes, and does with every episode what the four stages
  -- would do with it alone, so neither the order of the queues nor the failure of another episode makes
  -- a difference to any.
  pub run_pipeline-carry :
      (s : Episodes)
      → Unique s
      → Fits cfg (to_do s)
      → ((stats : PipelineStats) × ((run_pipeline cfg svc s).0 ≡ some stats))
        × ((i : String) → lookup i (run_pipeline cfg svc s).1 ≡ carried_of cfg svc i (lookup i s))
  unfolding run_pipeline carry
  run_pipeline-carry s u fits =
      let a = triage-Stepped no_stats s u fits in
      let b =
        behind (dispatch_stage cfg svc) (queued triaged) _ dispatch-Stepped s
          (stage_triage cfg svc no_stats s) a.stats a.completes a.unique a.size fits in
      let c =
        behind (transcript_stage cfg svc) (queued awaiting_transcript) _ transcripts-Stepped s
          (after (stage_dispatch cfg svc) (stage_triage cfg svc no_stats s)) b.stats b.completes
          b.unique (omega (arith, a.size, b.size)) fits in
      let d =
        behind (summary_stage cfg svc) for_summary _ summarize-Stepped s
          (after (stage_transcripts cfg svc)
            (after (stage_dispatch cfg svc) (stage_triage cfg svc no_stats s)))
          c.stats c.completes c.unique (omega (arith, a.size, b.size, c.size)) fits in
      (
        (d.stats, d.completes),
        λ i.
            d.each i
            ∙ ap (step_of (summary_stage cfg svc) for_summary i) (
                c.each i
                ∙ ap (step_of (transcript_stage cfg svc) (queued awaiting_transcript) i) (
                    b.each i ∙ ap (step_of (dispatch_stage cfg svc) (queued triaged) i) (a.each i)))
            ∙ alone i (lookup i s),
      )
    where
      alone :
          (i : String) (o : Option Episode)
          → step_of (summary_stage cfg svc) for_summary i (
              step_of (transcript_stage cfg svc) (queued awaiting_transcript) i (
                step_of
                  (dispatch_stage cfg svc)
                  (queued triaged)
                  i
                  (step_of (triage_stage cfg svc) (queued new) i o)))
            ≡ carried_of cfg svc i o
      alone i none = refl
      alone i (some doc) = refl
