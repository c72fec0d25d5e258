-- ===== src/Runner/Blocked.antt =====
-- podcast_agent/pipeline/runner.py: an episode that stands at SUMMARIZED, and the archive walk that
-- waits for the recent episodes.
use podcast_digest.Common.{
  ℕ, String, Bool, true, false, Option, none, some, List, [], ◌∷◌, string_eq, length, ltb, ◌<◌, ◌-◌,
  length-take, length-sort_by, if◌then◌else◌, lookup, arith, Bool-cases, keep_if, any_of, sort_by,
  ◌≡◌, ◌≢◌, refl, ap, ◌∙◌, inl, inr,
}
use podcast_digest.Status.{
  EpisodeStatus, value, new, triaged, awaiting_transcript, transcribed, transcript_failed,
  summarized,
}
use podcast_digest.Episode.{Episode}
use podcast_digest.Digest.Listing.{routine_origin}
use podcast_digest.Runner.{
  PipelineStats, no_stats, RunConfig, Services, Episodes, Stage, queued, queue, run_queue, after,
  is_owed_work, has_text, newest_first, pending_routine_episodes, stage_triage, stage_dispatch,
  stage_transcripts, stage_summarize, summary_queue, run_pipeline, triage_stage, dispatch_stage,
  transcript_stage, summary_stage,
}
use podcast_digest.Runner.Queues.{Unique, first_of, lookup-append, lookup-keep_if}
use podcast_digest.Runner.Listing.{queue-absent}
use podcast_digest.Runner.Stages.{run_queue-absent, run_queue-Unique}
use podcast_digest.Runner.Steps.{At, not_queued}

-- How `run_backfill_scheduled` ends: skipped for a pause or for recent episodes, or it calls
-- `run_backfill`.
pub data Walk : Type 0 where
  skipped_paused : Walk
  skipped_pending : ℕ → Walk
  started : Walk

-- `if waiting: ... return` of both.
abbrev waits_for : List (String × Episode) → Walk
waits_for [] = started
waits_for (e ∷ es) = skipped_pending (length (e ∷ es))

unfoldable pub run_backfill_scheduled : Bool → Episodes → Walk
unfolding pending_routine_episodes
run_backfill_scheduled paused s =
    if paused then skipped_paused else waits_for (pending_routine_episodes 200 s)

-- Hourly runs, one after the other, whatever each was answered.
abbrev pub runs : List (RunConfig × Services) → Episodes → Episodes
runs [] s = s
runs ((cfg, svc) ∷ rest) s = runs rest (run_pipeline cfg svc s).1

holds_one : (i : String) (doc : Episode) (s : Episodes) → lookup i s ≡ some doc → 0 < length s
unfolding lookup
holds_one i doc [] h = absurd (cc h)
holds_one i doc (e ∷ s) h = omega arith

-- An episode that stands at `doc`, in a store that has each id once.
abbrev Stands : String → Episode → Episodes → Type 0
Stands i doc s = Unique s × (lookup i s ≡ some doc)

module _ (i : String) (doc : Episode) where
  -- No queue for another status has it.
  off_queue :
      (status : EpisodeStatus) (limit : ℕ) (s : Episodes)
      → Stands i doc s
      → queued status doc ≡ false
      → lookup i (queue status limit s) ≡ none
  off_queue status limit s (u, there) off = queue-absent status limit s i u (rw there (rw off refl))

  passed_by :
      (stage : Stage) (q : List (String × Episode)) (stats : PipelineStats) (s : Episodes)
      → Stands i doc s
      → lookup i q ≡ none
      → Stands i doc (run_queue stage q stats s).1
  passed_by stage q stats s (u, there) off =
      (run_queue-Unique stage q stats s u, run_queue-absent stage q stats s i off ∙ there)

  behind :
      (run : PipelineStats → Episodes → Option PipelineStats × Episodes)
      → ((stats : PipelineStats) (s : Episodes) → Stands i doc s → Stands i doc (run stats s).1)
      → (before : Option PipelineStats × Episodes) → Stands i doc before.1
      → Stands i doc (after run before).1
  behind run keeps (none, s) h = h
  behind run keeps (some stats, s) h = keeps stats s h

  module _ (at : At summarized doc) where
    off_summary :
        (cfg : RunConfig) (s : Episodes) → Stands i doc s → lookup i (summary_queue cfg s) ≡ none
    unfolding summary_queue
    off_summary cfg s h =
        let budget = cfg.max_summaries_per_run in
        let heard : lookup i (queue transcribed budget s) ≡ none =
          off_queue transcribed budget s h (not_queued summarized transcribed doc at (λ e. cc e)) in
        elim (Bool-cases (ltb (length (queue transcribed budget s)) budget)) [
          | inl short ↦ rw short (
              lookup-append i (queue transcribed budget s)
                (queue transcript_failed (budget - length (queue transcribed budget s)) s)
              ∙ ap
                  (λ o. first_of o (
                    lookup i
                      (queue transcript_failed (budget - length (queue transcribed budget s)) s)))
                  heard
              ∙ off_queue transcript_failed (budget - length (queue transcribed budget s)) s h
                  (not_queued summarized transcript_failed doc at (λ e. cc e)))
          | inr full ↦ rw full heard
        ]

    run_keeps :
        (cfg : RunConfig) (svc : Services) (s : Episodes)
        → Stands i doc s
        → Stands i doc (run_pipeline cfg svc s).1
    unfolding run_pipeline stage_triage stage_dispatch stage_transcripts stage_summarize
    run_keeps cfg svc s h =
        behind (stage_summarize cfg svc)
          (λ stats t k. passed_by (summary_stage cfg svc) _ stats t k (off_summary cfg t k)) _
          (behind (stage_transcripts cfg svc)
            (λ stats t k. passed_by (transcript_stage cfg svc) _ stats t k (
              off_queue awaiting_transcript _ t k
                (not_queued summarized awaiting_transcript doc at (λ e. cc e))))
            _
            (behind (stage_dispatch cfg svc)
              (λ stats t k.
                passed_by (dispatch_stage cfg svc) _ stats t k
                  (off_queue triaged 500 t k (not_queued summarized triaged doc at (λ e. cc e))))
              _
              (passed_by (triage_stage cfg svc) _ no_stats s h
                (off_queue new _ s h (not_queued summarized new doc at (λ e. cc e))))))

    runs_keep :
        (nights : List (RunConfig × Services)) (s : Episodes)
        → Stands i doc s
        → Stands i doc (runs nights s)
    runs_keep [] s h = h
    runs_keep ((cfg, svc) ∷ rest) s h = runs_keep rest _ (run_keeps cfg svc s h)

    owed : doc.origin ≡ routine_origin → is_owed_work doc ≡ true
    unfolding is_owed_work any_of has_text value
    owed routine = rw at ((string_eq.same_iff doc.origin routine_origin).1 routine)

    some_pending :
        (s : Episodes)
        → Stands i doc s
        → doc.origin ≡ routine_origin
        → 0 < length (pending_routine_episodes 200 s)
    unfolding pending_routine_episodes
    some_pending s (u, there) routine = omega (
      arith,
      holds_one i doc (keep_if (λ e. is_owed_work e.1) s)
          (lookup-keep_if is_owed_work i s u ∙ rw there (rw (owed routine) refl)),
      length-sort_by newest_first (keep_if (λ e. is_owed_work e.1) s),
      length-take 200 (sort_by newest_first (keep_if (λ e. is_owed_work e.1) s)),
    )

    -- A routine episode at SUMMARIZED, which a process that died between the two writes of `summarize`
    -- leaves behind: no sequence of pipeline runs moves it, whatever the services answer, and after each
    -- the scheduled archive walk is skipped for it.
    pub run_backfill_scheduled-blocked :
        (nights : List (RunConfig × Services)) (s : Episodes)
        → Unique s
        → lookup i s ≡ some doc
        → doc.origin ≡ routine_origin
        → (lookup i (runs nights s) ≡ some doc)
          × (run_backfill_scheduled false (runs nights s) ≢ started)
    unfolding run_backfill_scheduled
    run_backfill_scheduled-blocked nights s u there routine =
        let kept = runs_keep nights s (u, there) in
        (
          kept.1,
          skipped (pending_routine_episodes 200 (runs nights s))
              (some_pending (runs nights s) kept routine),
        )
      where
        skipped : (q : List (String × Episode)) → 0 < length q → waits_for q ≢ started
        skipped [] h e = omega (arith, h)
        skipped (x ∷ q) h e = cc e
