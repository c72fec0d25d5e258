-- ===== src/Runner/Drained.antt =====
-- podcast_agent/pipeline/runner.py: where the episodes of a store stand after one run.
use podcast_digest.Common.{
  String, true, false, some, List, [], ◌∷◌, string_eq, lookup, All, subst, Bool-cases, ◌≡◌, refl,
  sym, ap, ◌∙◌, inl, inr,
}
use podcast_digest.Status.{
  EpisodeStatus, value, new, triaged, awaiting_transcript, transcribed, transcript_failed,
  summarized, ready_for_digest, scored_low, digest_direct, dropped, published, error, member,
  is_status,
}
use podcast_digest.Status.Machine.{is_status_iff}
use podcast_digest.Episode.{Episode}
use podcast_digest.Runner.{
  RunConfig, Services, Episodes, queued, run_pipeline, triage_stage, dispatch_stage,
  transcript_stage, summary_stage,
}
use podcast_digest.Digest.Listing.{routine_origin}
use podcast_digest.Runner.Queues.{Unique}
use podcast_digest.Runner.Stages.{step}
use podcast_digest.Runner.Steps.{At, OneOf, queued-At, queued_At, step-not_queued, step-OneOf}
use podcast_digest.Runner.Rounds.{
  IsUp, triage-Rounds, dispatch-Rounds, transcript-Rounds, summary-Rounds, triage_ends,
  dispatch_ends, transcript_ends, summary_ends,
}
use podcast_digest.Runner.Carried.{Fits, to_do, carry, carried_of, for_summary, run_pipeline-carry}

-- Every status on the way of a new episode through one run.
abbrev flow : List EpisodeStatus
flow =
    new ∷ triaged ∷ awaiting_transcript ∷ transcribed ∷ transcript_failed ∷ dropped ∷ digest_direct
    ∷ ready_for_digest ∷ scored_low ∷ error ∷ []

-- Where it can stand at the end.
abbrev pub settled : List EpisodeStatus
settled = dropped ∷ digest_direct ∷ awaiting_transcript ∷ ready_for_digest ∷ scored_low ∷ error ∷ []

listed_in :
    (ts us : List EpisodeStatus)
    → All (λ t. member t us ≡ true) ts
    → (t : EpisodeStatus) → member t ts ≡ true
    → member t us ≡ true
unfolding member
listed_in [] us h t e = absurd (cc e)
listed_in (x ∷ ts) us (first, others) t e = elim (Bool-cases (is_status t x)) [
  | inl same ↦ subst (λ y. member y us ≡ true) (sym ((is_status_iff t x).0 same)) first
  | inr other ↦ listed_in ts us others t (rw other at e)
]

no_summary_left :
    (doc : Episode)
    → for_summary doc ≡ false
    → (queued transcribed doc ≡ false) × (queued transcript_failed doc ≡ false)
no_summary_left doc h = elim (Bool-cases (queued transcribed doc)) [
  | inl heard ↦ absurd (cc (rw heard at h))
  | inr unheard ↦ (unheard, rw unheard at h)
]

module _ (cfg : RunConfig) (svc : Services) (up : IsUp svc) (i : String) where
  abbrev after_triage : Episode → Episode
  after_triage doc = step (triage_stage cfg svc) (queued new) i doc

  abbrev after_dispatch : Episode → Episode
  after_dispatch doc = step (dispatch_stage cfg svc) (queued triaged) i (after_triage doc)

  abbrev after_transcripts : Episode → Episode
  after_transcripts doc =
      step (transcript_stage cfg svc) (queued awaiting_transcript) i (after_dispatch doc)

  no_new : (doc : Episode) → queued new (after_triage doc) ≡ false
  unfolding member is_status
  no_new doc =
      step-not_queued (triage_stage cfg svc) triage_ends (queued new) i new doc
        (triage-Rounds cfg svc up i doc) refl (λ h. h)

  module _ (u : EpisodeStatus) (others : member u dispatch_ends ≡ false) (doc : Episode) where
    past_dispatch :
        (queued triaged (after_triage doc) ≡ false → queued u (after_triage doc) ≡ false)
        → queued u (after_dispatch doc) ≡ false
    past_dispatch h =
        step-not_queued (dispatch_stage cfg svc) dispatch_ends (queued triaged) i u
          (after_triage doc) (dispatch-Rounds cfg svc up i (after_triage doc)) others h

    past_transcripts :
        member u transcript_ends ≡ false
        → (queued triaged (after_triage doc) ≡ false → queued u (after_triage doc) ≡ false)
        → queued u (after_transcripts doc) ≡ false
    past_transcripts none_of h =
        step-not_queued (transcript_stage cfg svc) transcript_ends (queued awaiting_transcript) i u
          (after_dispatch doc) (transcript-Rounds cfg svc up i (after_dispatch doc)) none_of
          (λ _. past_dispatch h)

  -- No stage has anything left to do, but for what waits for another try at its transcript.
  pub carry-not_queued :
      (doc : Episode)
      → (queued new (carry cfg svc i doc) ≡ false)
        × (queued triaged (carry cfg svc i doc) ≡ false)
        × (queued transcribed (carry cfg svc i doc) ≡ false)
        × (queued transcript_failed (carry cfg svc i doc) ≡ false)
  unfolding carry member is_status
  carry-not_queued doc = (
    last new refl (λ _. past_transcripts new refl doc refl (λ _. no_new doc)),
    last triaged refl (λ _. past_transcripts triaged refl doc refl (λ h. h)),
    last transcribed refl (λ h. (no_summary_left (after_transcripts doc) h).0),
    last transcript_failed refl (λ h. (no_summary_left (after_transcripts doc) h).1),
  )
    where
      last :
          (u : EpisodeStatus)
          → member u summary_ends ≡ false
          → (for_summary (after_transcripts doc) ≡ false → queued u (after_transcripts doc) ≡ false)
          → queued u (step (summary_stage cfg svc) for_summary i (after_transcripts doc)) ≡ false
      last u none_of h =
          step-not_queued (summary_stage cfg svc) summary_ends for_summary i u
            (after_transcripts doc) (summary-Rounds cfg svc up i (after_transcripts doc)) none_of h

  carry-flow : (doc : Episode) → OneOf flow doc → OneOf flow (carry cfg svc i doc)
  unfolding carry member is_status
  carry-flow doc one =
      step-OneOf (summary_stage cfg svc) summary_ends flow for_summary i _
        (summary-Rounds cfg svc up i _) (listed_in summary_ends flow (refl, (refl, (refl, tt))))
        (step-OneOf (transcript_stage cfg svc) transcript_ends flow (queued awaiting_transcript) i _
          (transcript-Rounds cfg svc up i _)
          (listed_in transcript_ends flow (refl, (refl, (refl, (refl, tt)))))
          (step-OneOf (dispatch_stage cfg svc) dispatch_ends flow (queued triaged) i _
            (dispatch-Rounds cfg svc up i _)
            (listed_in dispatch_ends flow (refl, (refl, (refl, (refl, tt)))))
            (step-OneOf (triage_stage cfg svc) triage_ends flow (queued new) i doc
              (triage-Rounds cfg svc up i doc) (listed_in triage_ends flow (refl, (refl, tt)))
              one)))

at_rest :
    (s : EpisodeStatus) (doc : Episode)
    → member s flow ≡ true
    → At s doc
    → doc.origin ≡ routine_origin
    → (queued new doc ≡ false)
      × (queued triaged doc ≡ false)
      × (queued transcribed doc ≡ false)
      × (queued transcript_failed doc ≡ false)
    → member s settled ≡ true
unfolding member is_status value
at_rest new doc m at r (a, b, c, d) = absurd (cc (queued_At new doc at r, a))
at_rest triaged doc m at r (a, b, c, d) = absurd (cc (queued_At triaged doc at r, b))
at_rest transcribed doc m at r (a, b, c, d) = absurd (cc (queued_At transcribed doc at r, c))
at_rest transcript_failed doc m at r (a, b, c, d) =
    absurd (cc (queued_At transcript_failed doc at r, d))
at_rest summarized doc m at r h = absurd (cc m)
at_rest published doc m at r h = absurd (cc m)
at_rest _ doc m at r h = refl

module _ (cfg : RunConfig) (svc : Services) (up : IsUp svc) (s : Episodes) (u : Unique s)
    (fits : Fits cfg (to_do s)) (i : String) (doc : Episode) (there : lookup i s ≡ some doc) where
  -- A store that has each id once, services that are up, and no more routine episodes that are owed
  -- work than the run takes at each stage, fewer for the summaries: one run leaves nothing for triage,
  -- dispatch or summary, as an episode of the store is in none of these queues afterwards.
  pub run_pipeline-drains :
      (doc' : Episode) × (lookup i (run_pipeline cfg svc s).1 ≡ some doc')
      × (queued new doc' ≡ false)
      × (queued triaged doc' ≡ false)
      × (queued transcribed doc' ≡ false)
      × (queued transcript_failed doc' ≡ false)
  run_pipeline-drains =
      let idle = carry-not_queued cfg svc up i doc in
      (
        carry cfg svc i doc,
        (run_pipeline-carry cfg svc up s u fits).1 i ∙ ap (carried_of cfg svc i) there,
        idle.0,
        idle.1,
        idle.2,
        idle.3,
      )

  -- A store that has each id once, services that are up, and no more routine episodes that are owed
  -- work than the run takes at each stage, fewer for the summaries: one run carries a new routine
  -- episode all the way. It is dropped, goes to the digest directly, is scored, has failed with an error,
  -- or waits for another try at its transcript.
  pub run_pipeline-settles :
      queued new doc ≡ true
      → (doc' : Episode) × (lookup i (run_pipeline cfg svc s).1 ≡ some doc') × OneOf settled doc'
  unfolding member is_status
  run_pipeline-settles h =
      let start = queued-At new doc h in
      let end =
        carry-flow cfg svc up i doc
          (record { status = new; listed = refl; at = start.0; routine = start.1 }) in
      (
        carry cfg svc i doc,
        (run_pipeline-carry cfg svc up s u fits).1 i ∙ ap (carried_of cfg svc i) there,
        record {
          status = end.status;
          listed =
              at_rest end.status (carry cfg svc i doc) end.listed end.at end.routine
                (carry-not_queued cfg svc up i doc);
          at = end.at;
          routine = end.routine;
        },
      )
