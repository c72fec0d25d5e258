-- ===== src/Runner/Rounds.antt =====
-- podcast_agent/pipeline/runner.py: the four stages on one episode of their queues.
use podcast_digest.Common.{
  ℕ, ◌+◌, String, Bool, true, false, ◌||◌, not, none, List, [], ◌∷◌, ◌==◌, string_eq, leb,
  Bool-cases, ◌≡◌, refl, ap, ◌∙◌, ◌⊎◌, inl, inr, arith,
}
use podcast_digest.Errors.{Error, err, value_error, Result-cases}
use podcast_digest.Status.{
  EpisodeStatus, new, triaged, awaiting_transcript, transcribed, transcript_failed, summarized,
  ready_for_digest, scored_low, digest_direct, dropped, error, member, can_transition, is_status,
}
use podcast_digest.Episode.{Episode, bump_attempt}
use podcast_digest.Episode.Moves.{moved_to, apply_transition-moves}
use podcast_digest.Digest.Listing.{routine_origin}
use podcast_digest.Transcript.{
  Acquisition, found, backend_down, unavailable, raised, killed, claim, ended, process, settle,
  after_claim, handle_failure, note_transcript, note_failure, note_give_up, crash_budget, release,
}
use podcast_digest.Transcript.Budget.{
  tries, crashes, claimed, Waiting-claimed, process-claimed, process-given_up, to_awaiting,
  to_transcribed, to_failed,
}
use podcast_digest.Triage.{
  Route, drop, Tier0Result, decide_route, record_verdict, triage, dispatch, target, stored_route,
}
use podcast_digest.Triage.Dispatch.{target_legal, target_leaves}
use podcast_digest.Tier1.{resolve_content, score, summarize, record_summary}
use podcast_digest.Tier1.Classified.{summarize-moves, verdict, verdict_cases}
use podcast_digest.Runner.{
  RunConfig, Services, queued, without_asr, without_llm, triage_stage, dispatch_stage,
  transcript_stage, summary_stage, ending, triage_episode,
}
use podcast_digest.Runner.Steps.{At, Rounds, queued-At, At-status_of, ended-Rounds, raises-Rounds}

-- An acquisition that neither finds the backend down nor loses the process.
unfoldable pub answers : Acquisition → Bool
answers (found r) = true
answers (unavailable retryable) = true
answers (raised e) = not (without_asr e)
answers backend_down = false
answers killed = false

pub record IsUp (svc : Services) : Type 0 where
  pub triage_model : (i : String) (e : Error) → svc.ask0 i ≡ err e → without_llm e ≡ false
  pub summary_model :
      (i content basis : String) (e : Error)
      → svc.ask1 i content basis ≡ err e
      → without_llm e ≡ false
  pub backend : (i : String) → answers (svc.acquire i) ≡ true

abbrev pub triage_ends : List EpisodeStatus
triage_ends = triaged ∷ error ∷ []

abbrev pub dispatch_ends : List EpisodeStatus
dispatch_ends = dropped ∷ digest_direct ∷ awaiting_transcript ∷ error ∷ []

abbrev pub transcript_ends : List EpisodeStatus
transcript_ends = transcribed ∷ transcript_failed ∷ awaiting_transcript ∷ error ∷ []

abbrev pub summary_ends : List EpisodeStatus
summary_ends = ready_for_digest ∷ scored_low ∷ error ∷ []

module _ (cfg : RunConfig) (svc : Services) (up : IsUp svc) (i : String) (doc : Episode) where
  verdict_of : Tier0Result → Episode → Episode
  verdict_of r =
      record_verdict r (decide_route r cfg.pipeline (svc.always_escalate doc.podcast_slug))
        cfg.tier1.valid_keys cfg.tier1.profile_version (svc.clock "triage" i)

  pub triage-Rounds : queued new doc ≡ true → Rounds (triage_stage cfg svc) triage_ends i doc
  unfolding triage_stage member is_status can_transition
  triage-Rounds h =
      let there = queued-At new doc h in
      elim (Result-cases (svc.ask0 i)) [
        | inr (e, no_answer) ↦
            raises-Rounds (triage_stage cfg svc) triage_ends i doc doc there.1 new e
              (rw (no_answer, triage_episode) refl) (up.triage_model i e no_answer) there.0 refl
              refl
        | inl (r, answered) ↦
            ended-Rounds (triage_stage cfg svc) triage_ends i doc
              (moved_to triaged (verdict_of r) (svc.clock "triage" i) doc)
              (unfold verdict_of moved_to record_verdict bump_attempt in there.1) triaged
              (rw (answered, triage_episode)
                (unfold triage verdict_of in
                  rw
                    (apply_transition-moves triaged new (verdict_of r) (svc.clock "triage" i) doc
                      (At-status_of new doc there.0) refl refl)
                    refl))
              (unfold moved_to in refl) refl
      ]

  target_listed : (r : Route) → member (target r) dispatch_ends ≡ true
  unfolding target member is_status
  target_listed drop = refl
  target_listed _ = refl

  pub dispatch-Rounds :
      queued triaged doc ≡ true → Rounds (dispatch_stage cfg svc) dispatch_ends i doc
  unfolding dispatch_stage member is_status can_transition
  dispatch-Rounds h =
      let there = queued-At triaged doc h in
      elim (Result-cases (stored_route doc.tier0)) [
        | inr (e, no_answer) ↦
            raises-Rounds (dispatch_stage cfg svc) dispatch_ends i doc doc there.1 triaged e
              (unfold dispatch in rw (no_answer, dispatch) refl) refl there.0 refl refl
        | inl (r, stored) ↦
            ended-Rounds (dispatch_stage cfg svc) dispatch_ends i doc
              (moved_to (target r) (λ d. d) (svc.clock "dispatch" i) doc)
              (unfold moved_to in there.1) (target r)
              (unfold dispatch in
                rw (stored, dispatch)
                  (rw
                    (
                      apply_transition-moves (target r) triaged (λ d. d) (svc.clock "dispatch" i)
                          doc (At-status_of triaged doc there.0) (target_leaves r) (target_legal r),
                      ending,
                    )
                    refl))
              (unfold moved_to in refl) (target_listed r)
      ]

  abbrev instant : ℕ
  instant = svc.clock "transcripts" i

  -- The acquisition behind the claim.
  acquired-Rounds :
      (how : Acquisition)
      → svc.acquire i ≡ how
      → answers how ≡ true
      → At awaiting_transcript doc
      → doc.origin ≡ routine_origin
      → process cfg.max_retries (svc.acquire i) instant doc
        ≡ after_claim cfg.max_retries (tries doc) (crashes doc) how instant (claimed instant doc)
      → Rounds (transcript_stage cfg svc) transcript_ends i doc
  unfolding transcript_stage member is_status can_transition moved_to after_claim handle_failure
      bump_attempt note_transcript note_failure release answers claim
  acquired-Rounds (found r) e up_now at routine h =
      ended-Rounds (transcript_stage cfg svc) transcript_ends i doc
        (moved_to transcribed (note_transcript (crashes doc) r instant) instant
          (claimed instant doc))
        routine transcribed
        (h
          ∙ ap (settle (ended transcribed) (claimed instant doc))
              (to_transcribed _ instant (claimed instant doc) (Waiting-claimed instant doc)))
        refl refl
  acquired-Rounds (unavailable retryable) e up_now at routine h =
      elim (Bool-cases (not retryable || leb cfg.max_retries (tries doc + 1))) [
        | inl spent ↦
            ended-Rounds (transcript_stage cfg svc) transcript_ends i doc
              (moved_to transcript_failed (note_failure (crashes doc) instant) instant
                (claimed instant doc))
              routine transcript_failed
              (h
                ∙ rw spent (
                    ap (settle (ended transcript_failed) (claimed instant doc))
                      (to_failed _ instant (claimed instant doc) (Waiting-claimed instant doc))))
              refl refl
        | inr budget ↦
            ended-Rounds (transcript_stage cfg svc) transcript_ends i doc
              (moved_to awaiting_transcript (note_failure (crashes doc) instant) instant
                (claimed instant doc))
              routine awaiting_transcript
              (h
                ∙ rw budget (
                    ap (settle (ended awaiting_transcript) (claimed instant doc))
                      (to_awaiting _ instant (claimed instant doc) (Waiting-claimed instant doc))))
              refl refl
      ]
  acquired-Rounds (raised x) e up_now at routine h =
      raises-Rounds (transcript_stage cfg svc) transcript_ends i doc (claimed instant doc) routine
        awaiting_transcript x h (ground arith) refl refl refl
  acquired-Rounds backend_down e up_now at routine h = absurd (cc up_now)
  acquired-Rounds killed e up_now at routine h = absurd (cc up_now)

  pub transcript-Rounds :
      queued awaiting_transcript doc ≡ true
      → Rounds (transcript_stage cfg svc) transcript_ends i doc
  unfolding transcript_stage member is_status
  transcript-Rounds h =
      let there = queued-At awaiting_transcript doc h in
      let waiting = At-status_of awaiting_transcript doc there.0 in
      elim (Bool-cases (leb crash_budget (crashes doc))) [
        | inl spent ↦
            ended-Rounds (transcript_stage cfg svc) transcript_ends i doc
              (moved_to transcript_failed (note_give_up instant) instant doc)
              (unfold moved_to note_give_up in there.1) transcript_failed
              (process-given_up cfg.max_retries (svc.acquire i) instant doc waiting spent)
              (unfold moved_to in refl) refl
        | inr fresh ↦
            acquired-Rounds (svc.acquire i) refl (up.backend i) there.0 there.1
              (process-claimed cfg.max_retries (svc.acquire i) instant doc waiting fresh)
      ]

  abbrev content : String × String
  content = resolve_content svc.strip (svc.load i) doc

  summary-Rounds_from :
      (t : EpisodeStatus)
      → (t ≡ transcribed) ⊎ (t ≡ transcript_failed)
      → can_transition t error ≡ true
      → At t doc
      → doc.origin ≡ routine_origin
      → Rounds (summary_stage cfg svc) summary_ends i doc
  unfolding summary_stage member is_status summarize score moved_to record_summary bump_attempt
  summary-Rounds_from t waits can at routine = elim (Bool-cases (svc.strip content.0 == "")) [
    | inl blank ↦
        raises-Rounds (summary_stage cfg svc) summary_ends i doc doc routine t value_error
          (rw (blank, summarize) refl) (unfold without_llm in refl) at can refl
    | inr text ↦ elim (Result-cases (svc.ask1 i content.0 content.1)) [
      | inr (e, no_answer) ↦
          raises-Rounds (summary_stage cfg svc) summary_ends i doc doc routine t e
            (rw (text, summarize) (rw (no_answer, summarize) refl))
            (up.summary_model i content.0 content.1 e no_answer) at can refl
      | inl (r, answered) ↦
          let now = svc.clock "summarize" i in
          let v =
            verdict svc.strip cfg.tier1 none (svc.load i) (svc.ask1 i) now doc t waits at r text
              answered in
          ended-Rounds (summary_stage cfg svc) summary_ends i doc
            (moved_to v (λ d. d) now
              (moved_to summarized (record_summary cfg.tier1 r content.1 now) now doc))
            routine v
            (ap (ending doc) (
              summarize-moves svc.strip cfg.tier1 none (svc.load i) (svc.ask1 i) now doc t waits at
                r text answered))
            refl
            (elim (verdict_cases svc.strip cfg.tier1 none (svc.load i) (svc.ask1 i) now doc t waits
              at r text answered) [
                | inl ready ↦ ap (λ x. member x summary_ends) ready
                | inr low ↦ ap (λ x. member x summary_ends) low
              ])
    ]
  ]

  pub summary-Rounds :
      (queued transcribed doc || queued transcript_failed doc) ≡ true
      → Rounds (summary_stage cfg svc) summary_ends i doc
  unfolding can_transition
  summary-Rounds h = elim (Bool-cases (queued transcribed doc)) [
    | inl heard ↦
        let there = queued-At transcribed doc heard in
        summary-Rounds_from transcribed (inl refl) refl there.0 there.1
    | inr unheard ↦
        let there = queued-At transcript_failed doc (rw unheard at h) in
        summary-Rounds_from transcript_failed (inr refl) refl there.0 there.1
  ]
