-- ===== src/Runner/OnDemand/Prepared.antt =====
-- podcast_agent/pipeline/runner.py, `summarize_episode`: the part of a request before the summary,
-- with the transcript stage and the write that gives the transcript up.
use podcast_digest.Common.{
  ℕ, ◌+◌, Bool, true, false, ◌||◌, not, string_eq, leb, Bool-cases, beq_refl, ◌≡◌, refl, sym, ap,
  subst, ◌∙◌, ◌⊎◌, inl, inr,
}
use podcast_digest.Status.{
  EpisodeStatus, value, awaiting_transcript, transcribed, transcript_failed, is_status,
  can_transition,
}
use podcast_digest.Status.Machine.{is_status_iff}
use podcast_digest.Episode.{Episode, bump_attempt}
use podcast_digest.Episode.Moves.{moved_to}
use podcast_digest.Transcript.{
  Acquisition, found, backend_down, unavailable, raised, killed, StageEnd, ended, settle, process,
  after_claim, handle_failure, note_transcript, note_failure, note_give_up, release, claim,
  crash_budget,
}
use podcast_digest.Transcript.Budget.{
  tries, crashes, claimed as claimed_doc, Waiting-claimed, process-claimed, process-given_up,
  to_awaiting, to_transcribed, to_failed,
}
use podcast_digest.Runner.{has_text}
use podcast_digest.Runner.Steps.{At, At-status_of}
use podcast_digest.Runner.OnDemand.{without_transcript, acquired, prepare}
use podcast_digest.Runner.OnDemand.Unlisted.{reopened}

-- A transcript, or the news that there is none.
unfoldable pub yields : Acquisition → Bool
yields (found r) = true
yields (unavailable retryable) = true
yields how = false

-- What a request leaves alone.
abbrev pub Kept : Episode → Episode → Type 0
Kept doc d = (d.digest_id ≡ doc.digest_id) × (d.description_raw ≡ doc.description_raw)

-- The part of a request before the summary ended, at `u`.
record Ends (r : StageEnd × Episode) (doc : Episode) : Type 0 where
  outcome : EpisodeStatus
  left : Episode
  equation : r ≡ (ended outcome, left)
  at : At outcome left
  kept : Kept doc left
  which :
      (outcome ≡ transcribed) ⊎ ((outcome ≡ transcript_failed) ⊎ (outcome ≡ awaiting_transcript))

module _ (max_retries : ℕ) (now : ℕ) (doc : Episode) (w : At awaiting_transcript doc) where
  abbrev taken : Episode
  taken = claimed_doc now doc

  after_claim-Ends :
      (how : Acquisition)
      → yields how ≡ true
      → (t c : ℕ) → Ends (after_claim max_retries t c how now taken) doc
  unfolding after_claim handle_failure moved_to note_transcript note_failure release claim
      bump_attempt yields
  after_claim-Ends (found r) y t c = record {
    outcome = transcribed;
    left = moved_to transcribed (note_transcript c r now) now taken;
    equation =
        ap (settle (ended transcribed) taken)
          (to_transcribed _ now taken (Waiting-claimed now doc));
    at = refl;
    kept = (refl, refl);
    which = inl refl;
  }
  after_claim-Ends (unavailable retryable) y t c =
      elim (Bool-cases (not retryable || leb max_retries (t + 1))) [
        | inl spent ↦ record {
          outcome = transcript_failed;
          left = moved_to transcript_failed (note_failure c now) now taken;
          equation = rw spent (
              ap (settle (ended transcript_failed) taken)
                (to_failed _ now taken (Waiting-claimed now doc)));
          at = refl;
          kept = (refl, refl);
          which = inr (inl refl);
        }
        | inr budget ↦ record {
          outcome = awaiting_transcript;
          left = moved_to awaiting_transcript (note_failure c now) now taken;
          equation = rw budget (
              ap (settle (ended awaiting_transcript) taken)
                (to_awaiting _ now taken (Waiting-claimed now doc)));
          at = refl;
          kept = (refl, refl);
          which = inr (inr refl);
        }
      ]
  after_claim-Ends (raised e) y t c = absurd (cc y)
  after_claim-Ends backend_down y t c = absurd (cc y)
  after_claim-Ends killed y t c = absurd (cc y)

  process-Ends :
      (how : Acquisition) → yields how ≡ true → Ends (process max_retries how now doc) doc
  unfolding moved_to note_give_up
  process-Ends how y =
      let waiting = At-status_of awaiting_transcript doc w in
      elim (Bool-cases (leb crash_budget (crashes doc))) [
        | inl spent ↦ record {
          outcome = transcript_failed;
          left = moved_to transcript_failed (note_give_up now) now doc;
          equation = process-given_up max_retries how now doc waiting spent;
          at = refl;
          kept = (refl, refl);
          which = inr (inl refl);
        }
        | inr fresh ↦
            let after = after_claim-Ends how y (tries doc) (crashes doc) in
            record {
              outcome = after.outcome;
              left = after.left;
              equation = process-claimed max_retries how now doc waiting fresh ∙ after.equation;
              at = after.at;
              kept = after.kept;
              which = after.which;
            }
      ]

-- Ready for the summary.
pub record Prepared (r : StageEnd × Episode) (doc : Episode) : Type 0 where
  pub outcome : EpisodeStatus
  pub left : Episode
  pub equation : r ≡ (ended outcome, left)
  pub at : At outcome left
  pub kept : Kept doc left
  pub which : (outcome ≡ transcribed) ⊎ (outcome ≡ transcript_failed)

given_up-Prepared :
    (now : ℕ) (doc d : Episode)
    → At awaiting_transcript d
    → Kept doc d
    → Prepared (without_transcript now d) doc
unfolding without_transcript has_text value moved_to
given_up-Prepared now doc d at kept = record {
  outcome = transcript_failed;
  left = moved_to transcript_failed (λ x. x) now d;
  equation = rw (ap (λ o. has_text o (value transcript_failed)) at) (
      ap (settle (ended transcript_failed) d)
        (to_failed (λ x. x) now d (At-status_of awaiting_transcript d at)));
  at = refl;
  kept = kept;
  which = inr refl;
}

by_outcome :
    (now : ℕ) (u : EpisodeStatus) (doc d : Episode)
    → At u d
    → Kept doc d
    → (u ≡ transcribed) ⊎ ((u ≡ transcript_failed) ⊎ (u ≡ awaiting_transcript))
    → Prepared (acquired now (ended u, d)) doc
unfolding acquired is_status
by_outcome now u doc d at kept (inl e) = record {
  outcome = transcribed;
  left = d;
  equation = rw e refl;
  at = subst (λ x. At x d) e at;
  kept = kept;
  which = inl refl;
}
by_outcome now u doc d at kept (inr (inl e)) = record {
  outcome = transcript_failed;
  left = d;
  equation = rw e (failed_already (subst (λ x. At x d) e at));
  at = subst (λ x. At x d) e at;
  kept = kept;
  which = inr refl;
}
  where
    failed_already :
        At transcript_failed d → without_transcript now d ≡ (ended transcript_failed, d)
    failed_already there =
        unfold without_transcript has_text in
        rw
          (ap (λ o. has_text o (value transcript_failed)) there
            ∙ beq_refl (value transcript_failed))
          refl
by_outcome now u doc d at kept (inr (inr e)) =
    rw e (given_up-Prepared now doc d (subst (λ x. At x d) e at) kept)

acquired-Prepared :
    (now : ℕ) (r : StageEnd × Episode) (doc : Episode) → Ends r doc → Prepared (acquired now r) doc
acquired-Prepared now r doc e =
    subst (λ x. Prepared (acquired now x) doc) (sym e.equation)
      (by_outcome now e.outcome doc e.left e.at e.kept e.which)

pub prepare-Prepared :
    (max_retries : ℕ) (how : Acquisition) (now : ℕ) (t : EpisodeStatus) (doc : Episode)
    → yields how ≡ true
    → At t doc
    → (t ≡ transcribed) ⊎ (can_transition t awaiting_transcript ≡ true)
    → Prepared (prepare max_retries how now t doc) doc
unfolding prepare moved_to
prepare-Prepared max_retries how now t doc y at way = elim (Bool-cases (is_status t transcribed)) [
  | inl e ↦
      let same : t ≡ transcribed = (is_status_iff t transcribed).0 e in
      rw e (record {
        outcome = transcribed;
        left = doc;
        equation = refl;
        at = subst (λ x. At x doc) same at;
        kept = (refl, refl);
        which = inl refl;
      })
  | inr e ↦ elim way [
    | inl same ↦ absurd (cc (e, (is_status_iff t transcribed).1 same))
    | inr can ↦
        let waiting = moved_to awaiting_transcript (λ d. d) now doc in
        let p = process-Ends max_retries now waiting refl how y in
        rw e (
          rw (reopened t now doc at can, prepare)
            (acquired-Prepared now (process max_retries how now waiting) doc (record {
              outcome = p.outcome;
              left = p.left;
              equation = p.equation;
              at = p.at;
              kept = p.kept;
              which = p.which;
            })))
  ]
]
