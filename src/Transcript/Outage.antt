-- ===== src/Transcript/Outage.antt =====
-- An outage of the transcription backend, and an exception that the stage does not expect.
use podcast_digest.Common.{ℕ, ◌+◌, ◌<◌, false, ◌≡◌, ◌≢◌, refl, ◌∙◌, arith, leb}
use podcast_digest.Errors.{Error, asr_unavailable}
use podcast_digest.Status.{value, awaiting_transcript, error, can_transition}
use podcast_digest.Episode.{Episode, status_of}
use podcast_digest.Episode.Moves.{moved_to, failed_in, apply_error-moves}
use podcast_digest.Transcript.{
  crash_budget, backend_down, raised, raises, release, after_claim, process, recorded, pick_up,
}
use podcast_digest.Transcript.Budget.{
  tries, crashes, claimed, Waiting-claimed, crashes-claimed, tries-claimed, process-claimed,
  to_awaiting, crashes-released, tries-released,
}

fresh_of : (c : ℕ) → c < crash_budget → leb crash_budget c ≡ false
fresh_of c h = ground arith

-- An outage of the backend costs an episode nothing: the stage raises `ASRUnavailable`, and the
-- episode stays queued with both counters as they were.
pub outage_is_free :
    (max_retries now : ℕ) (doc : Episode)
    → status_of doc ≡ value awaiting_transcript
    → crashes doc < crash_budget
    → let after = process max_retries backend_down now doc in
      (after.0 ≡ raises asr_unavailable)
      × (pick_up max_retries backend_down now doc ≡ after.1)
      × (status_of after.1 ≡ value awaiting_transcript)
      × (tries after.1 ≡ tries doc)
      × (crashes after.1 ≡ crashes doc)
unfolding pick_up after_claim
outage_is_free max_retries now doc w h =
    rw
      (
        process-claimed max_retries backend_down now doc w (fresh_of (crashes doc) h),
        to_awaiting (release (crashes doc)) now (claimed now doc) (Waiting-claimed now doc),
      )
      (
        refl,
        unfold recorded in refl,
        unfold moved_to in refl,
        tries-released awaiting_transcript (crashes doc) now (claimed now doc)
            ∙ tries-claimed now doc,
        crashes-released awaiting_transcript (crashes doc) now (claimed now doc),
      )

-- An exception that is neither `ASRUnavailable` nor `TranscriptUnavailable` leaves the in-flight
-- marker behind: the episode goes to ERROR with one crash more than before, though no process died.
pub exception_counts_as_crash :
    (max_retries now : ℕ) (e : Error) (doc : Episode)
    → e ≢ asr_unavailable
    → status_of doc ≡ value awaiting_transcript
    → crashes doc < crash_budget
    → let after = pick_up max_retries (raised e) now doc in
      (status_of after ≡ value error) × (crashes after ≡ crashes doc + 1)
unfolding pick_up after_claim
exception_counts_as_crash max_retries now e doc ne w h =
    rw (process-claimed max_retries (raised e) now doc w (fresh_of (crashes doc) h)) (at e ne)
  where
    marker : crashes (failed_in "transcript" now (claimed now doc)) ≡ crashes doc + 1
    marker = unfold failed_in in crashes-claimed now doc

    at :
        (e : Error)
        → e ≢ asr_unavailable
        → (status_of (recorded now (raises e, claimed now doc)) ≡ value error)
          × (crashes (recorded now (raises e, claimed now doc)) ≡ crashes doc + 1)
    at asr_unavailable ne = absurd (ne refl)
    at e ne =
        rw
          (apply_error-moves awaiting_transcript "transcript" now (claimed now doc)
            (Waiting-claimed now doc) (unfold can_transition in refl))
          (unfold failed_in in refl, marker)
