-- ===== src/Transcript.antt =====
-- podcast_agent/transcripts/stage.py: the transcript stage on the document of one episode, with
-- its retry budget and its crash budget, and the handling of its exceptions by the
-- `_stage_transcripts` of podcast_agent/pipeline/runner.py. How an acquisition ends is an argument.
pub mod Budget
pub mod Outage
use podcast_digest.Common.{
  ℕ, ◌+◌, String, Bool, true, false, ◌||◌, not, Option, none, some, List, [], ◌∷◌, ◌==◌, string_eq,
  nat_eq, leb, if◌then◌else◌, Dict, insert,
}
use podcast_digest.Errors.{Error, Result, ok, err, asr_unavailable}
use podcast_digest.Status.{
  EpisodeStatus, value, awaiting_transcript, transcribed, transcript_failed,
}
use podcast_digest.Episode.{
  Episode, LastError, status_of, apply_transition, apply_error, attempt_count, bump_attempt,
}

abbrev pub crash_budget : ℕ
crash_budget = 3

pub record TranscriptResult : Type 0 where
  pub chars : ℕ
  pub source : String
  pub duration_s : Option ℕ

-- How `acquirer.acquire` ends: with a transcript, with `ASRUnavailable`, with
-- `TranscriptUnavailable`, with any other exception, or not at all because the process is killed.
pub data Acquisition : Type 0 where
  found : TranscriptResult → Acquisition
  backend_down : Acquisition
  unavailable : (retryable : Bool) → Acquisition
  raised : Error → Acquisition
  killed : Acquisition

-- How a stage ends for one episode.
pub data StageEnd : Type 0 where
  ended : EpisodeStatus → StageEnd
  raises : Error → StageEnd
  dies : StageEnd

-- A guarded write, and then the end of the stage; a write that raises ends the stage itself.
abbrev pub settle : StageEnd → Episode → Result Episode → StageEnd × Episode
settle end doc (ok doc') = (end, doc')
settle end doc (err e) = (raises e, doc)

unfoldable pub claim : Episode → Episode
unfolding bump_attempt
claim = bump_attempt "transcript_crash"

unfoldable pub release : ℕ → Episode → Episode
release crashes_before doc = record doc {
  attempts = insert "transcript_crash" crashes_before doc.attempts;
}

abbrev stage_error : ℕ → Option LastError
stage_error now = some (record { stage = "transcript"; at = now; status_when_failed = none })

unfoldable pub note_give_up : ℕ → Episode → Episode
note_give_up now doc = record doc { last_error = stage_error now }

unfoldable pub note_failure : ℕ → ℕ → Episode → Episode
unfolding release bump_attempt
note_failure crashes_before now doc =
    record (bump_attempt "transcript" (release crashes_before doc)) { last_error = stage_error now }

-- `if result.duration_s and not doc.get("duration_s")`
abbrev true_length : Option ℕ → Option ℕ → Option ℕ
true_length none own = own
true_length (some n) none = if n == 0 then none else some n
true_length (some n) (some m) = if n == 0 then some m else if m == 0 then some n else some m

unfoldable pub note_transcript : ℕ → TranscriptResult → ℕ → Episode → Episode
unfolding release bump_attempt
note_transcript crashes_before r now doc =
    record (bump_attempt "transcript" (release crashes_before doc)) {
      transcript_source = some r.source;
      transcript_chars = some r.chars;
      transcript_at = some now;
      duration_s = true_length r.duration_s doc.duration_s;
    }

unfoldable pub give_up : ℕ → Episode → StageEnd × Episode
unfolding note_give_up
give_up now doc =
    settle (ended transcript_failed) doc
      (apply_transition transcript_failed (note_give_up now) now doc)

unfoldable pub handle_failure :
    (max_retries attempts_before crashes_before : ℕ) → Bool → ℕ → Episode → StageEnd × Episode
unfolding note_failure
handle_failure max_retries attempts_before crashes_before retryable now doc =
    let exhausted = not retryable || leb max_retries (attempts_before + 1) in
    let apply = note_failure crashes_before now in
    if exhausted
    then settle (ended transcript_failed) doc (apply_transition transcript_failed apply now doc)
    else settle (ended awaiting_transcript) doc (apply_transition awaiting_transcript apply now doc)

-- What follows the claim.
unfoldable pub after_claim :
    (max_retries attempts_before crashes_before : ℕ)
    → Acquisition
    → ℕ
    → Episode
    → StageEnd × Episode
unfolding release note_transcript handle_failure
after_claim max_retries t c (found r) now doc =
    settle (ended transcribed) doc (apply_transition transcribed (note_transcript c r now) now doc)
after_claim max_retries t c backend_down now doc =
    settle (raises asr_unavailable) doc (apply_transition awaiting_transcript (release c) now doc)
after_claim max_retries t c (unavailable retryable) now doc =
    handle_failure max_retries t c retryable now doc
after_claim max_retries t c (raised e) now doc = (raises e, doc)
after_claim max_retries t c killed now doc = (dies, doc)

unfoldable pub process : ℕ → Acquisition → ℕ → Episode → StageEnd × Episode
unfolding attempt_count
process max_retries how now doc =
    let attempts_before = attempt_count doc "transcript" in
    let crashes_before = attempt_count doc "transcript_crash" in
    if leb crash_budget crashes_before
    then give_up now doc
    else elim (apply_transition awaiting_transcript claim now doc) [
      | err e ↦ (raises e, doc)
      | ok claimed ↦ after_claim max_retries attempts_before crashes_before how now claimed
    ]

-- The runner's handlers: `ASRUnavailable` defers the stage, any other exception is recorded.
unfoldable pub recorded : ℕ → StageEnd × Episode → Episode
recorded now (ended s, doc) = doc
recorded now (raises asr_unavailable, doc) = doc
recorded now (raises e, doc) = apply_error "transcript" now doc
recorded now (dies, doc) = doc

unfoldable pub pick_up : ℕ → Acquisition → ℕ → Episode → Episode
unfolding recorded process
pick_up max_retries how now doc = recorded now (process max_retries how now doc)

-- The queue is the episodes whose status is AWAITING_TRANSCRIPT.
unfoldable pub pick_up_all : ℕ → List (Acquisition × ℕ) → Episode → Episode
unfolding pick_up
pick_up_all max_retries [] doc = doc
pick_up_all max_retries ((how, now) ∷ rest) doc =
    let next = pick_up_all max_retries rest (pick_up max_retries how now doc) in
    if status_of doc == value awaiting_transcript then next else doc
