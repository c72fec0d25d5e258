-- ===== src/Operator.antt =====
-- podcast_agent/api/routes.py: the two requests by which the owner moves an episode on, `retry` and
-- `escalate`, on the document of that episode.
pub mod Resume
use podcast_digest.Common.{
  ℕ, String, Bool, true, false, ◌&&◌, ◌||◌, not, Option, none, some, ◌==◌, string_eq, if◌then◌else◌,
  Dict, insert,
}
use podcast_digest.Errors.{Error, Result, ok, err, value_error, key_error, illegal_transition}
use podcast_digest.Status.{
  EpisodeStatus, error, published, awaiting_transcript, value, parse_status, is_status,
  retry_target,
}
use podcast_digest.Episode.{current_status, Episode, LastError, apply_transition}

-- The answer of a request: 200 with the statuses before and after, 409, or an uncaught exception.
pub data Response : Type 0 where
  moves : EpisodeStatus → EpisodeStatus → Response
  http_409 : Response
  uncaught : Error → Response

abbrev truthy_status : Option String → Option EpisodeStatus
truthy_status none = none
truthy_status (some text) = if text == "" then none else parse_status text

abbrev resumable : Option EpisodeStatus → Option EpisodeStatus
resumable none = none
resumable (some s) = if is_status s error || is_status s published then none else some s

abbrev status_when_failed : Option LastError → Option String
status_when_failed none = none
status_when_failed (some e) = e.status_when_failed

-- `_resume_point`
unfoldable pub resume_point : Episode → Option EpisodeStatus
resume_point doc = resumable (truthy_status (status_when_failed doc.last_error))

unfoldable pub reset : Episode → Episode
reset doc = record doc {
  attempts = insert "transcript_crash" 0 (insert "transcript" 0 doc.attempts);
  last_error = none;
}

-- `except IllegalTransition` answers 409.
abbrev answered : EpisodeStatus → EpisodeStatus → Episode → Result Episode → Response × Episode
answered current target doc (ok doc') = (moves current target, doc')
answered current target doc (err (illegal_transition a b)) = (http_409, doc)
answered current target doc (err e) = (uncaught e, doc)

unfoldable pub retry_from : EpisodeStatus → EpisodeStatus → ℕ → Episode → Response × Episode
retry_from current target now doc =
    if is_status target current && not (is_status current awaiting_transcript)
    then (http_409, doc)
    else answered current target doc (apply_transition target reset now doc)

abbrev pub target_of : Option EpisodeStatus → EpisodeStatus → EpisodeStatus
target_of none current = retry_target current
target_of (some s) current = s

unfoldable pub retry_episode : ℕ → Episode → Response × Episode
unfolding retry_from resume_point
retry_episode now doc = elim (current_status doc) [
  | err e ↦ (uncaught e, doc)
  | ok current ↦ retry_from current (target_of (resume_point doc) current) now doc
]

unfoldable pub release_claim : EpisodeStatus → ℕ → Episode → Episode
unfolding reset
release_claim current now doc = record (reset doc) {
  forced_escalation = some (value current, now);
  digest_id = none;
}

unfoldable pub escalate_episode : ℕ → Episode → Response × Episode
unfolding release_claim
escalate_episode now doc = elim (current_status doc) [
  | err e ↦ (uncaught e, doc)
  | ok current ↦
      answered current awaiting_transcript doc
        (apply_transition awaiting_transcript (release_claim current now) now doc)
]
