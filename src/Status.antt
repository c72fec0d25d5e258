-- ===== src/Status.antt =====
-- podcast_agent/state.py: the status of an episode and the table of legal transitions. A document
-- stores a status as text, its `value`.
pub mod Machine
use podcast_digest.Common.{
  String, Bool, Option, none, some, List, [], ◌∷◌, ◌==◌, string_eq, if◌then◌else◌,
}
use podcast_digest.Errors.{Result, ok, err, value_error, illegal_transition, ◌>>=◌}

pub data EpisodeStatus : Type 0 where
  new triaged awaiting_transcript transcribed transcript_failed : EpisodeStatus
  summarized ready_for_digest digest_direct scored_low dropped published error : EpisodeStatus

unfoldable pub value : EpisodeStatus → String
value new = "NEW"
value triaged = "TRIAGED"
value awaiting_transcript = "AWAITING_TRANSCRIPT"
value transcribed = "TRANSCRIBED"
value transcript_failed = "TRANSCRIPT_FAILED"
value summarized = "SUMMARIZED"
value ready_for_digest = "READY_FOR_DIGEST"
value digest_direct = "DIGEST_DIRECT"
value scored_low = "SCORED_LOW"
value dropped = "DROPPED"
value published = "PUBLISHED"
value error = "ERROR"

abbrev pub statuses : List EpisodeStatus
statuses =
    new ∷ triaged ∷ awaiting_transcript ∷ transcribed ∷ transcript_failed ∷ summarized
    ∷ ready_for_digest ∷ digest_direct ∷ scored_low ∷ dropped ∷ published ∷ error ∷ []

-- `EpisodeStatus(text)`
with_value : String → List EpisodeStatus → Option EpisodeStatus
unfolding value
with_value text [] = none
with_value text (s ∷ rest) = if text == value s then some s else with_value text rest

unfoldable pub parse_status : String → Option EpisodeStatus
unfolding with_value
parse_status text = with_value text statuses

-- Equality of `StrEnum` members is equality of their values.
unfoldable pub is_status : EpisodeStatus → EpisodeStatus → Bool
unfolding value
is_status a b = value a == value b

unfoldable pub member : EpisodeStatus → List EpisodeStatus → Bool
unfolding is_status
member s [] = Bool.false
member s (x ∷ xs) = let rest = member s xs in if is_status s x then Bool.true else rest

abbrev pub active_statuses : List EpisodeStatus
active_statuses =
    new ∷ triaged ∷ awaiting_transcript ∷ transcribed ∷ transcript_failed ∷ summarized ∷ []

abbrev pub digestable_statuses : List EpisodeStatus
digestable_statuses = ready_for_digest ∷ digest_direct ∷ []

abbrev pub audit_only_statuses : List EpisodeStatus
audit_only_statuses = scored_low ∷ dropped ∷ transcript_failed ∷ error ∷ []

-- ALLOWED_TRANSITIONS
unfoldable pub allowed_transitions : EpisodeStatus → List EpisodeStatus
allowed_transitions new = triaged ∷ error ∷ []
allowed_transitions triaged = awaiting_transcript ∷ digest_direct ∷ dropped ∷ error ∷ []
allowed_transitions awaiting_transcript =
    awaiting_transcript ∷ transcribed ∷ transcript_failed ∷ error ∷ []
allowed_transitions transcribed = summarized ∷ error ∷ []
allowed_transitions transcript_failed = summarized ∷ awaiting_transcript ∷ error ∷ []
allowed_transitions summarized = ready_for_digest ∷ scored_low ∷ error ∷ []
allowed_transitions ready_for_digest = published ∷ scored_low ∷ awaiting_transcript ∷ error ∷ []
allowed_transitions digest_direct = published ∷ awaiting_transcript ∷ error ∷ []
allowed_transitions scored_low = awaiting_transcript ∷ ready_for_digest ∷ published ∷ error ∷ []
allowed_transitions dropped = awaiting_transcript ∷ []
allowed_transitions published = awaiting_transcript ∷ []
allowed_transitions error = new ∷ awaiting_transcript ∷ transcribed ∷ transcript_failed ∷ []

unfoldable pub can_transition : EpisodeStatus → EpisodeStatus → Bool
unfolding allowed_transitions member
can_transition current requested = member requested (allowed_transitions current)

-- Both arguments may be raw text, as a document holds it.
abbrev pub checked : Option EpisodeStatus → Option EpisodeStatus → Result EpisodeStatus
checked (some current) (some requested) =
    if can_transition current requested
    then ok requested
    else err (illegal_transition (value current) (value requested))
checked _ _ = err value_error

unfoldable pub assert_transition : String → String → Result EpisodeStatus
assert_transition current requested = checked (parse_status current) (parse_status requested)

unfoldable pub retry_target : EpisodeStatus → EpisodeStatus
retry_target error = awaiting_transcript
retry_target transcript_failed = awaiting_transcript
retry_target awaiting_transcript = awaiting_transcript
retry_target current = current
