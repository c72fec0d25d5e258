-- ===== src/Episode.antt =====
-- podcast_agent/episodes.py: the episode document and its guarded status changes. Instants are
-- numbers; the free text of an error (message, traceback) and call telemetry are left out.
pub mod History
pub mod Keys
pub mod Moves
pub mod Stored
use podcast_digest.Common.{
  ℕ, ◌+◌, String, Bool, true, false, ◌&&◌, not, Option, none, some, List, [], ◌==◌, string_eq,
  if◌then◌else◌, Dict, lookup, insert,
}
use podcast_digest.Errors.{value_error, key_error, Result, ok, err, ◌>>=◌}
use podcast_digest.Status.{parse_status, EpisodeStatus, value, assert_transition, is_status}

pub record LastError : Type 0 where
  pub stage : String
  pub at : ℕ
  pub status_when_failed : Option String

-- The `tier0` and `tier1` blocks of a document.
pub record Tier0Block : Type 0 where
  pub relevance_guess : ℕ
  pub confidence : ℕ
  pub matched_interests : List String
  pub model_suggested_route : String
  pub route : String
  pub rule : String
  pub profile_version : String
  pub at : ℕ

pub record Tier1Block : Type 0 where
  pub relevance_score : ℕ
  pub matched_interests : List String
  pub summary_md : String
  pub summary_basis : String
  pub profile_version : String
  pub at : ℕ

pub record Episode : Type 0 where
  pub podcast_slug : String
  pub podcast_name : Option String
  pub title : Option String
  pub published_at : Option ℕ
  pub origin : String
  pub description_raw : String
  pub feed_transcripts : List String
  pub status : Option String
  pub attempts : Dict String ℕ
  pub tier0 : Option Tier0Block
  pub tier1 : Option Tier1Block
  pub transcript_source : Option String
  pub transcript_chars : Option ℕ
  pub transcript_at : Option ℕ
  pub duration_s : Option ℕ
  pub indexed_only : Option String
  pub digest_id : Option String
  pub summary_after_listing : Bool
  pub forced_escalation : Option (String × ℕ)
  pub last_error : Option LastError
  pub updated_at : Option ℕ

-- `doc.get("status", "NEW")`
abbrev pub status_of : Episode → String
status_of doc = elim doc.status [ none ↦ "NEW" | some s ↦ s ]

-- `new_status in _SELF_TRANSITION_OK`
abbrev pub self_transition_ok : EpisodeStatus → Bool
self_transition_ok s = is_status s EpisodeStatus.awaiting_transcript

-- The guard of `transition`: a replay of a status that is there already, or a checked move.
abbrev pub decide : EpisodeStatus → String → Episode → Episode → Result Episode
decide new_status current replay move =
    if current == value new_status && not (self_transition_ok new_status)
    then ok replay
    else do legal ← assert_transition current (value new_status); ok move

-- The `_apply` of `transition`.
unfoldable pub apply_transition : EpisodeStatus → (Episode → Episode) → ℕ → Episode → Result Episode
apply_transition new_status mutate now doc =
    decide new_status (status_of doc) (record (mutate doc) { updated_at = some now })
      (record (mutate doc) { status = some (value new_status); updated_at = some now })

-- The `_apply` of `mark_error`.
unfoldable pub apply_error : String → ℕ → Episode → Episode
apply_error stage now doc =
    let current = status_of doc in
    let noted : Episode = record doc {
      last_error = some (record { stage = stage; at = now; status_when_failed = some current });
      updated_at = some now;
    } in
    elim (assert_transition current (value EpisodeStatus.error)) [
      | ok s ↦ record noted { status = some (value EpisodeStatus.error) }
      | err e ↦ noted
    ]

abbrev pub or_zero : Option ℕ → ℕ
or_zero none = 0
or_zero (some n) = n

unfoldable pub attempt_count : Episode → String → ℕ
attempt_count doc key = or_zero (lookup key doc.attempts)

unfoldable pub bump_attempt : String → Episode → Episode
bump_attempt key doc = record doc {
  attempts = insert key (or_zero (lookup key doc.attempts) + 1) doc.attempts;
}

-- `EpisodeStatus(doc["status"])`
abbrev pub current_status : Episode → Result EpisodeStatus
current_status doc = elim doc.status [
  | none ↦ err key_error
  | some text ↦ elim (parse_status text) [ none ↦ err value_error | some s ↦ ok s ]
]
