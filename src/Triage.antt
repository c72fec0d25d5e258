-- ===== src/Triage.antt =====
-- podcast_agent/triage: the Tier-0 verdict, the route that code decides from it (routing.py), its
-- record on the episode and its dispatch (tier0.py), and the archive's dispatch
-- (podcast_agent/backfill/process.py). The model's answer is an argument.
pub mod Routes
pub mod Dispatch
use podcast_digest.Common.{
  ℕ, String, Bool, true, false, ◌&&◌, not, Option, none, some, List, [], ◌∷◌, ◌==◌, string_eq, ltb,
  leb, if◌then◌else◌,
}
use podcast_digest.Errors.{Error, Result, ok, err, value_error, ◌>>=◌}
use podcast_digest.Status.{EpisodeStatus, triaged, dropped, digest_direct, awaiting_transcript}
use podcast_digest.Episode.{Episode, Tier0Block, apply_transition, bump_attempt}
use podcast_digest.Episode.Keys.{InterestKeys, filter_interest_keys}

pub data Route : Type 0 where
  drop : Route
  direct : Route
  escalate : Route

unfoldable pub route_value : Route → String
route_value drop = "DROP"
route_value direct = "DIGEST_DIRECT"
route_value escalate = "ESCALATE"

unfoldable pub parse_route : String → Option Route
parse_route text =
    if text == "DROP"
    then some drop
    else if text == "DIGEST_DIRECT"
    then some direct
    else if text == "ESCALATE"
    then some escalate
    else none

-- The validated answer of the model: `relevance_guess` and `confidence` are within 0 to 10.
pub record Tier0Result : Type 0 where
  pub relevance_guess : ℕ
  pub confidence : ℕ
  pub matched_interests : List String
  pub reasoning : String
  pub route : Route

pub record PipelineConfig : Type 0 where
  pub t_conf_high : ℕ
  pub t_rel_low : ℕ
  pub t_rel_high : ℕ
  pub digest_threshold : ℕ
  pub top_pick_threshold : ℕ

-- `_thresholds_ordered` of podcast_agent/config.py: what the settings are refused without.
unfoldable pub thresholds_ordered : PipelineConfig → Bool
thresholds_ordered cfg =
    leb cfg.t_rel_low cfg.t_rel_high && leb cfg.digest_threshold cfg.top_pick_threshold

pub record RoutingDecision : Type 0 where
  pub route : Route
  pub rule : String

abbrev decision : Route → String → RoutingDecision
decision route rule = record { route = route; rule = rule }

unfoldable pub decide_route : Tier0Result → PipelineConfig → Bool → RoutingDecision
decide_route result cfg always_escalate =
    if always_escalate
    then decision escalate "always_escalate"
    else if ltb result.confidence cfg.t_conf_high
    then decision escalate "low_confidence"
    else if ltb result.relevance_guess cfg.t_rel_low
    then decision drop "confident_irrelevant"
    else if leb cfg.t_rel_high result.relevance_guess
    then decision escalate "confident_relevant"
    else decision direct "grey_zone"

-- The `_apply` of `triage`.
unfoldable pub record_verdict :
    Tier0Result → RoutingDecision → InterestKeys → String → ℕ → Episode → Episode
unfolding bump_attempt
record_verdict result d valid_keys profile_version now doc = bump_attempt "tier0" (record doc {
  tier0 = some (record {
    relevance_guess = result.relevance_guess;
    confidence = result.confidence;
    matched_interests =
        filter_interest_keys valid_keys.normalize result.matched_interests valid_keys.keys;
    model_suggested_route = route_value result.route;
    route = route_value d.route;
    rule = d.rule;
    profile_version = profile_version;
    at = now;
  });
})

unfoldable pub target : Route → EpisodeStatus
target drop = dropped
target direct = digest_direct
target escalate = awaiting_transcript

-- The part of `triage` behind the model's answer: NEW to TRIAGED with the verdict, in one write.
unfoldable pub triage :
    PipelineConfig → Bool → InterestKeys → String → Tier0Result → ℕ → Episode → Result Episode
triage cfg always_escalate valid_keys profile_version result now doc =
    apply_transition triaged
      (record_verdict result (decide_route result cfg always_escalate) valid_keys profile_version
        now)
      now doc

abbrev pub stored_route : Option Tier0Block → Result Route
stored_route none = err value_error
stored_route (some t) = elim (parse_route t.route) [ none ↦ err value_error | some r ↦ ok r ]

abbrev untouched : Episode → Episode
untouched doc = doc

-- `dispatch`: the stored route decides, not the model.
unfoldable pub dispatch : ℕ → Episode → Result (EpisodeStatus × Episode)
dispatch now doc = do
  route ← stored_route doc.tier0
  doc' ← apply_transition (target route) untouched now doc
  ok (target route, doc')

-- What the archive asks of a podcast.
pub record Podcast : Type 0 where
  pub backfill_mode : String
  pub asr_enabled : Bool

-- `(episode.get("tier0") or {}).get("route") or "DROP"`
abbrev archive_stored : Option Tier0Block → Result Route
archive_stored none = ok drop
archive_stored (some t) =
    if t.route == ""
    then ok drop
    else elim (parse_route t.route) [ none ↦ err value_error | some r ↦ ok r ]

abbrev mode_of : Option Podcast → String
mode_of none = "full"
mode_of (some p) = p.backfill_mode

abbrev transcribes : Option Podcast → Bool
transcribes none = false
transcribes (some p) = p.asr_enabled

abbrev is_empty : List String → Bool
is_empty [] = true
is_empty (x ∷ xs) = false

abbrev pub no_summary_reason : String
no_summary_reason = "news cadence: archive entries are indexed, not summarised"

abbrev pub no_transcript_reason : String
no_transcript_reason = "no transcript published, and local transcription is off"

-- The two downgrades of an ESCALATE verdict, the second after the first.
unfoldable pub downgrade : Route → Option Podcast → Episode → Route × Option String
downgrade drop podcast doc = (drop, none)
downgrade direct podcast doc = (direct, none)
downgrade escalate podcast doc =
    if mode_of podcast == "tier0_only"
    then (direct, some no_summary_reason)
    else if not (transcribes podcast) && is_empty doc.feed_transcripts
    then (direct, some no_transcript_reason)
    else (escalate, none)

abbrev record_reason : Option String → Episode → Episode
record_reason none doc = doc
record_reason (some reason) doc =
    if reason == "" then doc else record doc { indexed_only = some reason }

-- `_dispatch` of the archive, for one episode, up to the exception handler.
unfoldable pub archive_dispatch : Option Podcast → ℕ → Episode → Result (EpisodeStatus × Episode)
archive_dispatch podcast now doc = do
  stored ← archive_stored doc.tier0
  let chosen = downgrade stored podcast doc
  doc' ← apply_transition (target chosen.0) (record_reason chosen.1) now doc
  ok (target chosen.0, doc')
