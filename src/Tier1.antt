-- ===== src/Tier1.antt =====
-- podcast_agent/summarize/tier1.py: the summary stage on one episode's document. `load` is the stored
-- transcript, `ask` the answer of the model to a text and its basis, whether in one call or over
-- chunks; `strip` is `str.strip`. The text fields of a summary are one, and telemetry is left out.
pub mod Classified
pub mod MapReduce
use podcast_digest.Common.{
  ℕ, String, Bool, true, false, ◌||◌, not, Option, none, some, List, [], ◌∷◌, ◌==◌, string_eq, leb,
  if◌then◌else◌, any_of,
}
use podcast_digest.Errors.{Result, ok, err, value_error, ◌>>=◌}
use podcast_digest.Status.{
  EpisodeStatus, value, transcript_failed, transcribed, summarized, ready_for_digest, scored_low,
}
use podcast_digest.Episode.{Episode, Tier1Block, apply_transition, bump_attempt, status_of}
use podcast_digest.Episode.Keys.{InterestKeys, filter_interest_keys}

pub record Tier1Result : Type 0 where
  pub relevance_score : ℕ
  pub matched_interests : List String
  pub summary_md : String

pub record Tier1Config : Type 0 where
  pub digest_threshold : ℕ
  pub valid_keys : InterestKeys
  pub profile_version : String

abbrev pub description_only : String
description_only = "description_only"

-- `episode.get("transcript_source") in ("feed", "scrape")`
abbrev pub is_published : Option String → Bool
is_published none = false
is_published (some source) = source == "feed" || source == "scrape"

abbrev pub transcript_basis : Episode → String
transcript_basis doc =
    if is_published doc.transcript_source then "published_transcript" else "transcript"

abbrev pub has_failed_transcript : Option String → Bool
has_failed_transcript none = false
has_failed_transcript (some status) = status == value transcript_failed

module _ (strip : String → String) where
  -- `transcript and transcript.strip()`
  abbrev pub usable_transcript : Option String → Option String
  usable_transcript none = none
  usable_transcript (some text) = if text == "" || strip text == "" then none else some text

  -- `_resolve_content`: the text and its basis. The transcript is loaded only where the code does.
  unfoldable pub resolve_content : Option String → Episode → String × String
  unfolding value
  resolve_content load doc =
      let from_description : String × String = (doc.description_raw, description_only) in
      let from_transcript : String × String = elim (usable_transcript load) [
        | none ↦ from_description
        | some text ↦ (text, transcript_basis doc)
      ] in
      if has_failed_transcript doc.status then from_description else from_transcript

  -- `_score` up to the block: the model's answer, and the status that its score calls for.
  unfoldable pub score :
      Tier1Config
      → Option ℕ
      → Option String
      → (String → String → Result Tier1Result)
      → Episode
      → Result (Tier1Result × String × EpisodeStatus)
  unfolding resolve_content
  score cfg threshold load ask doc =
      let content = resolve_content load doc in
      let bar : ℕ = elim threshold [ none ↦ cfg.digest_threshold | some t ↦ t ] in
      if strip content.0 == "" then err value_error else elim (ask content.0 content.1) [
        | err e ↦ err e
        | ok result ↦ ok (
          result,
          content.1,
          if leb bar result.relevance_score then ready_for_digest else scored_low,
        )
      ]

-- The `_apply` of `summarize`.
unfoldable pub record_summary : Tier1Config → Tier1Result → String → ℕ → Episode → Episode
unfolding bump_attempt
record_summary cfg result basis at doc = bump_attempt "tier1" (record doc {
  tier1 = some (record {
    relevance_score = result.relevance_score;
    matched_interests =
        filter_interest_keys cfg.valid_keys.normalize result.matched_interests cfg.valid_keys.keys;
    summary_md = result.summary_md;
    summary_basis = basis;
    profile_version = cfg.profile_version;
    at = at;
  });
})

abbrev unchanged : Episode → Episode
unchanged doc = doc

-- The two writes of `summarize`; a process that dies between them leaves the first.
unfoldable pub store_summary : Tier1Config → Tier1Result → String → ℕ → Episode → Result Episode
unfolding record_summary
store_summary cfg result basis now doc =
    apply_transition summarized (record_summary cfg result basis now) now doc

unfoldable pub classify : EpisodeStatus → ℕ → Episode → Result Episode
classify target now doc = apply_transition target unchanged now doc

unfoldable pub summarize :
    (strip : String → String)
    → Tier1Config
    → Option ℕ
    → Option String
    → (String → String → Result Tier1Result)
    → ℕ
    → Episode
    → Result (EpisodeStatus × Episode)
unfolding score store_summary classify
summarize strip cfg threshold load ask now doc = do
  scored ← score strip cfg threshold load ask doc
  stored ← store_summary cfg scored.0 scored.1 now doc
  placed ← classify scored.2 now stored
  ok (scored.2, placed)

-- The queues of `_stage_summarize` of podcast_agent/pipeline/runner.py.
abbrev pub awaits_summary : Option String → Bool
awaits_summary none = false
awaits_summary (some status) = status == value transcribed || status == value transcript_failed
