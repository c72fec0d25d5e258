-- ===== src/Runner/OnDemand.antt =====
-- podcast_agent/pipeline/runner.py, `summarize_episode`: one episode acquired and summarised on the
-- owner's request, from its document. The set of episodes in flight and the registry's default for
-- `allow_asr` are left out.
pub mod Prepared
pub mod Reached
pub mod Unlisted
use podcast_digest.Common.{
  ℕ, String, Bool, true, false, ◌&&◌, not, Option, none, some, ◌==◌, string_eq, if◌then◌else◌,
}
use podcast_digest.Errors.{Error, Result, ok, err, value_error}
use podcast_digest.Status.{
  EpisodeStatus, value, awaiting_transcript, transcribed, transcript_failed, published, is_status,
}
use podcast_digest.Episode.{Episode, Tier1Block, apply_transition, current_status}
use podcast_digest.Transcript.{Acquisition, StageEnd, ended, raises, dies, process, settle}
use podcast_digest.Tier1.{Tier1Config, Tier1Result, summarize}
use podcast_digest.Digest.{claimed}
use podcast_digest.Runner.{has_text}

-- `(episode.get("tier1") or {}).get("summary_md")` is truthy.
unfoldable pub has_summary : Option Tier1Block → Bool
has_summary none = false
has_summary (some t) = not (t.summary_md == "")

-- The digest that lists it states a verdict already.
unfoldable pub is_refused : EpisodeStatus → Episode → Bool
unfolding has_summary is_status
is_refused current doc =
    is_status current published && (has_summary doc.tier1 && not doc.summary_after_listing)

unfoldable pub relist : Episode → Episode
relist doc = record doc { summary_after_listing = true }

-- What a request is answered by others: the acquisition, the stored transcript, the model.
pub record Answers : Type 0 where
  pub acquire : Acquisition
  pub load : Option String
  pub ask : String → String → Result Tier1Result

abbrev untouched : Episode → Episode
untouched doc = doc

-- A manual request wants an answer now: what is not transcribed counts as failed.
unfoldable pub without_transcript : ℕ → Episode → StageEnd × Episode
unfolding has_text value
without_transcript now doc =
    if has_text doc.status (value transcript_failed)
    then (ended transcript_failed, doc)
    else settle (ended transcript_failed) doc (apply_transition transcript_failed untouched now doc)

unfoldable pub acquired : ℕ → StageEnd × Episode → StageEnd × Episode
unfolding without_transcript is_status
acquired now (ended outcome, doc) =
    if is_status outcome transcribed then (ended transcribed, doc) else without_transcript now doc
acquired now (raises e, doc) = (raises e, doc)
acquired now (dies, doc) = (dies, doc)

unfoldable pub prepare : ℕ → Acquisition → ℕ → EpisodeStatus → Episode → StageEnd × Episode
unfolding acquired is_status process
prepare max_retries how now current doc =
    if is_status current transcribed
    then (ended transcribed, doc)
    else elim (apply_transition awaiting_transcript untouched now doc) [
      | err e ↦ (raises e, doc)
      | ok waiting ↦ acquired now (process max_retries how now waiting)
    ]

-- An episode that a digest lists goes back to where it was.
unfoldable pub put_back : Bool → ℕ → EpisodeStatus × Episode → StageEnd × Episode
unfolding relist
put_back listed now (status, doc) =
    if listed
    then settle (ended published) doc (apply_transition published relist now doc)
    else (ended status, doc)

unfoldable pub conclude :
    (String → String) → Tier1Config → Answers → Bool → ℕ → StageEnd × Episode → StageEnd × Episode
unfolding put_back
conclude strip cfg answers listed now (ended t, doc) =
    elim (summarize strip cfg none answers.load answers.ask now doc) [
      | err e ↦ (raises e, doc)
      | ok verdict ↦ put_back listed now verdict
    ]
conclude strip cfg answers listed now (raises e, doc) = (raises e, doc)
conclude strip cfg answers listed now (dies, doc) = (dies, doc)

unfoldable pub summarize_episode :
    (String → String) → Tier1Config → ℕ → Answers → ℕ → Episode → StageEnd × Episode
unfolding conclude prepare is_refused claimed is_status
summarize_episode strip cfg max_retries answers now doc = elim (current_status doc) [
  | err e ↦ (raises e, doc)
  | ok current ↦
      if is_refused current doc
      then (raises value_error, doc)
      else conclude strip cfg answers (is_status current published && claimed doc) now
          (prepare max_retries answers.acquire now current doc)
]
