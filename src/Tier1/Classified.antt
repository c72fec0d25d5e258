-- ===== src/Tier1/Classified.antt =====
-- podcast_agent/summarize/tier1.py, `summarize`: where an episode stands after it, and after a part
-- of it.
use podcast_digest.Common.{
  ℕ, ◌+◌, lookup, lookup-insert_self, String, true, false, any_of, Option, none, some, ◌==◌,
  string_eq, leb, if◌then◌else◌, Bool-cases, ◌≡◌, refl, ap, ◌∙◌, ◌⊎◌, inl, inr,
}
use podcast_digest.Errors.{Result, ok}
use podcast_digest.Status.{
  EpisodeStatus, value, transcribed, transcript_failed, summarized, ready_for_digest, scored_low,
  parse_status, is_status, can_transition, retry_target, assert_transition, checked,
}
use podcast_digest.Episode.{
  Episode, Tier1Block, apply_transition, status_of, bump_attempt, attempt_count,
}
use podcast_digest.Episode.Moves.{moved_to, apply_transition-moves}
use podcast_digest.Operator.{
  retry_from, resume_point, release_claim, retry_episode, escalate_episode, http_409,
}
use podcast_digest.Digest.Listing.{is_pending, pending}
use podcast_digest.Tier1.{
  Tier1Config, Tier1Result, score, record_summary, store_summary, classify, summarize,
  awaits_summary, resolve_content,
}

pub status_of-some : (doc : Episode) (text : String) → doc.status ≡ some text → status_of doc ≡ text
status_of-some doc text h = rw h refl

store_summary-moves :
    (t : EpisodeStatus) (cfg : Tier1Config) (result : Tier1Result) (basis : String) (now : ℕ)
    (doc : Episode)
    → (t ≡ transcribed) ⊎ (t ≡ transcript_failed)
    → doc.status ≡ some (value t)
    → store_summary cfg result basis now doc
      ≡ ok (moved_to summarized (record_summary cfg result basis now) now doc)
unfolding store_summary is_status can_transition value
store_summary-moves t cfg result basis now doc (inl e) h =
    apply_transition-moves summarized transcribed _ now doc
      (status_of-some doc _ (h ∙ ap (λ x. some (value x)) e)) refl refl
store_summary-moves t cfg result basis now doc (inr e) h =
    apply_transition-moves summarized transcript_failed _ now doc
      (status_of-some doc _ (h ∙ ap (λ x. some (value x)) e)) refl refl

classify-moves :
    (target : EpisodeStatus) (now : ℕ) (doc : Episode)
    → (target ≡ ready_for_digest) ⊎ (target ≡ scored_low)
    → status_of doc ≡ value summarized
    → classify target now doc ≡ ok (moved_to target (λ d. d) now doc)
unfolding classify is_status can_transition value
classify-moves target now doc (inl e) h =
    rw e (apply_transition-moves ready_for_digest summarized _ now doc h refl refl)
classify-moves target now doc (inr e) h =
    rw e (apply_transition-moves scored_low summarized _ now doc h refl refl)

module _ (strip : String → String) (cfg : Tier1Config) (threshold : Option ℕ) (load : Option String)
    (ask : String → String → Result Tier1Result) (now : ℕ) (doc : Episode) (t : EpisodeStatus)
    (waits : (t ≡ transcribed) ⊎ (t ≡ transcript_failed)) (at : doc.status ≡ some (value t))
    (result : Tier1Result) (content : (strip (resolve_content strip load doc).0 == "") ≡ false)
    (answer : ask (resolve_content strip load doc).0 (resolve_content strip load doc).1
      ≡ ok result) where
  abbrev pub bar : ℕ
  bar = elim threshold [ none ↦ cfg.digest_threshold | some k ↦ k ]

  abbrev pub verdict : EpisodeStatus
  verdict = if leb bar result.relevance_score then ready_for_digest else scored_low

  abbrev pub summary : Episode → Episode
  summary = record_summary cfg result (resolve_content strip load doc).1 now

  pub verdict_cases : (verdict ≡ ready_for_digest) ⊎ (verdict ≡ scored_low)
  verdict_cases = elim (Bool-cases (leb bar result.relevance_score)) [
    | inl e ↦ inl (rw e refl)
    | inr e ↦ inr (rw e refl)
  ]

  pub summarize-moves :
      summarize strip cfg threshold load ask now doc
      ≡ ok (verdict, moved_to verdict (λ d. d) now (moved_to summarized summary now doc))
  unfolding summarize score
  summarize-moves =
      rw (content, summarize)
        (rw (answer, summarize)
          (rw (store_summary-moves t cfg result (resolve_content strip load doc).1 now doc waits at)
            (rw
              (classify-moves verdict now (moved_to summarized summary now doc) verdict_cases
                (unfold moved_to in refl))
              refl)))

  -- What the document holds of the summary.
  pub record Summarised (d : Episode) : Type 0 where
    pub block : Tier1Block
    pub stored : d.tier1 ≡ some block
    pub scored : block.relevance_score ≡ result.relevance_score
    pub written : block.summary_md ≡ result.summary_md
    pub based : block.summary_basis ≡ (resolve_content strip load doc).1
    pub stands : d.status ≡ some (value verdict)
    pub counted : lookup "tier1" d.attempts ≡ some (attempt_count doc "tier1" + 1)
    pub same_claim : d.digest_id ≡ doc.digest_id

  -- An episode that waits for its summary, and has a text that the model answers: it ends ready for the
  -- digest if the score reaches the threshold, the run's own or the configured one, and scored low
  -- otherwise, with the score, the summary, and the basis of the text that it was made from, on the
  -- document, one more attempt counted, and its digest claim as it was.
  pub summarize-verdict :
      (summarize strip cfg threshold load ask now doc
        ≡ ok (verdict, moved_to verdict (λ d. d) now (moved_to summarized summary now doc)))
      × Summarised (moved_to verdict (λ d. d) now (moved_to summarized summary now doc))
  summarize-verdict = (
    summarize-moves,
    unfold moved_to record_summary bump_attempt attempt_count in
        record {
          block = _;
          stored = refl;
          scored = refl;
          written = refl;
          based = refl;
          stands = refl;
          counted = lookup-insert_self "tier1" _ doc.attempts;
          same_claim = refl;
        },
  )

  -- A process that dies between the two writes of `summarize` leaves the episode at SUMMARIZED, if it
  -- had no recorded error. There it is in no queue of the summary stage, a digest counts it as pending,
  -- and the owner's retry and escalate are refused.
  pub summarized-Stranded :
      doc.last_error ≡ none
      → (later : ℕ)
      → (let left_behind = moved_to summarized summary now doc in
          (store_summary cfg result (resolve_content strip load doc).1 now doc ≡ ok left_behind)
          × (awaits_summary left_behind.status ≡ false)
          × (is_pending left_behind.status ≡ true)
          × (retry_episode later left_behind ≡ (http_409, left_behind))
          × (escalate_episode later left_behind ≡ (http_409, left_behind)))
  unfolding moved_to record_summary bump_attempt apply_transition assert_transition checked
      can_transition any_of resume_point retry_from release_claim is_pending pending retry_episode
      escalate_episode parse_status value is_status retry_target
  summarized-Stranded no_error later = (
    store_summary-moves t cfg result (resolve_content strip load doc).1 now doc waits at,
    refl,
    refl,
    rw (no_error, resume_point) refl,
    refl,
  )
