-- ===== src/Runner/OnDemand/Unlisted.antt =====
-- podcast_agent/pipeline/runner.py, `summarize_episode`: a request for an episode that a digest lists,
-- while the transcription backend is down.
use podcast_digest.Common.{
  ℕ, String, Bool, true, false, ◌&&◌, string_eq, ◌<◌, leb, any_of, Option-cases, ◌≡◌, refl, ap, ◌∙◌,
  inl, inr, arith,
}
use podcast_digest.Errors.{ok, asr_unavailable}
use podcast_digest.Status.{
  EpisodeStatus, value, awaiting_transcript, published, is_status, can_transition,
}
use podcast_digest.Status.Machine.{parse_status-value}
use podcast_digest.Episode.{Episode, current_status, apply_transition, attempt_count, bump_attempt}
use podcast_digest.Episode.Moves.{moved_to, apply_transition-moves}
use podcast_digest.Transcript.{
  backend_down, raises, settle, process, after_claim, release, claim, crash_budget,
}
use podcast_digest.Transcript.Budget.{
  crashes, tries, claimed as claimed_doc, Waiting-claimed, process-claimed, to_awaiting,
}
use podcast_digest.Digest.{claimed}
use podcast_digest.Digest.Listing.{DigestRules, Period, in_window, routine_origin}
use podcast_digest.Tier1.{Tier1Config}
use podcast_digest.Runner.{is_owed_work, queued, has_text}
use podcast_digest.Runner.Steps.{At, At-status_of, queued_At}
use podcast_digest.Runner.OnDemand.{
  Answers, is_refused, has_summary, acquired, prepare, conclude, summarize_episode,
}

pub current_status-At : (t : EpisodeStatus) (doc : Episode) → At t doc → current_status doc ≡ ok t
current_status-At t doc at =
    rw (at, current_status) (rw (parse_status-value t, current_status) refl)

and_false : (b : Bool) → (b && false) ≡ false
and_false true = refl
and_false false = refl

-- The first step of a request, for an episode that may go back to AWAITING_TRANSCRIPT.
pub reopened :
    (t : EpisodeStatus) (now : ℕ) (doc : Episode)
    → At t doc
    → can_transition t awaiting_transcript ≡ true
    → apply_transition awaiting_transcript (λ d. d) now doc
      ≡ ok (moved_to awaiting_transcript (λ d. d) now doc)
unfolding is_status
reopened t now doc at can =
    apply_transition-moves awaiting_transcript t (λ d. d) now doc (At-status_of t doc at)
      (and_false _) can

module _ (strip : String → String) (cfg : Tier1Config) (max_retries : ℕ) (answers : Answers)
    (now : ℕ) (doc : Episode) where
  -- What the request leaves when the backend is down.
  abbrev left_waiting : Episode
  left_waiting =
      moved_to awaiting_transcript (release (crashes doc)) now
        (claimed_doc now (moved_to awaiting_transcript (λ d. d) now doc))

  abbrev waiting : Episode
  waiting = moved_to awaiting_transcript (λ d. d) now doc

  still_few : crashes doc < crash_budget → leb crash_budget (crashes waiting) ≡ false
  unfolding moved_to attempt_count
  still_few few = ground arith

  same_crashes : crashes waiting ≡ crashes doc
  unfolding moved_to attempt_count
  same_crashes = refl

  released_at :
      (c : ℕ)
      → after_claim max_retries (tries waiting) c backend_down now (claimed_doc now waiting) ≡ (
        raises asr_unavailable,
        moved_to awaiting_transcript (release c) now (claimed_doc now waiting),
      )
  unfolding after_claim
  released_at c =
      ap (settle (raises asr_unavailable) (claimed_doc now waiting))
        (to_awaiting (release c) now (claimed_doc now waiting) (Waiting-claimed now waiting))

  process-down :
      answers.acquire ≡ backend_down
      → crashes doc < crash_budget
      → process max_retries answers.acquire now waiting ≡ (raises asr_unavailable, left_waiting)
  process-down down few =
      ap (λ how. process max_retries how now waiting) down
      ∙ process-claimed max_retries backend_down now waiting (unfold moved_to in refl)
          (still_few few)
      ∙ released_at (crashes waiting)
      ∙ ap
          (λ c. (
            raises asr_unavailable,
            moved_to awaiting_transcript (release c) now (claimed_doc now waiting),
          ))
          same_crashes

  prepare-down :
      answers.acquire ≡ backend_down
      → At published doc
      → crashes doc < crash_budget
      → prepare max_retries answers.acquire now published doc
        ≡ (raises asr_unavailable, left_waiting)
  unfolding prepare acquired is_status can_transition
  prepare-down down at few =
      rw (reopened published now doc at refl, prepare) (ap (acquired now) (process-down down few))

  stays_routine : doc.origin ≡ routine_origin → left_waiting.origin ≡ routine_origin
  unfolding moved_to release claim bump_attempt
  stays_routine h = h

  never_listed :
      claimed doc ≡ true
      → (rules : DigestRules) (period : Period) → in_window rules period left_waiting ≡ false
  unfolding moved_to release claim bump_attempt in_window claimed
  never_listed h rules period = elim (Option-cases doc.digest_id) [
    | inl absent ↦ absurd (cc (rw absent at h))
    | inr (d, there) ↦ rw there refl
  ]

  owed : left_waiting.origin ≡ routine_origin → is_owed_work left_waiting ≡ true
  unfolding moved_to is_owed_work any_of has_text value
  owed h = (string_eq.same_iff left_waiting.origin routine_origin).1 h

  -- The owner asks for a summary of an episode that a digest lists without one, while the
  -- transcription backend is down: the request raises `ASRUnavailable` and does not put the episode
  -- back. It waits for a transcript with the claim still on it, so the pipeline works on it and the
  -- archive walk waits for it, but no digest takes it again.
  pub summarize_episode-Unlisted :
      answers.acquire ≡ backend_down
      → At published doc
      → has_summary doc.tier1 ≡ false
      → claimed doc ≡ true
      → doc.origin ≡ routine_origin
      → crashes doc < crash_budget
      → (left : Episode) × (summarize_episode strip cfg max_retries answers now doc
          ≡ (raises asr_unavailable, left))
        × (At awaiting_transcript left)
        × (queued awaiting_transcript left ≡ true)
        × (is_owed_work left ≡ true)
        × ((rules : DigestRules) (period : Period) → in_window rules period left ≡ false)
  unfolding summarize_episode is_refused conclude is_status
  summarize_episode-Unlisted down at bare listed routine few = (
    left_waiting,
    rw (current_status-At published doc at, summarize_episode)
        (rw bare (rw (prepare-down down at few, conclude) refl)),
    unfold moved_to in refl,
    queued_At awaiting_transcript left_waiting (unfold moved_to in refl) (stays_routine routine),
    owed (stays_routine routine),
    never_listed listed,
  )
