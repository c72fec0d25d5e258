-- ===== src/Tests/EpisodeTests.antt =====
-- Episodes at concrete inputs: guarded changes, the transcript budgets, retry and escalate.
use podcast_digest.Common.{ℕ, String, true, List, [], ◌∷◌, ◌≡◌, ◌⊎◌, ◌≢◌, refl, arith, lookup}
use podcast_digest.Status.{
  EpisodeStatus, error, summarized, triaged, digest_direct, published, awaiting_transcript, value,
  parse_status, can_transition, is_status, assert_transition,
}
use podcast_digest.Store.{MemoryStore, Op, puts, run, empty}
use podcast_digest.Episode.{Episode, status_of, apply_transition, apply_error, attempt_count}
use podcast_digest.Episode.History.{
  Call, transitions, fails_in, perform, perform_all, Visited, published_after_judgement,
}
use podcast_digest.Transcript.{unavailable, killed, Acquisition, pick_up_all}
use podcast_digest.Transcript.Budget.{queue_drains, crashes}
use podcast_digest.Operator.{retry_episode, moves}
use podcast_digest.Operator.Resume.{BroughtBack, retry_after_failure}
use podcast_digest.Tests.Sample.{tally, new_doc, episode_at}

abbrev plain : Episode → Episode
plain doc = doc

abbrev to : EpisodeStatus → Call
to s = transitions s plain (λ doc. refl) 10

abbrev listed : List Call
listed =
    to triaged
    ∷ to digest_direct
    ∷ fails_in "digest" 11
    ∷ to awaiting_transcript
    ∷ to published
    ∷ []

abbrev published_history : List Call
published_history = to triaged ∷ to digest_direct ∷ to published ∷ []

listed_fails : status_of (perform_all (episode_at "NEW") listed) ≡ "AWAITING_TRANSCRIPT"
unfolding perform_all perform apply_transition apply_error assert_transition parse_status
    can_transition is_status
listed_fails = refl

published_after_judgement_example :
    Visited (episode_at "NEW") published_history summarized
    ⊎ Visited (episode_at "NEW") published_history digest_direct
unfolding perform_all perform apply_transition assert_transition parse_status can_transition
    is_status value
published_after_judgement_example =
    published_after_judgement (episode_at "NEW") published_history refl refl

abbrev library : MemoryStore Episode
library = run tally empty (puts (new_doc "episode:1" (episode_at "NEW")) ∷ [])

nobody : ℕ → List (Op Episode)
nobody n = []

abbrev bad_days : List (Acquisition × ℕ)
bad_days =
    (killed, 1)
    ∷ (unavailable true, 2)
    ∷ (killed, 3)
    ∷ (unavailable true, 4)
    ∷ (killed, 5)
    ∷ (killed, 6)
    ∷ []

queue_drains_example :
    status_of (pick_up_all 2 bad_days (episode_at "AWAITING_TRANSCRIPT"))
    ≢ value awaiting_transcript
queue_drains_example =
    queue_drains 2 bad_days (episode_at "AWAITING_TRANSCRIPT")
      ((λ e. cc), ((λ e. cc), ((λ e. cc), ((λ e. cc), ((λ e. cc), ((λ e. cc), tt)))))) (omega arith)

no_crashes : crashes (episode_at "AWAITING_TRANSCRIPT") ≡ 0
unfolding attempt_count lookup
no_crashes = refl

-- A failed re-score leaves an episode that a retry cannot bring back.
retry_after_failure_example :
    (d : Episode) × (retry_episode 9 (apply_error "transcript" 8 (episode_at "AWAITING_TRANSCRIPT"))
      ≡ (moves error awaiting_transcript, d))
    × BroughtBack awaiting_transcript "transcript" 8 9
        (episode_at "AWAITING_TRANSCRIPT")
        (unfold value in refl)
        (unfold can_transition in refl)
        d
unfolding can_transition
retry_after_failure_example =
    retry_after_failure awaiting_transcript "transcript" 8 9 (episode_at "AWAITING_TRANSCRIPT")
      (unfold value in refl) (unfold can_transition in refl)

plain_key : String → String
plain_key k = k
