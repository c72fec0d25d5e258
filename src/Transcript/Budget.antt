-- ===== src/Transcript/Budget.antt =====
-- podcast_agent/transcripts/stage.py: the two budgets of an episode, over many runs of the stage.
use podcast_digest.Common.{
  ℕ, suc, ◌+◌, ◌-◌, ◌<◌, Bool, true, false, ◌||◌, not, List, [], ◌∷◌, ◌≡◌, ◌≢◌, refl, ap, ◌∙◌, inl,
  inr, arith, Bool-cases, ◌==◌, string_eq, leb, length, dict_laws, All,
}
use podcast_digest.Errors.{Error, ok, asr_unavailable}
use podcast_digest.Status.{
  EpisodeStatus, value, awaiting_transcript, transcribed, transcript_failed, error, is_status,
  can_transition,
}
use podcast_digest.Status.Machine.{value-injective}
use podcast_digest.Episode.{Episode, status_of, apply_transition, attempt_count}
use podcast_digest.Episode.Moves.{moved_to, failed_in, apply_transition-moves, apply_error-moves}
use podcast_digest.Transcript.{
  crash_budget, Acquisition, found, backend_down, unavailable, raised, killed, ended, raises, claim,
  release, give_up, note_give_up, note_failure, note_transcript, handle_failure, after_claim,
  process, recorded, pick_up, pick_up_all,
}

abbrev pub Waiting : Episode → Type 0
Waiting doc = status_of doc ≡ value awaiting_transcript

-- From AWAITING_TRANSCRIPT the guarded writes of the stage go through.
module _ (mutate : Episode → Episode) (now : ℕ) (doc : Episode) (w : Waiting doc) where
  pub to_awaiting :
      apply_transition awaiting_transcript mutate now doc
      ≡ ok (moved_to awaiting_transcript mutate now doc)
  unfolding is_status can_transition
  to_awaiting =
      apply_transition-moves awaiting_transcript awaiting_transcript mutate now doc w refl refl

  pub to_transcribed :
      apply_transition transcribed mutate now doc ≡ ok (moved_to transcribed mutate now doc)
  unfolding is_status can_transition
  to_transcribed = apply_transition-moves transcribed awaiting_transcript mutate now doc w refl refl

  pub to_failed :
      apply_transition transcript_failed mutate now doc
      ≡ ok (moved_to transcript_failed mutate now doc)
  unfolding is_status can_transition
  to_failed =
      apply_transition-moves transcript_failed awaiting_transcript mutate now doc w refl refl

-- The counters that the stage reads.
abbrev pub tries : Episode → ℕ
tries doc = attempt_count doc "transcript"

abbrev pub crashes : Episode → ℕ
crashes doc = attempt_count doc "transcript_crash"

-- What one pick-up of a waiting episode does: it leaves the queue, or it uses one unit of a budget.
data Spent (max_retries : ℕ) (doc doc' : Episode) : Type 0 where
  left : status_of doc' ≢ value awaiting_transcript → Spent max_retries doc doc'
  tried :
      Waiting doc'
      → tries doc' ≡ tries doc + 1
      → tries doc' < max_retries
      → crashes doc' ≡ crashes doc
      → Spent max_retries doc doc'
  crashed :
      Waiting doc'
      → tries doc' ≡ tries doc
      → crashes doc' ≡ crashes doc + 1
      → crashes doc < crash_budget
      → Spent max_retries doc doc'

abbrev BackendUp : Acquisition → Type 0
BackendUp how = how ≢ backend_down

-- The document after the claim.
abbrev pub claimed : ℕ → Episode → Episode
claimed now doc = moved_to awaiting_transcript claim now doc

pub Waiting-claimed : (now : ℕ) (doc : Episode) → Waiting (claimed now doc)
unfolding moved_to
Waiting-claimed now doc = refl

pub process-claimed :
    (max_retries : ℕ) (how : Acquisition) (now : ℕ) (doc : Episode)
    → Waiting doc
    → leb crash_budget (crashes doc) ≡ false
    → process max_retries how now doc
      ≡ after_claim max_retries (tries doc) (crashes doc) how now (claimed now doc)
unfolding process
process-claimed max_retries how now doc w fresh = rw fresh (rw (to_awaiting claim now doc w) refl)

pub process-given_up :
    (max_retries : ℕ) (how : Acquisition) (now : ℕ) (doc : Episode)
    → Waiting doc
    → leb crash_budget (crashes doc) ≡ true
    → process max_retries how now doc
      ≡ (ended transcript_failed, moved_to transcript_failed (note_give_up now) now doc)
unfolding process give_up
process-given_up max_retries how now doc w spent =
    rw spent (rw (to_failed (note_give_up now) now doc w) refl)

away :
    (s : EpisodeStatus) (mutate : Episode → Episode) (now : ℕ) (doc : Episode)
    → s ≢ awaiting_transcript
    → status_of (moved_to s mutate now doc) ≢ value awaiting_transcript
unfolding moved_to
away s mutate now doc ne e = ne (value-injective e)

pub crashes-claimed : (now : ℕ) (doc : Episode) → crashes (claimed now doc) ≡ crashes doc + 1
unfolding moved_to claim attempt_count
crashes-claimed now doc = simp (dict_laws)

pub tries-claimed : (now : ℕ) (doc : Episode) → tries (claimed now doc) ≡ tries doc
unfolding moved_to claim attempt_count
tries-claimed now doc = simp (dict_laws)

module _ (s : EpisodeStatus) (c now : ℕ) (doc : Episode) where
  pub crashes-released : crashes (moved_to s (release c) now doc) ≡ c
  unfolding moved_to release attempt_count
  crashes-released = simp (dict_laws)

  pub tries-released : tries (moved_to s (release c) now doc) ≡ tries doc
  unfolding moved_to release attempt_count
  tries-released = simp (dict_laws)

  crashes-failure : crashes (moved_to s (note_failure c now) now doc) ≡ c
  unfolding moved_to note_failure attempt_count
  crashes-failure = simp (dict_laws)

  tries-failure : tries (moved_to s (note_failure c now) now doc) ≡ tries doc + 1
  unfolding moved_to note_failure attempt_count
  tries-failure = simp (dict_laws)

-- An exception other than `ASRUnavailable` ends at ERROR; the claim is not released.
raised-Spent :
    (max_retries now : ℕ) (e : Error) (doc : Episode)
    → leb crash_budget (crashes doc) ≡ false
    → Spent max_retries doc (recorded now (raises e, claimed now doc))
unfolding recorded
raised-Spent max_retries now asr_unavailable doc fresh =
    crashed (Waiting-claimed now doc) (tries-claimed now doc) (crashes-claimed now doc)
      (ground arith)
raised-Spent max_retries now e doc fresh =
    rw
      (apply_error-moves awaiting_transcript "transcript" now (claimed now doc)
        (Waiting-claimed now doc) (unfold can_transition in refl))
      (left (unfold failed_in in λ p. cc (value-injective {s = error} p)))

room : {m : ℕ} (retryable : Bool) (n : ℕ) → (not retryable || leb m n) ≡ false → n < m
room retryable n h = ground arith

failure-Spent :
    (max_retries now : ℕ) (retryable : Bool) (doc : Episode)
    → Spent max_retries doc (
        recorded now
          (handle_failure max_retries (tries doc) (crashes doc) retryable now (claimed now doc)))
unfolding handle_failure
failure-Spent max_retries now retryable doc =
    elim (Bool-cases (not retryable || leb max_retries (tries doc + 1))) [
      | inl exhausted ↦ rw exhausted (
          rw
            (to_failed (note_failure (crashes doc) now) now (claimed now doc)
              (Waiting-claimed now doc))
            (unfold recorded in left (away transcript_failed _ now _ (λ e. cc))))
      | inr more ↦ rw more (
          rw
            (to_awaiting (note_failure (crashes doc) now) now (claimed now doc)
              (Waiting-claimed now doc))
            (unfold recorded in
              tried (unfold moved_to in refl) (tries_after (crashes doc)) (below more)
                (crashes-failure awaiting_transcript (crashes doc) now (claimed now doc))))
    ]
  where
    tries_after :
        (c : ℕ)
        → tries (moved_to awaiting_transcript (note_failure c now) now (claimed now doc))
          ≡ tries doc + 1
    tries_after c =
        tries-failure awaiting_transcript c now (claimed now doc)
        ∙ ap (λ n. n + 1) (tries-claimed now doc)

    below :
        (not retryable || leb max_retries (tries doc + 1)) ≡ false
        → tries
            (moved_to awaiting_transcript (note_failure (crashes doc) now) now (claimed now doc))
          < max_retries
    below more = rw (tries_after (crashes doc)) (room retryable (tries doc + 1) more)

after_claim-Spent :
    (max_retries now : ℕ) (how : Acquisition) (doc : Episode)
    → BackendUp how
    → leb crash_budget (crashes doc) ≡ false
    → Spent max_retries doc
        (recorded now (after_claim max_retries (tries doc) (crashes doc) how now (claimed now doc)))
unfolding after_claim
after_claim-Spent max_retries now (found r) doc up fresh =
    rw
      (to_transcribed (note_transcript (crashes doc) r now) now (claimed now doc)
        (Waiting-claimed now doc))
      (unfold recorded in left (away transcribed _ now _ (λ e. cc)))
after_claim-Spent max_retries now backend_down doc up fresh = absurd (up refl)
after_claim-Spent max_retries now (unavailable retryable) doc up fresh =
    failure-Spent max_retries now retryable doc
after_claim-Spent max_retries now (raised e) doc up fresh = raised-Spent max_retries now e doc fresh
after_claim-Spent max_retries now killed doc up fresh =
    unfold recorded in
    crashed (Waiting-claimed now doc) (tries-claimed now doc) (crashes-claimed now doc)
      (ground arith)

pick_up-Spent :
    (max_retries : ℕ) (how : Acquisition) (now : ℕ) (doc : Episode)
    → BackendUp how
    → Waiting doc
    → Spent max_retries doc (pick_up max_retries how now doc)
unfolding pick_up
pick_up-Spent max_retries how now doc up w = elim (Bool-cases (leb crash_budget (crashes doc))) [
  | inl spent ↦
      rw (process-given_up max_retries how now doc w spent)
        (left (away transcript_failed (note_give_up now) now doc (λ e. cc)))
  | inr fresh ↦
      rw (process-claimed max_retries how now doc w fresh)
        (after_claim-Spent max_retries now how doc up fresh)
]

-- The pick-ups that an episode has left.
abbrev left_over : ℕ → Episode → ℕ
left_over max_retries doc = (max_retries - tries doc) + (crash_budget - crashes doc)

settled :
    (max_retries : ℕ) (hows : List (Acquisition × ℕ)) (doc : Episode)
    → status_of doc ≢ value awaiting_transcript
    → pick_up_all max_retries hows doc ≡ doc
unfolding pick_up_all
settled max_retries [] doc gone = refl
settled max_retries (h ∷ hows) doc gone =
    elim (Bool-cases (status_of doc == value awaiting_transcript)) [
      | inl e ↦ absurd (gone ((string_eq.same_iff _ _).0 e))
      | inr e ↦ rw e
    ]

Spent-drains :
    (max_retries : ℕ) (hows : List (Acquisition × ℕ)) (doc next : Episode)
    → Spent max_retries doc next
    → left_over max_retries doc < suc (length hows)
    → (left_over max_retries next < length hows
        → status_of (pick_up_all max_retries hows next) ≢ value awaiting_transcript)
    → status_of (pick_up_all max_retries hows next) ≢ value awaiting_transcript
Spent-drains max_retries hows doc next (left gone) short ih =
    rw (settled max_retries hows next gone) gone
Spent-drains max_retries hows doc next (tried w t b c) short ih = ih (omega (arith, t, b, c))
Spent-drains max_retries hows doc next (crashed w t c b) short ih = ih (omega (arith, t, b, c))

drains :
    (max_retries : ℕ) (hows : List (Acquisition × ℕ)) (doc : Episode)
    → All (λ h. BackendUp h.0) hows
    → left_over max_retries doc < length hows
    → status_of (pick_up_all max_retries hows doc) ≢ value awaiting_transcript
unfolding pick_up_all
drains max_retries [] doc up short = absurd (omega arith)
drains max_retries ((how, now) ∷ rest) doc up short =
    elim (Bool-cases (status_of doc == value awaiting_transcript)) [
      | inr gone ↦ rw gone (λ e. absurd (clash gone e))
      | inl w ↦ rw w (
          Spent-drains max_retries rest doc (pick_up max_retries how now doc)
            (pick_up-Spent max_retries how now doc up.0 ((string_eq.same_iff _ _).0 w)) short
            (λ h. drains max_retries rest (pick_up max_retries how now doc) up.1 h))
    ]
  where
    clash :
        (status_of doc == value awaiting_transcript) ≡ false
        → status_of doc ≡ value awaiting_transcript
        → ⊥
    clash gone e = cc ((string_eq.same_iff (status_of doc) (value awaiting_transcript)).1 e)

-- While the transcription backend answers, an episode leaves the transcript queue within
-- `max_retries` + `CRASH_BUDGET` + 1 pick-ups, whatever each of them meets: a transcript, a failure,
-- an exception, or the death of the process.
pub queue_drains :
    (max_retries : ℕ) (hows : List (Acquisition × ℕ)) (doc : Episode)
    → All (λ h. h.0 ≢ backend_down) hows
    → max_retries + crash_budget < length hows
    → status_of (pick_up_all max_retries hows doc) ≢ value awaiting_transcript
queue_drains max_retries hows doc up long = drains max_retries hows doc up (omega (arith, long))
