-- ===== src/Operator/Resume.antt =====
-- Which failed episodes the owner can bring back, and to where.
use podcast_digest.Common.{
  ℕ, String, Bool, true, false, ◌&&◌, ◌||◌, not, some, ◌≡◌, refl, ap, ◌∙◌, inl, inr, arith,
  Bool-cases, if◌then◌else◌, lookup, insert, lookup-insert, lookup-insert_self, none, ◌==◌,
  string_eq,
}
use podcast_digest.Errors.{Result, ok, err, illegal_transition, ◌>>=◌}
use podcast_digest.Status.{
  EpisodeStatus, error, published, awaiting_transcript, value, parse_status, can_transition,
  is_status, assert_transition,
}
use podcast_digest.Status.Machine.{
  parse_status-value, is_status_iff, for_all_sound, for_all, implies,
}
use podcast_digest.Episode.{
  Episode, status_of, apply_transition, apply_error, decide, self_transition_ok,
}
use podcast_digest.Episode.Moves.{moved_to, failed_in, apply_transition-moves, apply_error-moves}
use podcast_digest.Operator.{
  moves, http_409, retry_episode, retry_from, resume_point, reset, escalate_episode, release_claim,
  truthy_status, resumable,
}

-- A move that the table forbids is answered by 409, and the document stays as it was.
assert_refused :
    (t s : EpisodeStatus)
    → can_transition t s ≡ false
    → assert_transition (value t) (value s) ≡ err (illegal_transition (value t) (value s))
unfolding assert_transition
assert_refused t s no_move = rw (parse_status-value t, parse_status-value s, no_move)

apply_transition-refused :
    (s t : EpisodeStatus) (mutate : Episode → Episode) (now : ℕ) (doc : Episode)
    → status_of doc ≡ value t
    → (is_status t s && not (self_transition_ok s)) ≡ false
    → can_transition t s ≡ false
    → apply_transition s mutate now doc ≡ err (illegal_transition (value t) (value s))
unfolding apply_transition is_status
apply_transition-refused s t mutate now doc w fresh no_move =
    ap
      (λ a.
        decide s a (record (mutate doc) { updated_at = some now })
          (record (mutate doc) { status = some (value s); updated_at = some now }))
      w
    ∙ rw fresh (
        ap
          (λ (r : Result EpisodeStatus).
            r >>= λ _. ok (record (mutate doc) { status = some (value s); updated_at = some now }))
          (assert_refused t s no_move))

-- Facts of the table about the statuses from which an episode can fail.
failing_table :
    for_all (λ t.
      implies
        (can_transition t error)
        (not (is_status t error || is_status t published) && not (value t == "")))
    ≡ true
unfolding for_all can_transition is_status value
failing_table = refl

and_parts :
    (a b c : Bool) → (not (a || b) && not c) ≡ true → (a ≡ false) × (b ≡ false) × (c ≡ false)
and_parts a b c h = ground arith

implied : (a b : Bool) → implies a b ≡ true → a ≡ true → b ≡ true
implied a b h k = ground arith

failing :
    (t : EpisodeStatus)
    → can_transition t error ≡ true
    → (is_status t error ≡ false) × (is_status t published ≡ false) × ((value t == "") ≡ false)
failing t can = and_parts (is_status t error) (is_status t published) (value t == "") (
    implied (can_transition t error) _
      (for_all_sound
        (λ t.
          implies (can_transition t error)
            (not (is_status t error || is_status t published) && not (value t == "")))
        t failing_table)
      can)

resumes :
    (t : EpisodeStatus)
    → can_transition t error ≡ true
    → resumable (truthy_status (some (value t))) ≡ some t
resumes t can = let (a, b, c) = failing t can in rw c (rw (parse_status-value t) (rw a (rw b refl)))

is_status_flip : (s t : EpisodeStatus) → is_status s t ≡ false → is_status t s ≡ false
is_status_flip s t h = ground (arith, is_status_iff s t, is_status_iff t s)

-- A failure in status `t`, and then a retry.
module _ (t : EpisodeStatus) (stage : String) (now later : ℕ) (doc : Episode)
    (at : status_of doc ≡ value t) (can_fail : can_transition t error ≡ true) where
  resume_point-failed : resume_point (failed_in stage now doc) ≡ some t
  unfolding resume_point failed_in
  resume_point-failed = ap (λ a. resumable (truthy_status (some a))) at ∙ resumes t can_fail

  fresh : (is_status error t && not (self_transition_ok t)) ≡ false
  fresh = rw (is_status_flip t error (failing t can_fail).0)

  retry_from-failed : retry_from error t later (failed_in stage now doc) ≡ (
      if can_transition error t
      then (moves error t, moved_to t reset later (failed_in stage now doc))
      else (http_409, failed_in stage now doc))
  unfolding retry_from
  retry_from-failed = rw (failing t can_fail).0 (elim (Bool-cases (can_transition error t)) [
    | inl can ↦ rw (
      can,
      apply_transition-moves t error reset later (failed_in stage now doc)
          (unfold failed_in in refl) fresh can,
    )
    | inr no_move ↦ rw (
      no_move,
      apply_transition-refused t error reset later (failed_in stage now doc)
          (unfold failed_in in refl) fresh no_move,
    )
  ])

  retry-failed : retry_episode later (apply_error stage now doc) ≡ (
      if can_transition error t
      then (moves error t, moved_to t reset later (failed_in stage now doc))
      else (http_409, failed_in stage now doc))
  unfolding retry_episode parse_status
  retry-failed =
      rw (apply_error-moves t stage now doc at can_fail)
        (unfold failed_in in rw resume_point-failed retry_from-failed)

  -- The episode after a retry: at `t` again, no error, the counters of the transcript stage at zero,
  -- and the rest as before the failure.
  pub record BroughtBack (d : Episode) : Type 0 where
    pub stands : d.status ≡ some (value t)
    pub no_error : d.last_error ≡ none
    pub no_tries : lookup "transcript" d.attempts ≡ some 0
    pub no_crashes : lookup "transcript_crash" d.attempts ≡ some 0
    pub other_counters :
        (k : String)
        → ("transcript" == k) ≡ false
        → ("transcript_crash" == k) ≡ false
        → lookup k d.attempts ≡ lookup k doc.attempts
    pub same_verdict : d.tier0 ≡ doc.tier0
    pub same_summary : d.tier1 ≡ doc.tier1
    pub same_claim : d.digest_id ≡ doc.digest_id

  moved-BroughtBack : BroughtBack (moved_to t reset later (failed_in stage now doc))
  unfolding moved_to reset failed_in
  moved-BroughtBack = record {
    stands = refl;
    no_error = refl;
    no_tries =
        lookup-insert "transcript_crash" "transcript" 0 (insert "transcript" 0 doc.attempts)
        ∙ lookup-insert_self "transcript" 0 doc.attempts;
    no_crashes = lookup-insert_self "transcript_crash" 0 (insert "transcript" 0 doc.attempts);
    other_counters = λ k a b.
        lookup-insert "transcript_crash" k 0 (insert "transcript" 0 doc.attempts)
        ∙ rw b (lookup-insert "transcript" k 0 doc.attempts ∙ rw a refl);
    same_verdict = refl;
    same_summary = refl;
    same_claim = refl;
  }

  -- A stage fails on an episode, at a status that may go to ERROR, and the owner asks for a retry.
  -- Exactly if the table lets ERROR go there, the episode goes back to the status at which it failed,
  -- with no error, with the counters of the transcript stage at zero, and with its other counters, its
  -- verdict, its summary and its digest claim as before; otherwise the retry is refused and the
  -- episode stays at ERROR.
  pub retry_after_failure :
      (d : Episode) × (retry_episode later (apply_error stage now doc) ≡ (
        if can_transition error t then (moves error t, d) else (http_409, failed_in stage now doc)))
      × BroughtBack d
  retry_after_failure =
      (moved_to t reset later (failed_in stage now doc), retry-failed, moved-BroughtBack)

  -- After any recorded failure, also one that cannot be retried, an escalation puts the episode back in the
  -- transcript queue, with its counters, its error and its digest claim reset.
  pub escalate_after_failure : escalate_episode later (apply_error stage now doc) ≡ (
    moves error awaiting_transcript,
    moved_to awaiting_transcript (release_claim error later) later (failed_in stage now doc),
  )
  unfolding escalate_episode parse_status
  escalate_after_failure = rw (apply_error-moves t stage now doc at can_fail) (
      unfold failed_in in
      rw
        (apply_transition-moves awaiting_transcript error (release_claim error later) later
          (failed_in stage now doc) refl to_queue to_queue2)
        refl)
    where
      to_queue :
          (is_status error awaiting_transcript && not (self_transition_ok awaiting_transcript))
          ≡ false
      to_queue = unfold is_status in refl

      to_queue2 : can_transition error awaiting_transcript ≡ true
      to_queue2 = unfold can_transition in refl
