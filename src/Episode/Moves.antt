-- ===== src/Episode/Moves.antt =====
-- What a guarded write and a recorded error make of an episode whose status is known.
use podcast_digest.Common.{ℕ, String, true, false, ◌&&◌, not, some, ◌≡◌, refl, ap, ◌∙◌, string_eq}
use podcast_digest.Errors.{Result, ok, ◌>>=◌}
use podcast_digest.Status.{
  EpisodeStatus, error, value, assert_transition, can_transition, is_status,
}
use podcast_digest.Status.Machine.{assert_transition_iff}
use podcast_digest.Episode.{
  Episode, status_of, decide, apply_transition, apply_error, self_transition_ok,
}

unfoldable pub moved_to : EpisodeStatus → (Episode → Episode) → ℕ → Episode → Episode
moved_to s mutate now doc = record (mutate doc) { status = some (value s); updated_at = some now }

unfoldable pub failed_in : String → ℕ → Episode → Episode
failed_in stage now doc = record doc {
  status = some (value error);
  last_error = some (record { stage = stage; at = now; status_when_failed = some (status_of doc) });
  updated_at = some now;
}

decide-moves :
    (s t : EpisodeStatus) (x y : Episode)
    → (is_status t s && not (self_transition_ok s)) ≡ false
    → can_transition t s ≡ true
    → decide s (value t) x y ≡ ok y
unfolding is_status
decide-moves s t x y fresh can = rw fresh (
    ap (λ (r : Result EpisodeStatus). r >>= λ _. ok y)
      ((assert_transition_iff (value t) (value s) s).1 (t, refl, refl, can)))

pub apply_transition-moves :
    (s t : EpisodeStatus) (mutate : Episode → Episode) (now : ℕ) (doc : Episode)
    → status_of doc ≡ value t
    → (is_status t s && not (self_transition_ok s)) ≡ false
    → can_transition t s ≡ true
    → apply_transition s mutate now doc ≡ ok (moved_to s mutate now doc)
unfolding apply_transition moved_to
apply_transition-moves s t mutate now doc w fresh can =
    ap
      (λ a.
        decide s a (record (mutate doc) { updated_at = some now })
          (record (mutate doc) { status = some (value s); updated_at = some now }))
      w
    ∙ decide-moves s t _ _ fresh can

pub apply_error-moves :
    (t : EpisodeStatus) (stage : String) (now : ℕ) (doc : Episode)
    → status_of doc ≡ value t
    → can_transition t error ≡ true
    → apply_error stage now doc ≡ failed_in stage now doc
unfolding apply_error failed_in
apply_error-moves t stage now doc w can = rw (
  ap (λ a. assert_transition a (value error)) w
      ∙ (assert_transition_iff (value t) (value error) error).1 (t, refl, refl, can),
  apply_error,
)
