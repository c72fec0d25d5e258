-- ===== src/Runner/Steps.antt =====
-- podcast_agent/pipeline/runner.py: what the handling of one episode by each of the four stages makes
-- of it, while the models and the transcription backend answer.
use podcast_digest.Common.{
  String, Bool, true, false, not, Option, none, some, List, string_eq, any_of, Bool-cases, beq_refl,
  ◌≡◌, ◌≢◌, refl, sym, ap, subst, some_inj, ◌∙◌, inl, inr,
}
use podcast_digest.Errors.{Error}
use podcast_digest.Status.{
  EpisodeStatus, value, error, active_statuses, member, can_transition, is_status,
}
use podcast_digest.Status.Machine.{value-injective}
use podcast_digest.Episode.{Episode, status_of}
use podcast_digest.Episode.Moves.{failed_in, apply_error-moves}
use podcast_digest.Digest.Listing.{routine_origin}
use podcast_digest.Transcript.{StageEnd, ended, raises}
use podcast_digest.Runner.{Stage, has_text, is_owed_work, queued, left_by}
use podcast_digest.Runner.Stages.{round, is_calm, Calm, step}

abbrev pub At : EpisodeStatus → Episode → Type 0
At t doc = doc.status ≡ some (value t)

-- A routine episode at one of the listed statuses.
pub record OneOf (ts : List EpisodeStatus) (doc : Episode) : Type 0 where
  pub status : EpisodeStatus
  pub listed : member status ts ≡ true
  pub at : At status doc
  pub routine : doc.origin ≡ routine_origin

-- A round that is not deferred, and where it takes the episode.
abbrev pub Rounds : Stage → List EpisodeStatus → String → Episode → Type 0
Rounds stage ts i doc = Calm stage (i, doc) × OneOf ts (round stage i doc)

pub queued-At :
    (t : EpisodeStatus) (doc : Episode)
    → queued t doc ≡ true
    → At t doc × (doc.origin ≡ routine_origin)
unfolding queued has_text
queued-At t doc h = elim (Bool-cases (has_text doc.status (value t))) [
  | inl e ↦ (text_there doc.status e, (string_eq.same_iff doc.origin routine_origin).0 (rw e at h))
  | inr e ↦ absurd (cc (rw e at h))
]
  where
    text_there : (o : Option String) → has_text o (value t) ≡ true → o ≡ some (value t)
    text_there none k = absurd (cc k)
    text_there (some text) k = ap some ((string_eq.same_iff text (value t)).0 k)

pub queued_At :
    (t : EpisodeStatus) (doc : Episode)
    → At t doc
    → doc.origin ≡ routine_origin
    → queued t doc ≡ true
unfolding queued has_text
queued_At t doc at routine =
    rw at (rw (beq_refl (value t)) ((string_eq.same_iff doc.origin routine_origin).1 routine))

pub At-status_of : (t : EpisodeStatus) (doc : Episode) → At t doc → status_of doc ≡ value t
At-status_of t doc h = rw h refl

module _ (stage : Stage) (ts : List EpisodeStatus) (i : String) (doc d : Episode)
    (routine : d.origin ≡ routine_origin) where
  pub ended-Rounds :
      (t : EpisodeStatus)
      → stage.handle i doc ≡ (ended t, d)
      → At t d
      → member t ts ≡ true
      → Rounds stage ts i doc
  unfolding is_calm left_by
  ended-Rounds t h at listed = (
    ap (λ (x : StageEnd × Episode). is_calm stage x.0) h,
    rw (h, left_by) (record { status = t; listed = listed; at = at; routine = routine }),
  )

  pub raises-Rounds :
      (t : EpisodeStatus) (e : Error)
      → stage.handle i doc ≡ (raises e, d)
      → stage.defers e ≡ false
      → At t d
      → can_transition t error ≡ true
      → member error ts ≡ true
      → Rounds stage ts i doc
  unfolding is_calm left_by
  raises-Rounds t e h on at can listed = (
    ap (λ (x : StageEnd × Episode). is_calm stage x.0) h ∙ ap not on,
    rw (h, left_by)
        (rw on (
          rw (apply_error-moves t stage.error_name (stage.failed_at i) d (At-status_of t d at) can)
            (record {
              status = error;
              listed = listed;
              at = unfold failed_in in refl;
              routine = unfold failed_in in routine;
            }))),
  )

pub not_queued : (t u : EpisodeStatus) (doc : Episode) → At t doc → t ≢ u → queued u doc ≡ false
not_queued t u doc at other = elim (Bool-cases (queued u doc)) [
  | inl there ↦ absurd (other (value-injective (some_inj (sym at ∙ (queued-At u doc there).0))))
  | inr not_there ↦ not_there
]

pub OneOf-not_queued :
    (ts : List EpisodeStatus) (u : EpisodeStatus) (doc : Episode)
    → OneOf ts doc
    → member u ts ≡ false
    → queued u doc ≡ false
OneOf-not_queued ts u doc one none_of =
    not_queued one.status u doc one.at
      (λ same. cc (sym (subst (λ x. member x ts ≡ true) same one.listed) ∙ none_of))

-- Where a stage leaves no episode of its queue at `u`, and `u` only in its queue, there is none at `u`
-- behind it.
pub step-not_queued :
    (stage : Stage) (ts : List EpisodeStatus) (chosen : Episode → Bool) (i : String)
    (u : EpisodeStatus) (doc : Episode)
    → (chosen doc ≡ true → Rounds stage ts i doc)
    → member u ts ≡ false
    → (chosen doc ≡ false → queued u doc ≡ false)
    → queued u (step stage chosen i doc) ≡ false
step-not_queued stage ts chosen i u doc rounds none_of others = elim (Bool-cases (chosen doc)) [
  | inl e ↦ rw e (OneOf-not_queued ts u _ (rounds e).1 none_of)
  | inr e ↦ rw e (others e)
]

-- A stage that ends within a list of statuses leaves the episodes there that are there.
pub step-OneOf :
    (stage : Stage) (ts us : List EpisodeStatus) (chosen : Episode → Bool) (i : String)
    (doc : Episode)
    → (chosen doc ≡ true → Rounds stage ts i doc)
    → ((t : EpisodeStatus) → member t ts ≡ true → member t us ≡ true)
    → OneOf us doc
    → OneOf us (step stage chosen i doc)
step-OneOf stage ts us chosen i doc rounds within one = elim (Bool-cases (chosen doc)) [
  | inl e ↦
      let after = (rounds e).1 in
      rw e (record {
        status = after.status;
        listed = within after.status after.listed;
        at = after.at;
        routine = after.routine;
      })
  | inr e ↦ rw e one
]

-- An episode of a queue is owed work.
pub queued-owed :
    (t : EpisodeStatus) (doc : Episode)
    → member t active_statuses ≡ true
    → queued t doc ≡ true
    → is_owed_work doc ≡ true
unfolding is_owed_work any_of has_text member is_status
queued-owed t doc active h =
    let there = queued-At t doc h in
    rw there.0 (rw active ((string_eq.same_iff doc.origin routine_origin).1 there.1))
