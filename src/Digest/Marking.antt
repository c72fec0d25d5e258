-- ===== src/Digest/Marking.antt =====
-- podcast_agent/digest/generate.py: what one round of `_mark_published` makes of an episode.
use podcast_digest.Common.{
  ℕ, String, Bool, true, false, ◌&&◌, ◌||◌, not, some, List, [], ◌==◌, string_eq, if◌then◌else◌,
  Bool-cases, ◌≡◌, refl, sym, ap, ◌∙◌, inl, inr, arith,
}
use podcast_digest.Errors.{Result, ok}
use podcast_digest.Status.{
  EpisodeStatus, value, is_status, can_transition, member, published, ready_for_digest,
  digest_direct, digestable_statuses,
}
use podcast_digest.Status.Machine.{parse_status-value, for_all, for_all_sound, implies}
use podcast_digest.Store.{Doc, MemoryStore, Op, get, write}
use podcast_digest.Store.Update.{update_doc, update_doc_alone}
use podcast_digest.Episode.{Episode, status_of, current_status, apply_transition}
use podcast_digest.Episode.Moves.{moved_to, apply_transition-moves}
use podcast_digest.Episode.Stored.{transition, max_retries, on_body}
use podcast_digest.Digest.{claimed, claim_for, counted, mark_read}

abbrev pub nobody : ℕ → List (Op Episode)
nobody n = []

-- The two statuses that a digest publishes.
unfoldable pub is_digestable : Episode → Bool
is_digestable doc = status_of doc == value ready_for_digest || status_of doc == value digest_direct

-- What one digest makes of an episode: nothing if another one has it, else it takes it.
unfoldable pub marked : String → ℕ → Episode → Episode
marked digest_id now doc =
    if claimed doc
    then doc
    else if is_digestable doc
    then record doc {
      digest_id = some digest_id;
      status = some (value published);
      updated_at = some now;
    }
    else record doc { digest_id = some digest_id }

abbrev pub HasStatus : Episode → Type 0
HasStatus doc = (st : EpisodeStatus) × (doc.status ≡ some (value st))

digestable_table :
    for_all (λ t.
      implies
        (member t digestable_statuses)
        (can_transition t published && not (is_status t published)))
    ≡ true
unfolding for_all can_transition is_status member value
digestable_table = refl

member_table :
    for_all (λ t.
      let text = value t == value ready_for_digest || value t == value digest_direct in
      if member t digestable_statuses then text else not text)
    ≡ true
unfolding for_all member value is_status
member_table = refl

member-value :
    (t : EpisodeStatus)
    → member t digestable_statuses
      ≡ (value t == value ready_for_digest || value t == value digest_direct)
member-value t = ground (
  arith,
  for_all_sound
      (λ t.
        let text = value t == value ready_for_digest || value t == value digest_direct in
        if member t digestable_statuses then text else not text)
      t member_table,
)

current_status-value :
    (doc : Episode) (st : EpisodeStatus) → doc.status ≡ some (value st) → current_status doc ≡ ok st
current_status-value doc st hs = rw (hs, current_status) (rw (parse_status-value st) refl)

status_of-value :
    (doc : Episode) (st : EpisodeStatus) → doc.status ≡ some (value st) → status_of doc ≡ value st
status_of-value doc st hs = rw (hs, status_of) refl

and_both : (a b : Bool) → (a && b) ≡ true → (a ≡ true) × (b ≡ true)
and_both a b h = ground arith

-- A digestable status may be published.
may_publish :
    (t : EpisodeStatus)
    → member t digestable_statuses ≡ true
    → (can_transition t published ≡ true) × (is_status t published ≡ false)
may_publish t m = ground (
  arith,
  for_all_sound
      (λ t.
        implies (member t digestable_statuses)
          (can_transition t published && not (is_status t published)))
      t digestable_table,
)

is_digestable-member :
    (doc : Episode) (st : EpisodeStatus)
    → doc.status ≡ some (value st)
    → is_digestable doc ≡ member st digestable_statuses
unfolding is_digestable
is_digestable-member doc st hs =
    ap (λ a. a == value ready_for_digest || a == value digest_direct) (status_of-value doc st hs)
    ∙ sym (member-value st)

module _ (digest_id : String) (now : ℕ) (doc : Episode) (st : EpisodeStatus)
    (hs : doc.status ≡ some (value st)) (free : claimed doc ≡ false) where
  marked-publishes :
      member st digestable_statuses ≡ true
      → marked digest_id now doc ≡ moved_to published (claim_for digest_id) now doc
  unfolding marked moved_to claim_for
  marked-publishes m = rw (free, marked) (rw (is_digestable-member doc st hs ∙ m) refl)

  marked-lists :
      member st digestable_statuses ≡ false → marked digest_id now doc ≡ claim_for digest_id doc
  unfolding marked claim_for
  marked-lists m = rw (free, marked) (rw (is_digestable-member doc st hs ∙ m) refl)

module _ (uuid4 : ℕ → String) (digest_id : String) (now : ℕ) where
  -- One write of a new body, with nobody in between.
  counted-update_doc :
      (i : String) (s : MemoryStore Episode) (d : Doc Episode) (b : Episode)
      (f : Episode → Result Episode)
      → get s i ≡ some d
      → d.id ≡ some i
      → (i == "") ≡ false
      → f d.body ≡ ok b
      → counted (update_doc uuid4 max_retries i (on_body f) nobody s)
        ≡ (ok true, write uuid4 s i (record d { body = b }))
  counted-update_doc i s d b f g hi named e = ap counted (
      update_doc_alone uuid4 _ i (on_body f) s d (record d { body = b }) g (rw (e, on_body) refl) hi
        refl named)

  pub mark_read_alone :
      (i : String) (s : MemoryStore Episode) (d : Doc Episode) (st : EpisodeStatus)
      → get s i ≡ some d
      → d.id ≡ some i
      → (i == "") ≡ false
      → d.body.status ≡ some (value st)
      → claimed d.body ≡ false
      → mark_read uuid4 nobody digest_id now i d.body s
        ≡ (ok true, write uuid4 s i (record d { body = marked digest_id now d.body }))
  unfolding mark_read
  mark_read_alone i s d st g hi named hs free = elim (Bool-cases (member st digestable_statuses)) [
    | inl m ↦
        let (can, fresh) = may_publish st m in
        rw (free, mark_read)
          (rw (current_status-value d.body st hs) (
            rw m (
              unfold transition in
              counted-update_doc i s d (moved_to published (claim_for digest_id) now d.body)
                (apply_transition published (claim_for digest_id) now) g hi named
                (apply_transition-moves published st (claim_for digest_id) now d.body
                  (status_of-value d.body st hs) (rw fresh refl) can)
              ∙ ap (λ b. (ok true, write uuid4 s i (record d { body = b })))
                  (sym (marked-publishes digest_id now d.body st hs free m)))))
    | inr m ↦
        rw (free, mark_read)
          (rw (current_status-value d.body st hs) (
            rw m (
              counted-update_doc i s d (claim_for digest_id d.body)
                (λ doc. ok (claim_for digest_id doc)) g hi named refl
              ∙ ap (λ b. (ok true, write uuid4 s i (record d { body = b })))
                  (sym (marked-lists digest_id now d.body st hs free m)))))
  ]
