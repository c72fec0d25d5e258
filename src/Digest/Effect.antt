-- ===== src/Digest/Effect.antt =====
-- The effect of `_mark_published` on every episode of the store.
use podcast_digest.Common.{
  ℕ, suc, String, Bool, true, false, ◌||◌, Option, none, some, List, [], ◌∷◌, ◌++◌, ◌==◌, string_eq,
  if◌then◌else◌, lookup-insert, Bool-cases, Option-cases, some_inj, any_of, All, ◌≡◌, refl, sym, ap,
  subst, ◌∙◌, inl, inr, arith,
}
use podcast_digest.Errors.{ok}
use podcast_digest.Status.{published}
use podcast_digest.Store.{Doc, MemoryStore, puts, step, get, write}
use podcast_digest.Store.Revisions.{IsSound, step-IsSound}
use podcast_digest.Store.Update.{put_fits}
use podcast_digest.Episode.{Episode}
use podcast_digest.Digest.{claimed, mark_read, mark_one, mark_published}
use podcast_digest.Digest.Marking.{marked, nobody, HasStatus, is_digestable, mark_read_alone}

-- The episode that is stored under an id.
abbrev pub body_of : Option (Doc Episode) → Option Episode
body_of none = none
body_of (some d) = some d.body

unfoldable pub body_at : MemoryStore Episode → String → Option Episode
body_at s i = body_of (get s i)

abbrev pub map_option : (Episode → Episode) → Option Episode → Option Episode
map_option f none = none
map_option f (some doc) = some (f doc)

abbrev pub listed : String → List String → Bool
listed j ids = any_of (λ i. i == j) ids

pub body_at-get :
    (s : MemoryStore Episode) (i : String) (d : Doc Episode)
    → get s i ≡ some d
    → body_at s i ≡ some d.body
unfolding body_at
body_at-get s i d e = ap body_of e

module _ (uuid4 : ℕ → String) where
  -- Revisions are in order, and every episode has a status.
  pub record IsReady (s : MemoryStore Episode) : Type 0 where
    pub sound : IsSound uuid4 s
    pub statuses : (j : String) (doc : Episode) → body_at s j ≡ some doc → HasStatus doc

  write-body_at :
      (s : MemoryStore Episode) (i j : String) (d : Doc Episode)
      → body_at (write uuid4 s i d) j ≡ (if i == j then some d.body else body_at s j)
  unfolding body_at get write
  write-body_at s i j d = elim (Bool-cases (i == j)) [
    | inl e ↦ ap body_of (lookup-insert i j _ s.docs) ∙ rw e refl
    | inr e ↦ ap body_of (lookup-insert i j _ s.docs) ∙ rw e refl
  ]

  write-IsSound :
      (s : MemoryStore Episode) (i : String) (d d' : Doc Episode)
      → IsSound uuid4 s
      → get s i ≡ some d
      → d'.id ≡ some i
      → d'.rev ≡ d.rev
      → (i == "") ≡ false
      → IsSound uuid4 (write uuid4 s i d')
  unfolding step
  write-IsSound s i d d' h g hi hr named =
      subst (IsSound uuid4) (ap (λ p. p.1) (put_fits uuid4 i s d d' g hi hr named))
        (step-IsSound uuid4 s (puts d') h)

module _ (digest_id : String) (real : (digest_id == "") ≡ false) (now : ℕ) where
  pub claimed-marked : (doc : Episode) → claimed (marked digest_id now doc) ≡ true
  unfolding marked
  claimed-marked doc = elim (Bool-cases (claimed doc)) [
    | inl had ↦ rw had had
    | inr free ↦ elim (Bool-cases (is_digestable doc)) [
      | inl p ↦ rw free (rw p (unfold claimed in rw real refl))
      | inr p ↦ rw free (rw p (unfold claimed in rw real refl))
    ]
  ]

  pub marked_again :
      (later : ℕ) (doc : Episode) → claimed doc ≡ true → marked digest_id later doc ≡ doc
  unfolding marked
  marked_again later doc had = rw had refl

  marked-HasStatus : (doc : Episode) → HasStatus doc → HasStatus (marked digest_id now doc)
  unfolding marked
  marked-HasStatus doc (st, e) = elim (Bool-cases (claimed doc)) [
    | inl had ↦ rw had (st, e)
    | inr free ↦ elim (Bool-cases (is_digestable doc)) [
      | inl p ↦ rw free (rw p (published, refl))
      | inr p ↦ rw free (rw p (st, e))
    ]
  ]

pub listed-append :
    (j : String) (xs ys : List String) → listed j (xs ++ ys) ≡ (listed j xs || listed j ys)
unfolding any_of
listed-append j [] ys = refl
listed-append j (x ∷ xs) ys = ground (arith, listed-append j xs ys)

module _ (uuid4 : ℕ → String) (digest_id : String) (real : (digest_id == "") ≡ false)
    (now : ℕ) where
  -- Every listed episode is marked, and no other one changes.
  pub record Marks (ids : List String) (s t : MemoryStore Episode) : Type 0 where
    pub ready : IsReady uuid4 t
    pub bodies :
        (j : String)
        → body_at t j
          ≡ (if listed j ids then map_option (marked digest_id now) (body_at s j) else body_at s j)

  ready_after :
      (ids : List String) (s t : MemoryStore Episode)
      → IsReady uuid4 s
      → IsSound uuid4 t
      → ((j : String)
          → body_at t j ≡ (
              if listed j ids
              then map_option (marked digest_id now) (body_at s j)
              else body_at s j))
      → Marks ids s t
  ready_after ids s t h sound bodies = record {
    ready = record {
      sound = sound;
      statuses = λ j doc e. elim (Bool-cases (listed j ids)) [
        | inr out ↦
            let kept : body_at t j ≡ body_at s j = bodies j ∙ rw out refl in
            h.statuses j doc (sym kept ∙ e)
        | inl on ↦ elim (Option-cases (body_at s j)) [
          | inl absent ↦
              let nothing : body_at t j ≡ none = bodies j ∙ rw on (ap (map_option _) absent) in
              absurd (cc (nothing, e))
          | inr (old, there) ↦
              let got : body_at t j ≡ some (marked digest_id now old) =
                bodies j ∙ rw on (ap (map_option (marked digest_id now)) there) in
              let same : marked digest_id now old ≡ doc = some_inj (sym got ∙ e) in
              subst HasStatus same
                (marked-HasStatus digest_id real now old (h.statuses j old there))
        ]
      ];
    };
    bodies = bodies;
  }

  -- An episode that marking leaves as it is.
  unmoved :
      (i : String) (s : MemoryStore Episode)
      → IsReady uuid4 s
      → map_option (marked digest_id now) (body_at s i) ≡ body_at s i
      → Marks (i ∷ []) s s
  unmoved i s h still = ready_after (i ∷ []) s s h h.sound (λ j. elim (Bool-cases (i == j)) [
    | inr other ↦ unfold any_of in rw other refl
    | inl here ↦
        let same : i ≡ j = (string_eq.same_iff i j).0 here in
        unfold any_of in
        rw here (
          subst (λ k. body_at s k ≡ map_option (marked digest_id now) (body_at s k)) same
            (sym still))
  ])

  taken :
      (i : String) (s : MemoryStore Episode) (d : Doc Episode)
      → IsReady uuid4 s
      → get s i ≡ some d
      → d.id ≡ some i
      → (i == "") ≡ false
      → Marks (i ∷ []) s (write uuid4 s i (record d { body = marked digest_id now d.body }))
  taken i s d h e hi named =
      let d' : Doc Episode = record d { body = marked digest_id now d.body } in
      ready_after (i ∷ []) s (write uuid4 s i d') h
        (write-IsSound uuid4 s i d d' h.sound e hi refl named)
        (λ j. write-body_at uuid4 s i j d' ∙ elim (Bool-cases (i == j)) [
          | inr other ↦ unfold any_of in rw other refl
          | inl here ↦
              let same : i ≡ j = (string_eq.same_iff i j).0 here in
              let there : body_at s j ≡ some d.body =
                subst (λ k. body_at s k ≡ some d.body) same (body_at-get s i d e) in
              unfold any_of in rw here (sym (ap (map_option (marked digest_id now)) there))
        ])

  mark_one-Marks :
      (i : String) (s : MemoryStore Episode)
      → IsReady uuid4 s
      → (i == "") ≡ false
      → (b : Bool) × ((mark_one uuid4 nobody digest_id now i s).0 ≡ ok b)
        × Marks (i ∷ []) s (mark_one uuid4 nobody digest_id now i s).1
  unfolding mark_one mark_read
  mark_one-Marks i s h named = elim (Option-cases (get s i)) [
    | inl absent ↦
        rw (absent, mark_one)
          (
            false,
            refl,
            unmoved i s h (
                unfold body_at in
                ap (λ o. map_option (marked digest_id now) (body_of o)) absent
                ∙ sym (ap body_of absent)),
          )
    | inr (d, e) ↦
        rw (e, mark_one)
          (elim (Bool-cases (claimed d.body)) [
            | inl had ↦
                rw (had, mark_read)
                  (
                    false,
                    refl,
                    unmoved i s h (
                        ap (map_option (marked digest_id now)) (body_at-get s i d e)
                        ∙ ap some (marked_again digest_id real now now d.body had)
                        ∙ sym (body_at-get s i d e)),
                  )
            | inr free ↦
                let (st, hs) = h.statuses i d.body (body_at-get s i d e) in
                let hi : d.id ≡ some i = h.sound.keyed i d (unfold get in e) in
                rw (mark_read_alone uuid4 digest_id now i s d st e hi named hs free)
                  (true, refl, taken i s d h e hi named)
          ])
  ]

  mark_twice :
      (o : Option Episode)
      → map_option (marked digest_id now) (map_option (marked digest_id now) o)
        ≡ map_option (marked digest_id now) o
  mark_twice none = refl
  mark_twice (some doc) = ap some (
      marked_again digest_id real now now (marked digest_id now doc)
        (claimed-marked digest_id real now doc))

  Marks-append :
      (xs ys : List String) (s t u : MemoryStore Episode)
      → Marks xs s t
      → Marks ys t u
      → Marks (xs ++ ys) s u
  Marks-append xs ys s t u m n = record {
    ready = n.ready;
    bodies = λ j. n.bodies j ∙ elim (Bool-cases (listed j xs)) [
      | inl on ↦
          rw (m.bodies j, listed-append j xs ys)
            (rw on (elim (Bool-cases (listed j ys)) [
              | inl p ↦ rw p (mark_twice (body_at s j))
              | inr p ↦ rw p refl
            ]))
      | inr out ↦ rw (m.bodies j, listed-append j xs ys) (rw out refl)
    ];
  }

  -- With nobody else writing, on a sound store in which every episode has a status, for non-empty
  -- ids and a non-empty digest id: `_mark_published` returns, and then every listed episode that
  -- is stored is marked, published if its status is digestable, left alone if a digest has it already,
  -- and no other episode has changed.
  pub mark_published-Marks :
      (ids : List String) (s : MemoryStore Episode)
      → IsReady uuid4 s
      → All (λ i. (i == "") ≡ false) ids
      → (n : ℕ) × ((mark_published uuid4 nobody digest_id now ids s).0 ≡ ok n)
        × Marks ids s (mark_published uuid4 nobody digest_id now ids s).1
  unfolding mark_published
  mark_published-Marks [] s h named =
      (0, refl, record { ready = h; bodies = λ j. unfold any_of in refl })
  mark_published-Marks (i ∷ ids) s h named =
      let one = mark_one uuid4 nobody digest_id now i s in
      let (b, e, m) = mark_one-Marks i s h named.0 in
      let (n, f, ms) = mark_published-Marks ids one.1 m.ready named.1 in
      rw (e, mark_published)
        (rw f ((if b then suc n else n), refl, Marks-append (i ∷ []) ids s one.1 _ m ms))
