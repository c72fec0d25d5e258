-- ===== src/Digest/Recovery.antt =====
-- podcast_agent/digest/generate.py: a marking that was cut short, and `_reconcile`.
use podcast_digest.Common.{
  ℕ, String, Bool, true, false, Option, none, some, List, [], ◌∷◌, ◌++◌, ◌==◌, string_eq, ◌||◌,
  if◌then◌else◌, Bool-cases, All, ◌≡◌, refl, sym, ap, ◌∙◌, inl, inr,
}
use podcast_digest.Errors.{ok}
use podcast_digest.Store.{MemoryStore}
use podcast_digest.Episode.{Episode}
use podcast_digest.Digest.{claimed, mark_published, DigestDoc, reconcile}
use podcast_digest.Digest.Marking.{marked, nobody, is_digestable}
use podcast_digest.Digest.Effect.{
  body_at, map_option, listed, listed-append, IsReady, mark_published-Marks, claimed-marked,
  marked_again,
}

All-left {ℓ κ} : {A : Type ℓ} (P : A → Type κ) (xs ys : List A) → All P (xs ++ ys) → All P xs
All-left P [] ys h = tt
All-left P (x ∷ xs) ys h = (h.0, All-left P xs ys h.1)

-- What a reader of the digest sees of an episode: its status, and the digest that has it.
abbrev pub view : Episode → Option String × Option String
view doc = (doc.status, doc.digest_id)

abbrev pub view_of : Option Episode → Option (Option String × Option String)
view_of none = none
view_of (some doc) = some (view doc)

module _ (digest_id : String) (real : (digest_id == "") ≡ false) (early late : ℕ) where
  view-marked :
      (doc : Episode) → view (marked digest_id late doc) ≡ view (marked digest_id early doc)
  unfolding marked
  view-marked doc = elim (Bool-cases (claimed doc)) [
    | inl had ↦ rw had refl
    | inr free ↦ elim (Bool-cases (is_digestable doc)) [
      | inl p ↦ rw free (rw p refl)
      | inr p ↦ rw free (rw p refl)
    ]
  ]

  -- The clock of the second marking does not show, nor does a second marking.
  view_late :
      (o : Option Episode)
      → view_of (map_option (marked digest_id late) o)
        ≡ view_of (map_option (marked digest_id early) o)
  view_late none = refl
  view_late (some doc) = ap some (view-marked doc)

  view_again :
      (o : Option Episode)
      → view_of (map_option (marked digest_id late) (map_option (marked digest_id early) o))
        ≡ view_of (map_option (marked digest_id early) o)
  view_again none = refl
  view_again (some doc) =
      ap (λ d. some (view d))
        (marked_again digest_id real early late (marked digest_id early doc)
          (claimed-marked digest_id real early doc))

  twice_view :
      (a b : Bool) (o : Option Episode)
      → view_of (
          if a || b
          then map_option
              (marked digest_id late)
              (if a then map_option (marked digest_id early) o else o)
          else (if a then map_option (marked digest_id early) o else o))
        ≡ view_of (if a || b then map_option (marked digest_id early) o else o)
  twice_view true b o = view_again o
  twice_view false true o = view_late o
  twice_view false false o = refl

module _ (uuid4 : ℕ → String) (digest_id : String) (real : (digest_id == "") ≡ false)
    (early late : ℕ) where
  reconcile-marks :
      (ids : List String) (s : MemoryStore Episode) (n : ℕ)
      → (mark_published uuid4 nobody digest_id late ids s).0 ≡ ok n
      → reconcile uuid4 nobody digest_id late
          (record { episode_ids = ids; marking_complete = false })
          s
        ≡ (
          ok (some n),
          record { episode_ids = ids; marking_complete = true },
          (mark_published uuid4 nobody digest_id late ids s).1,
        )
  unfolding reconcile
  reconcile-marks ids s n e = rw e refl

  -- With nobody else writing, on a sound store in which every episode has a status, for non-empty
  -- episode ids and a non-empty digest id: a run that wrote its digest and died after claiming the
  -- episodes `xs` of `xs ++ ys` is completed by `_reconcile`, at any later time. The digest is
  -- complete then, and every episode of the store has the status and the digest that it would have
  -- if the first run had not died.
  pub reconcile_completes :
      (xs ys : List String) (s : MemoryStore Episode)
      → IsReady uuid4 s
      → All (λ i. (i == "") ≡ false) (xs ++ ys)
      → (done : DigestDoc × MemoryStore Episode) × (n : ℕ) × (reconcile uuid4 nobody digest_id late
            (record { episode_ids = xs ++ ys; marking_complete = false })
            (mark_published uuid4 nobody digest_id early xs s).1
          ≡ (ok (some n), done.0, done.1))
        × (done.0.marking_complete ≡ true)
        × ((j : String)
            → view_of (body_at done.1 j)
              ≡ view_of (body_at (mark_published uuid4 nobody digest_id early (xs ++ ys) s).1 j))
  reconcile_completes xs ys s h named =
      let (_, _, crashed) =
        mark_published-Marks uuid4 digest_id real early xs s h (All-left _ xs ys named) in
      let (_, _, whole) = mark_published-Marks uuid4 digest_id real early (xs ++ ys) s h named in
      let (n, e, again) =
        mark_published-Marks uuid4 digest_id real late (xs ++ ys)
          (mark_published uuid4 nobody digest_id early xs s).1 crashed.ready named in
      (
        _,
        n,
        reconcile-marks (xs ++ ys) _ n e,
        refl,
        λ j.
            ap view_of (again.bodies j)
            ∙ rw (crashed.bodies j, listed-append j xs ys)
                (twice_view digest_id real early late (listed j xs) (listed j ys) (body_at s j)
                  ∙ ap view_of (
                      ap
                        (λ b.
                          if b
                          then map_option (marked digest_id early) (body_at s j)
                          else body_at s j)
                        (sym (listed-append j xs ys))
                      ∙ sym (whole.bodies j))),
      )
