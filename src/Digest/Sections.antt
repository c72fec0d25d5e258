-- ===== src/Digest/Sections.antt =====
-- podcast_agent/digest/generate.py, `_bucket`: which section an episode is listed in.
use mathlib.Core.List.{Perm}
use podcast_digest.Common.{
  ℕ, ◌≤◌, ◌<◌, String, true, false, List, [], ◌∷◌, string_eq, nat_eq, leb, All, append-All,
  All-sort_by, Bool-cases, ◌≡◌, refl, inl, inr, arith,
}
use podcast_digest.Status.{ready_for_digest, digest_direct}
use podcast_digest.Store.{Doc}
use podcast_digest.Episode.{Episode}
use podcast_digest.Digest.Listing.{
  DigestRules, View, Buckets, has_status, by_score, by_name, place, fill, bucket, summary_view,
  one_liner_view, audit_view, tier1_score, tier0_score,
}
use podcast_digest.Digest.Complete.{listed, bucket-perm}

module _ (inline cell : ℕ → String → String) (rules : DigestRules) where
  abbrev pub TopPick : View → Type 0
  TopPick v =
      (has_status ready_for_digest v.episode.body ≡ true)
      × (v.score ≡ tier1_score inline cell rules v.episode.body)
      × (rules.top_pick_threshold ≤ v.score)

  abbrev pub AlsoRelevant : View → Type 0
  AlsoRelevant v =
      (has_status ready_for_digest v.episode.body ≡ true)
      × (v.score ≡ tier1_score inline cell rules v.episode.body)
      × (v.score < rules.top_pick_threshold)

  abbrev pub MaybeInteresting : View → Type 0
  MaybeInteresting v =
      (has_status digest_direct v.episode.body ≡ true)
      × (v.score ≡ tier0_score inline cell rules v.episode.body)

  abbrev pub AuditOnly : View → Type 0
  AuditOnly v =
      (has_status ready_for_digest v.episode.body ≡ false)
      × (has_status digest_direct v.episode.body ≡ false)

  -- Every view stands in the section of its status and score.
  pub record InSection (b : Buckets) : Type 0 where
    pub top : All TopPick b.top_picks
    pub also : All AlsoRelevant b.also_relevant
    pub maybe : All MaybeInteresting b.maybe_interesting
    pub audit : All AuditOnly b.everything_else

  place-InSection :
      (boundary : ℕ) (d : Doc Episode) (b : Buckets)
      → InSection b
      → InSection (place inline cell rules boundary d b)
  unfolding place summary_view one_liner_view audit_view
  place-InSection boundary d b h = elim (Bool-cases (has_status ready_for_digest d.body)) [
    | inl r ↦
        elim (Bool-cases
          (leb rules.top_pick_threshold (summary_view inline cell rules boundary d).score)) [
            | inl t ↦
                rw (r, t)
                  (record {
                    top = append-All TopPick b.top_picks _ h.top ((r, refl, ground (arith, t)), tt);
                    also = h.also;
                    maybe = h.maybe;
                    audit = h.audit;
                  })
            | inr t ↦
                rw (r, t)
                  (record {
                    top = h.top;
                    also =
                        append-All AlsoRelevant b.also_relevant _ h.also
                          ((r, refl, ground (arith, t)), tt);
                    maybe = h.maybe;
                    audit = h.audit;
                  })
          ]
    | inr r ↦ elim (Bool-cases (has_status digest_direct d.body)) [
      | inl m ↦
          rw (r, m)
            (record {
              top = h.top;
              also = h.also;
              maybe = append-All MaybeInteresting b.maybe_interesting _ h.maybe ((m, refl), tt);
              audit = h.audit;
            })
      | inr m ↦
          rw (r, m)
            (record {
              top = h.top;
              also = h.also;
              maybe = h.maybe;
              audit = append-All AuditOnly b.everything_else _ h.audit ((r, m), tt);
            })
    ]
  ]

  fill-InSection :
      (boundary : ℕ) (ds : List (Doc Episode)) (b : Buckets)
      → InSection b
      → InSection (fill inline cell rules boundary ds b)
  unfolding fill
  fill-InSection boundary [] b h = h
  fill-InSection boundary (d ∷ ds) b h =
      fill-InSection boundary ds (place inline cell rules boundary d b)
        (place-InSection boundary d b h)

  -- A digest lists each of the episodes that it is given exactly once: the top picks are the
  -- summarised episodes with a score of the threshold or more, the also relevant ones those below it,
  -- the maybe interesting ones were sent to the digest directly, and all others stand in the last
  -- section.
  pub bucket-InSection :
      (boundary : ℕ) (ds : List (Doc Episode))
      → InSection (bucket inline cell rules boundary ds)
        × Perm (listed (bucket inline cell rules boundary ds)) ds
  unfolding bucket
  bucket-InSection boundary ds =
      let h =
        fill-InSection boundary ds _ (record { top = tt; also = tt; maybe = tt; audit = tt }) in
      (
        record {
          top = All-sort_by TopPick by_score _ h.top;
          also = All-sort_by AlsoRelevant by_score _ h.also;
          maybe = All-sort_by MaybeInteresting by_score _ h.maybe;
          audit = All-sort_by AuditOnly by_name _ h.audit;
        },
        bucket-perm inline cell rules boundary ds,
      )
