-- ===== src/Tests/DigestTests.antt =====
-- A digest at concrete inputs: it dies between two episodes and is completed.
use podcast_digest.Common.{
  ℕ, String, true, false, some, [], ◌∷◌, ◌≡◌, ◌==◌, refl, sym, ap, subst, lookup, insert, arith,
  Bool-cases, inl, inr, string_eq, some_inj,
}
use podcast_digest.Errors.{ok}
use podcast_digest.Status.{ready_for_digest, scored_low, value}
use podcast_digest.Store.{MemoryStore, empty, run, step, puts, put, write, conflicts, next_rev, get}
use podcast_digest.Store.Revisions.{IsSound-empty, run-IsSound}
use podcast_digest.Episode.{Episode}
use podcast_digest.Digest.{mark_published, DigestDoc, reconcile}
use podcast_digest.Digest.Marking.{nobody, HasStatus}
use podcast_digest.Digest.Effect.{body_at, IsReady, Marks, mark_published-Marks}
use podcast_digest.Digest.Recovery.{reconcile_completes, view_of}
use podcast_digest.Tests.Sample.{tally, new_doc, episode_at}

abbrev pub two_episodes : MemoryStore Episode
two_episodes = run tally empty (
    puts (new_doc "e1" (episode_at "READY_FOR_DIGEST"))
    ∷ puts (new_doc "e2" (episode_at "SCORED_LOW"))
    ∷ [])

two_episodes-statuses :
    (j : String) (doc : Episode) → body_at two_episodes j ≡ some doc → HasStatus doc
unfolding body_at get lookup run step put write insert empty conflicts next_rev value
two_episodes-statuses j doc e = elim (Bool-cases ("e1" == j)) [
  | inl first ↦ (
    ready_for_digest,
    ap (λ (x : Episode). x.status)
        (sym (
          some_inj {a = episode_at "READY_FOR_DIGEST"} (
            subst (λ k. body_at two_episodes k ≡ some doc)
              (sym ((string_eq.same_iff "e1" j).0 first)) e))),
  )
  | inr other ↦ elim (Bool-cases ("e2" == j)) [
    | inl second ↦ (
      scored_low,
      ap (λ (x : Episode). x.status)
          (sym (
            some_inj {a = episode_at "SCORED_LOW"} (
              subst (λ k. body_at two_episodes k ≡ some doc)
                (sym ((string_eq.same_iff "e2" j).0 second)) e))),
    )
    | inr none_of ↦ absurd (ground (arith, other, none_of, e))
  ]
]

pub two_episodes-IsReady : IsReady tally two_episodes
two_episodes-IsReady = record {
  sound = run-IsSound tally empty _ (IsSound-empty tally);
  statuses = two_episodes-statuses;
}

mark_published-Marks_example :
    (n : ℕ) × ((mark_published tally nobody "digest:w1" 5 ("e1" ∷ "e2" ∷ []) two_episodes).0 ≡ ok n)
    × Marks tally "digest:w1" refl 5
        ("e1" ∷ "e2" ∷ [])
        two_episodes
        (mark_published tally nobody "digest:w1" 5 ("e1" ∷ "e2" ∷ []) two_episodes).1
mark_published-Marks_example =
    mark_published-Marks tally "digest:w1" refl 5 ("e1" ∷ "e2" ∷ []) two_episodes
      two_episodes-IsReady (refl, (refl, tt))

reconcile_completes_example :
    (done : DigestDoc × MemoryStore Episode) × (n : ℕ) × (reconcile tally nobody "digest:w1" 9
        (record { episode_ids = "e1" ∷ "e2" ∷ []; marking_complete = false })
        (mark_published tally nobody "digest:w1" 5 ("e1" ∷ []) two_episodes).1
      ≡ (ok (some n), done.0, done.1))
    × (done.0.marking_complete ≡ true)
    × ((j : String)
        → view_of (body_at done.1 j)
          ≡ view_of (
              body_at
                (mark_published tally nobody "digest:w1" 5 ("e1" ∷ "e2" ∷ []) two_episodes).1
                j))
reconcile_completes_example =
    reconcile_completes tally "digest:w1" refl 5 9 ("e1" ∷ []) ("e2" ∷ []) two_episodes
      two_episodes-IsReady (refl, (refl, tt))
