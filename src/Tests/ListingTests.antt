-- ===== src/Tests/ListingTests.antt =====
-- The selection and the sections of a digest at concrete inputs: four episodes, of which one is
-- still in the pipeline.
use mathlib.Core.List.{Perm}
use podcast_digest.Common.{
  ℕ, ◌≤◌, String, Bool, true, false, Option, none, some, List, [], ◌∷◌, ◌==◌, string_eq, All,
  keep_if, length, map, ◌≡◌, refl, arith,
}
use podcast_digest.Store.{Doc, MemoryStore, empty, run, step, put, write, conflicts, next_rev, get}
use podcast_digest.Episode.{Episode, Tier1Block}
use podcast_digest.Digest.{mark_published}
use podcast_digest.Digest.Marking.{nobody, marked}
use podcast_digest.Digest.Effect
use podcast_digest.Digest.Effect.{body_at, mark_published-Marks}
use podcast_digest.Digest.Listing.{
  DigestRules, Period, View, collect, documents, in_window, is_pending, pending, bucket, fill,
  place, summary_view, one_liner_view, audit_view,
}
use podcast_digest.Digest.Complete.{due, listed, bucket-collect}
use podcast_digest.Digest.Sections.{InSection, bucket-InSection}
use podcast_digest.Digest.Once.{mark_published-in_window}
use podcast_digest.Tests.Sample.{tally, episode_at}
use podcast_digest.Tests.DigestTests.{two_episodes, two_episodes-IsReady}

abbrev rules : DigestRules
rules = record { catch_up = 15; top_pick_threshold = 8 }

abbrev period : Period
period = record { from = 18; to = 25 }

abbrev summary_of : ℕ → Tier1Block
summary_of score = record {
  relevance_score = score;
  matched_interests = [];
  summary_md = "";
  summary_basis = "transcript";
  profile_version = "p1";
  at = 4;
}

abbrev stored : String → Episode → String × Doc Episode
stored i e = (i, record { id = some i; rev = none; attachments = none; body = e })

abbrev summarised : ℕ → Episode
summarised score = record (episode_at "READY_FOR_DIGEST") { tier1 = some (summary_of score) }

abbrev week : MemoryStore Episode
week = record {
  docs =
      stored "good" (summarised 7)
      ∷ stored "best" (summarised 9)
      ∷ stored "busy" (episode_at "TRANSCRIBED")
      ∷ stored "low" (episode_at "SCORED_LOW")
      ∷ [];
  attachments = [];
  draws = 0;
}

abbrev plain : ℕ → String → String
plain n text = text

abbrev ids_of : List View → List (Option String)
ids_of views = map (λ v. v.episode.id) views

best_on_top :
    ids_of (bucket plain plain rules 18 (collect rules period week)).top_picks ≡ some "best" ∷ []
unfolding bucket fill place summary_view one_liner_view audit_view collect in_window is_pending
    pending podcast_digest.Common.keep_if podcast_digest.Common.sort_by
    podcast_digest.Common.insert_in_order podcast_digest.Common.any_of podcast_digest.Status.value
best_on_top = refl

bucket-collect_example :
    Perm
      (listed (bucket plain plain rules 18 (collect rules period week)))
      (keep_if (due plain plain rules period) (documents week))
unfolding podcast_digest.Common.keep_if in_window
bucket-collect_example = bucket-collect plain plain rules period week (omega arith)

bucket-InSection_example :
    InSection plain plain rules (bucket plain plain rules 18 (documents week))
    × Perm (listed (bucket plain plain rules 18 (documents week))) (documents week)
bucket-InSection_example = bucket-InSection plain plain rules 18 (documents week)

published_there :
    body_at (mark_published tally nobody "digest:w1" 5 ("e1" ∷ "e2" ∷ []) two_episodes).1 "e2"
    ≡ some (marked "digest:w1" 5 (episode_at "SCORED_LOW"))
unfolding body_at get run step put write empty conflicts next_rev podcast_digest.Common.lookup
    podcast_digest.Common.insert podcast_digest.Common.any_of
published_there =
    (mark_published-Marks tally "digest:w1" refl 5 ("e1" ∷ "e2" ∷ []) two_episodes
        two_episodes-IsReady (refl, (refl, tt))).2.bodies
      "e2"

both_listed : Effect.listed "e2" ("e1" ∷ "e2" ∷ []) ≡ true
unfolding podcast_digest.Common.any_of
both_listed = refl

mark_published-in_window_example :
    in_window rules period (marked "digest:w1" 5 (episode_at "SCORED_LOW")) ≡ false
mark_published-in_window_example =
    mark_published-in_window tally "digest:w1" refl 5 ("e1" ∷ "e2" ∷ []) two_episodes
      two_episodes-IsReady (refl, (refl, tt)) rules period "e2"
      (marked "digest:w1" 5 (episode_at "SCORED_LOW")) both_listed published_there
