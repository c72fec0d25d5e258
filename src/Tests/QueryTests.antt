-- ===== src/Tests/QueryTests.antt =====
-- Mango queries at concrete inputs: the queue of new episodes, and two documents of a store.
use mathlib.Core.List.{Perm, Memᴰ}
use podcast_digest.Common.{
  ℕ, ◌≤◌, ◌<◌, String, Bool, true, false, none, some, [], ◌∷◌, ◌==◌, string_eq, keep_if, sort_by,
  insert_in_order, any_of, all_of, length, lookup, All, ◌≡◌, ◌↔◌, refl,
}
use podcast_digest.Errors.{ok, err, store_error}
use podcast_digest.Status.{EpisodeStatus}
use podcast_digest.Digest.Listing.{DigestRules, Period, in_window}
use podcast_digest.Runner.{queued, is_owed_work}
use podcast_digest.Query.{
  null, number, text, differs, below, plain, tests, Selector, Fields, Index, passed, indexes,
  typed_sort, constrains, prefix_score, resolve_index, best_index, first_min, check_indexable,
  check_sortable, matches, matched, match_field, sorted, sorts_before, find, count,
}
use podcast_digest.Query.Indexes.{AsGood, resolve_index-best, check_indexable_iff}
use podcast_digest.Query.Pinned.{Pinned}
use podcast_digest.Query.Answer.{Hit, matching, find-Answer}
use podcast_digest.Query.Selectors.{
  fields_of, queue_selector, pending_selector, collect_selector, selectors-match,
}
use podcast_digest.Tests.Sample.{episode_at}

abbrev search : String → String → Bool
search pattern s = pattern == s

abbrev new_episodes : Selector
new_episodes =
    ("type", plain (text "episode"))
    ∷ ("status", plain (text "NEW"))
    ∷ ("origin", plain (text "routine"))
    ∷ []

resolved : resolve_index new_episodes [] ≡ some "idx-type-origin-status"
unfolding resolve_index best_index first_min keep_if indexes prefix_score constrains lookup all_of
resolved = refl

resolve_index-best_example :
    (i : Index) × (i.name ≡ "idx-type-origin-status")
    × (Memᴰ i indexes)
    × (0 < prefix_score new_episodes i.fields)
    × (All (AsGood new_episodes i) indexes)
resolve_index-best_example = resolve_index-best new_episodes "idx-type-origin-status" resolved

check_indexable_iff_example :
    (check_indexable new_episodes [] none ≡ ok passed) ↔ Pinned new_episodes "type"
check_indexable_iff_example = check_indexable_iff new_episodes

-- A sort by the date alone is refused.
by_date_alone : check_sortable (("published_at", "desc") ∷ []) ≡ err store_error
unfolding check_sortable indexes any_of all_of
by_date_alone = refl

-- `$ne` does not see a missing field, and a null is below everything.
missing_field : match_field search none (tests (differs (text "backfill") ∷ [])) ≡ ok false
unfolding match_field any_of all_of
missing_field = refl

null_below : match_field search (some null) (tests (below (number 3) ∷ [])) ≡ ok true
unfolding match_field any_of all_of
null_below = refl

selectors-match_example :
    ((status : EpisodeStatus)
      → matches search (fields_of (episode_at "NEW")) (queue_selector status)
        ≡ ok (queued status (episode_at "NEW")))
    × (matches search (fields_of (episode_at "NEW")) pending_selector
        ≡ ok (is_owed_work (episode_at "NEW")))
    × ((rules : DigestRules) (period : Period)
        → matches search (fields_of (episode_at "NEW")) (collect_selector rules period)
          ≡ ok (in_window rules period (episode_at "NEW")))
    × (check_sortable (typed_sort "published_at" "desc") ≡ ok passed)
    × ((selector : Selector)
        → check_indexable selector (typed_sort "published_at" "desc") none ≡ ok passed)
selectors-match_example = selectors-match search (episode_at "NEW")

abbrev older : Fields
older = ("type", text "episode") ∷ ("published_at", number 3) ∷ []

abbrev newer : Fields
newer = ("type", text "episode") ∷ ("published_at", number 8) ∷ []

abbrev episodes : Selector
episodes = ("type", plain (text "episode")) ∷ []

newest_first_found :
    find search episodes (typed_sort "published_at" "desc") 5 0 none (older ∷ newer ∷ [])
    ≡ ok (newer ∷ older ∷ [])
unfolding find check_sortable check_indexable resolve_index best_index first_min indexes matched
    matches match_field sorted sorts_before sort_by insert_in_order any_of all_of keep_if lookup
newest_first_found = refl

find-Answer_example :
    All (Hit search episodes) (newer ∷ older ∷ [])
    × (2 ≤ 5)
    × (count search episodes (older ∷ newer ∷ [])
        ≡ ok (length (matching search episodes (older ∷ newer ∷ []))))
    × (◌≡◌ {A = ℕ} 0 0
        → length (matching search episodes (older ∷ newer ∷ [])) ≤ 5
        → Perm (newer ∷ older ∷ []) (matching search episodes (older ∷ newer ∷ [])))
find-Answer_example =
    find-Answer search episodes (typed_sort "published_at" "desc") 5 0 none (older ∷ newer ∷ [])
      (newer ∷ older ∷ []) newest_first_found
