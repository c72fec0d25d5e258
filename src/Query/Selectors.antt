-- ===== src/Query/Selectors.antt =====
-- The selectors of `_queue` and `pending_routine_episodes` of podcast_agent/pipeline/runner.py and of
-- `_collect` of podcast_agent/digest/generate.py, on the fields of an episode's document that they
-- name. Ingestion writes a missing date and a missing claim as null.
use podcast_digest.Common.{
  String, Bool, true, false, ◌&&◌, Option, none, some, [], ◌∷◌, map, ◌==◌, string_eq, nat_eq, ltb,
  leb, if◌then◌else◌, any_of, all_of, keep_if, lookup, Bool-cases, Option-cases, ◌≡◌, refl, inl,
  inr, arith,
}
use podcast_digest.Errors.{ok}
use podcast_digest.Status.{
  EpisodeStatus, value, new, triaged, awaiting_transcript, transcribed, transcript_failed,
  summarized,
}
use podcast_digest.Episode.{Episode}
use podcast_digest.Digest.Listing.{DigestRules, Period, floor, routine_origin, in_window}
use podcast_digest.Runner.{has_text, queued, is_owed_work}
use podcast_digest.Query.{
  Value, null, number, text, one_of, at_least, below, plain, tests, Selector, Fields, typed_sort,
  match_field, matches, holds, check_sortable, check_indexable, resolve_index, best_index,
  first_min, indexes, passed,
}

abbrev or_null {ℓ} : {A : Type ℓ} → (A → Value) → Option A → Value
or_null f none = null
or_null f (some a) = f a

abbrev if_there : String → Option String → Fields
if_there key none = []
if_there key (some s) = (key, text s) ∷ []

unfoldable pub fields_of : Episode → Fields
fields_of e =
    ("type", text "episode")
    ∷ ("origin", text e.origin)
    ∷ ("published_at", or_null number e.published_at)
    ∷ ("digest_id", or_null text e.digest_id)
    ∷ if_there "status" e.status

unfoldable pub queue_selector : EpisodeStatus → Selector
queue_selector status =
    ("type", plain (text "episode"))
    ∷ ("status", plain (text (value status)))
    ∷ ("origin", plain (text routine_origin))
    ∷ []

-- `_PENDING_STATUSES` is sorted by value.
unfoldable pub pending_selector : Selector
unfolding value
pending_selector =
    ("type", plain (text "episode"))
    ∷ (
      "status",
      tests (
          one_of (
            map (λ s. text (value s))
              (awaiting_transcript ∷ new ∷ summarized ∷ transcribed ∷ transcript_failed ∷ triaged
                ∷ []))
          ∷ []),
    )
    ∷ ("origin", plain (text routine_origin))
    ∷ []

unfoldable pub collect_selector : DigestRules → Period → Selector
collect_selector rules period =
    ("type", plain (text "episode"))
    ∷ ("digest_id", plain null)
    ∷ ("origin", plain (text routine_origin))
    ∷ (
      "published_at",
      tests (at_least (number (floor rules period)) ∷ below (number period.to) ∷ []),
    )
    ∷ []

same_result : (b : Bool) → (if b then ok true else ok false) ≡ ok b
same_result true = refl
same_result false = refl

-- The order of the statuses does not matter.
same_chain :
    (a b c d f g o : Bool)
    → (if (if (if a
            then true
            else if b
            then true
            else if c
            then true
            else if d
            then true
            else if f
            then true
            else if g
            then true
            else false)
          then true
          else false)
        then if o then ok true else ok false
        else ok false)
      ≡ ok (
          (if b
            then true
            else if g
            then true
            else if a
            then true
            else if d
            then true
            else if f
            then true
            else if c
            then true
            else false)
          && o)
same_chain a b c d f g o = ground arith

module _ (search : String → String → Bool) (e : Episode) where
  queue_matches :
      (status : EpisodeStatus)
      → matches search (fields_of e) (queue_selector status) ≡ ok (queued status e)
  unfolding matches match_field lookup fields_of queue_selector queued has_text
  queue_matches status = elim (Option-cases e.status) [
    | inl absent ↦ rw absent refl
    | inr (s, there) ↦ rw there (elim (Bool-cases (s == value status)) [
      | inl same ↦ rw same (same_result (e.origin == routine_origin))
      | inr other ↦ rw other refl
    ])
  ]

  collect_matches :
      (rules : DigestRules) (period : Period)
      → matches search (fields_of e) (collect_selector rules period) ≡ ok (in_window rules period e)
  unfolding matches match_field lookup fields_of collect_selector in_window holds all_of any_of
  collect_matches rules period = elim (Option-cases e.digest_id) [
    | inr (d, claimed_there) ↦ rw claimed_there refl
    | inl unclaimed ↦ rw unclaimed (elim (Bool-cases (e.origin == routine_origin)) [
      | inr other ↦ rw other refl
      | inl routine ↦ rw routine (elim (Option-cases e.published_at) [
        | inl undated ↦ rw undated refl
        | inr (t, dated) ↦ rw dated (elim (Bool-cases (leb (floor rules period) t)) [
          | inr early ↦ rw early refl
          | inl late ↦ rw late (elim (Bool-cases (ltb t period.to)) [
            | inl before ↦ rw before refl
            | inr after ↦ rw after refl
          ])
        ])
      ])
    ])
  ]

  pending_matches : matches search (fields_of e) pending_selector ≡ ok (is_owed_work e)
  unfolding matches match_field lookup fields_of pending_selector is_owed_work has_text holds all_of
      any_of value
  pending_matches = elim (Option-cases e.status) [
    | inl absent ↦ rw absent refl
    | inr (s, there) ↦ rw there (
        same_chain (s == "AWAITING_TRANSCRIPT") (s == "NEW") (s == "SUMMARIZED")
          (s == "TRANSCRIBED") (s == "TRANSCRIPT_FAILED") (s == "TRIAGED")
          (e.origin == routine_origin))
  ]

  -- The tests by which the queues, the archive walk's guard and the digest choose episodes are the Mango
  -- selectors of the source, evaluated on the episode's document; none of them raises, and the sort of
  -- these queries and the queries themselves pass the checks of the store.
  pub selectors-match :
      ((status : EpisodeStatus)
        → matches search (fields_of e) (queue_selector status) ≡ ok (queued status e))
      × (matches search (fields_of e) pending_selector ≡ ok (is_owed_work e))
      × ((rules : DigestRules) (period : Period)
          → matches search (fields_of e) (collect_selector rules period)
            ≡ ok (in_window rules period e))
      × (check_sortable (typed_sort "published_at" "desc") ≡ ok passed)
      × ((selector : Selector)
          → check_indexable selector (typed_sort "published_at" "desc") none ≡ ok passed)
  unfolding check_sortable check_indexable resolve_index best_index keep_if first_min any_of all_of
      indexes
  selectors-match = (queue_matches, pending_matches, collect_matches, refl, λ selector. refl)
