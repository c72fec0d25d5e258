-- ===== src/Runner/Listing.antt =====
-- podcast_agent/pipeline/runner.py: the queue of a status, as the loop of a stage reads it from the store.
use podcast_digest.Common.{
  ℕ, ◌≤◌, String, none, string_eq, keep_if, length, sort_by, lookup, length-sort_by, length-take,
  take_all, ◌≡◌, ap, ◌∙◌, arith,
}
use podcast_digest.Status.{EpisodeStatus}
use podcast_digest.Runner.{Episodes, queue, queued, newest_first}
use podcast_digest.Runner.Queues.{
  Unique, when, lookup-keep_if, keep_if-Unique, lookup-sort_by, sort_by-Unique, take-absent,
  take-Unique,
}

abbrev pub filtered : EpisodeStatus → Episodes → Episodes
filtered status s = keep_if (λ e. queued status e.1) s

queue_whole :
    (status : EpisodeStatus) (limit : ℕ) (s : Episodes)
    → length (filtered status s) ≤ limit
    → queue status limit s ≡ sort_by newest_first (filtered status s)
unfolding queue
queue_whole status limit s h =
    take_all limit (sort_by newest_first (filtered status s))
      (omega (arith, h, length-sort_by newest_first (filtered status s)))

-- What a queue with room for all has for an id.
pub lookup-queue :
    (status : EpisodeStatus) (limit : ℕ) (s : Episodes)
    → Unique s
    → length (filtered status s) ≤ limit
    → (k : String) → lookup k (queue status limit s) ≡ when (queued status) (lookup k s)
lookup-queue status limit s u h k =
    ap (λ q. lookup k q) (queue_whole status limit s h)
    ∙ lookup-sort_by newest_first k (filtered status s) (keep_if-Unique _ s u)
    ∙ lookup-keep_if (queued status) k s u

pub length-queue :
    (status : EpisodeStatus) (limit : ℕ) (s : Episodes)
    → length (queue status limit s) ≤ length (filtered status s)
unfolding queue
length-queue status limit s = omega (
  arith,
  length-take limit (sort_by newest_first (filtered status s)),
  length-sort_by newest_first (filtered status s),
)

pub queue-Unique :
    (status : EpisodeStatus) (limit : ℕ) (s : Episodes) → Unique s → Unique (queue status limit s)
unfolding queue
queue-Unique status limit s u =
    take-Unique limit _ (sort_by-Unique newest_first (filtered status s) (keep_if-Unique _ s u))

-- Whatever the limit, an episode at another status is not in the queue.
pub queue-absent :
    (status : EpisodeStatus) (limit : ℕ) (s : Episodes) (k : String)
    → Unique s
    → when (queued status) (lookup k s) ≡ none
    → lookup k (queue status limit s) ≡ none
unfolding queue
queue-absent status limit s k u h = take-absent limit k _ (
    lookup-sort_by newest_first k (filtered status s) (keep_if-Unique _ s u)
    ∙ lookup-keep_if (queued status) k s u
    ∙ h)
