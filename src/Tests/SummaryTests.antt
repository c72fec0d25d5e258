-- ===== src/Tests/SummaryTests.antt =====
-- The summary stage at concrete inputs: an episode with a transcript, whose score is at the threshold.
use podcast_digest.Common.{
  ℕ, suc, ◌≤◌, ◌≢◌, List, All, take, length, keep_if, any_of, String, true, false, none, some, [],
  ◌∷◌, ◌++◌, ◌==◌, string_eq, ◌≡◌, refl, inl,
}
use podcast_digest.Errors.{Result, ok}
use podcast_digest.Status.{value, transcribed, summarized, ready_for_digest}
use podcast_digest.Episode.{Episode}
use podcast_digest.Episode.Moves.{moved_to}
use podcast_digest.Operator.{retry_episode, escalate_episode, http_409}
use podcast_digest.Digest.Listing.{is_pending}
use podcast_digest.Tier1.{
  Tier1Config, Tier1Result, summarize, store_summary, record_summary, resolve_content,
  awaits_summary,
}
use podcast_digest.Tier1.Classified.{Summarised, summarize-verdict, summarized-Stranded}
use podcast_digest.Chunking.{Text, chunk_transcript, pack, join, split_oversized}
use podcast_digest.Tier1.MapReduce.{
  ChunkBullets, Answered, all_bullets, all_entities, all_metas_of, InOrder, max_chunks, map_chunks,
  reduce_chunks, unseen, map_reduce, Apart, Found, map_reduce-Asks,
}
use podcast_digest.Tests.Sample.{episode_at}

abbrev config : Tier1Config
config = record {
  digest_threshold = 6;
  valid_keys = record { normalize = λ k. k; keys = "ai" ∷ [] };
  profile_version = "p1";
}

abbrev verdict : Tier1Result
verdict = record { relevance_score = 6; matched_interests = "ai" ∷ []; summary_md = "s" }

abbrev heard : Episode
heard = record (episode_at "TRANSCRIBED") { transcript_source = some "feed" }

abbrev strip : String → String
strip text = text

abbrev ask : String → String → Result Tier1Result
ask content basis = ok verdict

from_feed : resolve_content strip (some "hello") heard ≡ ("hello", "published_transcript")
unfolding resolve_content value
from_feed = refl

no_blank : (strip (resolve_content strip (some "hello") heard).0 == "") ≡ false
unfolding resolve_content value
no_blank = refl

stands_there : heard.status ≡ some (value transcribed)
unfolding value
stands_there = refl

summarize-verdict_example :
    let placed =
      moved_to ready_for_digest
        (λ d. d)
        5
        (moved_to summarized
          (record_summary config verdict (resolve_content strip (some "hello") heard).1 5)
          5
          heard) in
    (summarize strip config none (some "hello") ask 5 heard ≡ ok (ready_for_digest, placed))
    × Summarised strip config none
        (some "hello")
        ask
        5
        heard
        transcribed
        (inl refl)
        stands_there
        verdict
        no_blank
        refl
        placed
summarize-verdict_example =
    summarize-verdict strip config none (some "hello") ask 5 heard transcribed (inl refl)
      stands_there verdict no_blank refl

summarized-Stranded_example :
    (let left_behind =
        moved_to summarized
          (record_summary config verdict (resolve_content strip (some "hello") heard).1 5)
          5
          heard in
      (store_summary config verdict (resolve_content strip (some "hello") heard).1 5 heard
        ≡ ok left_behind)
      × (awaits_summary left_behind.status ≡ false)
      × (is_pending left_behind.status ≡ true)
      × (retry_episode 9 left_behind ≡ (http_409, left_behind))
      × (escalate_episode 9 left_behind ≡ (http_409, left_behind)))
summarized-Stranded_example =
    summarized-Stranded strip config none (some "hello") ask 5 heard transcribed (inl refl)
      stands_there verdict no_blank refl refl 9

-- A transcript of two paragraphs, each its own chunk; the model names an entity twice.
abbrev hello : Text
hello = 65 ∷ 66 ∷ 67 ∷ 68 ∷ 69 ∷ []

abbrev two_parts : Text → List Text
two_parts t = hello ∷ hello ∷ []

abbrev whole : Text → List Text
whole t = t ∷ []

abbrev same_text : Text → Text
same_text t = t

abbrev ask_map : ℕ → ℕ → Text → Result (ChunkBullets × ℕ)
ask_map index total chunk = ok (record { bullets = "b" ∷ []; entities = "nsa" ∷ "cia" ∷ [] }, index)

abbrev ask_reduce : ℕ → List String → List String → Result (Tier1Result × ℕ)
ask_reduce count bullets entities = ok (verdict, 9)

in_two :
    map_reduce strip ask_map ask_reduce two_parts whole same_text 2 hello
    ≡ ok (verdict, 1 ∷ 2 ∷ 9 ∷ [], 2)
unfolding map_reduce map_chunks reduce_chunks unseen chunk_transcript pack join split_oversized
    keep_if any_of
in_two = refl

map_reduce-Asks_example :
    let chunks = take max_chunks (chunk_transcript two_parts whole same_text hello 2) in
    (◌≡◌ {A = ℕ} 2 (length chunks))
    × (2 ≤ 20)
    × (length {A = ℕ} (1 ∷ 2 ∷ 9 ∷ []) ≡ suc 2)
    × (answers : List (ChunkBullets × ℕ)) × Answered strip ask_map ask_reduce 1 2 chunks answers
    × (all_bullets strip ask_map ask_reduce answers ≢ [])
    × (asked : List String) × (meta : ℕ) × (ask_reduce 2
          (all_bullets strip ask_map ask_reduce answers)
          asked
        ≡ ok (verdict, meta))
    × (1 ∷ 2 ∷ 9 ∷ [] ≡ all_metas_of strip ask_map ask_reduce answers ++ (meta ∷ []))
    × (Apart strip asked)
    × (All (Found strip asked []) (all_entities strip ask_map ask_reduce answers))
    × (InOrder asked (all_entities strip ask_map ask_reduce answers))
map_reduce-Asks_example =
    map_reduce-Asks strip ask_map ask_reduce two_parts whole same_text 2 hello verdict
      (1 ∷ 2 ∷ 9 ∷ []) 2 in_two
