-- ===== src/Runner/Rescore.antt =====
-- podcast_agent/summarize/tier1.py, `rescore`, and podcast_agent/pipeline/runner.py, `_run_rescore` and
-- `stale_episodes`: the scores of another interest profile, made anew. The marks `rescored_at` and
-- `previous_score` of the new block are left out.
use podcast_digest.Common.{
  ℕ, suc, String, Bool, true, false, ◌||◌, not, Option, none, some, List, [], ◌∷◌, ◌==◌, string_eq,
  leb, if◌then◌else◌, keep_if, take, sort_by, insert, ◌≡◌, refl, ap, ◌∙◌, ◌⊎◌, beq_refl,
}
use podcast_digest.Errors.{Result, ok, err, ◌>>=◌}
use podcast_digest.Status.{EpisodeStatus, value, ready_for_digest, scored_low, is_status}
use podcast_digest.Episode.{
  Episode, Tier1Block, apply_transition, apply_error, decide, status_of, self_transition_ok,
}
use podcast_digest.Episode.Keys.{filter_interest_keys}
use podcast_digest.Tier1.{Tier1Config, Tier1Result, score, resolve_content}
use podcast_digest.Runner.{Episodes, queued, has_text, newest_first, without_llm}
use podcast_digest.Runner.Steps.{At}

-- The `_apply` of `rescore`.
unfoldable pub new_verdict : Tier1Config → Tier1Result → String → ℕ → Episode → Episode
new_verdict cfg result basis at doc = record doc {
  tier1 = some (record {
    relevance_score = result.relevance_score;
    matched_interests =
        filter_interest_keys cfg.valid_keys.normalize result.matched_interests cfg.valid_keys.keys;
    summary_md = result.summary_md;
    summary_basis = basis;
    profile_version = cfg.profile_version;
    at = at;
  });
}

unfoldable pub rescore :
    (strip : String → String)
    → Tier1Config
    → Option String
    → (String → String → Result Tier1Result)
    → ℕ
    → Episode
    → Result (EpisodeStatus × Episode)
unfolding score new_verdict
rescore strip cfg load ask now doc = do
  scored ← score strip cfg none load ask doc
  placed ← apply_transition scored.2 (new_verdict cfg scored.0 scored.1 now) now doc
  ok (scored.2, placed)

-- What `stale_episodes` tests behind its query.
unfoldable pub is_stale : String → Bool → Option Tier1Block → Bool
is_stale current force none = false
is_stale current force (some t) = force || not (t.profile_version == current)

unfoldable pub stale_episodes : String → ℕ → Bool → Episodes → List (String × Episode)
unfolding queued is_stale
stale_episodes current limit force s =
    let scored = keep_if (λ e. queued ready_for_digest e.1 || queued scored_low e.1) s in
    take limit
      (keep_if (λ e. is_stale current force e.1.tier1) (take 1000 (sort_by newest_first scored)))

pub record RescoreStats : Type 0 where
  pub rescored : ℕ
  pub promoted : ℕ
  pub demoted : ℕ
  pub unchanged : ℕ
  pub errors : ℕ

abbrev pub count_rescored : Option String → EpisodeStatus → RescoreStats → RescoreStats
count_rescored before after stats =
    if has_text before (value after)
    then record stats { rescored = suc stats.rescored; unchanged = suc stats.unchanged }
    else if is_status after ready_for_digest
    then record stats { rescored = suc stats.rescored; promoted = suc stats.promoted }
    else record stats { rescored = suc stats.rescored; demoted = suc stats.demoted }

-- The loop of `_run_rescore`: it stops when the model is unavailable.
unfoldable pub rescore_all :
    (String → Episode → Result (EpisodeStatus × Episode))
    → (String → ℕ)
    → List (String × Episode)
    → RescoreStats
    → Episodes
    → RescoreStats × Episodes
unfolding without_llm
rescore_all again clock [] stats s = (stats, s)
rescore_all again clock ((i, doc) ∷ rest) stats s = elim (again i doc) [
  | ok (after, doc') ↦
      rescore_all again clock rest (count_rescored doc.status after stats) (insert i doc' s)
  | err e ↦ elim (without_llm e) [
    | true ↦ (stats, s)
    | false ↦
        rescore_all again clock rest (record stats { errors = suc stats.errors })
          (insert i (apply_error "rescore" (clock i) doc) s)
  ]
]

replay :
    (u : EpisodeStatus) (mutate : Episode → Episode) (now : ℕ) (doc : Episode)
    → status_of doc ≡ value u
    → self_transition_ok u ≡ false
    → apply_transition u mutate now doc ≡ ok (record (mutate doc) { updated_at = some now })
unfolding apply_transition
replay u mutate now doc there other =
    rw (ap (λ a. a == value u) there ∙ beq_refl (value u), decide) (rw other refl)

module _ (strip : String → String) (cfg : Tier1Config) (load : Option String)
    (ask : String → String → Result Tier1Result) (now : ℕ) (doc : Episode) (t : EpisodeStatus)
    (scored : (t ≡ ready_for_digest) ⊎ (t ≡ scored_low)) (at : doc.status ≡ some (value t))
    (result : Tier1Result) (content : (strip (resolve_content strip load doc).0 == "") ≡ false)
    (answer : ask (resolve_content strip load doc).0 (resolve_content strip load doc).1
      ≡ ok result) where
  abbrev pub bar_met : EpisodeStatus
  bar_met = if leb cfg.digest_threshold result.relevance_score then ready_for_digest else scored_low

  abbrev fresh_block : Episode → Episode
  fresh_block = new_verdict cfg result (resolve_content strip load doc).1 now

  -- Where the write of the new block leaves the episode.
  record Placed (u : EpisodeStatus) : Type 0 where
    left : Episode
    equation : apply_transition u fresh_block now doc ≡ ok left
    stands : At u left
    block : left.tier1 ≡ (fresh_block doc).tier1
    claim_kept : left.digest_id ≡ doc.digest_id
    attempts_kept : left.attempts ≡ doc.attempts
