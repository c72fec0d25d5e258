-- ===== src/Tests/LlmTests.antt =====
-- The model client at concrete inputs: a local endpoint that is down and a cloud endpoint whose
-- first reply does not parse.
use podcast_digest.Common.{
  ℕ, zero, suc, ◌+◌, ◌*◌, ◌≤◌, String, Bool, true, false, Option, none, some, List, [], ◌∷◌, All,
  length, ◌≡◌, ◌≢◌, refl, ◌⊎◌, inl, inr,
}
use podcast_digest.Errors.{ok, err, llm_unavailable}
use podcast_digest.Llm.{
  Alias, Reply, answers, invalid, transport_error, ollama, openrouter, TierConfig, walk, links,
  active_chain, complete_structured, try_links, try_endpoint,
}
use podcast_digest.Llm.Fallback.{Outcome}
use podcast_digest.Llm.Chain.{Walked, Local, complete_structured-Outcome, complete_structured-Local}

abbrev tier0 : TierConfig
tier0 = record {
  primary = record { provider = ollama; model = "qwen" };
  fallbacks = record { provider = openrouter; model = "haiku" } ∷ [];
  validation_retries = 1;
  allow_cloud_fallback = true;
}

abbrev tier0_local : TierConfig
tier0_local = record tier0 { allow_cloud_fallback = false }

abbrev ask : ℕ → Alias → Reply ℕ
ask calls (tier, zero) = transport_error
ask zero (tier, suc n) = invalid
ask (suc zero) (tier, suc n) = invalid
ask (suc (suc calls)) (tier, suc n) = answers 7

abbrev clock : ℕ → ℕ
clock calls = 100

fallback_answers :
    (complete_structured ask clock "tier0" (some tier0) [] 99 0).result
    ≡ ok (
      7,
      record {
        tier = "tier0";
        model = "haiku";
        fallback_used = true;
        validation_retries = 1;
        attempted_models = "qwen" ∷ "haiku" ∷ [];
      },
    )
unfolding complete_structured walk links active_chain try_links try_endpoint
    podcast_digest.Common.keep_if podcast_digest.Common.lookup
fallback_answers = refl

primary_cools :
    (complete_structured ask clock "tier0" (some tier0) [] 99 0).cooling ≡ (("tier0", 0), 100) ∷ []
unfolding complete_structured walk links active_chain try_links try_endpoint
    podcast_digest.Common.keep_if podcast_digest.Common.lookup podcast_digest.Common.insert
    podcast_digest.Common.remove
primary_cools = refl

complete_structured-Outcome_example :
    Outcome ask "tier0" 1 []
      (walk [] 99 (links "tier0" 0 (active_chain tier0)))
      (complete_structured ask clock "tier0" (some tier0) [] 99 0)
    × ((complete_structured ask clock "tier0" (some tier0) [] 99 0).calls
        ≤ 0 + length (links "tier0" 0 (active_chain tier0)) * 2)
    × Walked [] 99
        (links "tier0" 0 (active_chain tier0))
        (walk [] 99 (links "tier0" 0 (active_chain tier0)))
complete_structured-Outcome_example = complete_structured-Outcome ask clock "tier0" tier0 [] 99 0

-- The primary is down, and nothing may leave the LAN.
local_unavailable :
    (complete_structured ask clock "tier0" (some tier0_local) [] 99 0).result ≡ err llm_unavailable
unfolding complete_structured walk links active_chain try_links try_endpoint
    podcast_digest.Common.keep_if podcast_digest.Common.lookup
local_unavailable = refl

tier0_local_chain : active_chain tier0_local ≢ []
unfolding active_chain podcast_digest.Common.keep_if
tier0_local_chain = λ e. cc

complete_structured-Local_example :
    All Local (complete_structured ask clock "tier0" (some tier0_local) [] 99 0).attempted
complete_structured-Local_example =
    complete_structured-Local ask clock "tier0" tier0_local [] 99 0 refl
