-- ===== src/Llm.antt =====
-- podcast_agent/llm/client.py and the endpoint settings of podcast_agent/config.py: the chain of
-- endpoints of a tier, the walk over it, and the cooldown of endpoints that are down. An alias is
-- the tier and the position, which the code writes into one text. The reply of a model and the
-- clock are functions of the number of calls made before; clocks count seconds.
pub mod Attempts
pub mod Fallback
pub mod Chain
use podcast_digest.Common.{
  ℕ, zero, suc, ◌+◌, String, Bool, true, false, ◌&&◌, not, Option, none, some, List, [], ◌∷◌, ◌++◌,
  ◌==◌, string_eq, nat_eq, pair_eq, ltb, leb, if◌then◌else◌, keep_if, map, Dict, lookup, insert,
  remove,
}
use podcast_digest.Errors.{Result, ok, err, llm_unavailable}

pub data Provider : Type 0 where
  ollama openrouter anthropic : Provider

pub record Endpoint : Type 0 where
  pub provider : Provider
  pub model : String

abbrev pub is_cloud : Endpoint → Bool
is_cloud e = elim e.provider [ ollama ↦ false | openrouter ↦ true | anthropic ↦ true ]

pub record TierConfig : Type 0 where
  pub primary : Endpoint
  pub fallbacks : List Endpoint
  pub validation_retries : ℕ
  pub allow_cloud_fallback : Bool

unfoldable pub active_chain : TierConfig → List Endpoint
active_chain cfg =
    let chain = cfg.primary ∷ cfg.fallbacks in
    if not cfg.allow_cloud_fallback then keep_if (λ e. not (is_cloud e)) chain else chain

abbrev pub Alias : Type 0
Alias = String × ℕ

-- A place in a chain: `enumerate(chain)` with the alias.
pub record Link : Type 0 where
  pub index : ℕ
  pub alias : Alias
  pub endpoint : Endpoint

unfoldable pub links : String → ℕ → List Endpoint → List Link
links tier index [] = []
links tier index (e ∷ es) =
    record { index = index; alias = (tier, index); endpoint = e } ∷ links tier (suc index) es

abbrev pub endpoint_cooldown_s : ℕ
endpoint_cooldown_s = 60

-- When each alias last failed at the transport level.
abbrev pub Cooling : Type 0
Cooling = Dict Alias ℕ

-- `now - cooling.get(alias, -COOLDOWN) >= COOLDOWN`
abbrev pub is_warm : ℕ → Option ℕ → Bool
is_warm now none = true
is_warm now (some since) = leb (since + endpoint_cooldown_s) now

abbrev pub usable : Cooling → ℕ → Link → Bool
usable cooling now link = is_warm now (lookup link.alias cooling)

-- `_walk`
unfoldable pub walk : Cooling → ℕ → List Link → List Link
walk cooling now chain = elim (keep_if (usable cooling now) chain) [ [] ↦ chain | x ∷ xs ↦ x ∷ xs ]

-- How one request ends: a parsed object, a `ValidationError`, one of `_TRANSPORT_ERRORS`, another
-- exception.
pub data Reply (A : Type 0) : Type 0 where
  answers : A → Reply A
  invalid : Reply A
  transport_error : Reply A
  other_error : Reply A

-- How the `while` loop over one endpoint is left, with the requests and the validation failures
-- up to there.
pub data Ending (A : Type 0) : Type 0 where
  answered : A → Ending A
  gave_up : Ending A
  unwell : Ending A

pub record Tried (A : Type 0) : Type 0 where
  pub ending : Ending A
  pub calls : ℕ
  pub retries : ℕ

pub record CallMeta : Type 0 where
  pub tier : String
  pub model : String
  pub fallback_used : Bool
  pub validation_retries : ℕ
  pub attempted_models : List String

abbrev pub build_meta : String → Link → ℕ → List Link → CallMeta
build_meta tier link retries attempted = record {
  tier = tier;
  model = link.endpoint.model;
  fallback_used = ltb 0 link.index;
  validation_retries = retries;
  attempted_models = map (λ l. l.endpoint.model) attempted;
}

-- What a call returns or raises, what it leaves in `_cooling`, and which endpoints it sent the
-- prompt to.
pub record Completion (A : Type 0) : Type 0 where
  pub result : Result (A × CallMeta)
  pub cooling : Cooling
  pub attempted : List Link
  pub calls : ℕ

module _ {A : Type 0} (ask : ℕ → Alias → Reply A) (clock : ℕ → ℕ) where
  -- The `while` loop, with the validation failures that are left.
  unfoldable pub try_endpoint : Alias → (left calls retries : ℕ) → Tried A
  try_endpoint alias zero calls retries = elim (ask calls alias) [
    | answers a ↦ record { ending = answered a; calls = suc calls; retries = retries }
    | invalid ↦ record { ending = gave_up; calls = suc calls; retries = suc retries }
    | transport_error ↦ record { ending = unwell; calls = suc calls; retries = retries }
    | other_error ↦ record { ending = gave_up; calls = suc calls; retries = retries }
  ]
  try_endpoint alias (suc left) calls retries = elim (ask calls alias) [
    | answers a ↦ record { ending = answered a; calls = suc calls; retries = retries }
    | invalid ↦ try_endpoint alias left (suc calls) (suc retries)
    | transport_error ↦ record { ending = unwell; calls = suc calls; retries = retries }
    | other_error ↦ record { ending = gave_up; calls = suc calls; retries = retries }
  ]

  -- The `for` loop over the walk.
  unfoldable pub try_links :
      String → ℕ → List Link → Cooling → List Link → (calls retries : ℕ) → Completion A
  try_links tier allowed [] cooling attempted calls retries = record {
    result = err llm_unavailable;
    cooling = cooling;
    attempted = attempted;
    calls = calls;
  }
  try_links tier allowed (link ∷ rest) cooling attempted calls retries =
      let tried = try_endpoint link.alias allowed calls retries in
      let asked = attempted ++ (link ∷ []) in
      elim tried.ending [
        | answered a ↦ record {
          result = ok (a, build_meta tier link tried.retries asked);
          cooling = remove link.alias cooling;
          attempted = asked;
          calls = tried.calls;
        }
        | gave_up ↦ try_links tier allowed rest cooling asked tried.calls tried.retries
        | unwell ↦
            try_links tier allowed rest (insert link.alias (clock tried.calls) cooling) asked
              tried.calls tried.retries
      ]

  -- `complete_structured` at the instant `now`, with the settings of the tier and the client's
  -- `_cooling`.
  unfoldable pub complete_structured :
      String → Option TierConfig → Cooling → (now calls : ℕ) → Completion A
  complete_structured tier none cooling now calls = record {
    result = err llm_unavailable;
    cooling = cooling;
    attempted = [];
    calls = calls;
  }
  complete_structured tier (some cfg) cooling now calls =
      try_links tier cfg.validation_retries (walk cooling now (links tier 0 (active_chain cfg)))
        cooling [] calls 0
