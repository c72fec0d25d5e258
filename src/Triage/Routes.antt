-- ===== src/Triage/Routes.antt =====
-- The routing table: which verdicts lead where.
use podcast_digest.Common.{ℕ, ◌≤◌, ◌<◌, Bool, true, false, ◌≡◌, ◌↔◌, ◌⊎◌, arith}
use podcast_digest.Triage.{Route, drop, direct, escalate, Tier0Result, PipelineConfig, decide_route}

-- An episode is dropped exactly when nothing forces its escalation, the description was informative
-- enough, and the guess is below the lower threshold. It is listed directly exactly when the guess
-- is between the two thresholds instead, under the same conditions. Everything else escalates.
pub route_regions :
    (r : Tier0Result) (cfg : PipelineConfig) (always : Bool)
    → (((decide_route r cfg always).route ≡ drop) ↔ (
        (always ≡ false) × (cfg.t_conf_high ≤ r.confidence) × (r.relevance_guess < cfg.t_rel_low)))
      × (((decide_route r cfg always).route ≡ direct) ↔ (
          (always ≡ false)
          × (cfg.t_conf_high ≤ r.confidence)
          × (cfg.t_rel_low ≤ r.relevance_guess)
          × (r.relevance_guess < cfg.t_rel_high)))
      × (((decide_route r cfg always).route ≡ escalate) ↔ (
          (always ≡ true)
          ⊎ ((r.confidence < cfg.t_conf_high)
              ⊎ ((cfg.t_rel_low ≤ r.relevance_guess) × (cfg.t_rel_high ≤ r.relevance_guess)))))
unfolding decide_route
route_regions r cfg always = ground arith

-- How much attention a route gives.
abbrev pub rank : Route → ℕ
rank drop = 0
rank direct = 1
rank escalate = 2

-- A verdict that is at least as relevant, at the same confidence, never gets less attention; and
-- neither does one whose description told less.
pub decide_route-monotone :
    (r r' : Tier0Result) (cfg : PipelineConfig) (always : Bool)
    → r.relevance_guess ≤ r'.relevance_guess
    → r'.confidence ≤ r.confidence
    → rank (decide_route r cfg always).route ≤ rank (decide_route r' cfg always).route
unfolding decide_route
decide_route-monotone r r' cfg always h k = ground arith
