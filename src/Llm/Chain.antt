-- ===== src/Llm/Chain.antt =====
-- podcast_agent/llm/client.py, `_walk` and `complete_structured`, with `active_chain` of
-- podcast_agent/config.py: which endpoints a call may ask.
use podcast_digest.Common.{
  ℕ, suc, ◌+◌, ◌*◌, ◌≤◌, ◌<◌, String, true, false, not, some, List, [], ◌∷◌, ◌++◌, string_eq,
  nat_eq, pair_eq, keep_if, lookup, All, All-keep_if, keep_if-All, All-or, All-append, append-All,
  All-map, length-keep_if, List-cases, length, Option-cases, Bool-cases, ◌≡◌, ◌≢◌, refl, sym, subst,
  ◌∙◌, ◌⊎◌, inl, inr, arith,
}
use podcast_digest.Errors.{err, llm_unavailable}
use podcast_digest.Llm.{
  Alias, Reply, Provider, ollama, openrouter, anthropic, Endpoint, is_cloud, Link, Cooling,
  Completion, TierConfig, complete_structured, walk, usable, is_warm, links, active_chain,
  endpoint_cooldown_s,
}
use podcast_digest.Llm.Fallback.{
  Failed, Outcome, first_answer, unavailable, try_links-Outcome, try_links-calls,
}

times_mono : (a b k : ℕ) → a ≤ b → a * k ≤ b * k
times_mono a b k h = grind arith

-- What `_walk` returns: the links that are not cooling, if there are any, and else the chain.
walk_cases {κ} :
    (P : List Link → Type κ) (cooling : Cooling) (now : ℕ) (chain : List Link)
    → (keep_if (usable cooling now) chain ≢ [] → P (keep_if (usable cooling now) chain))
    → P chain
    → P (walk cooling now chain)
unfolding walk
walk_cases P cooling now chain some_warm all_cool =
    elim (List-cases (keep_if (usable cooling now) chain)) [
      | inl e ↦ rw (e, walk) all_cool
      | inr (x, xs, e) ↦ rw (e, walk) (rw e at (some_warm (λ q. absurd (cc (e, q)))))
    ]

-- An endpoint that failed at the transport level in the last minute.
abbrev pub Cooled : Cooling → ℕ → Link → Type 0
Cooled cooling now link =
    (since : ℕ) × (lookup link.alias cooling ≡ some since) × (now < since + endpoint_cooldown_s)

unusable-Cooled :
    (cooling : Cooling) (now : ℕ) (link : Link)
    → usable cooling now link ≡ false
    → Cooled cooling now link
unusable-Cooled cooling now link h = elim (Option-cases (lookup link.alias cooling)) [
  | inl e ↦ absurd (cc (rw e at h))
  | inr (since, e) ↦
      let late : is_warm now (some since) ≡ false = rw e at h in (since, e, ground (arith, late))
]

-- A chain without its links that are cooling.
pub data Without (cooling : Cooling) (now : ℕ) : List Link → List Link → Type 0 where
  no_more : Without cooling now [] []
  kept :
      (l : Link) (ls ws : List Link)
      → ¬ Cooled cooling now l
      → Without cooling now ls ws
      → Without cooling now (l ∷ ls) (l ∷ ws)
  left_out :
      (l : Link) (ls ws : List Link)
      → Cooled cooling now l
      → Without cooling now ls ws
      → Without cooling now (l ∷ ls) ws

usable-warm :
    (cooling : Cooling) (now : ℕ) (link : Link)
    → usable cooling now link ≡ true
    → ¬ Cooled cooling now link
usable-warm cooling now link h (since, e, early) =
    let warm : is_warm now (some since) ≡ true = rw e at h in ground (arith, warm, early)

keep_if-Without :
    (cooling : Cooling) (now : ℕ) (ls : List Link)
    → Without cooling now ls (keep_if (usable cooling now) ls)
unfolding keep_if
keep_if-Without cooling now [] = no_more
keep_if-Without cooling now (l ∷ ls) = elim (Bool-cases (usable cooling now l)) [
  | inl e ↦ rw e (kept l ls _ (usable-warm cooling now l e) (keep_if-Without cooling now ls))
  | inr e ↦
      rw e (left_out l ls _ (unusable-Cooled cooling now l e) (keep_if-Without cooling now ls))
]

none_usable :
    (cooling : Cooling) (now : ℕ) (ls : List Link)
    → keep_if (usable cooling now) ls ≡ []
    → All (Cooled cooling now) ls
unfolding keep_if
none_usable cooling now [] h = tt
none_usable cooling now (l ∷ ls) h = elim (Bool-cases (usable cooling now l)) [
  | inl e ↦ absurd (cc (rw e at h))
  | inr e ↦ (unusable-Cooled cooling now l e, none_usable cooling now ls (rw e at h))
]

-- The walk: the links that are not cooling, in the order of the chain, or, if all are cooling, all.
abbrev pub Walked : Cooling → ℕ → List Link → List Link → Type 0
Walked cooling now chain w =
    ((w ≢ []) × Without cooling now chain w) ⊎ (All (Cooled cooling now) chain × (w ≡ chain))

walk-Walked :
    (cooling : Cooling) (now : ℕ) (chain : List Link)
    → Walked cooling now chain (walk cooling now chain)
unfolding walk
walk-Walked cooling now chain = elim (List-cases (keep_if (usable cooling now) chain)) [
  | inl e ↦ inr (none_usable cooling now chain e, rw (e, walk) refl)
  | inr (x, xs, e) ↦
      let same : walk cooling now chain ≡ keep_if (usable cooling now) chain = rw (e, walk) refl in
      inl (
        λ q. cc (sym e ∙ sym same ∙ q),
        subst (Without cooling now chain) (sym same) (keep_if-Without cooling now chain),
      )
]

abbrev pub Local : Link → Type 0
Local l = l.endpoint.provider ≡ ollama

at_home :
    (p : Provider)
    → not (elim p [ ollama ↦ false | openrouter ↦ true | anthropic ↦ true ]) ≡ true
    → p ≡ ollama
at_home ollama h = refl
at_home openrouter h = absurd cc
at_home anthropic h = absurd cc

module _ {A : Type 0} (ask : ℕ → Alias → Reply A) (clock : ℕ → ℕ) (tier : String) (cfg : TierConfig)
    (cooling : Cooling) (now calls : ℕ) where
  abbrev completion : Completion A
  completion = complete_structured ask clock tier (some cfg) cooling now calls

  abbrev chain : List Link
  chain = links tier 0 (active_chain cfg)

  walk-short : length (walk cooling now chain) ≤ length chain
  walk-short =
      walk_cases (λ w. length w ≤ length chain) cooling now chain
        (λ e. length-keep_if (usable cooling now) chain) (omega arith)

  scaled :
      length (walk cooling now chain) * suc cfg.validation_retries
      ≤ length chain * suc cfg.validation_retries
  scaled =
      times_mono (length (walk cooling now chain)) (length chain) (suc cfg.validation_retries)
        walk-short

  -- A call of a configured tier walks the links that did not fail at the transport level in the last
  -- minute, in the order of the chain, or the whole chain if all did. The first that answers is used,
  -- its answer is returned, it is no longer cooling, and those that were asked before it failed; or
  -- all of the walk failed and the call raises LLMUnavailable. The requests of the call are at most
  -- one more than the validation failures that are allowed, times the endpoints of the chain.
  pub complete_structured-Outcome :
      Outcome ask tier cfg.validation_retries []
        (walk cooling now chain)
        (complete_structured ask clock tier (some cfg) cooling now calls)
      × ((complete_structured ask clock tier (some cfg) cooling now calls).calls
          ≤ calls + length chain * suc cfg.validation_retries)
      × Walked cooling now chain (walk cooling now chain)
  unfolding complete_structured
  complete_structured-Outcome = (
    try_links-Outcome ask clock tier cfg.validation_retries (walk cooling now chain) cooling []
        calls 0,
    omega (
      arith,
      try_links-calls ask clock tier cfg.validation_retries (walk cooling now chain) cooling []
          calls 0,
      scaled,
    ),
    walk-Walked cooling now chain,
  )

  -- A call that raises did ask an endpoint; each endpoint of the chain failed during the call, or is
  -- cooling since less than a minute: a cooldown alone never makes a tier unavailable.
  pub complete_structured-unavailable :
      active_chain cfg ≢ []
      → (complete_structured ask clock tier (some cfg) cooling now calls).result
        ≡ err llm_unavailable
      → ((complete_structured ask clock tier (some cfg) cooling now calls).attempted ≢ [])
        × All (λ l. Failed ask cfg.validation_retries l ⊎ Cooled cooling now l) chain
  unfolding links
  complete_structured-unavailable some_endpoint raised = elim complete_structured-Outcome.0 [
    | first_answer failed later link n a retries p q f x c o k ↦ absurd (cc (raised, o))
    | unavailable q f o ↦ (subst (λ l. l ≢ []) (sym q) walked, asked_or_cooled f)
  ]
    where
      linked : (es : List Endpoint) → es ≢ [] → links tier 0 es ≢ []
      linked [] h = absurd (h refl)
      linked (e ∷ es) h = λ q. cc

      walked : walk cooling now chain ≢ []
      walked =
          walk_cases (λ w. w ≢ []) cooling now chain (λ h. h)
            (linked (active_chain cfg) some_endpoint)

      asked_or_cooled :
          All (Failed ask cfg.validation_retries) (walk cooling now chain)
          → All (λ l. Failed ask cfg.validation_retries l ⊎ Cooled cooling now l) chain
      asked_or_cooled =
          walk_cases
            (λ w.
              All (Failed ask cfg.validation_retries) w
              → All (λ l. Failed ask cfg.validation_retries l ⊎ Cooled cooling now l) chain)
            cooling now chain
            (λ h f.
              All-map _
                (λ l k. elim k [
                  | inl y ↦ inl y
                  | inr cold ↦ inr (unusable-Cooled cooling now l cold)
                ])
                chain (All-or _ (usable cooling now) chain f))
            (λ f. All-map _ (λ l k. inl k) chain f)

  -- With `allow_cloud_fallback: false`, every endpoint that a call sends the prompt to is a local one.
  pub complete_structured-Local :
      cfg.allow_cloud_fallback ≡ false
      → All Local (complete_structured ask clock tier (some cfg) cooling now calls).attempted
  unfolding links active_chain
  complete_structured-Local forbidden = elim complete_structured-Outcome.0 [
    | first_answer failed later link n a retries p q f x c o k ↦
        subst (All Local) (sym q) (leading failed later link (subst (All Local) p local_walk))
    | unavailable q f o ↦ subst (All Local) (sym q) local_walk
  ]
    where
      leading :
          (xs ys : List Link) (l : Link) → All Local (xs ++ (l ∷ ys)) → All Local (xs ++ (l ∷ []))
      leading xs ys l h =
          let k = All-append Local xs (l ∷ ys) h in append-All Local xs (l ∷ []) k.0 (k.1.0, tt)

      not_cloud : (e : Endpoint) → not (is_cloud e) ≡ true → e.provider ≡ ollama
      not_cloud e h = at_home e.provider h

      linked :
          (n : ℕ) (es : List Endpoint)
          → All (λ e. not (is_cloud e) ≡ true) es
          → All Local (links tier n es)
      linked n [] h = tt
      linked n (e ∷ es) (h, t) = (not_cloud e h, linked (suc n) es t)

      local_chain : All Local chain
      local_chain =
          rw forbidden
            (linked 0 _ (keep_if-All (λ e. not (is_cloud e)) (cfg.primary ∷ cfg.fallbacks)))

      local_walk : All Local (walk cooling now chain)
      local_walk =
          walk_cases (All Local) cooling now chain
            (λ h. All-keep_if Local (usable cooling now) chain local_chain) local_chain
