-- ===== src/Llm/Attempts.antt =====
-- podcast_agent/llm/client.py: how the requests to one endpoint end.
use podcast_digest.Common.{
  ℕ, zero, suc, ◌+◌, ◌≤◌, ◌<◌, ◌≡◌, refl, subst, ◌⊎◌, inl, inr, arith, ltb, Bool-cases,
}
use podcast_digest.Llm.{
  Alias, Reply, answers, invalid, transport_error, other_error, Ending, answered, gave_up, unwell,
  Tried, try_endpoint,
}

pub Reply-cases :
    {A : Type 0} (r : Reply A)
    → ((a : A) × (r ≡ answers a)) ⊎ ((r ≡ invalid) ⊎ ((r ≡ transport_error) ⊎ (r ≡ other_error)))
Reply-cases (answers a) = inl (a, refl)
Reply-cases invalid = inr (inl refl)
Reply-cases transport_error = inr (inr (inl refl))
Reply-cases other_error = inr (inr (inr refl))

pub Ending-cases :
    {A : Type 0} (x : Ending A) → ((a : A) × (x ≡ answered a)) ⊎ ((x ≡ gave_up) ⊎ (x ≡ unwell))
Ending-cases (answered a) = inl (a, refl)
Ending-cases gave_up = inr (inl refl)
Ending-cases unwell = inr (inr refl)

module _ {A : Type 0} (ask : ℕ → Alias → Reply A) where
  -- The last reply, to request `last`, is why the endpoint is left.
  abbrev pub Explains : Alias → (last from left : ℕ) → Ending A → Type 0
  Explains alias last from left (answered a) = ask last alias ≡ answers a
  Explains alias last from left gave_up =
      (ask last alias ≡ other_error) ⊎ ((ask last alias ≡ invalid) × (last ≡ from + left))
  Explains alias last from left unwell = ask last alias ≡ transport_error

  -- Requests `from` to `last` went to the endpoint, and all before the last had invalid replies.
  pub record Concluded (alias : Alias) (left from : ℕ) (tried : Tried A) : Type 0 where
    pub last : ℕ
    pub counted : tried.calls ≡ suc last
    pub at_least : from ≤ last
    pub at_most : last ≤ from + left
    pub before : (m : ℕ) → from ≤ m → m < last → ask m alias ≡ invalid
    pub why : Explains alias last from left tried.ending

  sooner :
      (alias : Alias) (last from left : ℕ) (x : Ending A)
      → Explains alias last (suc from) left x
      → Explains alias last from (suc left) x
  sooner alias last from left (answered a) h = h
  sooner alias last from left gave_up (inl e) = inl e
  sooner alias last from left gave_up (inr (e, q)) = inr (e, omega (arith, q))
  sooner alias last from left unwell h = h

  -- The first request is the last.
  at_once :
      (alias : Alias) (left from retries : ℕ) (ending : Ending A)
      → Explains alias from from left ending
      → Concluded alias left from (record { ending = ending; calls = suc from; retries = retries })
  at_once alias left from retries ending h = record {
    last = from;
    counted = refl;
    at_least = omega arith;
    at_most = omega arith;
    before = λ m a b. absurd (omega arith);
    why = h;
  }

  pub try_endpoint-Concluded :
      (clock : ℕ → ℕ) (alias : Alias) (left from retries : ℕ)
      → Concluded alias left from (try_endpoint ask clock alias left from retries)
  unfolding try_endpoint
  try_endpoint-Concluded clock alias zero from retries = elim (Reply-cases (ask from alias)) [
    | inl (a, e) ↦ rw (e, try_endpoint) (at_once alias 0 from retries (answered a) e)
    | inr (inl e) ↦
        rw (e, try_endpoint) (at_once alias 0 from (suc retries) gave_up (inr (e, omega arith)))
    | inr (inr (inl e)) ↦ rw (e, try_endpoint) (at_once alias 0 from retries unwell e)
    | inr (inr (inr e)) ↦ rw (e, try_endpoint) (at_once alias 0 from retries gave_up (inl e))
  ]
  try_endpoint-Concluded clock alias (suc left) from retries = elim (Reply-cases (ask from alias)) [
    | inl (a, e) ↦ rw (e, try_endpoint) (at_once alias (suc left) from retries (answered a) e)
    | inr (inl e) ↦
        let c = try_endpoint-Concluded clock alias left (suc from) (suc retries) in
        rw (e, try_endpoint)
          (record {
            last = c.last;
            counted = c.counted;
            at_least = omega (arith, c.at_least);
            at_most = omega (arith, c.at_most);
            before = λ m a b. elim (Bool-cases (ltb from m)) [
              | inl later ↦ c.before m (ground (arith, later)) b
              | inr first ↦
                  let same : from ≡ m = ground (arith, a, first) in
                  subst (λ i. ask i alias ≡ invalid) same e
            ];
            why = sooner alias c.last from left _ c.why;
          })
    | inr (inr (inl e)) ↦ rw (e, try_endpoint) (at_once alias (suc left) from retries unwell e)
    | inr (inr (inr e)) ↦
        rw (e, try_endpoint) (at_once alias (suc left) from retries gave_up (inl e))
  ]
