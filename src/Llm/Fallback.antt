-- ===== src/Llm/Fallback.antt =====
-- podcast_agent/llm/client.py, `complete_structured`: the endpoints that are asked, in which order.
use mathlib.Core.List.{append_assoc, append-nil}
use podcast_digest.Common.{
  ℕ, suc, ◌+◌, ◌*◌, ◌≤◌, String, none, List, [], ◌∷◌, ◌++◌, string_eq, nat_eq, pair_eq, ltb, lookup,
  insert, lookup-remove_self, All, length, Bool-cases, ◌≡◌, refl, sym, ap, subst, ◌∙◌, ◌⊎◌, inl,
  inr, arith,
}
use podcast_digest.Errors.{ok, err, llm_unavailable}
use podcast_digest.Llm.{
  Alias, Reply, answers, invalid, transport_error, other_error, gave_up, unwell, Tried,
  try_endpoint, Link, Cooling, Completion, try_links, build_meta,
}
use podcast_digest.Llm.Attempts.{Concluded, Explains, Ending-cases, try_endpoint-Concluded}

one_more : (n k : ℕ) → suc n * k ≡ k + n * k
one_more n k = grind arith

module _ {A : Type 0} (ask : ℕ → Alias → Reply A) where
  -- An endpoint failed: a request to it raised, or as many replies in a row as are allowed, and one
  -- more, did not fit the model.
  abbrev pub Failed : ℕ → Link → Type 0
  Failed allowed link =
      (n : ℕ) × ((ask n link.alias ≡ transport_error)
        ⊎ ((ask n link.alias ≡ other_error)
            ⊎ ((m : ℕ) → n ≤ m → m ≤ n + allowed → ask m link.alias ≡ invalid)))

  Concluded-Failed :
      (allowed from : ℕ) (link : Link) (tried : Tried A)
      → Concluded ask link.alias allowed from tried
      → (tried.ending ≡ gave_up) ⊎ (tried.ending ≡ unwell)
      → Failed allowed link
  Concluded-Failed allowed from link tried c h = elim h [
    | inr e ↦ (c.last, inl (subst (Explains ask link.alias c.last from allowed) e c.why))
    | inl e ↦ elim (subst (Explains ask link.alias c.last from allowed) e c.why) [
      | inl other ↦ (c.last, inr (inl other))
      | inr (bad, q) ↦ (
        from,
        inr (
            inr (λ m a b. elim (Bool-cases (ltb m c.last)) [
              | inl early ↦ c.before m a (ground (arith, early))
              | inr late ↦
                  let same : c.last ≡ m = ground (arith, late, q) in
                  subst (λ i. ask i link.alias ≡ invalid) same bad
            ])),
      )
    ]
  ]

  -- What a call amounts to, of the links that are to be walked, behind those of `before`: the first
  -- that answers is the one that is used, and those in front of it failed; or all failed.
  pub data Outcome (tier : String) (allowed : ℕ) (before walked : List Link) (out : Completion A)
      : Type 0 where
    first_answer :
        (failed later : List Link) (link : Link) (n : ℕ) (a : A) (retries : ℕ)
        → walked ≡ failed ++ (link ∷ later)
        → out.attempted ≡ before ++ (failed ++ (link ∷ []))
        → All (Failed allowed) failed
        → ask n link.alias ≡ answers a
        → out.calls ≡ suc n
        → out.result ≡ ok (a, build_meta tier link retries out.attempted)
        → lookup link.alias out.cooling ≡ none
        → Outcome tier allowed before walked out
    unavailable :
        out.attempted ≡ before ++ walked
        → All (Failed allowed) walked
        → out.result ≡ err llm_unavailable
        → Outcome tier allowed before walked out

  behind :
      (tier : String) (allowed : ℕ) (before rest : List Link) (link : Link) (out : Completion A)
      → Failed allowed link
      → Outcome tier allowed (before ++ (link ∷ [])) rest out
      → Outcome tier allowed before (link ∷ rest) out
  behind tier allowed before rest link out h (first_answer failed later l n a r p q f x c o k) =
      first_answer (link ∷ failed) later l n a r (ap (λ t. link ∷ t) p)
        (q ∙ append_assoc before (link ∷ []) _) (h, f) x c o k
  behind tier allowed before rest link out h (unavailable q f o) =
      unavailable (q ∙ append_assoc before (link ∷ []) rest) (h, f) o

  module _ (clock : ℕ → ℕ) where
    pub try_links-Outcome :
        (tier : String) (allowed : ℕ) (walked : List Link) (cooling : Cooling) (before : List Link)
        (calls retries : ℕ)
        → Outcome tier allowed before walked
            (try_links ask clock tier allowed walked cooling before calls retries)
    unfolding try_links
    try_links-Outcome tier allowed [] cooling before calls retries =
        unavailable (sym (append-nil before)) tt refl
    try_links-Outcome tier allowed (link ∷ rest) cooling before calls retries =
        let tried : Tried A = try_endpoint ask clock link.alias allowed calls retries in
        let c : Concluded ask link.alias allowed calls tried =
          try_endpoint-Concluded ask clock link.alias allowed calls retries in
        elim (Ending-cases tried.ending) [
          | inl (a, e) ↦
              rw (e, try_links)
                (first_answer [] rest link c.last a tried.retries refl refl tt
                  (subst (Explains ask link.alias c.last calls allowed) e c.why) c.counted refl
                  (lookup-remove_self link.alias cooling))
          | inr (inl e) ↦
              rw (e, try_links)
                (behind tier allowed before rest link _
                  (Concluded-Failed allowed calls link tried c (inl e))
                  (try_links-Outcome tier allowed rest cooling (before ++ (link ∷ [])) tried.calls
                    tried.retries))
          | inr (inr e) ↦
              rw (e, try_links)
                (behind tier allowed before rest link _
                  (Concluded-Failed allowed calls link tried c (inr e))
                  (try_links-Outcome tier allowed rest _ (before ++ (link ∷ [])) tried.calls
                    tried.retries))
        ]

    pub try_links-calls :
        (tier : String) (allowed : ℕ) (walked : List Link) (cooling : Cooling) (before : List Link)
        (calls retries : ℕ)
        → (try_links ask clock tier allowed walked cooling before calls retries).calls
          ≤ calls + length walked * suc allowed
    unfolding try_links
    try_links-calls tier allowed [] cooling before calls retries = omega arith
    try_links-calls tier allowed (link ∷ rest) cooling before calls retries =
        let tried : Tried A = try_endpoint ask clock link.alias allowed calls retries in
        let c : Concluded ask link.alias allowed calls tried =
          try_endpoint-Concluded ask clock link.alias allowed calls retries in
        let room : tried.calls ≤ calls + suc allowed = omega (arith, c.counted, c.at_most) in
        elim (Ending-cases tried.ending) [
          | inl (a, e) ↦
              rw (e, try_links) (omega (arith, room, one_more (length rest) (suc allowed)))
          | inr (inl e) ↦
              let more =
                try_links-calls tier allowed rest cooling (before ++ (link ∷ [])) tried.calls
                  tried.retries in
              rw (e, try_links) (omega (arith, room, more, one_more (length rest) (suc allowed)))
          | inr (inr e) ↦
              let more =
                try_links-calls tier allowed rest (insert link.alias (clock tried.calls) cooling)
                  (before ++ (link ∷ [])) tried.calls tried.retries in
              rw (e, try_links) (omega (arith, room, more, one_more (length rest) (suc allowed)))
        ]
