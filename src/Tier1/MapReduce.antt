-- ===== src/Tier1/MapReduce.antt =====
-- podcast_agent/summarize/tier1.py, `_map_reduce`: a long transcript in chunks. The two calls of the
-- model are arguments, with what the prompts are rendered from; `lower` is `str.lower`, and `M` the
-- telemetry of a call.
use podcast_digest.Common.{
  ℕ, suc, ◌≤◌, String, Bool, true, false, ◌||◌, List, [], ◌∷◌, ◌++◌, map, ◌==◌, string_eq,
  if◌then◌else◌, any_of, take, length, length-take, length-append, All, All-map, Bool-cases,
  beq_refl, ◌≡◌, ◌≢◌, refl, sym, ap, subst, ◌∙◌, inl, inr, arith,
}
use podcast_digest.Errors.{Result, ok, err, value_error, ◌>>=◌, Result-cases}
use podcast_digest.Chunking.{Text, chunk_transcript}
use podcast_digest.Tier1.{Tier1Result}

pub record ChunkBullets : Type 0 where
  pub bullets : List String
  pub entities : List String

abbrev pub max_chunks : ℕ
max_chunks = 20

abbrev pub has : String → List String → Bool
has x xs = any_of (λ y. x == y) xs

ok_inj {ℓ} : {A : Type ℓ} {a b : A} → ok a ≡ ok b → a ≡ b
ok_inj h = cc

-- The first list is a part of the second, in its order.
pub data InOrder : List String → List String → Type 0 where
  no_more : InOrder [] []
  passed_over : {x : String} {xs ys : List String} → InOrder xs ys → InOrder xs (x ∷ ys)
  taken : {x : String} {xs ys : List String} → InOrder xs ys → InOrder (x ∷ xs) (x ∷ ys)

module _ (lower : String → String) where
  -- The entities that are new, case aside, in the order in which they were seen first.
  unfoldable pub unseen : List String → List String → List String
  unseen seen [] = []
  unseen seen (e ∷ entities) =
      let known = unseen seen entities in
      let added = unseen (lower e ∷ seen) entities in
      if has (lower e) seen then known else e ∷ added

  -- No two are the same, case aside.
  abbrev pub Apart : List String → Type 0
  Apart [] = Unit
  Apart (e ∷ entities) = (has (lower e) (map lower entities) ≡ false) × Apart entities

  not_among :
      (k : String) (seen entities : List String)
      → All (λ u. has (lower u) (k ∷ seen) ≡ false) entities
      → (has k (map lower entities) ≡ false) × All (λ u. has (lower u) seen ≡ false) entities
  unfolding any_of
  not_among k seen [] h = (refl, tt)
  not_among k seen (u ∷ entities) (h, t) = elim (Bool-cases (lower u == k)) [
    | inl same ↦ absurd (cc (rw same at h))
    | inr other ↦
        let (rest, old) = not_among k seen entities t in
        (rw (flip (lower u) k other) rest, (rw other at h, old))
  ]
    where
      flip : (a b : String) → (a == b) ≡ false → (b == a) ≡ false
      flip a b e = ground (arith, e, string_eq.same_iff a b, string_eq.same_iff b a)

  unseen-Apart :
      (seen entities : List String)
      → Apart (unseen seen entities) × All (λ u. has (lower u) seen ≡ false) (unseen seen entities)
  unfolding unseen
  unseen-Apart seen [] = (tt, tt)
  unseen-Apart seen (e ∷ entities) = elim (Bool-cases (has (lower e) seen)) [
    | inl known ↦ rw known (unseen-Apart seen entities)
    | inr added ↦
        let (apart, fresh) = unseen-Apart (lower e ∷ seen) entities in
        let (distinct, old) = not_among (lower e) seen (unseen (lower e ∷ seen) entities) fresh in
        rw added ((distinct, apart), (added, old))
  ]

  -- It is in the list, case aside, or was seen before.
  abbrev pub Found : List String → List String → String → Type 0
  Found listed seen x = (has (lower x) (map lower listed) || has (lower x) seen) ≡ true

  or_right : (a b : Bool) → b ≡ true → (a || b) ≡ true
  or_right a b h = ground arith

  moved_over :
      (here a b : Bool)
      → (a || (if here then true else b)) ≡ true
      → ((if here then true else a) || b) ≡ true
  moved_over here a b h = ground arith

  unseen-Found : (seen entities : List String) → All (Found (unseen seen entities) seen) entities
  unfolding unseen any_of
  unseen-Found seen [] = tt
  unseen-Found seen (e ∷ entities) = elim (Bool-cases (has (lower e) seen)) [
    | inl known ↦
        let same : unseen seen (e ∷ entities) ≡ unseen seen entities = rw known refl in
        subst (λ l. All (Found l seen) (e ∷ entities)) (sym same)
          (
            or_right (has (lower e) (map lower (unseen seen entities))) (has (lower e) seen) known,
            unseen-Found seen entities,
          )
    | inr added ↦
        let later = unseen (lower e ∷ seen) entities in
        let longer : unseen seen (e ∷ entities) ≡ e ∷ later = rw added refl in
        subst (λ l. All (Found l seen) (e ∷ entities)) (sym longer)
          (
            rw (beq_refl (lower e)) refl,
            All-map (Found later (lower e ∷ seen))
                (λ x h.
                  moved_over (lower x == lower e) (has (lower x) (map lower later))
                    (has (lower x) seen) h)
                entities (unseen-Found (lower e ∷ seen) entities),
          )
  ]

  unseen-InOrder : (seen entities : List String) → InOrder (unseen seen entities) entities
  unfolding unseen
  unseen-InOrder seen [] = no_more
  unseen-InOrder seen (e ∷ entities) = elim (Bool-cases (has (lower e) seen)) [
    | inl known ↦ rw known (passed_over (unseen-InOrder seen entities))
    | inr added ↦ rw added (taken (unseen-InOrder (lower e ∷ seen) entities))
  ]

  module _ {M : Type 0} (ask_map : ℕ → ℕ → Text → Result (ChunkBullets × M))
      (ask_reduce : ℕ → List String → List String → Result (Tier1Result × M)) where
    -- The map step, chunk after chunk: the telemetry, the bullets and the entities.
    unfoldable pub map_chunks :
        (index total : ℕ) → List Text → Result (List M × List String × List String)
    map_chunks index total [] = ok ([], [], [])
    map_chunks index total (chunk ∷ chunks) = do
      answer ← ask_map index total chunk
      rest ← map_chunks (suc index) total chunks
      ok (answer.1 ∷ rest.0, answer.0.bullets ++ rest.1, answer.0.entities ++ rest.2)

    abbrev is_none : List String → Bool
    is_none [] = true
    is_none (x ∷ xs) = false

    -- The reduce step.
    unfoldable pub reduce_chunks :
        ℕ → List M × List String × List String → Result (Tier1Result × List M × ℕ)
    unfolding unseen
    reduce_chunks count mapped = if is_none mapped.1 then err value_error else do
      answer ← ask_reduce count mapped.1 (unseen [] mapped.2)
      ok (answer.0, mapped.0 ++ (answer.1 ∷ []), count)

    unfoldable pub map_reduce :
        (paragraphs sentences : Text → List Text)
        → (strip : Text → Text) → ℕ
        → Text
        → Result (Tier1Result × List M × ℕ)
    unfolding map_chunks reduce_chunks
    map_reduce paragraphs sentences strip target_tokens content =
        let all_chunks = chunk_transcript paragraphs sentences strip content target_tokens in
        let chunks = take max_chunks all_chunks in
        do mapped ← map_chunks 1 (length chunks) chunks; reduce_chunks (length chunks) mapped

    -- The chunks were asked about one after another, and these are the answers.
    abbrev pub Answered : ℕ → ℕ → List Text → List (ChunkBullets × M) → Type 0
    Answered index total [] [] = Unit
    Answered index total (c ∷ chunks) (a ∷ answers) =
        (ask_map index total c ≡ ok a) × Answered (suc index) total chunks answers
    Answered index total _ _ = ⊥

    abbrev pub all_bullets : List (ChunkBullets × M) → List String
    all_bullets [] = []
    all_bullets (a ∷ answers) = a.0.bullets ++ all_bullets answers

    abbrev pub all_entities : List (ChunkBullets × M) → List String
    all_entities [] = []
    all_entities (a ∷ answers) = a.0.entities ++ all_entities answers

    abbrev pub all_metas_of : List (ChunkBullets × M) → List M
    all_metas_of answers = map (λ a. a.1) answers

    map_chunks-Answered :
        (index total : ℕ) (chunks : List Text) (mapped : List M × List String × List String)
        → map_chunks index total chunks ≡ ok mapped
        → (answers : List (ChunkBullets × M)) × Answered index total chunks answers
          × (mapped ≡ (all_metas_of answers, all_bullets answers, all_entities answers))
    unfolding map_chunks
    map_chunks-Answered index total [] mapped h = ([], tt, sym (ok_inj h))
    map_chunks-Answered index total (chunk ∷ chunks) mapped h =
        elim (Result-cases (ask_map index total chunk)) [
          | inr (e, no_answer) ↦ absurd (cc (rw no_answer at h))
          | inl (answer, got) ↦ elim (Result-cases (map_chunks (suc index) total chunks)) [
            | inr (e, no_rest) ↦ absurd (cc (rw (got, no_rest) at h))
            | inl (rest, others) ↦
                let (answers, asked, parts) =
                  map_chunks-Answered (suc index) total chunks rest others in
                (
                  answer ∷ answers,
                  (got, asked),
                  sym (ok_inj (rw (got, others) at h))
                      ∙ ap
                          (λ (r : List M × List String × List String).
                            (answer.1 ∷ r.0, answer.0.bullets ++ r.1, answer.0.entities ++ r.2))
                          parts,
                )
          ]
        ]

    length-map_chunks :
        (index total : ℕ) (chunks : List Text) (mapped : List M × List String × List String)
        → map_chunks index total chunks ≡ ok mapped
        → length mapped.0 ≡ length chunks
    unfolding map_chunks
    length-map_chunks index total [] mapped h =
        ap (λ (r : List M × List String × List String). length r.0) (sym (ok_inj h))
    length-map_chunks index total (chunk ∷ chunks) mapped h =
        elim (Result-cases (ask_map index total chunk)) [
          | inr (e, no_answer) ↦ absurd (cc (rw no_answer at h))
          | inl (answer, got) ↦ elim (Result-cases (map_chunks (suc index) total chunks)) [
            | inr (e, no_rest) ↦ absurd (cc (rw (got, no_rest) at h))
            | inl (rest, others) ↦
                ap (λ (r : List M × List String × List String). length r.0)
                  (sym (ok_inj (rw (got, others) at h)))
                ∙ ap suc (length-map_chunks (suc index) total chunks rest others)
          ]
        ]

    -- What the reduce step asks, where it returns.
    record Reduced (count : ℕ) (mapped : List M × List String × List String)
        (out : Tier1Result × List M × ℕ) : Type 0 where
      meta : M
      asks : ask_reduce count mapped.1 (unseen [] mapped.2) ≡ ok (out.0, meta)
      all_metas : out.1 ≡ mapped.0 ++ (meta ∷ [])
      same_count : out.2 ≡ count
      some_bullets : mapped.1 ≢ []

    reduce_chunks-Reduced :
        (count : ℕ) (mapped : List M × List String × List String) (out : Tier1Result × List M × ℕ)
        → reduce_chunks count mapped ≡ ok out
        → Reduced count mapped out
    unfolding reduce_chunks
    reduce_chunks-Reduced count mapped out h = elim (Bool-cases (is_none mapped.1)) [
      | inl empty ↦ absurd (cc (rw empty at h))
      | inr full ↦ elim (Result-cases (ask_reduce count mapped.1 (unseen [] mapped.2))) [
        | inr (e, no_answer) ↦ absurd (cc (rw (full, no_answer) at h))
        | inl (answer, got) ↦
            let same : (answer.0, mapped.0 ++ (answer.1 ∷ []), count) ≡ out =
              ok_inj (rw (full, got) at h) in
            subst (λ o. Reduced count mapped o) same
              (record {
                meta = answer.1;
                asks = got;
                all_metas = refl;
                same_count = refl;
                some_bullets = λ none_left. cc (sym full ∙ ap is_none none_left);
              })
      ]
    ]

    -- A long transcript that the model answers for: no more than 20 chunks are asked about, one after
    -- another, and the call that summarises gets the bullets of all the answers in their order, at
    -- least one, and a part of the entities of all the answers in their order, in which none is lost
    -- and none is there twice, case aside. The telemetry is that of these calls.
    pub map_reduce-Asks :
        (paragraphs sentences : Text → List Text) (strip : Text → Text) (target_tokens : ℕ)
        (content : Text) (result : Tier1Result) (metas : List M) (count : ℕ)
        → map_reduce paragraphs sentences strip target_tokens content ≡ ok (result, metas, count)
        → let chunks =
            take max_chunks (chunk_transcript paragraphs sentences strip content target_tokens) in
          (count ≡ length chunks)
          × (count ≤ 20)
          × (length metas ≡ suc count)
          × (answers : List (ChunkBullets × M)) × Answered 1 count chunks answers
          × (all_bullets answers ≢ [])
          × (asked : List String) × (meta : M) × (ask_reduce count (all_bullets answers) asked
              ≡ ok (result, meta))
          × (metas ≡ all_metas_of answers ++ (meta ∷ []))
          × (Apart asked)
          × (All (Found asked []) (all_entities answers))
          × (InOrder asked (all_entities answers))
    unfolding map_reduce reduce_chunks
    map_reduce-Asks paragraphs sentences strip target_tokens content result metas count h =
        let chunks =
          take max_chunks (chunk_transcript paragraphs sentences strip content target_tokens) in
        elim (Result-cases (map_chunks 1 (length chunks) chunks)) [
          | inr (e, no_answer) ↦ absurd (cc (rw no_answer at h))
          | inl (mapped, got) ↦
              let r =
                reduce_chunks-Reduced (length chunks) mapped (result, metas, count) (rw got at h) in
              let (answers, answered, parts) =
                map_chunks-Answered 1 (length chunks) chunks mapped got in
              let asked = unseen [] (all_entities answers) in
              let given : ask_reduce (length chunks) (all_bullets answers) asked
                  ≡ ok (result, r.meta) =
                ap
                  (λ (m : List M × List String × List String).
                    ask_reduce (length chunks) m.1 (unseen [] m.2))
                  (sym parts)
                ∙ r.asks in
              (
                r.same_count,
                omega (
                  arith,
                  r.same_count,
                  length-take max_chunks
                      (chunk_transcript paragraphs sentences strip content target_tokens),
                ),
                ap (λ l. length l) r.all_metas
                    ∙ omega (
                      arith,
                      length-append mapped.0 (r.meta ∷ []),
                      r.same_count,
                      length-map_chunks 1 (length chunks) chunks mapped got,
                    ),
                answers,
                subst (λ n. Answered 1 n chunks answers) (sym r.same_count) answered,
                λ none_left.
                    r.some_bullets
                      (ap (λ (m : List M × List String × List String). m.1) parts ∙ none_left),
                asked,
                r.meta,
                ap (λ n. ask_reduce n (all_bullets answers) asked) r.same_count ∙ given,
                r.all_metas
                    ∙ ap (λ (m : List M × List String × List String). m.0 ++ (r.meta ∷ [])) parts,
                (unseen-Apart [] (all_entities answers)).0,
                unseen-Found [] (all_entities answers),
                unseen-InOrder [] (all_entities answers),
              )
        ]
