-- ===== src/Runner/Stages.antt =====
-- podcast_agent/pipeline/runner.py: the loop of one stage over its queue, against the handling of each
-- episode by itself.
use podcast_digest.Common.{
  ℕ, ◌≤◌, String, Bool, true, false, not, Option, none, some, List, [], ◌∷◌, ◌==◌, string_eq,
  if◌then◌else◌, keep_if, length, lookup, insert, lookup-insert, lookup-insert_self, All,
  Bool-cases, some_inj, beq_refl, ◌≡◌, refl, sym, ap, subst, ◌∙◌, ◌⊎◌, inl, inr, arith,
}
use podcast_digest.Errors.{Error}
use podcast_digest.Status.{EpisodeStatus}
use podcast_digest.Episode.{Episode}
use podcast_digest.Transcript.{StageEnd, ended, raises, dies}
use podcast_digest.Runner.{PipelineStats, Episodes, Stage, left_by, run_queue}
use podcast_digest.Runner.Queues.{Unique, when, first_of, insert-Unique, length-keep_if-insert}

pub StageEnd-cases :
    (end : StageEnd)
    → ((t : EpisodeStatus) × (end ≡ ended t)) ⊎ (((e : Error) × (end ≡ raises e)) ⊎ (end ≡ dies))
StageEnd-cases (ended t) = inl (t, refl)
StageEnd-cases (raises e) = inr (inl (e, refl))
StageEnd-cases dies = inr (inr refl)

-- How many episodes pass a test.
abbrev pub work : (Episode → Bool) → Episodes → ℕ
work busy s = length (keep_if (λ e. busy e.1) s)

module _ (stage : Stage) where
  -- The handling of one episode by itself, recorded errors included.
  abbrev pub round : String → Episode → Episode
  round i doc = left_by stage i (stage.handle i doc)

  abbrev pub round_of : String → Option Episode → Option Episode
  round_of i none = none
  round_of i (some doc) = some (round i doc)

  -- Neither is the stage deferred nor the process killed.
  unfoldable pub is_calm : StageEnd → Bool
  is_calm (ended t) = true
  is_calm (raises e) = not (stage.defers e)
  is_calm dies = false

  abbrev pub Calm : String × Episode → Type 0
  Calm e = is_calm (stage.handle e.0 e.1).0 ≡ true

  -- The handling of the episodes that pass a test, and of no other.
  abbrev pub step : (Episode → Bool) → String → Episode → Episode
  step chosen i doc = if chosen doc then round i doc else doc

  abbrev pub step_of : (Episode → Bool) → String → Option Episode → Option Episode
  step_of chosen i none = none
  step_of chosen i (some doc) = some (step chosen i doc)

  round_of-when :
      (chosen : Episode → Bool) (i : String) (o : Option Episode)
      → first_of (round_of i (when chosen o)) o ≡ step_of chosen i o
  round_of-when chosen i none = refl
  round_of-when chosen i (some doc) = elim (Bool-cases (chosen doc)) [
    | inl e ↦ rw e refl
    | inr e ↦ rw e refl
  ]

  -- The episodes that a run has work for.
  module _ (busy : Episode → Bool) where
    abbrev pub Part : List (String × Episode) → Episodes → Type 0
    Part q s = All (λ e. (d : Episode) × (lookup e.0 s ≡ some d) × (busy d ≡ true)) q

    pub record Ran (q : List (String × Episode)) (s : Episodes)
        (r : Option PipelineStats × Episodes) : Type 0 where
      pub stats : PipelineStats
      pub completes : r.0 ≡ some stats
      pub each : (j : String) → lookup j r.1 ≡ first_of (round_of j (lookup j q)) (lookup j s)
      pub unique : Unique r.1
      pub size : work busy r.1 ≤ work busy s

    -- What a stage that is not deferred makes of the store, episode by episode.
    pub record Stepped (chosen : Episode → Bool) (s : Episodes)
        (r : Option PipelineStats × Episodes) : Type 0 where
      pub stats : PipelineStats
      pub completes : r.0 ≡ some stats
      pub each : (j : String) → lookup j r.1 ≡ step_of chosen j (lookup j s)
      pub unique : Unique r.1
      pub size : work busy r.1 ≤ work busy s

  Part-insert :
      (busy : Episode → Bool) (k : String) (v : Episode) (s : Episodes)
      (q : List (String × Episode))
      → lookup k q ≡ none
      → Part busy q s
      → Part busy q (insert k v s)
  unfolding lookup
  Part-insert busy k v s [] absent h = tt
  Part-insert busy k v s ((i, doc) ∷ q) absent ((d, h, b), t) = elim (Bool-cases (i == k)) [
    | inl same ↦ absurd (cc (rw same at absent))
    | inr other ↦ (
      (
        d,
        lookup-insert k i v s
            ∙ ground (arith, h, other, string_eq.same_iff k i, string_eq.same_iff i k),
        b,
      ),
      Part-insert busy k v s q (rw other at absent) t,
    )
  ]

  one_more :
      (i : String) (doc x : Episode) (q : List (String × Episode)) (s : Episodes)
      → x ≡ round i doc
      → lookup i q ≡ none
      → (j : String)
      → first_of (round_of j (lookup j q)) (lookup j (insert i x s))
        ≡ first_of (round_of j (lookup j ((i, doc) ∷ q))) (lookup j s)
  unfolding lookup
  one_more i doc x q s e absent j = elim (Bool-cases (i == j)) [
    | inl same ↦ rw same (
        subst
          (λ k. first_of (round_of k (lookup k q)) (lookup k (insert i x s)) ≡ some (round k doc))
          ((string_eq.same_iff i j).0 same)
          (ap (λ o. first_of (round_of i o) (lookup i (insert i x s))) absent
            ∙ lookup-insert_self i x s
            ∙ ap some e))
    | inr other ↦
        rw other
          (ap (λ o. first_of (round_of j (lookup j q)) o) (lookup-insert i j x s ∙ rw other refl))
  ]

  -- The rest of the queue, after a round that went on.
  went_on :
      (i : String) (doc d : Episode) (q : List (String × Episode)) (s : Episodes)
      (r : Option PipelineStats × Episodes) (busy : Episode → Bool)
      → lookup i q ≡ none
      → lookup i s ≡ some d
      → busy d ≡ true
      → Ran busy q (insert i (round i doc) s) r
      → Ran busy ((i, doc) ∷ q) s r
  went_on i doc d q s r busy absent there b ran = record {
    stats = ran.stats;
    completes = ran.completes;
    each = λ j. ran.each j ∙ one_more i doc (round i doc) q s refl absent j;
    unique = ran.unique;
    size = omega (arith, ran.size, length-keep_if-insert busy i (round i doc) s d there b);
  }

  -- A stage that is not deferred handles each episode of its queue as if it were alone.
  pub run_queue-Ran :
      (busy : Episode → Bool) (q : List (String × Episode)) (stats : PipelineStats) (s : Episodes)
      → Unique q
      → Unique s
      → Part busy q s
      → All Calm q
      → Ran busy q s (run_queue stage q stats s)
  unfolding run_queue is_calm
  run_queue-Ran busy [] stats s uq us part calm = record {
    stats = stats;
    completes = refl;
    each = λ j. unfold lookup in refl;
    unique = us;
    size = omega arith;
  }
  run_queue-Ran busy ((i, doc) ∷ q) stats s (absent, uq) us ((d, there, b), part) (c, calm) =
      let further : (stats' : PipelineStats)
          → Ran busy ((i, doc) ∷ q) s (run_queue stage q stats' (insert i (round i doc) s)) =
        λ stats'. went_on i doc d q s _ busy absent there b (
          run_queue-Ran busy q stats' (insert i (round i doc) s) uq (insert-Unique i _ s us)
            (Part-insert busy i _ s q absent part) calm) in
      elim (StageEnd-cases (stage.handle i doc).0) [
        | inl (t, e) ↦ rw (e, run_queue) (further _)
        | inr (inl (x, e)) ↦ elim (Bool-cases (stage.defers x)) [
          | inl down ↦ absurd (cc (c, ap is_calm e, down))
          | inr on ↦ rw (e, run_queue) (rw on (further _))
        ]
        | inr (inr e) ↦ absurd (cc (c, ap is_calm e))
      ]

  pub when-some :
      (chosen : Episode → Bool) (o : Option Episode) (doc : Episode)
      → when chosen o ≡ some doc
      → (o ≡ some doc) × (chosen doc ≡ true)
  when-some chosen none doc h = absurd (cc h)
  when-some chosen (some d) doc h = elim (Bool-cases (chosen d)) [
    | inr e ↦ absurd (cc (rw e at h))
    | inl e ↦
        let same : d ≡ doc = some_inj (rw e at h) in
        (ap some same, subst (λ x. chosen x ≡ true) same e)
  ]

  from_lookups {κ} :
      (P : String × Episode → Type κ) (q : List (String × Episode))
      → Unique q
      → ((k : String) (v : Episode) → lookup k q ≡ some v → P (k, v))
      → All P q
  from_lookups P [] u h = tt
  from_lookups P ((i, doc) ∷ q) (absent, u) h = (
    h i doc (unfold lookup in rw (beq_refl i) refl),
    from_lookups P q u (λ k v e. elim (Bool-cases (i == k)) [
      | inl same ↦
          absurd (cc (subst (λ x. lookup x q ≡ none) ((string_eq.same_iff i k).0 same) absent, e))
      | inr other ↦ h k v (unfold lookup in rw other e)
    ]),
  )

  -- A queue that holds what passes a test: the stage steps each episode of the store.
  pub run_queue-Stepped :
      (busy chosen : Episode → Bool) (q : List (String × Episode)) (stats : PipelineStats)
      (s : Episodes)
      → ((doc : Episode) → chosen doc ≡ true → busy doc ≡ true)
      → Unique q
      → Unique s
      → ((k : String) → lookup k q ≡ when chosen (lookup k s))
      → ((i : String) (doc : Episode) → chosen doc ≡ true → Calm (i, doc))
      → Stepped busy chosen s (run_queue stage q stats s)
  run_queue-Stepped busy chosen q stats s works uq us same calm =
      let chosen_of : (k : String) (v : Episode)
          → lookup k q ≡ some v
          → (lookup k s ≡ some v) × (chosen v ≡ true) =
        λ k v e. when-some chosen (lookup k s) v (sym (same k) ∙ e) in
      let ran =
        run_queue-Ran busy q stats s uq us
          (from_lookups _ q uq (λ k v e. (v, (chosen_of k v e).0, works v (chosen_of k v e).1)))
          (from_lookups _ q uq (λ k v e. calm k v (chosen_of k v e).1)) in
      record {
        stats = ran.stats;
        completes = ran.completes;
        each = λ j.
            ran.each j
            ∙ ap (λ o. first_of (round_of j o) (lookup j s)) (same j)
            ∙ round_of-when chosen j (lookup j s);
        unique = ran.unique;
        size = ran.size;
      }

  -- Whatever happens in a stage, an episode that is not in its queue stays as it is.
  pub run_queue-absent :
      (q : List (String × Episode)) (stats : PipelineStats) (s : Episodes) (j : String)
      → lookup j q ≡ none
      → lookup j (run_queue stage q stats s).1 ≡ lookup j s
  unfolding run_queue lookup
  run_queue-absent [] stats s j h = refl
  run_queue-absent ((i, doc) ∷ q) stats s j h = elim (Bool-cases (i == j)) [
    | inl same ↦ absurd (cc (rw same at h))
    | inr other ↦
        let rest : lookup j q ≡ none = rw other at h in
        let kept : lookup j (insert i (round i doc) s) ≡ lookup j s =
          lookup-insert i j (round i doc) s ∙ rw other refl in
        elim (StageEnd-cases (stage.handle i doc).0) [
          | inl (t, e) ↦ rw (e, run_queue) (run_queue-absent q _ _ j rest ∙ kept)
          | inr (inl (x, e)) ↦ elim (Bool-cases (stage.defers x)) [
            | inl down ↦ rw (e, run_queue) (rw down kept)
            | inr on ↦ rw (e, run_queue) (rw on (run_queue-absent q _ _ j rest ∙ kept))
          ]
          | inr (inr e) ↦ rw (e, run_queue) kept
        ]
  ]

  pub run_queue-Unique :
      (q : List (String × Episode)) (stats : PipelineStats) (s : Episodes)
      → Unique s
      → Unique (run_queue stage q stats s).1
  unfolding run_queue
  run_queue-Unique [] stats s u = u
  run_queue-Unique ((i, doc) ∷ q) stats s u =
      let kept = insert-Unique i (round i doc) s u in
      elim (StageEnd-cases (stage.handle i doc).0) [
        | inl (t, e) ↦ rw (e, run_queue) (run_queue-Unique q _ _ kept)
        | inr (inl (x, e)) ↦ elim (Bool-cases (stage.defers x)) [
          | inl down ↦ rw (e, run_queue) (rw down kept)
          | inr on ↦ rw (e, run_queue) (rw on (run_queue-Unique q _ _ kept))
        ]
        | inr (inr e) ↦ rw (e, run_queue) kept
      ]
