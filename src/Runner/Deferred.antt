-- ===== src/Runner/Deferred.antt =====
-- podcast_agent/pipeline/runner.py: a stage that is cut short, and an episode that no stage takes.
use podcast_digest.Common.{
  String, true, false, none, some, List, [], ◌∷◌, ◌++◌, ◌==◌, string_eq, lookup, insert,
  lookup-insert, lookup-insert_self, All, All-map, Bool-cases, ◌≡◌, refl, sym, ap, ◌∙◌, inl, inr,
}
use podcast_digest.Errors.{Error}
use podcast_digest.Episode.{Episode}
use podcast_digest.Transcript.{StageEnd, raises}
use podcast_digest.Runner.{PipelineStats, Episodes, Stage, left_by, run_queue}
use podcast_digest.Runner.Queues.{Unique, first_of}
use podcast_digest.Runner.Stages.{
  round, round_of, is_calm, Calm, run_queue-Ran, StageEnd-cases, run_queue-absent,
}

module _ (stage : Stage) where
  -- A queue in two parts.
  run_queue-append :
      (q rest : List (String × Episode)) (stats : PipelineStats) (s : Episodes)
      → All (Calm stage) q
      → (stats' : PipelineStats) × ((run_queue stage q stats s).0 ≡ some stats')
        × (run_queue stage (q ++ rest) stats s
            ≡ run_queue stage rest stats' (run_queue stage q stats s).1)
  unfolding run_queue is_calm
  run_queue-append [] rest stats s calm = (stats, refl, refl)
  run_queue-append ((i, doc) ∷ q) rest stats s (c, calm) =
      elim (StageEnd-cases (stage.handle i doc).0) [
        | inl (t, e) ↦ rw (e, run_queue) (run_queue-append q rest _ _ calm)
        | inr (inl (x, e)) ↦ elim (Bool-cases (stage.defers x)) [
          | inl down ↦ absurd (cc (c, ap (is_calm stage) e, down))
          | inr on ↦ rw (e, run_queue) (rw on (run_queue-append q rest _ _ calm))
        ]
        | inr (inr e) ↦ absurd (cc (c, ap (is_calm stage) e))
      ]

  -- A stage that is deferred at an episode of its queue: those before it were handled, as if alone,
  -- whatever errors they ended with; the episode that it was deferred at is left as its handling left
  -- it, with no error recorded; all others are untouched; and the run is told which stage was deferred.
  pub run_queue-deferred :
      (q rest : List (String × Episode)) (i : String) (doc : Episode) (x : Error)
      (stats : PipelineStats) (s : Episodes)
      → Unique q
      → Unique s
      → All (λ e. lookup e.0 s ≡ some e.1) q
      → All (Calm stage) q
      → (stage.handle i doc).0 ≡ raises x
      → stage.defers x ≡ true
      → let run = run_queue stage (q ++ ((i, doc) ∷ rest)) stats s in
        ((before : PipelineStats) × (run.0
            ≡ some
                (record before { stages_deferred = before.stages_deferred ++ (stage.name ∷ []) })))
        × (lookup i run.1 ≡ some (stage.handle i doc).1)
        × ((j : String) (d : Episode)
            → (i == j) ≡ false
            → lookup j q ≡ some d
            → lookup j run.1 ≡ some (round stage j d))
        × ((j : String) → (i == j) ≡ false → lookup j q ≡ none → lookup j run.1 ≡ lookup j s)
  unfolding run_queue left_by
  run_queue-deferred q rest i doc x stats s uq us part calm e down =
      let ran =
        run_queue-Ran stage (λ d. true) q stats s uq us
          (All-map _ (λ e there. (e.1, there, refl)) q part) calm in
      let (before, done, two) = run_queue-append q ((i, doc) ∷ rest) stats s calm in
      let stop = cut before (run_queue stage q stats s).1 in
      (
        (before, ap (λ r. r.0) (two ∙ stop)),
        ap (λ r. lookup i r.1) (two ∙ stop)
            ∙ lookup-insert_self i (round stage i doc) (run_queue stage q stats s).1
            ∙ ap some unrecorded,
        λ j d other there.
            ap (λ r. lookup j r.1) (two ∙ stop)
            ∙ past j (run_queue stage q stats s).1 other
            ∙ ran.each j
            ∙ ap (λ o. first_of (round_of stage j o) (lookup j s)) there,
        λ j other absent.
            ap (λ r. lookup j r.1) (two ∙ stop)
            ∙ past j (run_queue stage q stats s).1 other
            ∙ run_queue-absent stage q stats s j absent,
      )
    where
      left_by_at : (r : StageEnd × Episode) → r.0 ≡ raises x → left_by stage i r ≡ r.1
      left_by_at (r, d) raised = rw raised (rw down refl)

      unrecorded : round stage i doc ≡ (stage.handle i doc).1
      unrecorded = left_by_at (stage.handle i doc) e

      cut_at :
          (before : PipelineStats) (t : Episodes) (y : Episode)
          → y ≡ round stage i doc
          → run_queue stage ((i, doc) ∷ rest) before t ≡ (
            some (record before { stages_deferred = before.stages_deferred ++ (stage.name ∷ []) }),
            insert i y t,
          )
      cut_at before t y same =
          rw (e, run_queue)
            (rw down (
              ap
                (λ z. (
                  some (record before {
                    stages_deferred = before.stages_deferred ++ (stage.name ∷ []);
                  }),
                  insert i z t,
                ))
                (sym same)))

      cut :
          (before : PipelineStats) (t : Episodes)
          → run_queue stage ((i, doc) ∷ rest) before t ≡ (
            some (record before { stages_deferred = before.stages_deferred ++ (stage.name ∷ []) }),
            insert i (round stage i doc) t,
          )
      cut before t = cut_at before t (round stage i doc) refl

      past :
          (j : String) (t : Episodes)
          → (i == j) ≡ false
          → lookup j (insert i (round stage i doc) t) ≡ lookup j t
      past j t other = lookup-insert i j (round stage i doc) t ∙ rw other refl
