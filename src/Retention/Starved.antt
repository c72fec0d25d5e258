-- ===== src/Retention/Starved.antt =====
-- podcast_agent/retention.py, `_expire_transcripts`: which episodes it gets to.
use podcast_digest.Common.{
  ℕ, String, Bool, false, ◌&&◌, List, [], ◌∷◌, ◌==◌, string_eq, nat_eq, take, All, Bool-cases, ◌≡◌,
  refl, inl, inr,
}
use podcast_digest.Store.{MemoryStore, Op}
use podcast_digest.Retention.{
  Fields, RetentionStats, Entry, matched, find, older_than, batch_limit, holds_transcript,
  drop_transcripts, expire_transcripts,
}

module _ (uuid4 : ℕ → String) (refuses : String → Bool) (env : String → ℕ → List (Op Fields))
    (now : ℕ) where
  drop_transcripts-none :
      (candidates : List Entry) (s : MemoryStore Fields) (stats : RetentionStats)
      → All (λ e. holds_transcript e.1 ≡ false) candidates
      → drop_transcripts uuid4 refuses env now candidates s stats ≡ (s, stats)
  unfolding drop_transcripts
  drop_transcripts-none [] s stats h = refl
  drop_transcripts-none (e ∷ candidates) s stats (h, t) =
      rw h (drop_transcripts-none candidates s stats t)

  -- Where the first 500 episodes with a transcript instant before the cutoff hold no transcript any
  -- more, the job changes nothing, whatever transcripts the episodes behind them hold: the query
  -- asks for the instant, which stays when a transcript is deleted.
  pub expire_transcripts-starved :
      (days cutoff : ℕ) (s : MemoryStore Fields) (stats : RetentionStats)
      → All
          (λ e. holds_transcript e.1 ≡ false)
          (take batch_limit
            (matched (λ f. f.type == "episode" && older_than cutoff f.transcript_at) s))
      → expire_transcripts uuid4 refuses env now days cutoff s stats ≡ (s, stats)
  unfolding expire_transcripts find
  expire_transcripts-starved days cutoff s stats h = elim (Bool-cases (days == 0)) [
    | inl e ↦ rw e refl
    | inr e ↦ rw e (drop_transcripts-none _ s stats h)
  ]
