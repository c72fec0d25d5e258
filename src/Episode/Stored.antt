-- ===== src/Episode/Stored.antt =====
-- `transition` and `mark_error` of podcast_agent/episodes.py on the document store.
use podcast_digest.Common.{ℕ, String, List}
use podcast_digest.Errors.{Result, ok, err}
use podcast_digest.Status.{EpisodeStatus}
use podcast_digest.Store.{Doc, Rev, MemoryStore, Op}
use podcast_digest.Store.Update.{update_doc}
use podcast_digest.Episode.{Episode, apply_transition, apply_error}

-- A mutator of the body, on the whole document.
abbrev pub on_body : (Episode → Result Episode) → Doc Episode → Result (Doc Episode)
on_body f d = elim (f d.body) [ ok b ↦ ok (record d { body = b }) | err e ↦ err e ]

abbrev pub max_retries : ℕ
max_retries = 5

module _ (uuid4 : ℕ → String) where
  -- The document that `transition` reads back after its write.
  unfoldable pub transition :
      (ℕ → List (Op Episode))
      → String
      → EpisodeStatus
      → (Episode → Episode)
      → ℕ
      → MemoryStore Episode
      → Result (String × Rev) × MemoryStore Episode
  transition env i new_status mutate now s =
      update_doc uuid4 max_retries i (on_body (apply_transition new_status mutate now)) env s

  -- Failures of the write are logged, never raised.
  unfoldable pub mark_error :
      (ℕ → List (Op Episode)) → String → String → ℕ → MemoryStore Episode → MemoryStore Episode
  mark_error env i stage now s =
      (update_doc uuid4 max_retries i (on_body (λ doc. ok (apply_error stage now doc))) env s).1
