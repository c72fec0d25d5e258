-- ===== src/Retention.antt =====
-- podcast_agent/retention.py: the job that deletes old records and transcripts, on the store of
-- podcast_agent/db/memory.py. `refuses i` says that the database raises at a deletion of document
-- `i`. A query returns the matching documents in the order of the store.
pub mod Expired
pub mod Batches
pub mod Loop
pub mod Starved
use podcast_digest.Common.{
  ℕ, zero, suc, ◌+◌, String, Bool, true, false, ◌&&◌, not, Option, none, some, List, [], ◌∷◌, ◌++◌,
  ◌==◌, string_eq, nat_eq, ltb, leb, if◌then◌else◌, keep_if, take, length, Dict, lookup,
}
use podcast_digest.Errors.{Result, ok, err, store_error, key_error}
use podcast_digest.Store.{
  Doc, Rev, MemoryStore, delete, delete_attachment, stubs_of, is_some, Stub, Op,
}
use podcast_digest.Store.Update.{update_doc}

-- The fields that the job reads and writes.
pub record Fields : Type 0 where
  pub type : String
  pub ts : Option ℕ
  pub at : Option ℕ
  pub transcript_at : Option ℕ
  pub transcript_expired_at : Option ℕ

pub record RetentionStats : Type 0 where
  pub transcripts_deleted : ℕ
  pub transcript_bytes_freed : ℕ
  pub llm_calls_deleted : ℕ
  pub asr_runs_deleted : ℕ
  pub runs_deleted : ℕ
  pub logs_deleted : ℕ
  pub errors : List (Option String)

abbrev pub batch_limit : ℕ
batch_limit = 500

-- `{"$lt": cutoff}`; a missing field does not match.
abbrev pub older_than : ℕ → Option ℕ → Bool
older_than cutoff none = false
older_than cutoff (some t) = ltb t cutoff

abbrev pub Entry : Type 0
Entry = String × Doc Fields

-- `store.find(selector, limit=500)` with a test for the selector
unfoldable pub matched : (Fields → Bool) → MemoryStore Fields → List Entry
matched selects s = keep_if (λ e. selects e.1.body) s.docs

unfoldable pub find : (Fields → Bool) → MemoryStore Fields → List Entry
unfolding matched
find selects s = take batch_limit (matched selects s)

abbrev pub note_error : Option String → RetentionStats → RetentionStats
note_error i stats = record stats { errors = stats.errors ++ (i ∷ []) }

module _ (refuses : String → Bool) (counted : RetentionStats → RetentionStats) where
  -- `await store.delete(doc["_id"], doc["_rev"])` under its `try`; a document of a query has an `_id`
  unfoldable pub delete_record :
      Option String
      → Option Rev
      → MemoryStore Fields
      → RetentionStats
      → MemoryStore Fields × RetentionStats
  delete_record none rev s stats = (s, note_error none stats)
  delete_record (some i) none s stats = (s, note_error (some i) stats)
  delete_record (some i) (some r) s stats =
      if refuses i then (s, note_error (some i) stats) else elim (delete s i r).0 [
        | ok v ↦ ((delete s i r).1, counted stats)
        | err e ↦ (s, note_error (some i) stats)
      ]

  -- `for doc in batch`
  unfoldable pub delete_batch :
      List Entry → MemoryStore Fields → RetentionStats → MemoryStore Fields × RetentionStats
  delete_batch [] s stats = (s, stats)
  delete_batch (e ∷ batch) s stats =
      let out = delete_record e.1.id e.1.rev s stats in delete_batch batch out.0 out.1

  -- The `while True` loop of `_expire_llm_calls` and the three functions like it, for a number of
  -- rounds; `none` if the loop is not over by then.
  unfoldable pub expire :
      (Fields → Bool)
      → (rounds : ℕ) → MemoryStore Fields
      → RetentionStats
      → Option (MemoryStore Fields × RetentionStats)
  expire selects zero s stats = none
  expire selects (suc rounds) s stats =
      let batch = find selects s in
      let out = delete_batch batch s stats in
      let rest = expire selects rounds out.0 out.1 in
      if length batch == 0
      then some (s, stats)
      else if ltb (length batch) batch_limit
      then some out
      else rest

module _ (refuses : String → Bool) (cutoff : ℕ) where
  unfoldable pub expire_llm_calls :
      ℕ → MemoryStore Fields → RetentionStats → Option (MemoryStore Fields × RetentionStats)
  unfolding expire
  expire_llm_calls =
      expire refuses (λ t. record t { llm_calls_deleted = t.llm_calls_deleted + 1 })
        (λ f. f.type == "llm_call" && older_than cutoff f.ts)

  unfoldable pub expire_asr_runs :
      ℕ → MemoryStore Fields → RetentionStats → Option (MemoryStore Fields × RetentionStats)
  unfolding expire
  expire_asr_runs =
      expire refuses (λ t. record t { asr_runs_deleted = t.asr_runs_deleted + 1 })
        (λ f. f.type == "asr_run" && older_than cutoff f.ts)

  unfoldable pub expire_runs :
      ℕ → MemoryStore Fields → RetentionStats → Option (MemoryStore Fields × RetentionStats)
  unfolding expire
  expire_runs =
      expire refuses (λ t. record t { runs_deleted = t.runs_deleted + 1 })
        (λ f. f.type == "run" && older_than cutoff f.at)

  unfoldable pub expire_logs :
      ℕ → MemoryStore Fields → RetentionStats → Option (MemoryStore Fields × RetentionStats)
  unfolding expire
  expire_logs =
      expire refuses (λ t. record t { logs_deleted = t.logs_deleted + 1 })
        (λ f. f.type == "log" && older_than cutoff f.at)

abbrev pub transcript_attachment : String
transcript_attachment = "transcript.txt.gz"

abbrev pub holds_transcript : Doc Fields → Bool
holds_transcript d = is_some (lookup transcript_attachment (stubs_of d))

abbrev pub transcript_size : Option Stub → ℕ
transcript_size none = 0
transcript_size (some stub) = stub.length

abbrev pub freed : ℕ → RetentionStats → RetentionStats
freed size stats = record stats {
  transcripts_deleted = stats.transcripts_deleted + 1;
  transcript_bytes_freed = stats.transcript_bytes_freed + size;
}

-- `_expire_transcripts`. `now` is the instant of `iso_now()`, `env i` the calls of other clients
-- during the update of document `i`; a document of a query has its key as its `_id`.
module _ (uuid4 : ℕ → String) (refuses : String → Bool) (env : String → ℕ → List (Op Fields))
    (now : ℕ) where
  -- The body of the `try`.
  unfoldable pub drop_transcript :
      String → ℕ → MemoryStore Fields → RetentionStats → MemoryStore Fields × RetentionStats
  drop_transcript i size s stats =
      let popped = delete_attachment uuid4 s i transcript_attachment in
      let noted =
        update_doc uuid4 5 i
          (λ d. ok (record d { body = record d.body { transcript_expired_at = some now } })) (env i)
          popped.1 in
      if refuses i then (s, note_error (some i) stats) else elim popped.0 [
        | err e ↦ (popped.1, note_error (some i) stats)
        | ok v ↦ elim noted.0 [
          | err e ↦ (noted.1, note_error (some i) stats)
          | ok w ↦ (noted.1, freed size stats)
        ]
      ]

  unfoldable pub drop_transcripts :
      List Entry → MemoryStore Fields → RetentionStats → MemoryStore Fields × RetentionStats
  drop_transcripts [] s stats = (s, stats)
  drop_transcripts (e ∷ candidates) s stats =
      let dropped =
        drop_transcript e.0 (transcript_size (lookup transcript_attachment (stubs_of e.1))) s
          stats in
      let rest = drop_transcripts candidates dropped.0 dropped.1 in
      let skipped = drop_transcripts candidates s stats in
      if holds_transcript e.1 then rest else skipped

  unfoldable pub expire_transcripts :
      (days cutoff : ℕ) → MemoryStore Fields → RetentionStats → MemoryStore Fields × RetentionStats
  unfolding find
  expire_transcripts days cutoff s stats =
      if days == 0
      then (s, stats)
      else drop_transcripts (find (λ f. f.type == "episode" && older_than cutoff f.transcript_at) s)
          s stats
