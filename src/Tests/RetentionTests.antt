-- ===== src/Tests/RetentionTests.antt =====
-- The retention job at concrete inputs: two old records, of which one cannot be deleted, and 500 of
-- which none can.
use text.Mathlib.TextBridge.{to_list, of_list, to_list-of_list}
use Prim.Native.Char.{Char}
use podcast_digest.Common.{
  ℕ, zero, suc, ◌+◌, ◌≤◌, ◌<◌, String, Bool, true, false, ◌&&◌, Option, none, some, List, [], ◌∷◌,
  ◌==◌, string_eq, nat_eq, keep_if, if◌then◌else◌, length, take, Dict, lookup, All, All-map,
  Bool-cases, ltb, ◌≡◌, ◌≢◌, refl, sym, ap, subst, ◌∙◌, ◌⊎◌, inl, inr, arith,
}
use podcast_digest.Store.{Doc, Rev, MemoryStore}
use podcast_digest.Retention.{
  Fields, RetentionStats, batch_limit, older_than, matched, expire, expire_transcripts,
}
use podcast_digest.Retention.Starved.{expire_transcripts-starved}
use podcast_digest.Retention.Batches.{Filed, Proper}
use podcast_digest.Retention.Loop.{Swept, refused_count, expire-ends, expire-stuck}

abbrev call_fields : Fields
call_fields = record {
  type = "llm_call";
  ts = some 3;
  at = none;
  transcript_at = none;
  transcript_expired_at = none;
}

abbrev call : String → Doc Fields
call i = record {
  id = some i;
  rev = some (record { generation = 1; tag = "a" });
  attachments = none;
  body = call_fields;
}

abbrev store : Dict String (Doc Fields) → MemoryStore Fields
store docs = record { docs = docs; attachments = []; draws = 0 }

abbrev two_calls : MemoryStore Fields
two_calls = store (("a", call "a") ∷ ("b", call "b") ∷ [])

abbrev stats : RetentionStats
stats = record {
  transcripts_deleted = 0;
  transcript_bytes_freed = 0;
  llm_calls_deleted = 0;
  asr_runs_deleted = 0;
  runs_deleted = 0;
  logs_deleted = 0;
  errors = [];
}

abbrev counted : RetentionStats → RetentionStats
counted t = record t { llm_calls_deleted = t.llm_calls_deleted + 1 }

abbrev old_call : Fields → Bool
old_call f = f.type == "llm_call" && older_than 9 f.ts

abbrev refuses_b : String → Bool
refuses_b i = i == "b"

revision : (r : Rev) × (some (record { generation = 1; tag = "a" }) ≡ some r)
revision = (record { generation = 1; tag = "a" }, refl)

two_calls-Proper : Proper two_calls
unfolding podcast_digest.Common.lookup
two_calls-Proper =
    ((refl, refl, revision.0, revision.1), ((refl, refl, revision.0, revision.1), tt))

few_refused : refused_count refuses_b counted old_call two_calls < batch_limit
unfolding podcast_digest.Common.keep_if
few_refused = omega arith

expire-ends_example :
    (t : MemoryStore Fields) × (stats' : RetentionStats) × (expire refuses_b counted old_call 3
        two_calls stats
      ≡ some (t, stats'))
    × Swept refuses_b counted old_call two_calls t
unfolding podcast_digest.Common.keep_if
expire-ends_example =
    expire-ends refuses_b counted old_call 3 two_calls stats two_calls-Proper few_refused
      (omega arith)

-- An identifier of the given length.
abbrev name : ℕ → List Char
name zero = []
name (suc n) = "x" ∷ name n

abbrev key : ℕ → String
key n = of_list (name n)

length-name : (n : ℕ) → length (name n) ≡ n
length-name zero = refl
length-name (suc n) = ap suc (length-name n)

key_inj : (m n : ℕ) → key m ≡ key n → m ≡ n
key_inj m n e =
    sym (length-name m)
    ∙ ap length (sym (to_list-of_list (name m)) ∙ ap to_list e ∙ to_list-of_list (name n))
    ∙ length-name n

abbrev calls : ℕ → Dict String (Doc Fields)
calls zero = []
calls (suc n) = (key n, call (key n)) ∷ calls n

lookup-calls : (m n : ℕ) → m < n → lookup (key m) (calls n) ≡ some (call (key m))
unfolding podcast_digest.Common.lookup
lookup-calls m zero h = absurd (omega (arith, h))
lookup-calls m (suc n) h = elim (Bool-cases (key n == key m)) [
  | inl e ↦
      let same : n ≡ m = key_inj n m ((string_eq.same_iff (key n) (key m)).0 e) in
      rw e (ap (λ k. some (call (key k))) same)
  | inr e ↦ rw e (
      lookup-calls m n (elim (Bool-cases (n == m)) [
        | inl same ↦
            let s : n ≡ m = ground (arith, same) in
            absurd (cc (e, (string_eq.same_iff (key n) (key m)).1 (ap key s)))
        | inr other ↦ ground (arith, other, h)
      ]))
]

calls-Filed : (m n : ℕ) → m ≤ n → All (Filed (store (calls n))) (calls m)
calls-Filed zero n h = tt
calls-Filed (suc m) n h = (
  (lookup-calls m n (omega (arith, h)), refl, revision.0, revision.1),
  calls-Filed m n (omega (arith, h)),
)

all_refused : (n : ℕ) → refused_count (λ i. true) counted old_call (store (calls n)) ≡ n
unfolding podcast_digest.Common.keep_if
all_refused zero = refl
all_refused (suc n) = ap suc (all_refused n)

expire-stuck_example : expire (λ i. true) counted old_call 1000 (store (calls 500)) stats ≡ none
expire-stuck_example =
    expire-stuck (λ i. true) counted old_call 1000 (store (calls 500)) stats
      (calls-Filed 500 500 (omega arith)) (omega (arith, all_refused 500))

abbrev old_episode : Doc Fields
old_episode = record {
  id = some "e";
  rev = some (record { generation = 3; tag = "c" });
  attachments = none;
  body = record {
    type = "episode";
    ts = none;
    at = none;
    transcript_at = some 3;
    transcript_expired_at = some 5;
  };
}

abbrev tags : ℕ → String
tags n = "t"

expire_transcripts-starved_example :
    expire_transcripts tags (λ i. false) (λ i n. []) 10 30 9 (store (("e", old_episode) ∷ [])) stats
    ≡ (store (("e", old_episode) ∷ []), stats)
unfolding matched podcast_digest.Common.keep_if podcast_digest.Common.lookup
expire_transcripts-starved_example =
    expire_transcripts-starved tags (λ i. false) (λ i n. []) 10 30 9
      (store (("e", old_episode) ∷ [])) stats (refl, tt)
