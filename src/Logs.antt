-- ===== src/Logs.antt =====
-- podcast_agent/logbuffer.py: the bounded buffer of recent log events, and its filtered tail. The
-- deque is read from its right end: the newest event first, so that `append` is `∷` and `maxlen`
-- cuts the far end. `lower` is Python's `str.lower` and `within a b` its `a in b`; `haystack` is
-- the joined text of an event's values.
pub mod Tail
use podcast_digest.Common.{
  ℕ, zero, suc, ◌+◌, String, Bool, true, false, ◌&&◌, ◌||◌, not, Option, none, some, List, [], ◌∷◌,
  ◌==◌, string_eq, nat_eq, ltb, leb, if◌then◌else◌, Dict, lookup, insert, take, length,
}

pub record LogEvent : Type 0 where
  pub seq : ℕ
  pub level : String
  pub logger : String
  pub haystack : String

pub record LogBuffer : Type 0 where
  pub capacity : ℕ
  pub events : List LogEvent
  pub seq : ℕ

abbrev pub default_capacity : ℕ
default_capacity = 2000

unfoldable pub new_buffer : ℕ → LogBuffer
new_buffer capacity = record { capacity = capacity; events = []; seq = 0 }

-- The event arrives without a number of its own.
unfoldable pub add : LogEvent → LogBuffer → LogBuffer
add event b = record b {
  seq = suc b.seq;
  events = take b.capacity (record event { seq = suc b.seq } ∷ b.events);
}

unfoldable pub clear : LogBuffer → LogBuffer
clear b = record b { events = [] }

-- `_LEVEL_ORDER`
abbrev pub level_order : Dict String ℕ
level_order =
    ("debug", 10)
    ∷ ("info", 20)
    ∷ ("warning", 30)
    ∷ ("warn", 30)
    ∷ ("error", 40)
    ∷ ("critical", 50)
    ∷ ("exception", 40)
    ∷ []

abbrev or_unknown : Option ℕ → ℕ
or_unknown none = 0
or_unknown (some n) = n

unfoldable pub severity : String → ℕ
severity level = or_unknown (lookup level level_order)

-- The arguments of `tail`; an absent text is empty.
pub record Query : Type 0 where
  pub limit : ℕ
  pub level : String
  pub contains : String
  pub logger : String
  pub since_seq : Option ℕ

-- `since_seq is not None and event.get("seq", 0) <= since_seq`
unfoldable pub seen_before : Option ℕ → LogEvent → Bool
seen_before none e = false
seen_before (some n) e = leb e.seq n

module _ (lower : String → String) (within : String → String → Bool) where
  -- The three `continue` tests of the loop.
  unfoldable pub skipped : Query → LogEvent → Bool
  skipped q e =
      let floor = severity (lower q.level) in
      let needle = lower q.contains in
      not (floor == 0) && ltb (severity (lower e.level)) floor
      || not (q.logger == "") && not (within q.logger e.logger)
      || not (needle == "") && not (within needle e.haystack)

  -- The loop, with the number of events that are selected already.
  unfoldable pub select : Query → ℕ → List LogEvent → List LogEvent
  select q n [] = []
  select q n (e ∷ es) =
      let passed = select q n es in
      let picked = select q (suc n) es in
      if seen_before q.since_seq e
      then []
      else if skipped q e
      then passed
      else if leb q.limit (suc n)
      then e ∷ []
      else e ∷ picked

  unfoldable pub tail : Query → LogBuffer → List LogEvent
  tail q b = select q 0 b.events

-- The loop of `levels`, oldest event first.
abbrev or_info : String → String
or_info level = if level == "" then "info" else level

unfoldable pub count_levels : List LogEvent → Dict String ℕ
count_levels [] = []
count_levels (e ∷ es) =
    let counts = count_levels es in
    insert (or_info e.level) (or_unknown (lookup (or_info e.level) counts) + 1) counts

unfoldable pub levels : LogBuffer → Dict String ℕ
levels b = count_levels b.events
