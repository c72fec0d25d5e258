-- ===== src/Logs/Tail.antt =====
-- podcast_agent/logbuffer.py: the order of the events in the buffer, and what its tail returns.
use podcast_digest.Common.{
  ℕ, zero, suc, ◌-◌, ◌≤◌, ◌<◌, max, String, Bool, true, false, ◌&&◌, ◌||◌, not, ◌==◌, string_eq,
  nat_eq, ltb, some_inj, ◌↔◌, ◌⊎◌, Option, none, some, List, [], ◌∷◌, leb, take, length, lookup,
  length-take, keep_if, Bool-cases, ◌≡◌, refl, sym, ap, ◌∙◌, inl, inr, arith,
}
use podcast_digest.Logs.{
  LogEvent, LogBuffer, Query, new_buffer, add, clear, skipped, seen_before, select, tail, severity,
  level_order,
}

-- The numbers of the events go down, all below `n`.
abbrev pub Below : ℕ → List LogEvent → Type 0
Below n [] = Unit
Below n (e ∷ es) = (e.seq < n) × Below e.seq es

pub record IsOrdered (b : LogBuffer) : Type 0 where
  pub bounded : length b.events ≤ b.capacity
  pub below : Below (suc b.seq) b.events

pub Below-take : (k n : ℕ) (es : List LogEvent) → Below n es → Below n (take k es)
Below-take zero n es h = tt
Below-take (suc k) n [] h = tt
Below-take (suc k) n (e ∷ es) h = (h.0, Below-take k e.seq es h.1)

pub new_buffer-IsOrdered : (capacity : ℕ) → IsOrdered (new_buffer capacity)
unfolding new_buffer
new_buffer-IsOrdered capacity = record { bounded = omega arith; below = tt }

pub add-IsOrdered : (e : LogEvent) (b : LogBuffer) → IsOrdered b → IsOrdered (add e b)
unfolding add
add-IsOrdered e b h = record {
  bounded = omega (arith, length-take b.capacity (record e { seq = suc b.seq } ∷ b.events));
  below =
      Below-take b.capacity (suc (suc b.seq)) (record e { seq = suc b.seq } ∷ b.events)
        (omega arith, h.below);
}

take-nil : (n : ℕ) → take {A = LogEvent} n [] ≡ []
take-nil zero = refl
take-nil (suc n) = refl

-- A call of a writer of the buffer.
pub data Call : Type 0 where
  adds : LogEvent → Call
  clears : Call

unfoldable pub replay : List Call → LogBuffer → LogBuffer
replay [] b = b
replay (adds e ∷ calls) b = replay calls (add e b)
replay (clears ∷ calls) b = replay calls (clear b)

capacity-replay : (calls : List Call) (b : LogBuffer) → (replay calls b).capacity ≡ b.capacity
unfolding replay add clear
capacity-replay [] b = refl
capacity-replay (adds e ∷ calls) b = capacity-replay calls (add e b)
capacity-replay (clears ∷ calls) b = capacity-replay calls (clear b)

replay-IsOrdered : (calls : List Call) (b : LogBuffer) → IsOrdered b → IsOrdered (replay calls b)
unfolding replay clear
replay-IsOrdered [] b h = h
replay-IsOrdered (adds e ∷ calls) b h = replay-IsOrdered calls (add e b) (add-IsOrdered e b h)
replay-IsOrdered (clears ∷ calls) b h =
    replay-IsOrdered calls (clear b) (record { bounded = omega arith; below = tt })

-- After any sequence of additions and clearings of a new buffer: it holds at most `capacity` events,
-- and from the newest to the oldest their numbers strictly decrease, also across a clearing.
pub new_buffer-replay :
    (capacity : ℕ) (calls : List Call)
    → (length (replay calls (new_buffer capacity)).events ≤ capacity)
      × Below
          (suc (replay calls (new_buffer capacity)).seq)
          (replay calls (new_buffer capacity)).events
new_buffer-replay capacity calls =
    let b = replay calls (new_buffer capacity) in
    let h : IsOrdered b = replay-IsOrdered calls _ (new_buffer-IsOrdered capacity) in
    let kept : b.capacity ≡ capacity =
      capacity-replay calls (new_buffer capacity) ∙ unfold new_buffer in refl in
    (omega (arith, h.bounded, kept), h.below)

-- Behind an event that was seen before there are only such events.
seen_behind :
    (o : Option ℕ) (e f : LogEvent)
    → f.seq < e.seq
    → seen_before o e ≡ true
    → seen_before o f ≡ true
unfolding seen_before
seen_behind none e f h s = cc
seen_behind (some n) e f h s = ground (arith, h, s)

-- The levels in order; a level that is not in the table is below all of them.
pub record IsGraded : Type 0 where
  pub debug_lowest : 0 < severity "debug"
  pub below_info : severity "debug" < severity "info"
  pub below_warning : severity "info" < severity "warning"
  pub same_warning : severity "warn" ≡ severity "warning"
  pub below_error : severity "warning" < severity "error"
  pub same_error : severity "exception" ≡ severity "error"
  pub below_critical : severity "error" < severity "critical"
  pub unknown : (level : String) → lookup level level_order ≡ none → severity level ≡ 0

severity-IsGraded : IsGraded
unfolding severity lookup
severity-IsGraded = record {
  debug_lowest = omega arith;
  below_info = omega arith;
  below_warning = omega arith;
  same_warning = refl;
  below_error = omega arith;
  same_error = refl;
  below_critical = omega arith;
  unknown = λ level h. rw h refl;
}

module _ (lower : String → String) (within : String → String → Bool) (q : Query) where
  -- What a query asks for.
  unfoldable pub wanted : LogEvent → Bool
  wanted e = not (seen_before q.since_seq e) && not (skipped lower within q e)

  -- What a reader asks for, in words: newer than `since_seq`, at or above the level, and with the
  -- texts in the logger's name and in the event. A level that is not known asks for nothing.
  pub record Asked (e : LogEvent) : Type 0 where
    pub newer : (n : ℕ) → q.since_seq ≡ some n → n < e.seq
    pub severe :
        (severity (lower q.level) ≡ 0) ⊎ (severity (lower q.level) ≤ severity (lower e.level))
    pub from_logger : (q.logger ≡ "") ⊎ (within q.logger e.logger ≡ true)
    pub containing : (lower q.contains ≡ "") ⊎ (within (lower q.contains) e.haystack ≡ true)

  wanted-seen : (e : LogEvent) → seen_before q.since_seq e ≡ true → wanted e ≡ false
  unfolding wanted
  wanted-seen e s = rw s refl

  nothing_behind :
      (e : LogEvent) (es : List LogEvent)
      → Below e.seq es
      → seen_before q.since_seq e ≡ true
      → keep_if wanted es ≡ []
  unfolding keep_if
  nothing_behind e [] h s = refl
  nothing_behind e (f ∷ fs) h s =
      let seen = seen_behind q.since_seq e f h.0 s in
      rw (wanted-seen f seen) (nothing_behind f fs h.1 seen)

  -- The room that the loop has left, once it has selected `n` events.
  abbrev room : ℕ → ℕ
  room n = max 1 (q.limit - n)

  last_room : (n : ℕ) → leb q.limit (suc n) ≡ true → room n ≡ 1
  last_room n h = grind arith

  next_room : (n : ℕ) → leb q.limit (suc n) ≡ false → room n ≡ suc (room (suc n))
  next_room n h = grind arith

  unwanted :
      (e : LogEvent)
      → seen_before q.since_seq e ≡ false
      → skipped lower within q e ≡ true
      → wanted e ≡ false
  unfolding wanted
  unwanted e s k = rw s (rw k refl)

  wanted-picked :
      (e : LogEvent)
      → seen_before q.since_seq e ≡ false
      → skipped lower within q e ≡ false
      → wanted e ≡ true
  unfolding wanted
  wanted-picked e s k = rw s (rw k refl)

  select-wanted :
      (n m : ℕ) (es : List LogEvent)
      → Below m es
      → select lower within q n es ≡ take (room n) (keep_if wanted es)
  unfolding select keep_if
  select-wanted n m [] h = sym (take-nil (room n))
  select-wanted n m (e ∷ es) h = elim (Bool-cases (seen_before q.since_seq e)) [
    | inl s ↦ rw s (
        rw (wanted-seen e s)
          (sym (ap (take (room n)) (nothing_behind e es h.1 s) ∙ take-nil (room n))))
    | inr s ↦ elim (Bool-cases (skipped lower within q e)) [
      | inl k ↦ rw s (rw k (rw (unwanted e s k) (select-wanted n e.seq es h.1)))
      | inr k ↦ rw s (
          rw k (
            rw (wanted-picked e s k) (elim (Bool-cases (leb q.limit (suc n))) [
              | inl full ↦
                  rw full (sym (ap (λ r. take r (e ∷ keep_if wanted es)) (last_room n full)))
              | inr more ↦ rw more (
                  ap (λ rest. e ∷ rest) (select-wanted (suc n) e.seq es h.1)
                  ∙ sym (ap (λ r. take r (e ∷ keep_if wanted es)) (next_room n more)))
            ])))
    ]
  ]

  passes :
      (floor level : ℕ) (no_logger in_logger no_text in_text : Bool)
      → not (
          not (floor == 0) && ltb level floor
          || not no_logger && not in_logger
          || not no_text && not in_text)
        ≡ true
      → ((floor ≡ 0) ⊎ (floor ≤ level))
        × ((no_logger ≡ true) ⊎ (in_logger ≡ true))
        × ((no_text ≡ true) ⊎ (in_text ≡ true))
  passes floor level no_logger in_logger no_text in_text h = ground arith

  fails :
      (floor level : ℕ) (no_logger in_logger no_text in_text : Bool)
      → (floor ≡ 0) ⊎ (floor ≤ level)
      → (no_logger ≡ true) ⊎ (in_logger ≡ true)
      → (no_text ≡ true) ⊎ (in_text ≡ true)
      → not (
          not (floor == 0) && ltb level floor
          || not no_logger && not in_logger
          || not no_text && not in_text)
        ≡ true
  fails floor level no_logger in_logger no_text in_text h k l = ground arith

  and_both : (a b : Bool) → (a && b) ≡ true → (a ≡ true) × (b ≡ true)
  and_both a b h = ground arith

  no_text_iff : (a : String) (b : Bool) → ((a == "") ≡ true) ⊎ (b ≡ true) → (a ≡ "") ⊎ (b ≡ true)
  no_text_iff a b (inl h) = inl ((string_eq.same_iff a "").0 h)
  no_text_iff a b (inr h) = inr h

  no_text_fi : (a : String) (b : Bool) → (a ≡ "") ⊎ (b ≡ true) → ((a == "") ≡ true) ⊎ (b ≡ true)
  no_text_fi a b (inl h) = inl ((string_eq.same_iff a "").1 h)
  no_text_fi a b (inr h) = inr h

  is_newer :
      (o : Option ℕ) (e : LogEvent)
      → not (seen_before o e) ≡ true
      → (n : ℕ) → o ≡ some n
      → n < e.seq
  unfolding seen_before
  is_newer none e h n p = absurd (cc p)
  is_newer (some m) e h n p = let same : m ≡ n = some_inj p in ground (arith, h, same)

  not_seen :
      (o : Option ℕ) (e : LogEvent)
      → ((n : ℕ) → o ≡ some n → n < e.seq)
      → not (seen_before o e) ≡ true
  unfolding seen_before
  not_seen none e h = refl
  not_seen (some m) e h = let above : m < e.seq = h m refl in ground (arith, above)

  wanted-Asked : (e : LogEvent) → (wanted e ≡ true) ↔ Asked e
  unfolding wanted skipped
  wanted-Asked e = (
    λ h.
        let (fresh, kept) = and_both (not (seen_before q.since_seq e)) _ h in
        let (level, logger, text) =
          passes (severity (lower q.level)) (severity (lower e.level)) (q.logger == "")
            (within q.logger e.logger) (lower q.contains == "")
            (within (lower q.contains) e.haystack) kept in
        record {
          newer = is_newer q.since_seq e fresh;
          severe = level;
          from_logger = no_text_iff q.logger _ logger;
          containing = no_text_iff (lower q.contains) _ text;
        },
    λ a.
        rw
          (
            not_seen q.since_seq e a.newer,
            fails (severity (lower q.level)) (severity (lower e.level)) (q.logger == "")
                (within q.logger e.logger) (lower q.contains == "")
                (within (lower q.contains) e.haystack) a.severe
                (no_text_fi q.logger _ a.from_logger)
                (no_text_fi (lower q.contains) _ a.containing),
          )
          refl,
  )

  -- On a buffer in order: `tail` returns the newest of the events that the query asks for, newest
  -- first, and `limit` of them at most, but one if the limit is 0. Asked for are exactly the events
  -- with a number above `since_seq`, of the level or a more severe one, with the logger's text in
  -- their logger and the searched text in their values; a filter that is empty, or a level that is
  -- not in the table, asks for nothing. The levels are, from the least severe: debug, info,
  -- warning or warn, error or exception, critical; an event of another level counts as less severe
  -- than all of these.
  pub tail-wanted :
      (b : LogBuffer)
      → IsOrdered b
      → (tail lower within q b ≡ take (max 1 q.limit) (keep_if wanted b.events))
        × ((e : LogEvent) → (wanted e ≡ true) ↔ Asked e)
        × IsGraded
  unfolding tail
  tail-wanted b h =
      let whole : room 0 ≡ max 1 q.limit = omega arith in
      (
        select-wanted 0 (suc b.seq) b.events h.below
            ∙ ap (λ r. take r (keep_if wanted b.events)) whole,
        wanted-Asked,
        severity-IsGraded,
      )
