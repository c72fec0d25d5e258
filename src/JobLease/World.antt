-- ===== src/JobLease/World.antt =====
-- podcast_agent/joblock.py with many runs of one job: the runs' reads and writes of the lease in
-- any order, among the writes of everyone else and the passing of time.
use podcast_digest.Common.{
  ℕ, ◌+◌, ◌≤◌, ◌<◌, String, Bool, true, false, Option, ◌==◌, nat_eq, string_eq, if◌then◌else◌,
  lookup, ◌≡◌,
}
use podcast_digest.Errors.{Result, ok, err}
use podcast_digest.Store.{Doc, MemoryStore, Op, step, get}
use podcast_digest.Store.Revisions.{IsSound}
use podcast_digest.JobLease.{Lock, JobLease, lock_id, acquire, renew, release}

-- A call between its read and its write, with what it read.
pub data Pending : Type 0 where
  idle : Pending
  acquiring renewing releasing : Option (Doc Lock) → Pending

-- One run: `_held`, the expiry that it wrote last, and the call that it is in.
pub record Holder : Type 0 where
  pub held : Bool
  pub held_until : ℕ
  pub pending : Pending

pub record World : Type 0 where
  pub store : MemoryStore Lock
  pub clock : ℕ
  pub runs : ℕ → Holder

-- A call lands with the instants at which it looked at the clock.
pub data Event : Type 0 where
  tick : ℕ → Event
  acquires renews releases : ℕ → Event
  lands : (p checked now : ℕ) → Event
  others : Op Lock → Event

abbrev pub set_run : ℕ → Holder → (ℕ → Holder) → ℕ → Holder
set_run p h runs q = if q == p then h else runs q

abbrev pub is_won : Result Bool → Bool
is_won (ok b) = b
is_won (err e) = false

abbrev pub fresh_run : Holder
fresh_run = record { held = false; held_until = 0; pending = idle }

module _ (uuid4 : ℕ → String) (job : String) (ttl : ℕ) (owner host : ℕ → String) (pid : ℕ → ℕ) where
  abbrev pub lease : ℕ → JobLease
  lease p = record { job = job; ttl = ttl; owner = owner p; host = host p; pid = pid p }

  abbrev pub granted : World → ℕ → ℕ → Result Bool → Holder
  granted w p now r =
      if is_won r
      then record { held = true; held_until = now + ttl; pending = idle }
      else record (w.runs p) { pending = idle }

  abbrev pub after_write : World → ℕ → ℕ → Result Bool × MemoryStore Lock → World
  after_write w p now r = record w { store = r.1; runs = set_run p (granted w p now r.0) w.runs }

  abbrev pub land : World → ℕ → ℕ → ℕ → Pending → World
  land w p checked now idle = w
  land w p checked now (acquiring seen) =
      after_write w p now (acquire uuid4 (lease p) seen checked now w.store)
  land w p checked now (renewing seen) =
      after_write w p now (renew uuid4 (lease p) seen now w.store)
  land w p checked now (releasing seen) = record w {
    store = release (lease p) seen w.store;
    runs = set_run p (record (w.runs p) { held_until = 0; pending = idle }) w.runs;
  }

  abbrev pub enter : World → ℕ → Holder → World
  enter w p h = record w { runs = set_run p h w.runs }

  -- A lease is taken once per run, and only what is held is released.
  unfoldable pub perform : World → Event → World
  perform w (tick n) = record w { clock = w.clock + n }
  perform w (acquires p) =
      let asks =
        enter w p (record (w.runs p) { pending = acquiring (get w.store (lock_id job)) }) in
      if (w.runs p).held then w else asks
  perform w (renews p) =
      enter w p (record (w.runs p) { pending = renewing (get w.store (lock_id job)) })
  perform w (releases p) =
      let asks : World = enter w p (record {
        held = false;
        held_until = 0;
        pending = releasing (get w.store (lock_id job));
      }) in
      if (w.runs p).held then asks else w
  perform w (lands p checked now) = land w p checked now (w.runs p).pending
  perform w (others o) = record w { store = step uuid4 w.store o }

  -- The clock was read in this order before the write landed, and others keep off the lease.
  abbrev pub Possible : World → Event → Type 0
  Possible w (lands p checked now) = (checked ≤ now) × (now ≤ w.clock)
  Possible w (others o) =
      lookup (lock_id job) (step uuid4 w.store o).docs ≡ lookup (lock_id job) w.store.docs
  Possible w _ = Unit

  pub data Reachable : World → Type 0 where
    start :
        (s : MemoryStore Lock) (now : ℕ)
        → IsSound uuid4 s
        → Reachable (record { store = s; clock = now; runs = λ _. fresh_run })
    next : {w : World} (e : Event) → Reachable w → Possible w e → Reachable (perform w e)

-- The run's lease has not expired.
abbrev pub Holds : World → ℕ → Type 0
Holds w p = w.clock < (w.runs p).held_until
