-- ===== src/JobLease.antt =====
-- podcast_agent/joblock.py: the lease of one job, one document of the store. Every operation is a
-- read and then a write that carries what was read, so that other processes may act in between.
-- Instants are numbers; `expires_at = none` stands for a missing or unreadable expiry.
pub mod Writes
pub mod World
pub mod Exclusion
pub mod Turnover
use podcast_digest.Common.{
  ℕ, ◌+◌, String, Bool, true, false, not, Option, none, some, List, ◌==◌, string_eq, nat_eq, ltb,
  if◌then◌else◌, keep_if,
}
use Prim.Native.String.{◌++◌ as ◌<>◌}
use podcast_digest.Errors.{Result, ok, err}
use podcast_digest.Store.{Doc, Rev, MemoryStore, put, create, delete}
use podcast_digest.Store.Update.{is_conflict}

pub record Lock : Type 0 where
  pub job : String
  pub owner : String
  pub acquired_at : Option ℕ
  pub expires_at : Option ℕ
  pub host : String
  pub pid : ℕ
  pub taken_over_from : Option String

-- The lease of one run: the job, the time to live, the owner's identity, and the process.
pub record JobLease : Type 0 where
  pub job : String
  pub ttl : ℕ
  pub owner : String
  pub host : String
  pub pid : ℕ

abbrev pub default_ttl_s : ℕ
default_ttl_s = 900

unfoldable pub lock_id : String → String
lock_id job = "control:lock:" <> job

-- `_doc`
unfoldable pub lease_doc : JobLease → ℕ → Doc Lock
lease_doc lease now = record {
  id = some (lock_id lease.job);
  rev = none;
  attachments = none;
  body = record {
    job = lease.job;
    owner = lease.owner;
    acquired_at = some now;
    expires_at = some (now + lease.ttl);
    host = lease.host;
    pid = lease.pid;
    taken_over_from = none;
  };
}

-- `expires is not None and expires > utcnow()`
unfoldable pub is_live : Option ℕ → ℕ → Bool
is_live none now = false
is_live (some e) now = ltb now e

-- `except ConflictError: return False`, and `True` otherwise.
abbrev pub won {ℓ} : {A : Type ℓ} → Result A × MemoryStore Lock → Result Bool × MemoryStore Lock
won p = (if is_conflict p.0 then ok false else elim p.0 [ ok r ↦ ok true | err e ↦ err e ], p.1)

-- The document that takes a lease over from `existing`.
unfoldable pub takeover : JobLease → Doc Lock → ℕ → Doc Lock
takeover lease existing now =
    let fresh = lease_doc lease now in
    record fresh {
      rev = existing.rev;
      body = record fresh.body { taken_over_from = some existing.body.owner };
    }

-- `existing.get("acquired_at") or doc["acquired_at"]`
abbrev first_some : Option ℕ → Option ℕ → Option ℕ
first_some none b = b
first_some (some a) b = some a

unfoldable pub renewal : JobLease → Doc Lock → ℕ → Doc Lock
renewal lease existing now =
    let fresh = lease_doc lease now in
    record fresh {
      rev = existing.rev;
      body = record fresh.body {
        acquired_at = first_some existing.body.acquired_at fresh.body.acquired_at;
      };
    }

-- `_owner` of what was read.
unfoldable pub owned : JobLease → Option (Doc Lock) → Bool
owned lease none = false
owned lease (some d) = d.body.owner == lease.owner

module _ (uuid4 : ℕ → String) where
  -- `acquire`, after its read; `checked` is the instant of the expiry test, `now` that of `_doc`.
  unfoldable pub acquire :
      JobLease
      → Option (Doc Lock)
      → (checked now : ℕ) → MemoryStore Lock
      → Result Bool × MemoryStore Lock
  acquire lease none checked now s = create uuid4 s (lease_doc lease now)
  acquire lease (some existing) checked now s =
      if is_live existing.body.expires_at checked
      then (ok false, s)
      else won (put uuid4 s (takeover lease existing now))

  -- `renew`, after its read.
  unfoldable pub renew :
      JobLease → Option (Doc Lock) → ℕ → MemoryStore Lock → Result Bool × MemoryStore Lock
  renew lease none now s = (ok false, s)
  renew lease (some existing) now s =
      if existing.body.owner == lease.owner
      then won (put uuid4 s (renewal lease existing now))
      else (ok false, s)

-- `release`, after its read; its exceptions are logged, never raised.
unfoldable pub release : JobLease → Option (Doc Lock) → MemoryStore Lock → MemoryStore Lock
release lease none s = s
release lease (some existing) s = elim existing.rev [
  | none ↦ s
  | some rev ↦
      if existing.body.owner == lease.owner then (delete s (lock_id lease.job) rev).1 else s
]

-- `current_holders`, on the documents that the store lists.
unfoldable pub current_holders : ℕ → List (Doc Lock) → List (Doc Lock)
current_holders now docs = keep_if (λ d. is_live d.body.expires_at now) docs
