-- ===== src/Tests/LeaseTests.antt =====
-- The job lease at concrete inputs: run 0 dies with the lease, and run 1 takes it over.
use podcast_digest.Common.{ℕ, String, true, false, ◌≡◌, lookup, insert, arith}
use podcast_digest.Errors.{ok}
use podcast_digest.Store.{empty, put, create, write, conflicts, next_rev, get}
use podcast_digest.Store.Revisions.{IsSound-empty}
use podcast_digest.JobLease.{JobLease, lock_id, lease_doc, is_live, takeover, acquire, renew, owned}
use podcast_digest.JobLease.World.{
  World, Event, tick, acquires, lands, perform, fresh_run, Reachable, start, next, Holds, lease,
}
use podcast_digest.JobLease.Exclusion.{at_most_one_holder}
use podcast_digest.JobLease.Turnover.{vacant, IsOurs}
use podcast_digest.Tests.Sample.{tally, tally_distinct}

abbrev same_host : ℕ → String
same_host p = "nas"

abbrev no_pid : ℕ → ℕ
no_pid p = p

abbrev first_world : World
first_world = record { store = empty; clock = 0; runs = λ _. fresh_run }

abbrev does : World → Event → World
does w e = perform tally "digest" 900 tally same_host no_pid w e

abbrev dead_holder : World
dead_holder = does (does (does first_world (acquires 0)) (lands 0 0 0)) (tick 901)

abbrev taken_over : World
taken_over = does (does dead_holder (acquires 1)) (lands 1 901 901)

taken_over-Reachable : Reachable tally "digest" 900 tally same_host no_pid taken_over
unfolding perform
taken_over-Reachable =
    next (lands 1 901 901)
      (next (acquires 1)
        (next (tick 901)
          (next (lands 0 0 0) (next (acquires 0) (start empty 0 (IsSound-empty tally)) tt)
            (omega arith, omega arith))
          tt)
        tt)
      (omega arith, omega arith)

taken_over-Holds : Holds taken_over 1
unfolding perform acquire create put conflicts write takeover lease_doc get empty next_rev lookup
    insert is_live lock_id
taken_over-Holds = omega arith

at_most_one_holder_example : ◌≡◌ {A = ℕ} 1 1
at_most_one_holder_example =
    at_most_one_holder tally tally_distinct "digest" 900 tally same_host no_pid tally_distinct
      taken_over 1 1 taken_over-Reachable taken_over-Holds taken_over-Holds

abbrev rival_run : JobLease
rival_run = lease tally "digest" 900 tally same_host no_pid 1

abbrev Alone : World → JobLease → ℕ → Type 0
Alone w l now =
    ((acquire tally l (get w.store (lock_id l.job)) now now w.store).0
      ≡ ok (vacant (get w.store (lock_id l.job)) now))
    × (vacant (get w.store (lock_id l.job)) now ≡ true
        → IsOurs l now (acquire tally l (get w.store (lock_id l.job)) now now w.store).1)
    × (vacant (get w.store (lock_id l.job)) now ≡ false
        → (acquire tally l (get w.store (lock_id l.job)) now now w.store).1 ≡ w.store)

abbrev Renews : World → JobLease → ℕ → Type 0
Renews w l now =
    ((renew tally l (get w.store (lock_id l.job)) now w.store).0
      ≡ ok (owned l (get w.store (lock_id l.job))))
    × (owned l (get w.store (lock_id l.job)) ≡ true
        → IsOurs l now (renew tally l (get w.store (lock_id l.job)) now w.store).1)
    × (owned l (get w.store (lock_id l.job)) ≡ false
        → (renew tally l (get w.store (lock_id l.job)) now w.store).1 ≡ w.store)
