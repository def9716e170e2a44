-- ===== src/System.antt =====
-- The broker as a whole: the tables, the calls of `acquire` that wait, and the events that the
-- clients, the clock and the operator cause, in any order. An event is one atomic step: a method of
-- `LockStore`, or one round of the loop of `acquire`.
pub mod Effects
pub mod Safety
pub mod Progress
pub mod Orphans
pub mod Spec
pub mod Refinement
pub mod Keys
use shared_concurrency_subst.Common.{
  ℕ, suc, String, Bool, true, false, not, List, [], ◌∷◌, ◌++◌, Option, none, some, ◌==◌,
  if◌then◌else◌, select, first,
}
use shared_concurrency_subst.Store.Data.{TimeText, Tables, empty_tables}
use shared_concurrency_subst.Store.Acquire.{
  Request, Entered, returned, queued, Readings, Pending, Polled, enter, poll,
}
use shared_concurrency_subst.Store.Release.{release, heartbeat, after}
use shared_concurrency_subst.Store.Rounds.{leaves}

pub record Broker (Stamp : Type 0) : Type 0 where
  pub tables : Tables Stamp
  pub pending : List Pending

pub data Event : Type 0 where
  acquires : (now start : ℕ) → Request → Event  -- the call, up to its loop
  polls : ℕ → Readings → Event  -- a round of the call with this key
  releases : (lock_id owner : String) → Event
  heartbeats : (held_now now : ℕ) (lock_id owner : String) (lease_ms : ℕ) → Event
  restarts : Event  -- the process dies and a new one opens the same database

module _ {Stamp : Type 0} (t : TimeText Stamp) where
  -- `start = time.monotonic()` follows the insertion into the queue.
  unfoldable pub entered : ℕ → Request → List Pending → Entered Stamp → List Pending
  entered start q ps (returned _) = ps
  entered start q ps (queued i) = ps ++ record { request = q; req_id = i; start = start } ∷ []

  -- A call that returns or raises waits no more.
  abbrev pub ends : Polled Stamp → Bool
  ends (Polled.waiting _) = false
  ends _ = true

  unfoldable pub after_poll : Pending → Polled Stamp → List Pending → List Pending
  after_poll p r ps = if ends r then select (λ x. not (x.req_id == p.req_id)) ps else ps

  unfoldable pub round : Readings → Pending → Broker Stamp → Broker Stamp
  unfolding after_poll
  round r p b = record {
    tables = (poll t r p b.tables).1;
    pending = after_poll p (poll t r p b.tables).0 b.pending;
  }

  abbrev pub find_pending : ℕ → List Pending → Option Pending
  find_pending i ps = first (λ p. p.req_id == i) ps

  unfoldable pub step : Event → Broker Stamp → Broker Stamp
  unfolding entered round
  step (acquires now start q) b = record {
    tables = (enter t now q b.tables).1;
    pending = entered start q b.pending (enter t now q b.tables).0;
  }
  step (polls i r) b = elim (find_pending i b.pending) [ none ↦ b | some p ↦ round r p b ]
  step (releases lock_id owner) b = record b {
    tables = after b.tables (release lock_id owner b.tables);
  }
  step (heartbeats held_now now lock_id owner lease_ms) b = record b {
    tables = after b.tables (heartbeat t held_now now lock_id owner lease_ms b.tables);
  }
  step restarts b = record b { pending = [] }

  unfoldable pub run : List Event → Broker Stamp → Broker Stamp
  unfolding step
  run [] b = b
  run (e ∷ es) b = run es (step e b)

-- A broker on a new database.
abbrev pub start_broker : {Stamp : Type 0} → Broker Stamp
start_broker = record { tables = empty_tables; pending = [] }
