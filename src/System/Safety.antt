-- ===== src/System/Safety.antt =====
-- What holds after every history of events.
use shared_concurrency_subst.Common.{◌≡◌, List, [], ◌∷◌, inl, inr, In, Option-cases}
use shared_concurrency_subst.Store.Data.{write, TimeText, LockInfo}
use shared_concurrency_subst.Store.Invariant.Valid.{
  IsValid, empty_tables-IsValid, release-IsValid, heartbeat-IsValid,
}
use shared_concurrency_subst.Store.Invariant.Steps.{enter-IsValid, poll-IsValid}
use shared_concurrency_subst.System.{
  Broker, Event, acquires, polls, releases, heartbeats, restarts, find_pending, round, step, run,
  start_broker,
}

module _ {Stamp : Type 0} (t : TimeText Stamp) where
  -- Every event keeps the invariant of the tables.
  pub step-IsValid : (e : Event) (b : Broker Stamp) → IsValid b.tables → IsValid (step t e b).tables
  unfolding step round
  step-IsValid (acquires now start q) b v = enter-IsValid t now q b.tables v
  step-IsValid (polls i r) b v = elim (Option-cases (find_pending t i b.pending)) [
    | inl miss ↦ rw (miss, step) v
    | inr (p, hit) ↦ rw (hit, step) (poll-IsValid t r p b.tables v)
  ]
  step-IsValid (releases id owner) b v = release-IsValid id owner b.tables v
  step-IsValid (heartbeats held now id owner lease) b v =
      heartbeat-IsValid t held now id owner lease b.tables v
  step-IsValid restarts b v = v

  pub run-IsValid :
      (es : List Event) (b : Broker Stamp) → IsValid b.tables → IsValid (run t es b).tables
  unfolding run
  run-IsValid [] b v = v
  run-IsValid (e ∷ es) b v = run-IsValid es (step t e b) (step-IsValid e b v)

  -- After every history of events from a new database, in every order, two locks on one path of
  -- which one is a write lock have one owner.
  pub run-exclusive :
      (es : List Event) (a c : LockInfo Stamp)
      → In a (run t es start_broker).tables.locks
      → In c (run t es start_broker).tables.locks
      → a.path ≡ c.path
      → a.mode ≡ write
      → a.owner ≡ c.owner
  run-exclusive es = (run-IsValid es start_broker empty_tables-IsValid).exclusive
