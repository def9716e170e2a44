-- ===== src/Fuse/Service.antt =====
-- A lock service over a lock store that nobody else uses: a call that would have to wait fails, as
-- with `timeout_ms = 0`.
use shared_concurrency_subst.Common.{
  ℕ, suc, ◌≡◌, refl, ◌∙◌, String, Bool, true, false, Option, none, some, arith,
}
use shared_concurrency_subst.Store.Data.{
  TimeText, LockInfo, Tables, Error, permission_error, Result, ok, err, empty_tables,
}
use shared_concurrency_subst.Store.Acquire.{
  Request, Entered, returned, queued, Readings, Pending, Polled, granted, timed_out, waiting,
  raised, parse_mode, enter, poll,
}
use shared_concurrency_subst.Store.Release.{release, heartbeat, after}
use shared_concurrency_subst.Store.Invariant.Valid.{
  IsValid, empty_tables-IsValid, release-IsValid, heartbeat-IsValid,
}
use shared_concurrency_subst.Store.Invariant.Steps.{enter-IsValid, poll-IsValid}
use shared_concurrency_subst.Store.Returned.{enter-Serves, poll-Serves}
use shared_concurrency_subst.Store.Strangers.{HeldBy, release-stranger}
use shared_concurrency_subst.Effects.{Outcome, done, raises, runtime_error}
use shared_concurrency_subst.Fuse.World.{LockService}
use shared_concurrency_subst.Fuse.Leaks.{IsLawfulService}

-- Valid tables, and how often the clock was read.
pub record Session (Stamp : Type 0) : Type 0 where
  pub tables : Tables Stamp
  pub valid : IsValid tables
  pub tick : ℕ

abbrev pub new_session : {Stamp : Type 0} → Session Stamp
new_session = record { tables = empty_tables; valid = empty_tables-IsValid; tick = 0 }

module _ {Stamp : Type 0} (t : TimeText Stamp) (readings : ℕ → Readings) where
  -- The client's view of a round.
  abbrev key_of : Polled Stamp → Outcome String
  key_of (granted l) = done l.lock_id
  key_of timed_out = raises runtime_error
  key_of (waiting _) = raises runtime_error
  key_of (raised _) = raises runtime_error

  abbrev pending_of : Request → ℕ → Readings → Pending
  pending_of q i r = record { request = q; req_id = i; start = r.monotonic }

  abbrev step_to : (s : Session Stamp) (x : Tables Stamp) → IsValid x → Session Stamp
  step_to s x v = record { tables = x; valid = v; tick = suc s.tick }

  unfoldable entered :
      (q : Request) (s : Session Stamp) (x : Entered Stamp) (y : Tables Stamp)
      → IsValid y
      → Outcome String × Session Stamp
  entered q s (returned l) y v = (done l.lock_id, step_to s y v)
  entered q s (queued i) y v =
      let r = readings s.tick in
      let p = pending_of q i r in
      (key_of (poll t r p y).0, step_to s (poll t r p y).1 (poll-IsValid t r p y v))

  unfoldable acquire_with : Option (Request) → Session Stamp → Outcome String × Session Stamp
  acquire_with none s = (raises runtime_error, s)
  acquire_with (some q) s =
      let now = (readings s.tick).granted_now in
      entered q s (enter t now q s.tables).0 (enter t now q s.tables).1
        (enter-IsValid t now q s.tables s.valid)

  unfoldable request_of : String → String → String → Option ℕ → ℕ → Option ℕ → Option Request
  request_of path mode owner timeout lease cap = elim (parse_mode mode) [
    | none ↦ none
    | some m ↦ some (record {
      path = path;
      mode = m;
      owner = owner;
      timeout_ms = timeout;
      lease_ms = lease;
      max_hold_ms = cap;
    })
  ]

  -- An error reply is a RuntimeError of the client.
  abbrev reply_of : Bool → Outcome (Unit {0})
  reply_of true = done tt
  reply_of false = raises runtime_error

  unfoldable replied :
      (s : Session Stamp) (r : Result (Bool × Tables Stamp))
      → IsValid (after s.tables r)
      → Outcome (Unit {0}) × Session Stamp
  replied s (err e) v = (raises runtime_error, s)
  replied s (ok (b, x)) v = (reply_of b, step_to s x v)

  unfoldable pub store_service : LockService (Session Stamp)
  unfolding acquire_with entered request_of replied
  store_service = record {
    acquire = λ path mode owner timeout lease cap s.
        acquire_with (request_of path mode owner timeout lease cap) s;
    release = λ id owner s.
        replied s (release id owner s.tables) (release-IsValid id owner s.tables s.valid);
    heartbeat = λ id owner lease s.
        let now = (readings s.tick).granted_now in
        replied s (heartbeat t now now id owner lease s.tables)
          (heartbeat-IsValid t now now id owner lease s.tables s.valid);
  }

  abbrev pub Holds : Session Stamp → String → String → Type 0
  Holds s id owner = HeldBy s.tables id owner

  key_of-done :
      (x : Polled Stamp) (id : String)
      → key_of x ≡ done id
      → (l : LockInfo Stamp) × (x ≡ granted l) × (l.lock_id ≡ id)
  key_of-done (granted l) id e = (l, refl, cc)
  key_of-done timed_out id e = cc
  key_of-done (waiting _) id e = cc
  key_of-done (raised _) id e = cc

  entered-Holds :
      (q : Request) (s : Session Stamp) (now : ℕ) (x : Entered Stamp) (y : Tables Stamp)
      (v : IsValid y) (id : String)
      → (enter t now q s.tables).0 ≡ x
      → (enter t now q s.tables).1 ≡ y
      → (entered q s x y v).0 ≡ done id
      → Holds (entered q s x y v).1 id q.owner
  unfolding entered
  entered-Holds q s now (returned l) y v id e f d =
      let serves = enter-Serves t now q s.tables l e in (l, rw f at serves.held, cc, serves.owned)
  entered-Holds q s now (queued i) y v id e f d =
      let r = readings s.tick in
      let (l, g, k) = key_of-done (poll t r (pending_of q i r) y).0 id d in
      let serves = poll-Serves t r (pending_of q i r) y l g in (l, serves.held, k, serves.owned)

  request_of-owner :
      (path mode owner : String) (timeout : Option ℕ) (lease : ℕ) (cap : Option ℕ) (q : Request)
      → request_of path mode owner timeout lease cap ≡ some q
      → q.owner ≡ owner
  unfolding request_of
  request_of-owner path mode owner timeout lease cap q e = ground arith

  acquire_with-Holds :
      (o : Option Request) (s : Session Stamp) (id owner : String)
      → ((q : Request) → o ≡ some q → q.owner ≡ owner)
      → (acquire_with o s).0 ≡ done id
      → Holds (acquire_with o s).1 id owner
  unfolding acquire_with
  acquire_with-Holds none s id owner h e = cc
  acquire_with-Holds (some q) s id owner h e =
      let now = (readings s.tick).granted_now in
      let (r, m, k, o) =
        entered-Holds q s now (enter t now q s.tables).0 (enter t now q s.tables).1
          (enter-IsValid t now q s.tables s.valid) id refl refl e in
      (r, m, k, o ∙ h q refl)

  acquired-Holds :
      (path mode owner : String) (timeout : Option ℕ) (lease : ℕ) (cap : Option ℕ)
      (s : Session Stamp) (id : String)
      → (store_service.acquire path mode owner timeout lease cap s).0 ≡ done id
      → Holds (store_service.acquire path mode owner timeout lease cap s).1 id owner
  unfolding store_service
  acquired-Holds path mode owner timeout lease cap s id e =
      acquire_with-Holds (request_of path mode owner timeout lease cap) s id owner
        (request_of-owner path mode owner timeout lease cap) e

  replied-err :
      (s : Session Stamp) (r : Result (Bool × Tables Stamp)) (v : IsValid (after s.tables r))
      (x : Error)
      → r ≡ err x
      → replied s r v ≡ (raises runtime_error, s)
  unfolding replied
  replied-err s (err y) v x e = refl
  replied-err s (ok (b, y)) v x e = cc

  -- The assumptions that the mount makes of a lock service hold of the lock store.
  pub store_service-IsLawfulService : IsLawfulService store_service Holds
  unfolding store_service
  store_service-IsLawfulService = record {
    acquired = acquired-Holds;
    refused = λ s id owner stranger h other.
        let e =
          replied-err s (release id stranger s.tables)
            (release-IsValid id stranger s.tables s.valid) permission_error
            (release-stranger s.tables id owner stranger s.valid.distinct h other) in
        rw e (refl, h);
  }
