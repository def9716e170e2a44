-- ===== src/Remote.antt =====
-- client.py, broker.py and lock_store.py together: a call of `LockBrokerClient` as the mount makes it,
-- through the handler to the store and back. While a call of `acquire` waits in its loop, the calls of
-- other clients go on.
pub mod Served
pub mod Lawful
pub mod Exclusion
pub mod Progress
pub mod Roundtrip
pub mod Guarded
pub mod Contention
pub mod Limits
pub mod Refusal
use shared_concurrency_subst.Common.{ℕ, zero, suc, String, List, [], ◌∷◌, Option, none, some}
use shared_concurrency_subst.Store.Data.{TimeText, Tables}
use shared_concurrency_subst.Store.Acquire.{Readings, Pending, Polled, poll}
use shared_concurrency_subst.Store.Invariant.Valid.{IsValid, empty_tables-IsValid}
use shared_concurrency_subst.Store.Invariant.Steps.{poll-IsValid}
use shared_concurrency_subst.System.{Broker, Event, find_pending, round, run, start_broker}
use shared_concurrency_subst.System.Safety.{run-IsValid}
use shared_concurrency_subst.Broker.{
  Payload, Config, Body, error, state, grant_of, tables_of, Response, Posted, replied, blocked,
  dropped, reply_to, do_post,
}
use shared_concurrency_subst.Broker.Replies.{do_post-IsValid}
use shared_concurrency_subst.Client.{
  acquire_payload, release_payload, heartbeat_payload, Reply, accepted, read_reply,
}
use shared_concurrency_subst.Client
use shared_concurrency_subst.Effects.{
  Outcome, done, raises, os_error, other, runtime_error, value_error, unanswered,
}
use shared_concurrency_subst.Fuse.World.{LockService}

-- The broker, its invariant, and how many instants have gone by.
pub record Line (Stamp : Type 0) : Type 0 where
  pub broker : Broker Stamp
  pub valid : IsValid broker.tables
  pub tick : ℕ

abbrev pub new_line : {Stamp : Type 0} → Line Stamp
new_line = record { broker = start_broker; valid = empty_tables-IsValid; tick = 0 }

-- The call that a request has just left in the loop.
unfoldable pub newest : List Pending → Option Pending
newest [] = none
newest (p ∷ []) = some p
newest (p ∷ q ∷ ps) = newest (q ∷ ps)

-- `readings` is what the clock and `uuid4` say at an instant, `others` what the other clients do while
-- a call waits at that instant, and `patience` the rounds of a waiting call that are looked at: the
-- client of the mount has no limit of its own, so a call is still waiting after them. The connection
-- to the broker can be made.
module _ {Stamp : Type 0} (t : TimeText Stamp) (c : Config) (readings : ℕ → Readings)
    (others : ℕ → List Event) (patience : ℕ) where
  -- The connection is closed without a reply: `ECONNRESET`.
  abbrev pub disconnected : {A : Type 0} → Outcome A
  disconnected = raises (os_error (other 104))

  abbrev step_to : (s : Line Stamp) (b : Broker Stamp) → IsValid b.tables → Line Stamp
  step_to s b v = record { broker = b; valid = v; tick = suc s.tick }

  abbrev pub others_act : Line Stamp → Line Stamp
  others_act s = record {
    broker = run t (others s.tick) s.broker;
    valid = run-IsValid t (others s.tick) s.broker s.valid;
    tick = s.tick;
  }

  unfoldable pub round_of : Readings → Pending → Line Stamp → Line Stamp
  unfolding round
  round_of r p s = step_to s (round t r p s.broker) (poll-IsValid t r p s.broker.tables s.valid)

  abbrev pub response_of : Posted Stamp → Outcome (Response Stamp)
  response_of (replied r) = done r
  response_of (blocked i) = disconnected
  response_of (dropped e) = disconnected

  -- The rounds of a call that waits. A restart of the broker ends it without a reply; after the last
  -- round that is looked at it is still waiting.
  unfoldable pub await : ℕ → Pending → Line Stamp → Outcome (Response Stamp) × Line Stamp
  unfolding reply_to round_of
  await zero p s = (raises unanswered, s)
  await (suc n) p s = elim (find_pending t p.req_id (others_act s).broker.pending) [
    | none ↦ (disconnected, others_act s)
    | some _ ↦ elim (reply_to t (poll t (readings s.tick) p (others_act s).broker.tables).0) [
      | none ↦ await n p (round_of (readings s.tick) p (others_act s))
      | some x ↦ (response_of x, round_of (readings s.tick) p (others_act s))
    ]
  ]

  unfoldable pub respond_to : Posted Stamp → Line Stamp → Outcome (Response Stamp) × Line Stamp
  unfolding await newest
  respond_to (replied r) s = (done r, s)
  respond_to (dropped e) s = (disconnected, s)
  respond_to (blocked i) s = elim (newest s.broker.pending) [
    | none ↦ (disconnected, s)
    | some p ↦ await patience p s
  ]

  -- What the handler makes of a request, and the broker after it.
  abbrev pub handled : String → Payload → Line Stamp → Posted Stamp × Broker Stamp
  handled url p s =
      let r = readings s.tick in do_post t c r.granted_now r.granted_now r.monotonic url p s.broker

  abbrev pub arrived : String → Payload → Line Stamp → Line Stamp
  arrived url p s =
      let r = readings s.tick in
      step_to s (handled url p s).1
        (do_post-IsValid t c r.granted_now r.granted_now r.monotonic url p s.broker s.valid)

  -- The request and its response, where the connection can be made.
  unfoldable pub exchange : String → Payload → Line Stamp → Outcome (Response Stamp) × Line Stamp
  unfolding respond_to do_post
  exchange url p s = respond_to (handled url p s).0 (arrived url p s)

  abbrev pub reply_outcome : Reply Stamp → Outcome (Body Stamp)
  reply_outcome (accepted b) = done b
  reply_outcome (Client.runtime_error code text) = raises runtime_error

  abbrev pub body_of : Outcome (Response Stamp) → Outcome (Body Stamp)
  body_of (raises e) = raises e
  body_of (done r) = reply_outcome (read_reply r)

  -- `response["lock"]["lock_id"]`; no other body is accepted for an acquire.
  abbrev pub key_in : Outcome (Body Stamp) → Outcome String
  key_in (raises e) = raises e
  key_in (done (grant_of l)) = done l.lock_id
  key_in (done (error e)) = raises value_error
  key_in (done (state e)) = raises value_error
  key_in (done (tables_of x)) = raises value_error

  abbrev pub no_value : Outcome (Body Stamp) → Outcome (Unit {0})
  no_value (raises e) = raises e
  no_value (done b) = done tt

  unfoldable pub remote_service : LockService (Line Stamp)
  unfolding exchange read_reply acquire_payload release_payload heartbeat_payload
  remote_service = record {
    acquire = λ path mode owner timeout lease cap s.
        let x =
          exchange "/v1/locks/acquire" (acquire_payload path mode owner timeout lease cap) s in
        (key_in (body_of x.0), x.1);
    release = λ id owner s.
        let x = exchange "/v1/locks/release" (release_payload id owner) s in
        (no_value (body_of x.0), x.1);
    heartbeat = λ id owner lease s.
        let x = exchange "/v1/locks/heartbeat" (heartbeat_payload id owner lease) s in
        (no_value (body_of x.0), x.1);
  }
