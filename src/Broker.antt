-- ===== src/Broker.antt =====
-- broker.py: the HTTP handler, on decoded requests. A POST of an acquire blocks in the loop of
-- `LockStore.acquire`, so its reply comes with a later round.
pub mod Cases
pub mod Replies
use shared_concurrency_subst.Common.{
  ℕ, zero, suc, String, Bool, true, false, List, [], ◌∷◌, Option, none, some, ◌=s◌, if◌then◌else◌,
}
use shared_concurrency_subst.Store.Data.{
  TimeText, LockInfo, Tables, Error, value_error, permission_error, integrity_error, Result, ok,
  err,
}
use shared_concurrency_subst.Store.Acquire.{
  Request, Entered, returned, queued, Polled, granted, timed_out, waiting, raised, acquire,
}
use shared_concurrency_subst.Store.Release.{Status, release, heartbeat, status}
use shared_concurrency_subst.System.{Broker, entered}

-- What `payload.get` finds under a key.
pub data Field {ℓ} (A : Type ℓ) : Type ℓ where
  absent null : Field A
  value : A → Field A

-- The entries of a request's JSON object that the handler reads.
pub record Payload : Type 0 where
  pub path : Field String
  pub mode : Field String
  pub owner : Field String
  pub lock_id : Field String
  pub timeout_ms : Field ℕ
  pub lease_ms : Option ℕ
  pub max_hold_ms : Field ℕ

-- `{}`
abbrev pub empty_payload : Payload
empty_payload = record {
  path = absent;
  mode = absent;
  owner = absent;
  lock_id = absent;
  timeout_ms = absent;
  lease_ms = none;
  max_hold_ms = absent;
}

-- The fields of `BrokerConfig` that the handler reads.
pub record Config : Type 0 where
  pub lease_ms : ℕ
  pub max_hold_ms : Option ℕ
  pub acquire_timeout_ms : Option ℕ

pub data Body (Stamp : Type 0) : Type 0 where
  error : String → Body Stamp
  state : String → Body Stamp  -- `{"status": …}`
  grant_of : LockInfo Stamp → Body Stamp  -- `{"status": "granted", "lock": …}`
  tables_of : Status Stamp → Body Stamp

pub record Response (Stamp : Type 0) : Type 0 where
  pub code : ℕ
  pub body : Body Stamp

pub data Posted (Stamp : Type 0) : Type 0 where
  replied : Response Stamp → Posted Stamp
  blocked : ℕ → Posted Stamp  -- in the loop of `acquire`, with this key
  dropped : Error → Posted Stamp  -- an exception that the handler does not catch: no reply

-- A value that Python takes for true.
abbrev pub truthy : Field String → Option String
truthy absent = none
truthy null = none
truthy (value s) = if s =s "" then none else some s

-- `payload.get(key, default)` for an entry that may be null.
abbrev pub get_or {ℓ} : {A : Type ℓ} → Field A → Option A → Option A
get_or absent d = d
get_or null d = none
get_or (value a) d = some a

abbrev pub lease_or : Option ℕ → ℕ → ℕ
lease_or none d = d
lease_or (some n) d = n

-- The mode, if it is one of the two.
abbrev pub valid_mode : Field String → Option String
valid_mode absent = none
valid_mode null = none
valid_mode (value m) = if m =s "read" then some m else if m =s "write" then some m else none

-- `_read_json`: `loads` is `json.loads` on the bytes that were read.
module _ (take_bytes : ℕ → List ℕ → List ℕ) (loads : List ℕ → Option Payload) where
  unfoldable pub read_json : Option ℕ → List ℕ → Payload
  read_json none input = empty_payload
  read_json (some zero) input = empty_payload
  read_json (some (suc n)) input = elim (loads (take_bytes (suc n) input)) [
    | none ↦ empty_payload
    | some p ↦ p
  ]

module _ {Stamp : Type 0} (t : TimeText Stamp) where
  abbrev pub respond : ℕ → Body Stamp → Posted Stamp
  respond code body = replied (record { code = code; body = body })

  -- The reply of a call that ends; none while it waits.
  unfoldable pub reply_to : Polled Stamp → Option (Posted Stamp)
  reply_to (granted lock) = some (respond 200 (grant_of lock))
  reply_to timed_out = some (respond 408 (state "timeout"))
  reply_to (waiting _) = none
  reply_to (raised e) = some (dropped e)

  unfoldable pub reply_entered : Entered Stamp → Posted Stamp
  reply_entered (returned lock) = respond 200 (grant_of lock)
  reply_entered (queued i) = blocked i

  -- A valid acquire, up to the loop.
  unfoldable pub start_acquire :
      Config
      → ℕ
      → ℕ
      → String
      → String
      → String
      → Payload
      → Broker Stamp
      → Posted Stamp × Broker Stamp
  unfolding reply_entered
  start_acquire c now start path mode owner p b =
      elim (acquire t now path mode owner (get_or p.timeout_ms c.acquire_timeout_ms)
        (lease_or p.lease_ms c.lease_ms) (get_or p.max_hold_ms c.max_hold_ms) b.tables) [
          | err e ↦ (dropped e, b)
          | ok (q, (x, s)) ↦
              (reply_entered x, record { tables = s; pending = entered t start q b.pending x })
        ]

  abbrev pub bad_request : Posted Stamp
  bad_request = respond 400 (error "invalid request")

  unfoldable pub post_acquire :
      Config → ℕ → ℕ → Payload → Broker Stamp → Posted Stamp × Broker Stamp
  unfolding start_acquire
  post_acquire c now start p b = elim (truthy p.path) [
    | none ↦ (bad_request, b)
    | some path ↦ elim (valid_mode p.mode) [
      | none ↦ (bad_request, b)
      | some mode ↦ elim (truthy p.owner) [
        | none ↦ (bad_request, b)
        | some owner ↦ start_acquire c now start path mode owner p b
      ]
    ]
  ]

  -- The reply to `release` and `heartbeat`.
  unfoldable pub reply_result :
      String → Broker Stamp → Result (Bool × Tables Stamp) → Posted Stamp × Broker Stamp
  reply_result done b (err permission_error) = (respond 403 (error "owner mismatch"), b)
  reply_result done b (err e) = (dropped e, b)
  reply_result done b (ok (false, s)) =
      (respond 404 (error "lock not found"), record b { tables = s })
  reply_result done b (ok (true, s)) = (respond 200 (state done), record b { tables = s })

  unfoldable pub post_release : Payload → Broker Stamp → Posted Stamp × Broker Stamp
  unfolding reply_result
  post_release p b = elim (truthy p.lock_id) [
    | none ↦ (bad_request, b)
    | some lock_id ↦ elim (truthy p.owner) [
      | none ↦ (bad_request, b)
      | some owner ↦ reply_result "released" b (release lock_id owner b.tables)
    ]
  ]

  unfoldable pub post_heartbeat :
      Config → ℕ → ℕ → Payload → Broker Stamp → Posted Stamp × Broker Stamp
  unfolding reply_result
  post_heartbeat c held_now now p b = elim (truthy p.lock_id) [
    | none ↦ (bad_request, b)
    | some lock_id ↦ elim (truthy p.owner) [
      | none ↦ (bad_request, b)
      | some owner ↦
          reply_result "ok" b
            (heartbeat t held_now now lock_id owner (lease_or p.lease_ms c.lease_ms) b.tables)
    ]
  ]

  abbrev pub not_found : Posted Stamp
  not_found = respond 404 (error "not found")

  -- The first two readings of the clock are `acquire`'s and `heartbeat`'s, the third is `start`. A call
  -- of `acquire` that waits is `blocked`, and `reply_to` is the rest of the handler when its loop ends.
  unfoldable pub do_post :
      Config → ℕ → ℕ → ℕ → String → Payload → Broker Stamp → Posted Stamp × Broker Stamp
  unfolding post_acquire post_release post_heartbeat
  do_post c now now' start url p b =
      if url =s "/v1/locks/acquire"
      then post_acquire c now start p b
      else if url =s "/v1/locks/release"
      then post_release p b
      else if url =s "/v1/locks/heartbeat"
      then post_heartbeat c now now' p b
      else (not_found, b)

  -- `urlparse` and `parse_qs` give the path and the first value of the parameter `path`.
  module _ (url_path : String → String) (query_path : String → Option String) where
    unfoldable pub do_get : String → Broker Stamp → Posted Stamp
    do_get url b =
        if url_path url =s "/v1/locks/status"
        then respond 200 (tables_of (status (query_path url) b.tables))
        else not_found
