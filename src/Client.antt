-- ===== src/Client.antt =====
-- client.py: the requests of `LockBrokerClient` and its reading of the replies. JSON and HTTP carry
-- both unchanged.
pub mod Agreement
pub mod Wire
use Prim.Native.String.{◌++◌ as ◌<>◌}
use shared_concurrency_subst.Common.{ℕ, String, Bool, Option, none, some, leb, ◌=s◌, if◌then◌else◌}
use shared_concurrency_subst.Store.Release.{Status}
use shared_concurrency_subst.Broker.{
  Field, absent, null, value, Payload, empty_payload, Body, error, state, grant_of, tables_of,
  Response,
}

-- A value of Python that may be None, as JSON.
abbrev pub nullable {ℓ} : {A : Type ℓ} → Option A → Field A
nullable none = null
nullable (some a) = value a

-- An entry that is written only if there is a value.
abbrev pub if_given {ℓ} : {A : Type ℓ} → Option A → Field A
if_given none = absent
if_given (some a) = value a

unfoldable pub acquire_payload :
    (path mode owner : String) (timeout_ms : Option ℕ) (lease_ms : ℕ) (max_hold_ms : Option ℕ)
    → Payload
acquire_payload path mode owner timeout_ms lease_ms max_hold_ms = record {
  path = value path;
  mode = value mode;
  owner = value owner;
  lock_id = absent;
  timeout_ms = nullable timeout_ms;
  lease_ms = some lease_ms;
  max_hold_ms = if_given max_hold_ms;
}

unfoldable pub release_payload : (lock_id owner : String) → Payload
release_payload lock_id owner = record empty_payload {
  lock_id = value lock_id;
  owner = value owner;
}

unfoldable pub heartbeat_payload : (lock_id owner : String) (lease_ms : ℕ) → Payload
heartbeat_payload lock_id owner lease_ms = record empty_payload {
  lock_id = value lock_id;
  owner = value owner;
  lease_ms = some lease_ms;
}

-- The URL of `status`, the path as it stands.
unfoldable pub status_url : Option String → String
status_url none = "/v1/locks/status"
status_url (some path) = if path =s "" then "/v1/locks/status" else "/v1/locks/status?path=" <> path

pub data Reply (Stamp : Type 0) : Type 0 where
  accepted : Body Stamp → Reply Stamp
  runtime_error : ℕ → String → Reply Stamp  -- `broker error {status}: {error}`

module _ {Stamp : Type 0} where
  -- `payload.get("error") or payload.get("status") or "request failed"`
  unfoldable pub error_text : Body Stamp → String
  error_text (error e) = if e =s "" then "request failed" else e
  error_text (state e) = if e =s "" then "request failed" else e
  error_text (grant_of _) = "granted"
  error_text (tables_of _) = "request failed"

  -- The end of `_request`.
  unfoldable pub read_reply : Response Stamp → Reply Stamp
  unfolding error_text
  read_reply r =
      if leb 400 r.code then runtime_error r.code (error_text r.body) else accepted r.body
