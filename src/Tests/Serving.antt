-- ===== src/Tests/Serving.antt =====
-- The theorems about the broker's handler and the client, at concrete requests.
use shared_concurrency_subst.Common.{
  ℕ, zero, suc, ◌≡◌, refl, ap, List, [], ◌∷◌, ◌++◌, length, none, some, arith, String_discrete,
  first,
}
use shared_concurrency_subst.Store.Data.{write}
use shared_concurrency_subst.Store.Acquire.{parse_mode, enter}
use shared_concurrency_subst.Store.Release.{release}
use shared_concurrency_subst.System.{Broker, acquires, step}
use shared_concurrency_subst.Broker.{
  value, Payload, empty_payload, Config, error, reply_entered, do_post, post_release,
}
use shared_concurrency_subst.Broker.Replies.{do_post-error_unchanged}
use shared_concurrency_subst.Client.{acquire_payload, release_payload}
use shared_concurrency_subst.Client.Agreement.{asked, client_acquire}
use shared_concurrency_subst.Tests.Samples.{clock, held_by_a, differ}

abbrev pub config : Config
config = record { lease_ms = 30000; max_hold_ms = none; acquire_timeout_ms = some 10000 }

abbrev serving : Broker ℕ
serving = record { tables = held_by_a; pending = [] }

-- The mode is neither "read" nor "write".
abbrev bad_mode : Payload
bad_mode = record empty_payload { path = value "f"; mode = value "append"; owner = value "B" }

-- B releases A's lock.
do_post-error_unchanged_example :
    (do_post clock config 1 1 1 "/v1/locks/release" (release_payload "L1" "B") serving).1 ≡ serving
unfolding do_post post_release release_payload release String_discrete first
do_post-error_unchanged_example =
    do_post-error_unchanged clock config 1 1 1 "/v1/locks/release" (release_payload "L1" "B")
      serving (record { code = 403; body = error "owner mismatch" })
      (differ "/v1/locks/release" "/v1/locks/heartbeat" refl) refl (omega arith)

client_acquire_example :
    do_post clock config 1 1 1 "/v1/locks/acquire"
      (acquire_payload "f" "write" "B" none 500 none)
      serving
    ≡ (
      reply_entered clock
          (enter clock 1 (asked clock config "f" write "B" none 500 none) held_by_a).0,
      step clock (acquires 1 1 (asked clock config "f" write "B" none 500 none)) serving,
    )
unfolding parse_mode String_discrete
client_acquire_example =
    client_acquire clock config 1 1 1 "f" "write" "B" write none 500 none serving
      (differ "f" "" refl) (differ "B" "" refl) refl

abbrev take : ℕ → List ℕ → List ℕ
take zero bs = []
take (suc n) [] = []
take (suc n) (b ∷ bs) = b ∷ take n bs

take-length : (bytes more : List ℕ) → take (length bytes) (bytes ++ more) ≡ bytes
take-length [] more = refl
take-length (b ∷ bytes) more = ap (λ bs. b ∷ bs) (take-length bytes more)
