-- ===== src/Client/Agreement.antt =====
-- The client's requests at the handler, and the handler's replies at the client.
use shared_concurrency_subst.Common.{
  ℕ, ◌≡◌, refl, ◌↔◌, String, Bool, true, false, Option, none, some, arith, ◌=s◌, ≡→=s,
  String_discrete,
}
use shared_concurrency_subst.Store.Data.{
  Mode, TimeText, Tables, permission_error, value_error, integrity_error, Result, ok, err,
}
use shared_concurrency_subst.Store.Acquire.{Request, parse_mode, enter, acquire}
use shared_concurrency_subst.Store.Release.{release}
use shared_concurrency_subst.System.{Broker, acquires, step}
use shared_concurrency_subst.Broker.{
  value, Config, state, Response, Posted, replied, valid_mode, get_or, start_acquire, reply_entered,
  reply_result, post_acquire, post_release, do_post,
}
use shared_concurrency_subst.Client.{
  nullable, if_given, acquire_payload, release_payload, accepted, read_reply,
}

abbrev pub or_else : Option ℕ → Option ℕ → Option ℕ
or_else none d = d
or_else (some n) d = some n

module _ {Stamp : Type 0} (t : TimeText Stamp) where
  -- The request that the broker serves for a call of the client. No limit of the client means that
  -- there is none, whatever the broker's default; no cap means the broker's cap.
  abbrev pub asked : Config → String → Mode → String → Option ℕ → ℕ → Option ℕ → Request
  asked c path mode owner timeout lease most = record {
    path = path;
    mode = mode;
    owner = owner;
    timeout_ms = timeout;
    lease_ms = lease;
    max_hold_ms = or_else most c.max_hold_ms;
  }

  named : (s : String) → ¬ (s ≡ "") → (s =s "") ≡ false
  named s n = ground arith

  pub valid_mode-value :
      (text : String) (mode : Mode)
      → parse_mode text ≡ some mode
      → valid_mode (value text) ≡ some text
  unfolding parse_mode
  valid_mode-value text mode h = ground arith

  get_or-nullable : (o d : Option ℕ) → get_or (nullable o) d ≡ o
  get_or-nullable none d = refl
  get_or-nullable (some n) d = refl

  get_or-if_given : (o d : Option ℕ) → get_or (if_given o) d ≡ or_else o d
  get_or-if_given none d = refl
  get_or-if_given (some n) d = refl

  post_acquire-valid :
      (c : Config) (now start : ℕ) (path text owner : String) (mode : Mode) (timeout : Option ℕ)
      (lease : ℕ) (most : Option ℕ) (b : Broker Stamp)
      → ¬ (path ≡ "")
      → ¬ (owner ≡ "")
      → parse_mode text ≡ some mode
      → post_acquire t c now start (acquire_payload path text owner timeout lease most) b
        ≡ start_acquire t c now start path text owner
            (acquire_payload path text owner timeout lease most)
            b
  unfolding post_acquire acquire_payload
  post_acquire-valid c now start path text owner mode timeout lease most b p o good =
      rw (post_acquire, named path p, valid_mode-value text mode good, named owner o)

  start_acquire-step :
      (c : Config) (now start : ℕ) (path text owner : String) (mode : Mode) (timeout : Option ℕ)
      (lease : ℕ) (most : Option ℕ) (b : Broker Stamp)
      → parse_mode text ≡ some mode
      → start_acquire t c now start path text owner
          (acquire_payload path text owner timeout lease most)
          b
        ≡ (
          reply_entered t (enter t now (asked c path mode owner timeout lease most) b.tables).0,
          step t (acquires now start (asked c path mode owner timeout lease most)) b,
        )
  unfolding start_acquire acquire acquire_payload step
  start_acquire-step c now start path text owner mode timeout lease most b good = rw (
    start_acquire,
    acquire,
    good,
    get_or-nullable timeout c.acquire_timeout_ms,
    get_or-if_given most c.max_hold_ms,
  )

  -- A call of the client's `acquire` with a path, an owner and one of the two modes is an `acquires`
  -- event of the broker for exactly that request.
  pub client_acquire :
      (c : Config) (now now' start : ℕ) (path text owner : String) (mode : Mode)
      (timeout : Option ℕ) (lease : ℕ) (most : Option ℕ) (b : Broker Stamp)
      → ¬ (path ≡ "")
      → ¬ (owner ≡ "")
      → parse_mode text ≡ some mode
      → do_post t c now now' start "/v1/locks/acquire"
          (acquire_payload path text owner timeout lease most)
          b
        ≡ (
          reply_entered t (enter t now (asked c path mode owner timeout lease most) b.tables).0,
          step t (acquires now start (asked c path mode owner timeout lease most)) b,
        )
  unfolding do_post
  client_acquire c now now' start path text owner mode timeout lease most b p o good =
      rw
        (
          ≡→=s "/v1/locks/acquire" "/v1/locks/acquire" refl,
          post_acquire-valid c now start path text owner mode timeout lease most b p o good,
        )
        (start_acquire-step c now start path text owner mode timeout lease most b good)

  pub do_post-release :
      (c : Config) (now now' start : ℕ) (id owner : String) (b : Broker Stamp)
      → ¬ (id ≡ "")
      → ¬ (owner ≡ "")
      → do_post t c now now' start "/v1/locks/release" (release_payload id owner) b
        ≡ reply_result t "released" b (release id owner b.tables)
  unfolding do_post post_release release_payload String_discrete
  do_post-release c now now' start id owner b i o = rw (post_release, named id i, named owner o)

  -- The reply to a release, read by the client.
  Accepted : Posted Stamp × Broker Stamp → Type 0
  Accepted x =
      (r : Response Stamp) × (x.0 ≡ replied r) × (read_reply r ≡ accepted (state "released"))

  reply_result-Accepted :
      (b : Broker Stamp) (x : Result (Bool × Tables Stamp))
      → Accepted (reply_result t "released" b x) ↔ ((s : Tables Stamp) × (x ≡ ok (true, s)))
  unfolding Accepted reply_result read_reply
  reply_result-Accepted b (ok (true, s)) = (λ _. (s, refl), λ _. (_, refl, refl))
  reply_result-Accepted b (ok (false, s)) = (λ h. absurd (ground arith), λ h. absurd (ground arith))
  reply_result-Accepted b (err permission_error) =
      (λ h. absurd (ground arith), λ h. absurd (ground arith))
  reply_result-Accepted b (err value_error) =
      (λ h. absurd (ground arith), λ h. absurd (ground arith))
  reply_result-Accepted b (err integrity_error) =
      (λ h. absurd (ground arith), λ h. absurd (ground arith))

  -- A client's release goes through exactly when the store releases a hold.
  pub client_release_iff :
      (c : Config) (now now' start : ℕ) (id owner : String) (b : Broker Stamp)
      → ¬ (id ≡ "")
      → ¬ (owner ≡ "")
      → ((r : Response Stamp) × ((do_post t c now now' start "/v1/locks/release"
              (release_payload id owner)
              b).0
            ≡ replied r)
          × (read_reply r ≡ accepted (state "released")))
        ↔ ((s : Tables Stamp) × (release id owner b.tables ≡ ok (true, s)))
  unfolding Accepted
  client_release_iff c now now' start id owner b i o =
      rw (do_post-release c now now' start id owner b i o)
        (reply_result-Accepted b (release id owner b.tables))
