-- ===== src/Broker/Replies.antt =====
-- What each reply says of the broker.
use shared_concurrency_subst.Common.{
  ℕ, ◌≤◌, ◌≡◌, refl, ap, inl, inr, String, Bool, true, false, arith, Option-cases,
}
use shared_concurrency_subst.Store.Data.{
  TimeText, Tables, Error, value_error, permission_error, integrity_error, Result, ok, err,
}
use shared_concurrency_subst.Store.Acquire.{parse_mode, acquire}
use shared_concurrency_subst.Store.Release.{release, heartbeat, after}
use shared_concurrency_subst.Store.Invariant.Valid.{IsValid, release-IsValid, heartbeat-IsValid}
use shared_concurrency_subst.Store.Invariant.Steps.{enter-IsValid}
use shared_concurrency_subst.System.{Broker}
use shared_concurrency_subst.Broker.{
  Payload, Config, Response, Posted, replied, start_acquire, reply_entered, reply_result, do_post,
}
use shared_concurrency_subst.Broker.Cases.{
  post_acquire_cases, post_release_cases, post_heartbeat_cases, do_post_cases,
}

module _ {Stamp : Type 0} (t : TimeText Stamp) where
  pub heartbeat-err :
      (held now : ℕ) (id owner : String) (lease : ℕ) (s : Tables Stamp) (e : Error)
      → heartbeat t held now id owner lease s ≡ err e
      → e ≡ permission_error
  unfolding heartbeat
  heartbeat-err held now id owner lease s e h = ground arith

  start_acquire-IsValid :
      (c : Config) (now start : ℕ) (path mode owner : String) (p : Payload) (b : Broker Stamp)
      → IsValid b.tables
      → IsValid (start_acquire t c now start path mode owner p b).1.tables
  unfolding start_acquire acquire
  start_acquire-IsValid c now start path mode owner p b v = elim (Option-cases (parse_mode mode)) [
    | inl bad ↦ rw (bad, start_acquire, acquire) v
    | inr (m, good) ↦ rw (good, start_acquire, acquire) (enter-IsValid t now _ b.tables v)
  ]

  reply_result-tables :
      (done : String) (b : Broker Stamp) (r : Result (Bool × Tables Stamp))
      → (reply_result t done b r).1.tables ≡ after b.tables r
  unfolding reply_result
  reply_result-tables done b (err permission_error) = refl
  reply_result-tables done b (err value_error) = refl
  reply_result-tables done b (err integrity_error) = refl
  reply_result-tables done b (ok (true, s)) = refl
  reply_result-tables done b (ok (false, s)) = refl

  -- Whatever a POST holds, the handler keeps the invariant of the tables.
  pub do_post-IsValid :
      (c : Config) (now now' start : ℕ) (url : String) (p : Payload) (b : Broker Stamp)
      → IsValid b.tables
      → IsValid (do_post t c now now' start url p b).1.tables
  do_post-IsValid c now now' start url p b v =
      do_post_cases t P c now now' start url p b v
        (post_acquire_cases t P c now start p b v
          (λ path mode owner _. start_acquire-IsValid c now start path mode owner p b v))
        (post_release_cases t P p b v (λ id owner.
          rw (reply_result-tables "released" b (release id owner b.tables))
            (release-IsValid id owner b.tables v)))
        (λ _. post_heartbeat_cases t P c now now' p b v (λ id owner lease.
          rw (reply_result-tables "ok" b (heartbeat t now now' id owner lease b.tables))
            (heartbeat-IsValid t now now' id owner lease b.tables v)))
    where
      P : Posted Stamp × Broker Stamp → Type 0
      P r = IsValid r.1.tables

  release-not_found :
      (id owner : String) (s s' : Tables Stamp) → release id owner s ≡ ok (false, s') → s' ≡ s
  unfolding release
  release-not_found id owner s s' h = ground arith

  Unchanged : Broker Stamp → Posted Stamp × Broker Stamp → Type 0
  Unchanged b r = (x : Response Stamp) → r.0 ≡ replied x → 400 ≤ x.code → r.1 ≡ b

  reply_result-Unchanged :
      (done : String) (b : Broker Stamp) (r : Result (Bool × Tables Stamp))
      → ((s : Tables Stamp) → r ≡ ok (false, s) → s ≡ b.tables)
      → Unchanged b (reply_result t done b r)
  unfolding reply_result Unchanged
  reply_result-Unchanged done b (err permission_error) h x e n = refl
  reply_result-Unchanged done b (err value_error) h x e n = refl
  reply_result-Unchanged done b (err integrity_error) h x e n = refl
  reply_result-Unchanged done b (ok (true, s)) h x e n = absurd (ground arith)
  reply_result-Unchanged done b (ok (false, s)) h x e n =
      ap (λ k. record b { tables = k }) (h s refl)

  start_acquire-Unchanged :
      (c : Config) (now start : ℕ) (path mode owner : String) (p : Payload) (b : Broker Stamp)
      → Unchanged b (start_acquire t c now start path mode owner p b)
  unfolding start_acquire acquire Unchanged reply_entered
  start_acquire-Unchanged c now start path mode owner p b x e n = ground arith

  -- A POST that the handler answers with an error without running the loop of `acquire` has changed
  -- nothing, unless it was a heartbeat: that may have removed a lock over its cap. (The 408 of a call
  -- that waited comes from the loop, and is not meant.)
  pub do_post-error_unchanged :
      (c : Config) (now now' start : ℕ) (url : String) (p : Payload) (b : Broker Stamp)
      (x : Response Stamp)
      → ¬ (url ≡ "/v1/locks/heartbeat")
      → (do_post t c now now' start url p b).0 ≡ replied x
      → 400 ≤ x.code
      → (do_post t c now now' start url p b).1 ≡ b
  unfolding Unchanged
  do_post-error_unchanged c now now' start url p b x other =
      do_post_cases t (Unchanged b) c now now' start url p b (λ y e n. refl)
        (post_acquire_cases t (Unchanged b) c now start p b (λ y e n. refl)
          (λ path mode owner _. start_acquire-Unchanged c now start path mode owner p b))
        (post_release_cases t (Unchanged b) p b (λ y e n. refl)
          (λ id owner. reply_result-Unchanged "released" b _ (release-not_found id owner b.tables)))
        (λ h. absurd (other h)) x
