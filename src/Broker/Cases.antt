-- ===== src/Broker/Cases.antt =====
-- The ways through the handler of a POST.
use shared_concurrency_subst.Common.{
  ℕ, ◌≡◌, inl, inr, String, none, some, arith, ◌=s◌, =s→≡, Bool-cases, Option-cases,
}
use shared_concurrency_subst.Store.Data.{TimeText}
use shared_concurrency_subst.Store.Acquire.{parse_mode}
use shared_concurrency_subst.Store.Release.{release, heartbeat}
use shared_concurrency_subst.System.{Broker}
use shared_concurrency_subst.Broker.{
  Field, Payload, Config, Posted, truthy, valid_mode, bad_request, not_found, lease_or,
  start_acquire, post_acquire, reply_result, post_release, post_heartbeat, do_post,
}

module _ {Stamp : Type 0} (t : TimeText Stamp) where
  -- A mode that passes the handler's test passes the store's.
  valid_mode-parse_mode :
      (f : Field String) (m : String) → valid_mode f ≡ some m → ¬ (parse_mode m ≡ none)
  unfolding parse_mode
  valid_mode-parse_mode f m h = ground arith

  -- The ways through the three handlers.
  pub post_acquire_cases :
      (P : Posted Stamp × Broker Stamp → Type 0) (c : Config) (now start : ℕ) (p : Payload)
      (b : Broker Stamp)
      → P (bad_request t, b)
      → ((path mode owner : String)
          → ¬ (parse_mode mode ≡ none)
          → P (start_acquire t c now start path mode owner p b))
      → P (post_acquire t c now start p b)
  unfolding post_acquire
  post_acquire_cases P c now start p b bad good = elim (Option-cases (truthy p.path)) [
    | inl no_path ↦ rw (no_path, post_acquire) bad
    | inr (path, hp) ↦ elim (Option-cases (valid_mode p.mode)) [
      | inl no_mode ↦ rw (hp, post_acquire, no_mode) bad
      | inr (mode, hm) ↦ elim (Option-cases (truthy p.owner)) [
        | inl no_owner ↦ rw (hp, post_acquire, hm, no_owner) bad
        | inr (owner, ho) ↦
            rw (hp, post_acquire, hm, ho)
              (good path mode owner (valid_mode-parse_mode p.mode mode hm))
      ]
    ]
  ]

  pub post_release_cases :
      (P : Posted Stamp × Broker Stamp → Type 0) (p : Payload) (b : Broker Stamp)
      → P (bad_request t, b)
      → ((id owner : String) → P (reply_result t "released" b (release id owner b.tables)))
      → P (post_release t p b)
  unfolding post_release
  post_release_cases P p b bad good = elim (Option-cases (truthy p.lock_id)) [
    | inl no_id ↦ rw (no_id, post_release) bad
    | inr (id, hi) ↦ elim (Option-cases (truthy p.owner)) [
      | inl no_owner ↦ rw (hi, post_release, no_owner) bad
      | inr (owner, ho) ↦ rw (hi, post_release, ho) (good id owner)
    ]
  ]

  pub post_heartbeat_cases :
      (P : Posted Stamp × Broker Stamp → Type 0) (c : Config) (held now : ℕ) (p : Payload)
      (b : Broker Stamp)
      → P (bad_request t, b)
      → ((id owner : String) (lease : ℕ)
          → P (reply_result t "ok" b (heartbeat t held now id owner lease b.tables)))
      → P (post_heartbeat t c held now p b)
  unfolding post_heartbeat
  post_heartbeat_cases P c held now p b bad good = elim (Option-cases (truthy p.lock_id)) [
    | inl no_id ↦ rw (no_id, post_heartbeat) bad
    | inr (id, hi) ↦ elim (Option-cases (truthy p.owner)) [
      | inl no_owner ↦ rw (hi, post_heartbeat, no_owner) bad
      | inr (owner, ho) ↦
          rw (hi, post_heartbeat, ho) (good id owner (lease_or p.lease_ms c.lease_ms))
    ]
  ]

  pub do_post_cases :
      (P : Posted Stamp × Broker Stamp → Type 0) (c : Config) (now now' start : ℕ) (url : String)
      (p : Payload) (b : Broker Stamp)
      → P (not_found t, b)
      → P (post_acquire t c now start p b)
      → P (post_release t p b)
      → (url ≡ "/v1/locks/heartbeat" → P (post_heartbeat t c now now' p b))
      → P (do_post t c now now' start url p b)
  unfolding do_post
  do_post_cases P c now now' start url p b none_of acquires releases heartbeats =
      elim (Bool-cases (url =s "/v1/locks/acquire")) [
        | inl e ↦ rw e acquires
        | inr n ↦ elim (Bool-cases (url =s "/v1/locks/release")) [
          | inl e ↦ rw (n, e) releases
          | inr m ↦ elim (Bool-cases (url =s "/v1/locks/heartbeat")) [
            | inl e ↦ rw (n, m, e) (heartbeats (=s→≡ _ _ e))
            | inr k ↦ rw (n, m, k) none_of
          ]
        ]
      ]
