-- ===== src/Store/Conflicts.antt =====
-- A round of `acquire` beside a lock that keeps it from granting.
use shared_concurrency_subst.Common.{
  ℕ, ◌≡◌, refl, ◌⊎◌, inl, inr, some, arith, ◌=s◌, Bool-cases, Option-cases, any, In, In-append_left,
  leb, true, ◌-◌,
}
use shared_concurrency_subst.Store.Data.{TimeText, LockInfo, Tables}
use shared_concurrency_subst.Store.Cleanup.Survivors.{cleanup_expired_iff}
use shared_concurrency_subst.Store.Queries.{can_grant}
use shared_concurrency_subst.Store.Acquire.{
  Readings, Pending, timed_out, waiting, grant, give_up_or_wait, poll, elapsed_ms,
}
use shared_concurrency_subst.Store.Invariant.Ids.{Distinct}
use shared_concurrency_subst.Store.Fairness.{Live, cleaned}

module _ {Stamp : Type 0} (t : TimeText Stamp) where
  give_up_or_wait-In :
      (r : Readings) (p : Pending) (s : Tables Stamp) (a : LockInfo Stamp)
      → In a s.locks
      → In a (give_up_or_wait t r p s).1.locks
  unfolding give_up_or_wait
  give_up_or_wait-In r p s a m = ground arith

  grant-In :
      (r : Readings) (p : Pending) (s : Tables Stamp) (a : LockInfo Stamp)
      → In a s.locks
      → In a (grant t r p s).1.locks
  unfolding grant
  grant-In r p s a m = elim (Bool-cases (any (λ x. x.lock_id =s r.new_id) s.locks)) [
    | inl taken ↦ rw taken m
    | inr fresh ↦ rw fresh (In-append_left a s.locks _ m)
  ]

  -- A round keeps every live lock.
  pub Live-poll :
      (r : Readings) (p : Pending) (s : Tables Stamp) (a : LockInfo Stamp)
      → Distinct s.locks
      → Live t r s a
      → In a (poll t r p s).1.locks
  unfolding poll
  Live-poll r p s a d live =
      let kept = (cleanup_expired_iff t r.cleanup_now r.held_now s a d).1 live in
      elim (Bool-cases (can_grant (cleaned t r s) p.request.path p.request.mode p.req_id)) [
        | inl go ↦ rw go (grant-In r p (cleaned t r s) a kept)
        | inr stay ↦ rw stay (give_up_or_wait-In r p (cleaned t r s) a kept)
      ]

  -- What a round that cannot grant gives the call.
  pub give_up_or_wait-cases :
      (r : Readings) (p : Pending) (s : Tables Stamp)
      → ((ms : ℕ) × ((give_up_or_wait t r p s).0 ≡ waiting ms))
        ⊎ (((give_up_or_wait t r p s).0 ≡ timed_out)
            × (limit : ℕ) × (p.request.timeout_ms ≡ some limit))
  unfolding give_up_or_wait
  give_up_or_wait-cases r p s = elim (Option-cases p.request.timeout_ms) [
    | inl none_given ↦ rw (none_given, give_up_or_wait) (inl (1000, refl))
    | inr (limit, given) ↦ elim (Bool-cases (leb limit (elapsed_ms t r p))) [
      | inl over ↦ rw (given, give_up_or_wait, over) (inr (refl, limit, refl))
      | inr early ↦ rw (given, give_up_or_wait, early) (inl (limit - elapsed_ms t r p, refl))
    ]
  ]

  pub poll-conflict :
      (r : Readings) (p : Pending) (s : Tables Stamp)
      → ¬ (can_grant (cleaned t r s) p.request.path p.request.mode p.req_id ≡ true)
      → poll t r p s ≡ give_up_or_wait t r p (cleaned t r s)
  unfolding poll
  poll-conflict r p s never =
      elim (Bool-cases (can_grant (cleaned t r s) p.request.path p.request.mode p.req_id)) [
        | inl go ↦ absurd (never go)
        | inr stay ↦ rw stay refl
      ]
