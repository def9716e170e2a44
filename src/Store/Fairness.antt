-- ===== src/Store/Fairness.antt =====
-- The loop of `acquire`, a round at a time: who is granted, who waits, and who gives up.
use shared_concurrency_subst.Common.{
  ℕ, ◌≤◌, ◌<◌, ◌≡◌, ◌↔◌, ◌⊎◌, inl, inr, String, true, false, arith, ◌=s◌, Bool-cases, any-eq-false,
  In,
}
use shared_concurrency_subst.Store.Data.{Mode, read, write, TimeText, LockInfo, QueueInfo, Tables}
use shared_concurrency_subst.Store.Queries.{can_grant}
use shared_concurrency_subst.Store.Queries.Grants.{
  IsEarliest, NoWriterAhead, Grantable, can_grant-Grantable, Grantable-can_grant,
}
use shared_concurrency_subst.Store.Cleanup.{lease_over, over_held, cleanup_expired}
use shared_concurrency_subst.Store.Cleanup.Survivors.{cleanup_expired_iff}
use shared_concurrency_subst.Store.Acquire.{
  Readings, Pending, granted, new_lock, grant, give_up_or_wait, poll,
}
use shared_concurrency_subst.Store.Invariant.Ids.{Distinct}

module _ {Stamp : Type 0} (t : TimeText Stamp) where
  -- The lock is held, its lease has not run out and it is under its cap.
  abbrev pub Live : Readings → Tables Stamp → LockInfo Stamp → Type 0
  Live r s a =
      In a s.locks × (lease_over t r.cleanup_now a ≡ false) × (over_held t r.held_now a ≡ false)

  -- Fair access, said of the tables before the clean-up: a write needs to be the oldest request on
  -- its path and to meet no live lock; a read needs to meet no live write lock and no older write.
  abbrev pub MayProceed : Readings → Tables Stamp → String → Mode → ℕ → Type 0
  MayProceed r s path write i =
      IsEarliest s path i × ((a : LockInfo Stamp) → Live r s a → ¬ (a.path ≡ path))
  MayProceed r s path read i =
      ((a : LockInfo Stamp) → Live r s a → a.path ≡ path → a.mode ≡ read) × NoWriterAhead s path i

  abbrev pub cleaned : Readings → Tables Stamp → Tables Stamp
  cleaned r s = cleanup_expired t r.cleanup_now r.held_now s

  pub Grantable-MayProceed :
      (r : Readings) (s : Tables Stamp) (path : String) (mode : Mode) (i : ℕ)
      → Distinct s.locks
      → Grantable (cleaned r s) path mode i
      → MayProceed r s path mode i
  unfolding cleanup_expired
  Grantable-MayProceed r s path write i d g =
      (g.0, λ a l. g.1 a ((cleanup_expired_iff t r.cleanup_now r.held_now s a d).1 l))
  Grantable-MayProceed r s path read i d g =
      (λ a l. g.0 a ((cleanup_expired_iff t r.cleanup_now r.held_now s a d).1 l), g.1)

  MayProceed-Grantable :
      (r : Readings) (s : Tables Stamp) (path : String) (mode : Mode) (i : ℕ)
      → Distinct s.locks
      → MayProceed r s path mode i
      → Grantable (cleaned r s) path mode i
  unfolding cleanup_expired
  MayProceed-Grantable r s path write i d g =
      (g.0, λ a l. g.1 a ((cleanup_expired_iff t r.cleanup_now r.held_now s a d).0 l))
  MayProceed-Grantable r s path read i d g =
      (λ a l. g.0 a ((cleanup_expired_iff t r.cleanup_now r.held_now s a d).0 l), g.1)

  give_up_or_wait-ne-granted :
      (r : Readings) (p : Pending) (s : Tables Stamp) (l : LockInfo Stamp)
      → ¬ ((give_up_or_wait t r p s).0 ≡ granted l)
  unfolding give_up_or_wait
  give_up_or_wait-ne-granted r p s l e = ground arith

  -- A round that grants was allowed to.
  pub granted-can_grant :
      (r : Readings) (p : Pending) (s : Tables Stamp) (l : LockInfo Stamp)
      → (poll t r p s).0 ≡ granted l
      → can_grant (cleaned r s) p.request.path p.request.mode p.req_id ≡ true
  unfolding poll
  granted-can_grant r p s l e =
      elim (Bool-cases (can_grant (cleaned r s) p.request.path p.request.mode p.req_id)) [
        | inl go ↦ go
        | inr stay ↦ absurd (give_up_or_wait-ne-granted r p (cleaned r s) l (rw stay at e))
      ]

  -- The row that a grant returns, and the tables after it.
  pub grant_fresh :
      (r : Readings) (p : Pending) (s : Tables Stamp)
      → ((a : LockInfo Stamp) → In a s.locks → ¬ (a.lock_id ≡ r.new_id))
      → (grant t r p s).0 ≡ granted (new_lock t r p.request)
  unfolding grant
  grant_fresh r p s fresh =
      rw (any-eq-false (λ x. x.lock_id =s r.new_id) s.locks (λ a i. ground (arith, fresh a i)))

  -- With distinct keys and a new key that no live lock has, a round of the loop grants the request
  -- exactly when fair access allows it.
  pub poll-granted_iff :
      (r : Readings) (p : Pending) (s : Tables Stamp)
      → Distinct s.locks
      → ((a : LockInfo Stamp) → Live r s a → ¬ (a.lock_id ≡ r.new_id))
      → ((poll t r p s).0 ≡ granted (new_lock t r p.request))
        ↔ MayProceed r s p.request.path p.request.mode p.req_id
  unfolding poll
  poll-granted_iff r p s d fresh = (
    λ e.
        Grantable-MayProceed r s p.request.path p.request.mode p.req_id d
          (can_grant-Grantable _ _ p.request.mode _ (granted-can_grant r p s _ e)),
    λ may.
        rw
          (Grantable-can_grant (cleaned r s) p.request.path p.request.mode p.req_id
            (MayProceed-Grantable r s p.request.path p.request.mode p.req_id d may))
          (grant_fresh r p (cleaned r s)
            (λ a i. fresh a ((cleanup_expired_iff t r.cleanup_now r.held_now s a d).0 i))),
  )

  Grantable-oldest :
      (s : Tables Stamp) (path : String) (mode : Mode) (i : ℕ) (q : QueueInfo Stamp)
      → Grantable s path mode i
      → In q s.queue
      → q.path ≡ path
      → (q.mode ≡ write) ⊎ (mode ≡ write)
      → i ≤ q.req_id
  Grantable-oldest s path write i q g m e conflict = g.0.1 q m e
  Grantable-oldest s path read i q g m e (inl w) = g.1 q m e w
  Grantable-oldest s path read i q g m e (inr w) = cc

  -- Nobody overtakes: while an older request for the same path is queued, and it or the request is a
  -- write, no round grants the request.
  pub poll_no_overtaking :
      (r : Readings) (p : Pending) (s : Tables Stamp) (q : QueueInfo Stamp) (l : LockInfo Stamp)
      → In q s.queue
      → q.path ≡ p.request.path
      → q.req_id < p.req_id
      → (q.mode ≡ write) ⊎ (p.request.mode ≡ write)
      → ¬ ((poll t r p s).0 ≡ granted l)
  unfolding cleanup_expired
  poll_no_overtaking r p s q l m e older conflict g = absurd (
      omega (
        arith,
        Grantable-oldest (cleaned r s) p.request.path p.request.mode p.req_id q
            (can_grant-Grantable _ _ p.request.mode _ (granted-can_grant r p s l g)) m e conflict,
      ))
