-- ===== src/Store/Rounds.antt =====
-- The rounds of the loop of `acquire`: how long they wait, and what they leave in the tables.
use shared_concurrency_subst.Common.{
  ℕ, ◌+◌, ◌<◌, ◌≡◌, inl, inr, Bool, true, false, [], ◌∷◌, ◌++◌, some, if◌then◌else◌, arith, ◌=s◌,
  Bool-cases, any,
}
use shared_concurrency_subst.Store.Data.{TimeText, LockInfo, Tables}
use shared_concurrency_subst.Store.Queries.{can_grant}
use shared_concurrency_subst.Store.Cleanup.{cleanup_expired}
use shared_concurrency_subst.Store.Acquire.{
  Readings, Pending, Polled, granted, timed_out, waiting, raised, elapsed_ms, new_lock, dequeue,
  grant, give_up_or_wait, poll,
}
use shared_concurrency_subst.Store.Fairness.{cleaned, granted-can_grant}

module _ {Stamp : Type 0} (t : TimeText Stamp) where
  give_up_or_wait-waiting :
      (r : Readings) (p : Pending) (s : Tables Stamp) (limit ms : ℕ)
      → p.request.timeout_ms ≡ some limit
      → (give_up_or_wait t r p s).0 ≡ waiting ms
      → (elapsed_ms t r p < limit) × (elapsed_ms t r p + ms ≡ limit)
  unfolding give_up_or_wait
  give_up_or_wait-waiting r p s limit ms e w = ground arith

  -- The outcomes that end a call: its row leaves the queue.
  abbrev pub leaves : Polled Stamp → Bool
  leaves (granted _) = true
  leaves timed_out = true
  leaves (waiting _) = false
  leaves (raised _) = false

  grant-queue :
      (r : Readings) (p : Pending) (s : Tables Stamp)
      → (grant t r p s).1.queue
        ≡ (if leaves (grant t r p s).0 then dequeue t p.req_id s.queue else s.queue)
  unfolding grant
  grant-queue r p s = elim (Bool-cases (any (λ x. x.lock_id =s r.new_id) s.locks)) [
    | inl taken ↦ rw taken
    | inr fresh ↦ rw fresh
  ]

  give_up_or_wait-queue :
      (r : Readings) (p : Pending) (s : Tables Stamp)
      → (give_up_or_wait t r p s).1.queue
        ≡ (if leaves (give_up_or_wait t r p s).0 then dequeue t p.req_id s.queue else s.queue)
  unfolding give_up_or_wait
  give_up_or_wait-queue r p s = ground arith

  module _ (r : Readings) (p : Pending) (s : Tables Stamp) where
    go : Bool
    go = can_grant (cleaned t r s) p.request.path p.request.mode p.req_id

    poll-grant : go ≡ true → poll t r p s ≡ grant t r p (cleaned t r s)
    unfolding poll go
    poll-grant e = rw e

    poll-give_up_or_wait : go ≡ false → poll t r p s ≡ give_up_or_wait t r p (cleaned t r s)
    unfolding poll go
    poll-give_up_or_wait e = rw e

    grant-ne-waiting : (ms : ℕ) → ¬ ((grant t r p s).0 ≡ waiting ms)
    unfolding grant
    grant-ne-waiting ms e = ground arith

  -- A round of a call with a limit waits only while the limit has not passed since the call, and
  -- then for exactly what is left of it.
  pub poll_timeout :
      (r : Readings) (p : Pending) (s : Tables Stamp) (limit ms : ℕ)
      → p.request.timeout_ms ≡ some limit
      → (poll t r p s).0 ≡ waiting ms
      → (elapsed_ms t r p < limit) × (elapsed_ms t r p + ms ≡ limit)
  poll_timeout r p s limit ms e w = elim (Bool-cases (go r p s)) [
    | inl free ↦ absurd (grant-ne-waiting r p (cleaned t r s) ms (rw (poll-grant r p s free) at w))
    | inr busy ↦
        give_up_or_wait-waiting r p (cleaned t r s) limit ms e
          (rw (poll-give_up_or_wait r p s busy) at w)
  ]

  -- A round that grants or gives up takes the rows with the request's key from the queue, and no
  -- other; any other round leaves the queue alone.
  pub poll-queue :
      (r : Readings) (p : Pending) (s : Tables Stamp)
      → (poll t r p s).1.queue
        ≡ (if leaves (poll t r p s).0 then dequeue t p.req_id s.queue else s.queue)
  unfolding cleanup_expired
  poll-queue r p s = elim (Bool-cases (go r p s)) [
    | inl free ↦ rw (poll-grant r p s free) (grant-queue r p (cleaned t r s))
    | inr busy ↦ rw (poll-give_up_or_wait r p s busy) (give_up_or_wait-queue r p (cleaned t r s))
  ]

  grant-granted :
      (r : Readings) (p : Pending) (s : Tables Stamp) (l : LockInfo Stamp)
      → (grant t r p s).0 ≡ granted l
      → (l ≡ new_lock t r p.request)
        × ((grant t r p s).1.locks ≡ s.locks ++ new_lock t r p.request ∷ [])
        × (any (λ x. x.lock_id =s r.new_id) s.locks ≡ false)
  unfolding grant
  grant-granted r p s l e = elim (Bool-cases (any (λ x. x.lock_id =s r.new_id) s.locks)) [
    | inl taken ↦ absurd (let h = rw taken at e in cc)
    | inr fresh ↦ let h = rw fresh at e in (cc, rw fresh, fresh)
  ]

  -- A grant appends its lock to the locks that the clean-up left, under a key that none of them has.
  pub poll-granted :
      (r : Readings) (p : Pending) (s : Tables Stamp) (l : LockInfo Stamp)
      → (poll t r p s).0 ≡ granted l
      → (l ≡ new_lock t r p.request)
        × ((poll t r p s).1.locks ≡ (cleaned t r s).locks ++ new_lock t r p.request ∷ [])
        × (any (λ x. x.lock_id =s r.new_id) (cleaned t r s).locks ≡ false)
  unfolding go
  poll-granted r p s l e =
      let same = poll-grant r p s (granted-can_grant t r p s l e) in
      rw same (grant-granted r p (cleaned t r s) l (rw same at e))
