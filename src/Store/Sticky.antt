-- ===== src/Store/Sticky.antt =====
-- A write that the only reader of a path asks for and gives back: `acquire` turns its lock into a write
-- lock, and `release` takes the hold away and leaves the mode.
use shared_concurrency_subst.Common.{
  ℕ, ◌+◌, ◌≤◌, ◌≡◌, refl, sym, ap, ◌∙◌, ◌⊎◌, inl, inr, true, some, arith, ltb, ◌=s◌, =s→≡, ≡→=s,
  Option-cases, In, first-In, first-none,
}
use shared_concurrency_subst.Store.Data.{Mode, read, write, TimeText, LockInfo, Tables}
use shared_concurrency_subst.Store.Acquire.{
  Request, Readings, Pending, granted, lease_end, upgrade, rewrite_lock, enter, poll,
}
use shared_concurrency_subst.Store.Release.{
  or_one, after, find_lock, drop_hold, release_row, release,
}
use shared_concurrency_subst.Store.Invariant.Ids.{Distinct, Distinct-eq}
use shared_concurrency_subst.Store.Invariant.Valid.{IsValid, release-IsValid}
use shared_concurrency_subst.Store.Invariant.Steps.{enter-IsValid}
use shared_concurrency_subst.Store.Queries.Grants.{can_grant-Grantable}
use shared_concurrency_subst.Store.Fairness.{
  Live, MayProceed, Grantable-MayProceed, granted-can_grant, cleaned,
}
use shared_concurrency_subst.Store.Holds.{first-update}
use shared_concurrency_subst.Store.Race.{
  upgrade_check, upgrade_commit, enter-upgrade, upgrade_check-In,
}
use shared_concurrency_subst.Store.Queries.{can_grant}

module _ {Stamp : Type 0} where
  -- With distinct keys a row is the one that is found under its key.
  pub In-find_lock :
      (s : Tables Stamp) (r : LockInfo Stamp)
      → Distinct s.locks
      → In r s.locks
      → find_lock r.lock_id s ≡ some r
  In-find_lock s r d m = elim (Option-cases (find_lock r.lock_id s)) [
    | inl miss ↦ absurd (
        let h = first-none (λ x. x.lock_id =s r.lock_id) r s.locks miss m in
        let g = ≡→=s r.lock_id r.lock_id refl in cc)
    | inr (x, hit) ↦
        let (n, same) = first-In _ x s.locks hit in
        let e : x ≡ r = Distinct-eq s.locks x r d n m (=s→≡ _ _ same) in rw e at hit
  ]

module _ {Stamp : Type 0} (t : TimeText Stamp) where
  -- Beside a live lock on its path, a conflicting request may not be granted.
  pub conflict-can_grant :
      (rd : Readings) (s : Tables Stamp) (a : LockInfo Stamp) (p : Pending)
      → Distinct s.locks
      → Live t rd s a
      → a.path ≡ p.request.path
      → (a.mode ≡ write) ⊎ (p.request.mode ≡ write)
      → ¬ (can_grant (cleaned t rd s) p.request.path p.request.mode p.req_id ≡ true)
  conflict-can_grant rd s a p d live same conflict g = blocks p.request.mode conflict (
      Grantable-MayProceed t rd s p.request.path p.request.mode p.req_id d
        (can_grant-Grantable _ p.request.path p.request.mode _ g))
    where
      blocks :
          (mode : Mode)
          → (a.mode ≡ write) ⊎ (mode ≡ write)
          → ¬ MayProceed t rd s p.request.path mode p.req_id
      blocks write c may = may.1 a live same
      blocks read (inl writes) may = let reads = may.0 a live same in cc
      blocks read (inr writes) may = cc

  -- A live lock on the path keeps every conflicting round on it from granting.
  pub conflict-ne-granted :
      (rd : Readings) (s : Tables Stamp) (a : LockInfo Stamp) (p : Pending) (l : LockInfo Stamp)
      → Distinct s.locks
      → Live t rd s a
      → a.path ≡ p.request.path
      → (a.mode ≡ write) ⊎ (p.request.mode ≡ write)
      → ¬ ((poll t rd p s).0 ≡ granted l)
  conflict-ne-granted rd s a p l d live same conflict g =
      conflict-can_grant rd s a p d live same conflict (granted-can_grant t rd p s l g)

  -- The lock after the write was given back.
  abbrev pub still_write : ℕ → Request → LockInfo Stamp → LockInfo Stamp
  still_write now q r = record r { mode = write; lease_expires_at = lease_end t now q.lease_ms }

  -- The tables after the write was asked for and given back.
  abbrev pub given_back : ℕ → Request → LockInfo Stamp → Tables Stamp → Tables Stamp
  given_back now q r s = let s' = (enter t now q s).1 in after s' (release r.lock_id q.owner s')

  release-upgraded :
      (now : ℕ) (q : Request) (r : LockInfo Stamp) (s : Tables Stamp)
      → find_lock r.lock_id s ≡ some (upgrade t now q r)
      → r.owner ≡ q.owner
      → 1 ≤ r.hold_count
      → find_lock r.lock_id (after s (release r.lock_id q.owner s)) ≡ some (still_write now q r)
  unfolding release release_row drop_hold upgrade
  release-upgraded now q r s found mine held =
      let own = ≡→=s r.owner q.owner mine in
      let many : ltb 1 (or_one (r.hold_count + 1)) ≡ true = ground arith in
      rw (found, release, own, many)
        (first-update r.lock_id drop_hold (λ a. refl) s.locks (upgrade t now q r) found
          ∙ ap some (ground arith))

  -- When the only reader of a path asks for a write and then releases it once, its lock has the holds
  -- that it had as a reader and is a write lock still: no round on the path grants anybody anything
  -- while it is live.
  pub upgrade_sticks :
      (now : ℕ) (q : Request) (s : Tables Stamp) (r : LockInfo Stamp)
      → IsValid s
      → In r s.locks
      → upgrade_check t q s ≡ some r
      → (find_lock r.lock_id (given_back now q r s) ≡ some (still_write now q r))
        × ((rd : Readings) (p : Pending) (l : LockInfo Stamp)
            → Live t rd (given_back now q r s) (still_write now q r)
            → p.request.path ≡ q.path
            → ¬ ((poll t rd p (given_back now q r s)).0 ≡ granted l))
  unfolding upgrade_commit rewrite_lock upgrade
  upgrade_sticks now q s r v m check =
      let found =
        first-update r.lock_id (upgrade t now q) (λ a. refl) s.locks r
          (In-find_lock s r v.distinct m) in
      let asked = enter-upgrade t now q s r check in
      let (at_path, mine) = upgrade_check-In t q s r check in
      (
        rw asked (release-upgraded now q r (upgrade_commit t now q r s) found mine (v.counted r m)),
        λ rd p l live path.
            conflict-ne-granted rd (given_back now q r s) (still_write now q r) p l
              (release-IsValid r.lock_id q.owner _ (enter-IsValid t now q s v)).distinct live
              (at_path ∙ sym path) (inl refl),
      )
