-- ===== src/Store/Interleaved.antt =====
-- Two calls of `release` at once: each reads the row and then writes it, outside `_cond`, so that both
-- may read before either writes.
use shared_concurrency_subst.Common.{◌≡◌, refl, sym, subst, ◌∙◌, String, true, some, arith, ltb}
use shared_concurrency_subst.Store.Data.{LockInfo, Tables}
use shared_concurrency_subst.Store.Cleanup.{delete_lock}
use shared_concurrency_subst.Store.Release.{or_one, find_lock, drop_hold, release_row}
use shared_concurrency_subst.Store.Holds.{release_times, release_times_lem, first-update, found-id}

module _ {Stamp : Type 0} where
  -- The second of the two writes, which a release makes with the row that it read.
  release_row-stale :
      (s : Tables Stamp) (r x : LockInfo Stamp)
      → find_lock r.lock_id s ≡ some x
      → r.hold_count ≡ 2
      → find_lock r.lock_id (release_row r s) ≡ some (drop_hold x)
  unfolding release_row drop_hold
  release_row-stale s r x e h =
      let many : ltb 1 (or_one r.hold_count) ≡ true = ground arith in
      rw many (first-update r.lock_id drop_hold (λ a. refl) s.locks x e)

  release_race_own :
      (s : Tables Stamp) (r : LockInfo Stamp)
      → find_lock r.lock_id s ≡ some r
      → r.hold_count ≡ 2
      → find_lock r.lock_id (release_row r (release_row r s)) ≡ some (record r { hold_count = 0 })
  unfolding drop_hold
  release_race_own s r e h =
      let twice =
        release_row-stale (release_row r s) r (drop_hold r) (release_row-stale s r r e h) h in
      twice ∙ ground arith

  -- Two releases of a lock that is held twice, by its owner: one after the other they remove the lock,
  -- but if both read the row before either writes, the lock stays, with no holds.
  pub release_race :
      (s : Tables Stamp) (id : String) (r : LockInfo Stamp)
      → find_lock id s ≡ some r
      → r.hold_count ≡ 2
      → ((release_times 2 id r.owner s).locks ≡ delete_lock id s.locks)
        × (find_lock id (release_row r (release_row r s)) ≡ some (record r { hold_count = 0 }))
  release_race s id r e h =
      let i = found-id id s r e in
      let own = release_race_own s r (subst (λ k. find_lock k s ≡ some r) (sym i) e) h in
      (
        (release_times_lem 2 id r.owner s r e refl (omega (arith, h))).1 (sym h),
        subst
            (λ k.
              find_lock k (release_row r (release_row r s)) ≡ some (record r { hold_count = 0 }))
            i own,
      )
