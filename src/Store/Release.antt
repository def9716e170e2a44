-- ===== src/Store/Release.antt =====
-- lock_store.py: `release`, `heartbeat` and `status`.
use shared_concurrency_subst.Common.{
  ℕ, ◌+◌, ◌-◌, ◌*◌, String, Bool, true, false, List, Option, none, some, ltb, ◌==◌, ◌=s◌,
  if◌then◌else◌, select, first, update,
}
use shared_concurrency_subst.Store.Data.{
  TimeText, LockInfo, QueueInfo, Tables, permission_error, Result, ok, err,
}
use shared_concurrency_subst.Store.Cleanup.{delete_lock, over_held}

-- `row[1] or 1`
abbrev pub or_one : ℕ → ℕ
or_one n = if n == 0 then 1 else n

abbrev pub Status : Type 0 → Type 0
Status Stamp = record { locks : List (LockInfo Stamp); queue : List (QueueInfo Stamp) }

module _ {Stamp : Type 0} where
  abbrev pub find_lock : String → Tables Stamp → Option (LockInfo Stamp)
  find_lock lock_id s = first (λ r. r.lock_id =s lock_id) s.locks

  unfoldable pub drop_hold : LockInfo Stamp → LockInfo Stamp
  drop_hold r = record r { hold_count = r.hold_count - 1 }

  -- The part of `release` after the row is found and the owner agrees.
  unfoldable pub release_row : LockInfo Stamp → Tables Stamp → Tables Stamp
  unfolding drop_hold delete_lock
  release_row r s =
      if ltb 1 (or_one r.hold_count)
      then record s { locks = update (λ x. x.lock_id =s r.lock_id) drop_hold s.locks }
      else record s { locks = delete_lock r.lock_id s.locks }

  unfoldable pub release : String → String → Tables Stamp → Result (Bool × Tables Stamp)
  unfolding release_row
  release lock_id owner s = elim (find_lock lock_id s) [
    | none ↦ ok (false, s)
    | some r ↦ if r.owner =s owner then ok (true, release_row r s) else err permission_error
  ]

  module _ (t : TimeText Stamp) where
    -- The part of `heartbeat` after the row is found and the owner agrees. The end of the lease is in the
    -- range of `datetime`.
    unfoldable pub renew_row : ℕ → ℕ → ℕ → LockInfo Stamp → Tables Stamp → Bool × Tables Stamp
    unfolding over_held delete_lock
    renew_row held_now now lease_ms r s =
        if over_held t held_now r
        then (false, record s { locks = delete_lock r.lock_id s.locks })
        else (
          true,
          record s {
            locks =
                update (λ x. x.lock_id =s r.lock_id)
                  (λ x. record x { lease_expires_at = t.isoformat (now + lease_ms * 1000) })
                  s.locks;
          },
        )

    unfoldable pub heartbeat :
        ℕ → ℕ → String → String → ℕ → Tables Stamp → Result (Bool × Tables Stamp)
    unfolding renew_row
    heartbeat held_now now lock_id owner lease_ms s = elim (find_lock lock_id s) [
      | none ↦ ok (false, s)
      | some r ↦
          if r.owner =s owner
          then ok (renew_row held_now now lease_ms r s)
          else err permission_error
    ]

  -- An absent and an empty path both ask for everything.
  unfoldable pub status : Option String → Tables Stamp → Status Stamp
  status none s = record { locks = s.locks; queue = s.queue }
  status (some path) s =
      if path =s "" then record { locks = s.locks; queue = s.queue } else record {
        locks = select (λ r. r.path =s path) s.locks;
        queue = select (λ q. q.path =s path) s.queue;
      }

-- The tables after a call; one that raises leaves them.
abbrev pub after : {Stamp : Type 0} → Tables Stamp → Result (Bool × Tables Stamp) → Tables Stamp
after s (ok (_, s')) = s'
after s (err _) = s
