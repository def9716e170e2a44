-- ===== src/Store/Cleanup.antt =====
-- lock_store.py: `_cleanup_expired`.
pub mod Survivors
use shared_concurrency_subst.Common.{
  ℕ, ◌+◌, ◌*◌, String, Bool, true, false, not, List, [], ◌∷◌, none, some, leb, ◌=s◌, if◌then◌else◌,
  select,
}
use shared_concurrency_subst.Store.Data.{TimeText, LockInfo, Tables}

-- `DELETE FROM locks WHERE lock_id = ?`
unfoldable pub delete_lock :
    {Stamp : Type 0} → String → List (LockInfo Stamp) → List (LockInfo Stamp)
delete_lock id = select (λ r. not (r.lock_id =s id))

abbrev pub has_cap : {Stamp : Type 0} → LockInfo Stamp → Bool
has_cap r = elim r.max_hold_ms [ none ↦ false | some _ ↦ true ]

module _ {Stamp : Type 0} (t : TimeText Stamp) where
  -- `held_ms >= max_hold_ms`, in microseconds. No cap and a text that is no time are never over.
  unfoldable pub over_held : ℕ → LockInfo Stamp → Bool
  over_held now r = elim r.max_hold_ms [
    | none ↦ false
    | some cap ↦ elim (t.fromisoformat r.acquired_at) [
      | none ↦ false
      | some acquired ↦ leb (acquired + cap * 1000) now
    ]
  ]

  unfoldable pub lease_over : ℕ → LockInfo Stamp → Bool
  lease_over now r = t.text_le r.lease_expires_at (t.isoformat now)

  -- The loop over the rows that were read before it.
  unfoldable pub delete_over_held :
      ℕ → List (LockInfo Stamp) → List (LockInfo Stamp) → List (LockInfo Stamp)
  delete_over_held now [] locks = locks
  delete_over_held now (r ∷ rows) locks =
      delete_over_held now rows (if over_held now r then delete_lock r.lock_id locks else locks)

  -- `now` is read twice.
  unfoldable pub cleanup_expired : ℕ → ℕ → Tables Stamp → Tables Stamp
  unfolding delete_over_held over_held lease_over delete_lock
  cleanup_expired now_iso now s =
      let live = select (λ r. not (lease_over now_iso r)) s.locks in
      record s { locks = delete_over_held now (select has_cap live) live }
