-- ===== src/Store/Race.antt =====
-- The upgrade of a read lock, statement by statement: `acquire` looks for other owners and writes the
-- row outside `_cond`, so another call's round can come between the two statements.
use shared_concurrency_subst.Common.{
  ℕ, ◌≡◌, refl, sym, subst, ◌∙◌, inl, inr, false, not, ◌&&◌, ◌||◌, [], ◌∷◌, ◌++◌, Option, none,
  some, arith, ◌=s◌, ≡→=s, if◌then◌else◌, Bool-cases, Option-cases, first, In, In-append_left,
  In-append_right, update-In, first-In, any-false,
}
use shared_concurrency_subst.Store.Data.{TimeText, LockInfo, Tables}
use shared_concurrency_subst.Store.Queries.{is_write, same_mode}
use shared_concurrency_subst.Store.Cleanup.Survivors.{cleanup_expired_iff}
use shared_concurrency_subst.Store.Acquire.{
  Request, returned, Readings, Pending, granted, upgrade, has_other_owner, rewrite_lock, enter_held,
  enter, new_lock, poll,
}
use shared_concurrency_subst.Store.Invariant.Ids.{Distinct}
use shared_concurrency_subst.Store.Invariant.Exclusion.{Exclusive}
use shared_concurrency_subst.Store.Fairness.{Live, cleaned}
use shared_concurrency_subst.Store.Rounds.{poll-granted}

module _ {Stamp : Type 0} (t : TimeText Stamp) where
  -- The tests on the owner's lock and on the other owners.
  abbrev check_held : Request → LockInfo Stamp → Tables Stamp → Option (LockInfo Stamp)
  check_held q r s =
      if is_write r.mode || same_mode r.mode q.mode
      then none
      else if (not (is_write r.mode) && is_write q.mode) && not (has_other_owner t s q.path q.owner)
      then some r
      else none

  -- The two SELECTs: the owner's read lock, if a write is asked for and nobody else holds the path.
  unfoldable pub upgrade_check : Request → Tables Stamp → Option (LockInfo Stamp)
  upgrade_check q s = elim (first (λ r. (r.path =s q.path) && (r.owner =s q.owner)) s.locks) [
    | none ↦ none
    | some r ↦ check_held q r s
  ]

  -- The UPDATE.
  unfoldable pub upgrade_commit : ℕ → Request → LockInfo Stamp → Tables Stamp → Tables Stamp
  unfolding rewrite_lock upgrade
  upgrade_commit now q r s = (rewrite_lock t (upgrade t now q) r s).1

  enter_held-upgrade :
      (now : ℕ) (q : Request) (s : Tables Stamp) (x r : LockInfo Stamp)
      → check_held q x s ≡ some r
      → enter_held t now q x s ≡ (returned (upgrade t now q r), upgrade_commit now q r s)
  unfolding enter_held upgrade_commit rewrite_lock
  enter_held-upgrade now q s x r e =
      elim (Bool-cases (is_write x.mode || same_mode x.mode q.mode)) [
        | inl again ↦ absurd (let h = rw again at e in cc)
        | inr weaker ↦
            elim (Bool-cases (
              (not (is_write x.mode) && is_write q.mode)
              && not (has_other_owner t s q.path q.owner))) [
                | inl alone ↦
                    let h = rw (weaker, alone) at e in
                    let same : x ≡ r = cc in rw (weaker, alone, same)
                | inr shared ↦ absurd (let h = rw (weaker, shared) at e in cc)
              ]
      ]

  -- Run one after the other the two statements are the upgrade of `acquire`.
  pub enter-upgrade :
      (now : ℕ) (q : Request) (s : Tables Stamp) (r : LockInfo Stamp)
      → upgrade_check q s ≡ some r
      → enter t now q s ≡ (returned (upgrade t now q r), upgrade_commit now q r s)
  unfolding enter upgrade_check
  enter-upgrade now q s r e =
      elim (Option-cases (first (λ x. (x.path =s q.path) && (x.owner =s q.owner)) s.locks)) [
        | inl miss ↦ absurd (let h = rw (miss, upgrade_check) at e in cc)
        | inr (x, hit) ↦
            rw (hit, enter) (enter_held-upgrade now q s x r (rw (hit, upgrade_check) at e))
      ]

  pub upgrade_check-In :
      (q : Request) (s : Tables Stamp) (r : LockInfo Stamp)
      → upgrade_check q s ≡ some r
      → (r.path ≡ q.path) × (r.owner ≡ q.owner)
  unfolding upgrade_check
  upgrade_check-In q s r e =
      elim (Option-cases (first (λ x. (x.path =s q.path) && (x.owner =s q.owner)) s.locks)) [
        | inl miss ↦ absurd (let h = rw (miss, upgrade_check) at e in cc)
        | inr (x, hit) ↦
            let h = rw (hit, upgrade_check) at e in
            let found = (first-In _ x s.locks hit).1 in (ground arith, ground arith)
      ]

  -- The race: if between the two statements a round grants another owner's call on the same path,
  -- and the upgraded lock is live then, the tables end with a write lock beside the lock of another
  -- owner on its path.
  pub upgrade_race :
      (s : Tables Stamp) (q : Request) (r : LockInfo Stamp) (now : ℕ) (rd : Readings) (p : Pending)
      (l : LockInfo Stamp)
      → Distinct s.locks
      → upgrade_check q s ≡ some r
      → Live t rd s r
      → p.request.path ≡ q.path
      → ¬ (p.request.owner ≡ q.owner)
      → (poll t rd p s).0 ≡ granted l
      → ¬ Exclusive (upgrade_commit now q r (poll t rd p s).1).locks
  unfolding upgrade_commit new_lock
  upgrade_race s q r now rd p l d checked live path other g exclusive =
      other (sym (exclusive (upgrade t now q r) new old' new' (at_path ∙ sym path) refl) ∙ mine)
    where
      new : LockInfo Stamp
      new = new_lock t rd p.request

      locks : (poll t rd p s).1.locks ≡ (cleaned t rd s).locks ++ new ∷ []
      locks = (poll-granted t rd p s l g).1

      kept : In r (cleaned t rd s).locks
      kept = (cleanup_expired_iff t rd.cleanup_now rd.held_now s r d).1 live

      at_path : r.path ≡ q.path
      at_path = (upgrade_check-In q s r checked).0

      mine : r.owner ≡ q.owner
      mine = (upgrade_check-In q s r checked).1

      fresh : (rd.new_id =s r.lock_id) ≡ false
      fresh =
          ground (arith, any-false _ r (cleaned t rd s).locks (poll-granted t rd p s l g).2 kept)

      old' : In (upgrade t now q r) (upgrade_commit now q r (poll t rd p s).1).locks
      old' = rw (≡→=s r.lock_id r.lock_id refl) at (
          update-In (λ x. x.lock_id =s r.lock_id) (upgrade t now q) r (poll t rd p s).1.locks
            (subst (In r) (sym locks) (In-append_left r (cleaned t rd s).locks _ kept)))

      new' : In new (upgrade_commit now q r (poll t rd p s).1).locks
      new' = rw fresh at (
          update-In (λ x. x.lock_id =s r.lock_id) (upgrade t now q) new (poll t rd p s).1.locks
            (subst (In new) (sym locks) (In-append_right new (cleaned t rd s).locks _ (inl refl))))
