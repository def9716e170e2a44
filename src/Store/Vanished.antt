-- ===== src/Store/Vanished.antt =====
-- A repeated request and a heartbeat, statement by statement: `acquire` and `heartbeat` read the row and
-- update it outside `_cond`, so that another call's round can clean the row up between the two.
use shared_concurrency_subst.Common.{
  ℕ, ◌+◌, ◌*◌, ◌≡◌, sym, ap, subst, ◌∙◌, ◌⊎◌, inl, inr, true, false, ◌&&◌, ◌||◌, Option, none, some,
  arith, ◌=s◌, =s→≡, if◌then◌else◌, Bool-cases, Option-cases, first, update-none, In, In-append,
  first-In,
}
use shared_concurrency_subst.Store.Data.{write, TimeText, LockInfo, Tables}
use shared_concurrency_subst.Store.Queries.{is_write, same_mode}
use shared_concurrency_subst.Store.Cleanup.{over_held}
use shared_concurrency_subst.Store.Cleanup.Survivors.{cleanup_expired_iff}
use shared_concurrency_subst.Store.Acquire.{
  Request, Entered, returned, Readings, Pending, granted, hold_again, rewrite_lock, enter_held,
  enter, new_lock, poll,
}
use shared_concurrency_subst.Store.Release.{renew_row}
use shared_concurrency_subst.Store.Strangers.{HeldBy}
use shared_concurrency_subst.Store.Invariant.Ids.{Distinct, Distinct-eq}
use shared_concurrency_subst.Store.Fairness.{Live, cleaned}
use shared_concurrency_subst.Store.Rounds.{poll-granted}
use shared_concurrency_subst.Store.Returned.{poll-Serves}
use shared_concurrency_subst.Store.Sticky.{conflict-ne-granted}

module _ {Stamp : Type 0} (t : TimeText Stamp) where
  abbrev reenter_held : Request → LockInfo Stamp → Option (LockInfo Stamp)
  reenter_held q r = if is_write r.mode || same_mode r.mode q.mode then some r else none

  -- The SELECT and the test `can_reenter`.
  unfoldable pub reenter_check : Request → Tables Stamp → Option (LockInfo Stamp)
  reenter_check q s = elim (first (λ r. (r.path =s q.path) && (r.owner =s q.owner)) s.locks) [
    | none ↦ none
    | some r ↦ reenter_held q r
  ]

  -- The UPDATE, and what `acquire` returns: the row as it was read, with the new lease and one more hold.
  unfoldable pub reenter_commit :
      ℕ → Request → LockInfo Stamp → Tables Stamp → Entered Stamp × Tables Stamp
  unfolding rewrite_lock hold_again
  reenter_commit now q r s = rewrite_lock t (hold_again t now q) r s

  abbrev own_row : Request → Tables Stamp → Option (LockInfo Stamp)
  own_row q s = first (λ r. (r.path =s q.path) && (r.owner =s q.owner)) s.locks

  reenter_held-some :
      (q : Request) (x r : LockInfo Stamp)
      → reenter_held q x ≡ some r
      → (x ≡ r) × ((is_write x.mode || same_mode x.mode q.mode) ≡ true)
  reenter_held-some q x r e = elim (Bool-cases (is_write x.mode || same_mode x.mode q.mode)) [
    | inl again ↦ (let k = rw again at e in cc, again)
    | inr weaker ↦ absurd (let k = rw weaker at e in cc)
  ]

  reenter_check-some :
      (q : Request) (s : Tables Stamp) (r : LockInfo Stamp)
      → reenter_check q s ≡ some r
      → (own_row q s ≡ some r) × ((is_write r.mode || same_mode r.mode q.mode) ≡ true)
  unfolding reenter_check
  reenter_check-some q s r e = elim (Option-cases (own_row q s)) [
    | inl miss ↦ absurd (let h = rw (miss, reenter_check) at e in cc)
    | inr (x, hit) ↦
        let (same, again) = reenter_held-some q x r (rw (hit, reenter_check) at e) in
        (hit ∙ ap some same, rw same at again)
  ]

  -- Run one after the other the two statements are the repeated request of `acquire`.
  pub enter-reenter :
      (now : ℕ) (q : Request) (s : Tables Stamp) (r : LockInfo Stamp)
      → reenter_check q s ≡ some r
      → enter t now q s ≡ reenter_commit now q r s
  unfolding enter enter_held reenter_commit rewrite_lock
  enter-reenter now q s r e =
      let (hit, again) = reenter_check-some q s r e in rw (hit, enter, again)

  -- A row that a conflicting grant on its path has overtaken is gone.
  gone :
      (s : Tables Stamp) (r : LockInfo Stamp) (rd : Readings) (p : Pending) (l : LockInfo Stamp)
      → Distinct s.locks
      → In r s.locks
      → p.request.path ≡ r.path
      → (r.mode ≡ write) ⊎ (p.request.mode ≡ write)
      → ¬ (rd.new_id ≡ r.lock_id)
      → (poll t rd p s).0 ≡ granted l
      → (a : LockInfo Stamp) → In a (poll t rd p s).1.locks
      → (a.lock_id =s r.lock_id) ≡ false
  unfolding new_lock
  gone s r rd p l d m path conflict fresh g a i =
      let kept = subst (In a) (poll-granted t rd p s l g).1 i in
      elim (Bool-cases (a.lock_id =s r.lock_id)) [
        | inr other ↦ other
        | inl same ↦ absurd (elim (In-append a (cleaned t rd s).locks _ kept) [
          | inl old ↦
              let live = (cleanup_expired_iff t rd.cleanup_now rd.held_now s a d).0 old in
              let e : a ≡ r = Distinct-eq s.locks a r d live.0 m (=s→≡ _ _ same) in
              conflict-ne-granted t rd s r p l d (subst (Live t rd s) e live) (sym path) conflict g
          | inr (inl new) ↦ fresh (ap (λ (x : LockInfo Stamp). x.lock_id) (sym new) ∙ =s→≡ _ _ same)
          | inr (inr never) ↦ never
        ])
      ]

  -- The race of a repeated request: if between its two statements a round grants a conflicting call on
  -- the path, with a new key, then its UPDATE changes nothing and it returns its lock nevertheless, while
  -- the tables hold the other call's lock and none with the key that it returns.
  pub reenter_race :
      (s : Tables Stamp) (q : Request) (r : LockInfo Stamp) (now : ℕ) (rd : Readings) (p : Pending)
      (l : LockInfo Stamp)
      → Distinct s.locks
      → reenter_check q s ≡ some r
      → p.request.path ≡ q.path
      → (r.mode ≡ write) ⊎ (p.request.mode ≡ write)
      → ¬ (rd.new_id ≡ r.lock_id)
      → (poll t rd p s).0 ≡ granted l
      → (reenter_commit now q r (poll t rd p s).1
          ≡ (returned (hold_again t now q r), (poll t rd p s).1))
        × In l (poll t rd p s).1.locks
        × (¬ HeldBy (poll t rd p s).1 r.lock_id q.owner)
  unfolding reenter_commit rewrite_lock
  reenter_race s q r now rd p l d check path conflict fresh g =
      let (m, found) = first-In _ r s.locks (reenter_check-some q s r check).0 in
      let at_path : r.path ≡ q.path = ground arith in
      let left = gone s r rd p l d m (path ∙ sym at_path) conflict fresh g in
      let same =
        update-none (λ x. x.lock_id =s r.lock_id) (hold_again t now q) (poll t rd p s).1.locks
          left in
      (
        ap (λ ls. (returned (hold_again t now q r), record (poll t rd p s).1 { locks = ls })) same,
        (poll-Serves t rd p s l g).held,
        λ h. let (x, i, k, o) = h in let f = left x i in ground arith,
      )

  -- The race of a heartbeat: if between its reading of a lock under its cap and its UPDATE a round grants
  -- a conflicting call on the path, with a new key, then the heartbeat changes nothing and returns True,
  -- although no lock has its key.
  pub heartbeat_race :
      (s : Tables Stamp) (r : LockInfo Stamp) (held_now now lease : ℕ) (rd : Readings) (p : Pending)
      (l : LockInfo Stamp)
      → Distinct s.locks
      → In r s.locks
      → over_held t held_now r ≡ false
      → p.request.path ≡ r.path
      → (r.mode ≡ write) ⊎ (p.request.mode ≡ write)
      → ¬ (rd.new_id ≡ r.lock_id)
      → (poll t rd p s).0 ≡ granted l
      → (renew_row t held_now now lease r (poll t rd p s).1 ≡ (true, (poll t rd p s).1))
        × (¬ HeldBy (poll t rd p s).1 r.lock_id r.owner)
  unfolding renew_row
  heartbeat_race s r held_now now lease rd p l d m fine path conflict fresh g =
      let left = gone s r rd p l d m path conflict fresh g in
      let same =
        update-none (λ x. x.lock_id =s r.lock_id)
          (λ x. record x { lease_expires_at = t.isoformat (now + lease * 1000) })
          (poll t rd p s).1.locks left in
      (
        rw fine (ap (λ ls. (true, record (poll t rd p s).1 { locks = ls })) same),
        λ h. let (x, i, k, o) = h in let f = left x i in ground arith,
      )
