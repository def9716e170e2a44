-- ===== src/Store/Returned.antt =====
-- The lock that `acquire` returns is in the tables, and serves the request.
use shared_concurrency_subst.Common.{
  ℕ, ◌+◌, ◌*◌, ◌≡◌, refl, sym, subst, ◌⊎◌, inl, inr, not, ◌&&◌, ◌||◌, List, arith, ◌=s◌, ≡→=s,
  Bool-cases, Option-cases, first, update, In, In-append_right, first-In, update-In,
}
use shared_concurrency_subst.Store.Data.{write, TimeText, LockInfo, Tables}
use shared_concurrency_subst.Store.Queries.{is_write, same_mode}
use shared_concurrency_subst.Store.Acquire.{
  Request, Entered, returned, queued, Readings, Pending, granted, hold_again, upgrade,
  has_other_owner, enqueue, enter_held, enter, new_lock, poll,
}
use shared_concurrency_subst.Store.Fairness.{cleaned}
use shared_concurrency_subst.Store.Rounds.{poll-granted}

module _ {Stamp : Type 0} (t : TimeText Stamp) where
  -- The lock is in the tables, is on the request's path under its owner, and lets it do what it asked
  -- for until the end of its lease.
  pub record Serves (now : ℕ) (q : Request) (l : LockInfo Stamp) (s : Tables Stamp) : Type 0 where
    pub held : In l s.locks
    pub on_path : l.path ≡ q.path
    pub owned : l.owner ≡ q.owner
    pub allowed : (l.mode ≡ write) ⊎ (l.mode ≡ q.mode)
    pub leased : l.lease_expires_at ≡ t.isoformat (now + q.lease_ms * 1000)

  -- A call that does not have to wait: what it returns serves the request.
  abbrev Returns : ℕ → Request → Entered Stamp × Tables Stamp → Type 0
  Returns now q (returned l, s) = Serves now q l s
  Returns now q (queued i, s) = Unit {0}

  In-rewrite :
      (f : LockInfo Stamp → LockInfo Stamp) (r : LockInfo Stamp) (ls : List (LockInfo Stamp))
      → In r ls
      → In (f r) (update (λ x. x.lock_id =s r.lock_id) f ls)
  In-rewrite f r ls m =
      rw (≡→=s r.lock_id r.lock_id refl) at (update-In (λ x. x.lock_id =s r.lock_id) f r ls m)

  enter_held-Returns :
      (now : ℕ) (q : Request) (r : LockInfo Stamp) (s : Tables Stamp)
      → In r s.locks
      → r.path ≡ q.path
      → r.owner ≡ q.owner
      → Returns now q (enter_held t now q r s)
  unfolding enter_held
  enter_held-Returns now q r s m p o =
      elim (Bool-cases (is_write r.mode || same_mode r.mode q.mode)) [
        | inl again ↦ rw again (record {
          held = In-rewrite (hold_again t now q) r s.locks m;
          on_path = p;
          owned = o;
          allowed = ground arith;
          leased = refl;
        })
        | inr weaker ↦
            elim (Bool-cases (
              (not (is_write r.mode) && is_write q.mode)
              && not (has_other_owner t s q.path q.owner))) [
                | inl alone ↦
                    rw (weaker, alone)
                      (record {
                        held = In-rewrite (upgrade t now q) r s.locks m;
                        on_path = p;
                        owned = o;
                        allowed = inl refl;
                        leased = refl;
                      })
                | inr shared ↦ rw (weaker, shared) tt
              ]
      ]

  enter-Returns : (now : ℕ) (q : Request) (s : Tables Stamp) → Returns now q (enter t now q s)
  unfolding enter enqueue
  enter-Returns now q s =
      elim (Option-cases (first (λ r. (r.path =s q.path) && (r.owner =s q.owner)) s.locks)) [
        | inl miss ↦ rw (miss, enter) tt
        | inr (r, hit) ↦
            let (m, found) = first-In _ r s.locks hit in
            rw (hit, enter) (enter_held-Returns now q r s m (ground arith) (ground arith))
      ]

  -- A call of `acquire` that returns before its loop returns a lock of the tables, on the path and
  -- under the owner of the request, that is a write lock or of the mode asked for, with a new lease.
  pub enter-Serves :
      (now : ℕ) (q : Request) (s : Tables Stamp) (l : LockInfo Stamp)
      → (enter t now q s).0 ≡ returned l
      → Serves now q l (enter t now q s).1
  enter-Serves now q s l e =
      subst (λ x. Returns now q (x, (enter t now q s).1)) e (enter-Returns now q s)

  -- A round that grants returns a lock of the tables, on the path and under the owner of the request,
  -- of the mode asked for or a write lock, with a new lease.
  pub poll-Serves :
      (r : Readings) (p : Pending) (s : Tables Stamp) (l : LockInfo Stamp)
      → (poll t r p s).0 ≡ granted l
      → Serves r.granted_now p.request l (poll t r p s).1
  unfolding new_lock
  poll-Serves r p s l e =
      let (same, locks, fresh) = poll-granted t r p s l e in
      rw same (record {
        held =
            subst (In (new_lock t r p.request)) (sym locks)
              (In-append_right (new_lock t r p.request) (cleaned t r s).locks _ (inl refl));
        on_path = refl;
        owned = refl;
        allowed = inr refl;
        leased = refl;
      })
