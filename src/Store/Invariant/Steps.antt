-- ===== src/Store/Invariant/Steps.antt =====
-- `acquire` keeps the invariant of the tables: its part before the loop, and a round of the loop.
use shared_concurrency_subst.Common.{
  ℕ, ◌≡◌, refl, String, true, false, ◌&&◌, ◌||◌, not, inl, inr, arith, leb, ◌=s◌, Bool-cases,
  Option-cases, first, any, In, In-append, In-update, first-In, any-false,
}
use shared_concurrency_subst.Store.Data.{Mode, read, write, TimeText, LockInfo, Tables}
use shared_concurrency_subst.Store.Queries.{is_write, same_mode, can_grant}
use shared_concurrency_subst.Store.Queries.Grants.{Grantable, can_grant-Grantable}
use shared_concurrency_subst.Store.Cleanup.{cleanup_expired}
use shared_concurrency_subst.Store.Cleanup.Survivors.{Distinct-cleanup_expired, In-cleanup_expired}
use shared_concurrency_subst.Store.Acquire.{
  Request, Readings, Pending, hold_again, upgrade, has_other_owner, enqueue, rewrite_lock,
  enter_held, enter, new_lock, dequeue, grant, elapsed_ms, give_up_or_wait, poll,
}
use shared_concurrency_subst.Store.Invariant.Ids.{
  Distinct-update, Distinct-append, Rising-select, Rising-append,
}
use shared_concurrency_subst.Store.Invariant.Exclusion.{append-Exclusive, upgrade-Exclusive}
use shared_concurrency_subst.Store.Invariant.Valid.{IsValid, fewer-IsValid, update-IsValid}

module _ {Stamp : Type 0} (t : TimeText Stamp) where
  cleanup_expired-IsValid :
      (now_iso now : ℕ) (s : Tables Stamp) → IsValid s → IsValid (cleanup_expired t now_iso now s)
  unfolding cleanup_expired
  cleanup_expired-IsValid now_iso now s v =
      fewer-IsValid s _ v (Distinct-cleanup_expired t now_iso now s v.distinct)
        (λ a i. (In-cleanup_expired t now_iso now s a i).0)

  enqueue-IsValid :
      (now : ℕ) (q : Request) (s : Tables Stamp) → IsValid s → IsValid (enqueue t now q s).1
  unfolding enqueue
  enqueue-IsValid now q s v = record {
    exclusive = v.exclusive;
    distinct = v.distinct;
    counted = v.counted;
    rising = Rising-append 0 s.last_req s.queue _ refl v.rising;
  }

  hold_again-IsValid :
      (now : ℕ) (q : Request) (r : LockInfo Stamp) (s : Tables Stamp)
      → IsValid s
      → IsValid (rewrite_lock t (hold_again t now q) r s).1
  unfolding rewrite_lock hold_again
  hold_again-IsValid now q r s v =
      update-IsValid s _ _ v (λ a. refl) (λ a. (refl, refl, refl)) (λ a i hit. omega arith)

  upgrade-IsValid :
      (now : ℕ) (q : Request) (r : LockInfo Stamp) (s : Tables Stamp)
      → IsValid s
      → In r s.locks
      → r.path ≡ q.path
      → r.owner ≡ q.owner
      → has_other_owner t s q.path q.owner ≡ false
      → IsValid (rewrite_lock t (upgrade t now q) r s).1
  unfolding rewrite_lock upgrade has_other_owner
  upgrade-IsValid now q r s v m p o alone = record {
    exclusive =
        upgrade-Exclusive (upgrade t now q) s.locks r (λ a. (refl, refl)) v.distinct m
          (λ a i e. ground (arith, any-false _ a s.locks alone i)) v.exclusive;
    distinct = Distinct-update _ (upgrade t now q) (λ a. refl) s.locks v.distinct;
    counted = λ b i.
        let (a, j, e) = In-update _ (upgrade t now q) b s.locks i in ground (arith, v.counted a j);
    rising = v.rising;
  }

  enter_held-IsValid :
      (now : ℕ) (q : Request) (r : LockInfo Stamp) (s : Tables Stamp)
      → IsValid s
      → In r s.locks
      → r.path ≡ q.path
      → r.owner ≡ q.owner
      → IsValid (enter_held t now q r s).1
  unfolding enter_held
  enter_held-IsValid now q r s v m p o =
      elim (Bool-cases (is_write r.mode || same_mode r.mode q.mode)) [
        | inl again ↦ rw again (hold_again-IsValid now q r s v)
        | inr weaker ↦
            elim (Bool-cases (
              (not (is_write r.mode) && is_write q.mode)
              && not (has_other_owner t s q.path q.owner))) [
                | inl alone ↦ rw (weaker, alone) (upgrade-IsValid now q r s v m p o (ground arith))
                | inr shared ↦ rw (weaker, shared) (enqueue-IsValid now q s v)
              ]
      ]

  -- The part of `acquire` before its loop keeps the invariant.
  pub enter-IsValid :
      (now : ℕ) (q : Request) (s : Tables Stamp) → IsValid s → IsValid (enter t now q s).1
  unfolding enter
  enter-IsValid now q s v =
      elim (Option-cases (first (λ r. (r.path =s q.path) && (r.owner =s q.owner)) s.locks)) [
        | inl miss ↦ rw (miss, enter) (enqueue-IsValid now q s v)
        | inr (r, hit) ↦
            let (m, found) = first-In _ r s.locks hit in
            rw (hit, enter) (enter_held-IsValid now q r s v m (ground arith) (ground arith))
      ]

  dequeue-IsValid :
      (s : Tables Stamp) (i : ℕ) → IsValid s → IsValid (record s { queue = dequeue t i s.queue })
  unfolding dequeue
  dequeue-IsValid s i v = record {
    exclusive = v.exclusive;
    distinct = v.distinct;
    counted = v.counted;
    rising = Rising-select _ 0 s.last_req s.queue v.rising;
  }

  -- A new lock meets no lock on its path, or is a read lock among read locks.
  pub Grantable-free :
      (s : Tables Stamp) (path : String) (mode : Mode) (i : ℕ) (a : LockInfo Stamp)
      → Grantable s path mode i
      → In a s.locks
      → a.path ≡ path
      → (a.mode ≡ read) × (mode ≡ read)
  Grantable-free s path read i a g m e = (g.0 a m e, refl)
  Grantable-free s path write i a g m e = absurd (g.1 a m e)

  grant-IsValid :
      (r : Readings) (p : Pending) (s : Tables Stamp)
      → IsValid s
      → can_grant s p.request.path p.request.mode p.req_id ≡ true
      → IsValid (grant t r p s).1
  unfolding grant new_lock
  grant-IsValid r p s v g = elim (Bool-cases (any (λ x. x.lock_id =s r.new_id) s.locks)) [
    | inl taken ↦ rw taken v
    | inr fresh ↦ rw fresh (record {
      exclusive = append-Exclusive s.locks (new_lock t r p.request) v.exclusive (λ a i e.
          Grantable-free s p.request.path p.request.mode p.req_id a
            (can_grant-Grantable s p.request.path p.request.mode p.req_id g) i e);
      distinct =
          Distinct-append s.locks (new_lock t r p.request) v.distinct
            (λ a i e. ground (arith, any-false _ a s.locks fresh i));
      counted = λ a i. elim (In-append a s.locks _ i) [
        | inl old ↦ v.counted a old
        | inr (inl new) ↦ rw new (omega arith)
        | inr (inr never) ↦ absurd never
      ];
      rising = (dequeue-IsValid s p.req_id v).rising;
    })
  ]

  give_up_or_wait-IsValid :
      (r : Readings) (p : Pending) (s : Tables Stamp)
      → IsValid s
      → IsValid (give_up_or_wait t r p s).1
  unfolding give_up_or_wait
  give_up_or_wait-IsValid r p s v = elim (Option-cases p.request.timeout_ms) [
    | inl forever ↦ rw (forever, give_up_or_wait) v
    | inr (limit, e) ↦ elim (Bool-cases (leb limit (elapsed_ms t r p))) [
      | inl over ↦ rw (e, give_up_or_wait, over) (dequeue-IsValid s p.req_id v)
      | inr time ↦ rw (e, give_up_or_wait, time) v
    ]
  ]

  -- A round of the loop of `acquire` keeps the invariant, whether it grants, gives up, waits or fails.
  pub poll-IsValid :
      (r : Readings) (p : Pending) (s : Tables Stamp) → IsValid s → IsValid (poll t r p s).1
  unfolding poll
  poll-IsValid r p s v =
      let s' = cleanup_expired t r.cleanup_now r.held_now s in
      let v' = cleanup_expired-IsValid r.cleanup_now r.held_now s v in
      elim (Bool-cases (can_grant s' p.request.path p.request.mode p.req_id)) [
        | inl go ↦ rw (go, poll) (grant-IsValid r p s' v' go)
        | inr stay ↦ rw (stay, poll) (give_up_or_wait-IsValid r p s' v')
      ]
