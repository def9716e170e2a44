-- ===== src/Store/Invariant/Valid.antt =====
-- The invariant of the tables, kept by `release` and `heartbeat`.
use shared_concurrency_subst.Common.{
  ℕ, ◌≤◌, ◌≡◌, refl, String, Bool, true, List, inl, inr, arith, ltb, ◌=s◌, =s→≡, Bool-cases,
  Option-cases, update, In, In-update, first-In,
}
use shared_concurrency_subst.Store.Data.{TimeText, LockInfo, Tables, empty_tables}
use shared_concurrency_subst.Store.Cleanup.{delete_lock, over_held}
use shared_concurrency_subst.Store.Cleanup.Survivors.{In-delete_lock, Distinct-delete_lock}
use shared_concurrency_subst.Store.Release.{
  or_one, after, find_lock, drop_hold, release_row, release, renew_row, heartbeat,
}
use shared_concurrency_subst.Store.Invariant.Ids.{Distinct, Distinct-eq, Distinct-update, Rising}
use shared_concurrency_subst.Store.Invariant.Exclusion.{Exclusive, Covers-Exclusive, update-Covers}

module _ {Stamp : Type 0} where
  -- A write lock excludes other owners, keys are distinct, every hold counts, and the queue is in
  -- the order of its keys, which the counter bounds.
  pub record IsValid (s : Tables Stamp) : Type 0 where
    pub exclusive : Exclusive s.locks
    pub distinct : Distinct s.locks
    pub counted : (a : LockInfo Stamp) → In a s.locks → 1 ≤ a.hold_count
    pub rising : Rising 0 s.last_req s.queue

  pub empty_tables-IsValid : IsValid empty_tables
  empty_tables-IsValid = record {
    exclusive = λ a b i j p w. elim i [ ];
    distinct = tt;
    counted = λ a i. elim i [ ];
    rising = omega arith;
  }

  -- Fewer locks.
  pub fewer-IsValid :
      (s : Tables Stamp) (ls : List (LockInfo Stamp))
      → IsValid s
      → Distinct ls
      → ((a : LockInfo Stamp) → In a ls → In a s.locks)
      → IsValid (record s { locks = ls })
  fewer-IsValid s ls v d sub = record {
    exclusive = Covers-Exclusive ls s.locks (λ b i. (b, sub b i, refl, refl, refl)) v.exclusive;
    distinct = d;
    counted = λ a i. v.counted a (sub a i);
    rising = v.rising;
  }

  delete-IsValid :
      (s : Tables Stamp) (id : String)
      → IsValid s
      → IsValid (record s { locks = delete_lock id s.locks })
  delete-IsValid s id v =
      fewer-IsValid s (delete_lock id s.locks) v (Distinct-delete_lock id s.locks v.distinct)
        (λ a i. (In-delete_lock id a s.locks i).0)

  -- An update of one row that leaves key, path, mode and owner, and a hold at least.
  pub update-IsValid :
      (s : Tables Stamp) (p : LockInfo Stamp → Bool) (f : LockInfo Stamp → LockInfo Stamp)
      → IsValid s
      → ((a : LockInfo Stamp) → (f a).lock_id ≡ a.lock_id)
      → ((a : LockInfo Stamp)
          → ((f a).path ≡ a.path) × ((f a).mode ≡ a.mode) × ((f a).owner ≡ a.owner))
      → ((a : LockInfo Stamp) → In a s.locks → p a ≡ true → 1 ≤ (f a).hold_count)
      → IsValid (record s { locks = update p f s.locks })
  update-IsValid s p f v key same held = record {
    exclusive =
        Covers-Exclusive (update p f s.locks) s.locks (update-Covers p f same s.locks) v.exclusive;
    distinct = Distinct-update p f key s.locks v.distinct;
    counted =
        λ b i. let (a, j, e) = In-update p f b s.locks i in ground (arith, v.counted a j, held a j);
    rising = v.rising;
  }

  release_row-IsValid :
      (r : LockInfo Stamp) (s : Tables Stamp) → IsValid s → In r s.locks → IsValid (release_row r s)
  unfolding release_row drop_hold
  release_row-IsValid r s v m = elim (Bool-cases (ltb 1 (or_one r.hold_count))) [
    | inl many ↦ rw many (
        update-IsValid s (λ x. x.lock_id =s r.lock_id) drop_hold v (λ a. refl)
          (λ a. (refl, refl, refl))
          (λ a i hit.
            let e = Distinct-eq s.locks a r v.distinct i m (=s→≡ _ _ hit) in rw e (ground arith)))
    | inr last ↦ rw last (delete-IsValid s r.lock_id v)
  ]

  -- `release` keeps the invariant, also when it raises.
  pub release-IsValid :
      (lock_id owner : String) (s : Tables Stamp)
      → IsValid s
      → IsValid (after s (release lock_id owner s))
  unfolding release
  release-IsValid lock_id owner s v = elim (Option-cases (find_lock lock_id s)) [
    | inl miss ↦ rw (miss, release) v
    | inr (r, hit) ↦ elim (Bool-cases (r.owner =s owner)) [
      | inl mine ↦ rw (hit, release, mine) (release_row-IsValid r s v (first-In _ r s.locks hit).0)
      | inr other ↦ rw (hit, release, other) v
    ]
  ]

module _ {Stamp : Type 0} (t : TimeText Stamp) where
  renew_row-IsValid :
      (held_now now lease_ms : ℕ) (r : LockInfo Stamp) (s : Tables Stamp)
      → IsValid s
      → IsValid (renew_row t held_now now lease_ms r s).1
  unfolding renew_row
  renew_row-IsValid held_now now lease_ms r s v = elim (Bool-cases (over_held t held_now r)) [
    | inl over ↦ rw over (delete-IsValid s r.lock_id v)
    | inr fine ↦
        rw fine
          (update-IsValid s _ _ v (λ a. refl) (λ a. (refl, refl, refl)) (λ a i hit. v.counted a i))
  ]

  -- `heartbeat` keeps the invariant, also when it raises.
  pub heartbeat-IsValid :
      (held_now now : ℕ) (lock_id owner : String) (lease_ms : ℕ) (s : Tables Stamp)
      → IsValid s
      → IsValid (after s (heartbeat t held_now now lock_id owner lease_ms s))
  unfolding heartbeat
  heartbeat-IsValid held_now now lock_id owner lease_ms s v =
      elim (Option-cases (find_lock lock_id s)) [
        | inl miss ↦ rw (miss, heartbeat) v
        | inr (r, hit) ↦ elim (Bool-cases (r.owner =s owner)) [
          | inl mine ↦ rw (hit, heartbeat, mine) (renew_row-IsValid held_now now lease_ms r s v)
          | inr other ↦ rw (hit, heartbeat, other) v
        ]
      ]
