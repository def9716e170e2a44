-- ===== src/Store/Holds.antt =====
-- Hold counts: releases of a lock that is held several times.
use shared_concurrency_subst.Common.{
  ℕ, zero, suc, ◌-◌, ◌≤◌, ◌<◌, ◌≡◌, refl, sym, ap, subst, ◌∙◌, String, true, false, List, [], ◌∷◌,
  some, inl, inr, arith, ltb, ◌=s◌, =s→≡, ≡→=s, Bool-cases, select, first, update, first-In,
}
use shared_concurrency_subst.Store.Data.{LockInfo, Tables}
use shared_concurrency_subst.Store.Cleanup.{delete_lock}
use shared_concurrency_subst.Store.Release.{
  or_one, after, find_lock, drop_hold, release_row, release,
}

module _ {Stamp : Type 0} where
  pub first-update :
      (id : String) (f : LockInfo Stamp → LockInfo Stamp)
      → ((a : LockInfo Stamp) → (f a).lock_id ≡ a.lock_id)
      → (ls : List (LockInfo Stamp)) (r : LockInfo Stamp) → first (λ x. x.lock_id =s id) ls ≡ some r
      → first (λ x. x.lock_id =s id) (update (λ x. x.lock_id =s id) f ls) ≡ some (f r)
  unfolding first update
  first-update id f same [] r e = cc
  first-update id f same (x ∷ xs) r e = elim (Bool-cases (x.lock_id =s id)) [
    | inl hit ↦ ground (arith, same x)
    | inr miss ↦ ground (arith, first-update id f same xs r)
  ]

  delete_lock-update :
      (id : String) (f : LockInfo Stamp → LockInfo Stamp)
      → ((a : LockInfo Stamp) → (f a).lock_id ≡ a.lock_id)
      → (ls : List (LockInfo Stamp))
      → delete_lock id (update (λ x. x.lock_id =s id) f ls) ≡ delete_lock id ls
  unfolding delete_lock select update
  delete_lock-update id f same [] = refl
  delete_lock-update id f same (x ∷ xs) = ground (arith, same x, delete_lock-update id f same xs)

  -- The holder of a lock releases it once.
  release_held :
      (id owner : String) (s : Tables Stamp) (r : LockInfo Stamp)
      → find_lock id s ≡ some r
      → r.owner ≡ owner
      → after s (release id owner s) ≡ release_row r s
  unfolding release
  release_held id owner s r e o = rw (e, release, ≡→=s r.owner owner o)

  pub found-id :
      (id : String) (s : Tables Stamp) (r : LockInfo Stamp)
      → find_lock id s ≡ some r
      → r.lock_id ≡ id
  found-id id s r e = =s→≡ _ _ (first-In _ r s.locks e).1

  release_again_own :
      (s : Tables Stamp) (r : LockInfo Stamp)
      → find_lock r.lock_id s ≡ some r
      → 1 < r.hold_count
      → (find_lock r.lock_id (release_row r s) ≡ some (drop_hold r))
        × (delete_lock r.lock_id (release_row r s).locks ≡ delete_lock r.lock_id s.locks)
  unfolding release_row drop_hold
  release_again_own s r e h =
      let many : ltb 1 (or_one r.hold_count) ≡ true = ground arith in
      rw many (
        first-update r.lock_id drop_hold (λ a. refl) s.locks r e,
        delete_lock-update r.lock_id drop_hold (λ a. refl) s.locks,
      )

  release_again :
      (id : String) (s : Tables Stamp) (r : LockInfo Stamp)
      → find_lock id s ≡ some r
      → 1 < r.hold_count
      → (find_lock id (release_row r s) ≡ some (drop_hold r))
        × (delete_lock id (release_row r s).locks ≡ delete_lock id s.locks)
  release_again id s r e h =
      let i = found-id id s r e in
      subst
        (λ k.
          (find_lock k (release_row r s) ≡ some (drop_hold r))
          × (delete_lock k (release_row r s).locks ≡ delete_lock k s.locks))
        i (release_again_own s r (subst (λ k. find_lock k s ≡ some r) (sym i) e) h)

  pub release_last :
      (id : String) (s : Tables Stamp) (r : LockInfo Stamp)
      → find_lock id s ≡ some r
      → r.hold_count ≡ 1
      → (release_row r s).locks ≡ delete_lock id s.locks
  unfolding release_row
  release_last id s r e h =
      let last : ltb 1 (or_one r.hold_count) ≡ false = ground arith in
      rw last (ap (λ k. delete_lock k s.locks) (found-id id s r e))

  same_owner : (r : LockInfo Stamp) → (drop_hold r).owner ≡ r.owner
  unfolding drop_hold
  same_owner r = refl

  drop_hold-hold_count : (r : LockInfo Stamp) → (drop_hold r).hold_count ≡ r.hold_count - 1
  unfolding drop_hold
  drop_hold-hold_count r = refl

  drop_hold-minus :
      (r : LockInfo Stamp) (n : ℕ)
      → record (drop_hold r) { hold_count = (drop_hold r).hold_count - n }
        ≡ record r { hold_count = r.hold_count - suc n }
  unfolding drop_hold
  drop_hold-minus r n = ground arith

  -- The owner releases the lock a number of times.
  unfoldable pub release_times : ℕ → String → String → Tables Stamp → Tables Stamp
  release_times zero id owner s = s
  release_times (suc n) id owner s = release_times n id owner (after s (release id owner s))

  -- A lock with a number of holds is there, with one hold less for each release, until the owner has
  -- released it that often; then it is gone, and the other locks are as they were.
  pub release_times_lem :
      (n : ℕ) (id owner : String) (s : Tables Stamp) (r : LockInfo Stamp)
      → find_lock id s ≡ some r
      → r.owner ≡ owner
      → 1 ≤ r.hold_count
      → (n < r.hold_count
          → (find_lock id (release_times n id owner s)
              ≡ some (record r { hold_count = r.hold_count - n })))
        × (n ≡ r.hold_count → (release_times n id owner s).locks ≡ delete_lock id s.locks)
  unfolding release_times
  release_times_lem zero id owner s r e o h =
      (λ k. e ∙ ap some (ground arith), λ k. absurd (omega arith))
  release_times_lem (suc n) id owner s r e o h = elim (Bool-cases (ltb 1 r.hold_count)) [
    | inl many ↦
        let (found, others) = release_again id s r e (ground arith) in
        let (there, gone) =
          release_times_lem n id owner (release_row r s) (drop_hold r) found (same_owner r ∙ o)
            (ground (arith, drop_hold-hold_count r)) in
        rw (release_times, release_held id owner s r e o)
          (
            λ k. there (omega (arith, drop_hold-hold_count r)) ∙ ap some (drop_hold-minus r n),
            λ k. gone (omega (arith, drop_hold-hold_count r)) ∙ others,
          )
    | inr last ↦
        let one : r.hold_count ≡ 1 = ground arith in
        rw (release_times, release_held id owner s r e o)
          (
            λ k. absurd (omega arith),
            λ k. let none_left : n ≡ 0 = omega arith in rw none_left (release_last id s r e one),
          )
  ]
