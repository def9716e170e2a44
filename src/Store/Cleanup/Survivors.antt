-- ===== src/Store/Cleanup/Survivors.antt =====
-- Which locks `_cleanup_expired` leaves.
use shared_concurrency_subst.Common.{
  ℕ, ◌≡◌, refl, ap, ◌↔◌, String, true, false, not, List, [], ◌∷◌, inl, inr, arith, ◌=s◌, Bool-cases,
  select, In, In-select, select-In,
}
use shared_concurrency_subst.Store.Data.{TimeText, LockInfo, Tables}
use shared_concurrency_subst.Store.Cleanup.{
  delete_lock, has_cap, over_held, lease_over, delete_over_held, cleanup_expired,
}
use shared_concurrency_subst.Store.Invariant.Ids.{Distinct, Distinct-eq, Distinct-select}

module _ {Stamp : Type 0} where
  pub In-delete_lock :
      (id : String) (a : LockInfo Stamp) (ls : List (LockInfo Stamp))
      → In a (delete_lock id ls)
      → In a ls × (¬ (a.lock_id ≡ id))
  unfolding delete_lock
  In-delete_lock id a ls i =
      let (j, h) = In-select (λ r. not (r.lock_id =s id)) a ls i in (j, λ e. ground arith)

  pub delete_lock-In :
      (id : String) (a : LockInfo Stamp) (ls : List (LockInfo Stamp))
      → In a ls
      → ¬ (a.lock_id ≡ id)
      → In a (delete_lock id ls)
  unfolding delete_lock
  delete_lock-In id a ls i ne = select-In _ a ls i (ground arith)

  pub Distinct-delete_lock :
      (id : String) (ls : List (LockInfo Stamp)) → Distinct ls → Distinct (delete_lock id ls)
  unfolding delete_lock
  Distinct-delete_lock id ls d = Distinct-select _ ls d

module _ {Stamp : Type 0} (t : TimeText Stamp) where
  over_held-has_cap : (now : ℕ) (r : LockInfo Stamp) → over_held t now r ≡ true → has_cap r ≡ true
  unfolding over_held
  over_held-has_cap now r h = ground arith

  In-delete_over_held :
      (now : ℕ) (a : LockInfo Stamp) (rows ls : List (LockInfo Stamp))
      → In a (delete_over_held t now rows ls)
      → In a ls
  unfolding delete_over_held
  In-delete_over_held now a [] ls i = i
  In-delete_over_held now a (r ∷ rows) ls i = elim (Bool-cases (over_held t now r)) [
    | inl over ↦
        let i' = In-delete_over_held now a rows (delete_lock r.lock_id ls) (rw over at i) in
        (In-delete_lock r.lock_id a ls i').0
    | inr fine ↦ In-delete_over_held now a rows ls (rw fine at i)
  ]

  -- A row that the loop visits and finds over is gone.
  delete_over_held-not-In :
      (now : ℕ) (a : LockInfo Stamp) (rows ls : List (LockInfo Stamp))
      → In a rows
      → over_held t now a ≡ true
      → ¬ In a (delete_over_held t now rows ls)
  unfolding delete_over_held
  delete_over_held-not-In now a [] ls m h i = m
  delete_over_held-not-In now a (r ∷ rows) ls (inl e) h i =
      let over : over_held t now r ≡ true = rw e at h in
      let i' = In-delete_over_held now a rows (delete_lock r.lock_id ls) (rw over at i) in
      (In-delete_lock r.lock_id a ls i').1 (ap (λ (x : LockInfo Stamp). x.lock_id) e)
  delete_over_held-not-In now a (r ∷ rows) ls (inr m) h i =
      delete_over_held-not-In now a rows _ m h i

  -- A row that no visited row over its cap shares its key with stays.
  delete_over_held-In :
      (now : ℕ) (a : LockInfo Stamp) (rows ls : List (LockInfo Stamp))
      → ((r : LockInfo Stamp) → In r rows → a.lock_id ≡ r.lock_id → over_held t now r ≡ false)
      → In a ls
      → In a (delete_over_held t now rows ls)
  unfolding delete_over_held
  delete_over_held-In now a [] ls h i = i
  delete_over_held-In now a (r ∷ rows) ls h i = elim (Bool-cases (over_held t now r)) [
    | inl over ↦ rw over (
        delete_over_held-In now a rows (delete_lock r.lock_id ls) (λ x j. h x (inr j))
          (delete_lock-In r.lock_id a ls i (λ e. let fine = h r (inl refl) e in cc)))
    | inr fine ↦ rw fine (delete_over_held-In now a rows ls (λ x j. h x (inr j)) i)
  ]

  Distinct-delete_over_held :
      (now : ℕ) (rows ls : List (LockInfo Stamp))
      → Distinct ls
      → Distinct (delete_over_held t now rows ls)
  unfolding delete_over_held
  Distinct-delete_over_held now [] ls d = d
  Distinct-delete_over_held now (r ∷ rows) ls d = elim (Bool-cases (over_held t now r)) [
    | inl over ↦
        rw over (Distinct-delete_over_held now rows _ (Distinct-delete_lock r.lock_id ls d))
    | inr fine ↦ rw fine (Distinct-delete_over_held now rows ls d)
  ]

  -- The table between the two deletions.
  abbrev live : ℕ → Tables Stamp → List (LockInfo Stamp)
  live now_iso s = select (λ r. not (lease_over t now_iso r)) s.locks

  pub Distinct-cleanup_expired :
      (now_iso now : ℕ) (s : Tables Stamp)
      → Distinct s.locks
      → Distinct (cleanup_expired t now_iso now s).locks
  unfolding cleanup_expired
  Distinct-cleanup_expired now_iso now s d =
      Distinct-delete_over_held now (select has_cap (live now_iso s)) (live now_iso s)
        (Distinct-select (λ r. not (lease_over t now_iso r)) s.locks d)

  pub In-cleanup_expired :
      (now_iso now : ℕ) (s : Tables Stamp) (a : LockInfo Stamp)
      → In a (cleanup_expired t now_iso now s).locks
      → In a s.locks × (lease_over t now_iso a ≡ false) × (over_held t now a ≡ false)
  unfolding cleanup_expired
  In-cleanup_expired now_iso now s a i =
      let i' = In-delete_over_held now a (select has_cap (live now_iso s)) (live now_iso s) i in
      let (j, l) = In-select (λ r. not (lease_over t now_iso r)) a s.locks i' in
      elim (Bool-cases (over_held t now a)) [
        | inl over ↦
            let visited = select-In has_cap a (live now_iso s) i' (over_held-has_cap now a over) in
            absurd (delete_over_held-not-In now a _ (live now_iso s) visited over i)
        | inr fine ↦ (j, ground arith, fine)
      ]

  cleanup_expired-In :
      (now_iso now : ℕ) (s : Tables Stamp) (a : LockInfo Stamp)
      → Distinct s.locks
      → In a s.locks
      → lease_over t now_iso a ≡ false
      → over_held t now a ≡ false
      → In a (cleanup_expired t now_iso now s).locks
  unfolding cleanup_expired
  cleanup_expired-In now_iso now s a d i l f =
      delete_over_held-In now a (select has_cap (live now_iso s)) (live now_iso s) same
        (select-In (λ r. not (lease_over t now_iso r)) a s.locks i (ground arith))
    where
      same :
          (r : LockInfo Stamp)
          → In r (select has_cap (live now_iso s))
          → a.lock_id ≡ r.lock_id
          → over_held t now r ≡ false
      same r j e =
          let k =
            (In-select (λ x. not (lease_over t now_iso x)) r s.locks
              (In-select has_cap r (live now_iso s) j).0).0 in
          rw (Distinct-eq s.locks a r d i k e) at f

  -- With distinct keys, the locks that remain after `_cleanup_expired` are exactly those whose lease
  -- text is after the first reading of the clock and which are not over their cap at the second.
  pub cleanup_expired_iff :
      (now_iso now : ℕ) (s : Tables Stamp) (a : LockInfo Stamp)
      → Distinct s.locks
      → In a (cleanup_expired t now_iso now s).locks
        ↔ (In a s.locks × (lease_over t now_iso a ≡ false) × (over_held t now a ≡ false))
  cleanup_expired_iff now_iso now s a d =
      (In-cleanup_expired now_iso now s a, λ h. cleanup_expired-In now_iso now s a d h.0 h.1 h.2)

  pub cleanup_expired-queue :
      (now_iso now : ℕ) (s : Tables Stamp)
      → ((cleanup_expired t now_iso now s).queue ≡ s.queue)
        × ((cleanup_expired t now_iso now s).last_req ≡ s.last_req)
  unfolding cleanup_expired
  cleanup_expired-queue now_iso now s = (refl, refl)
