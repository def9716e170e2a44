-- ===== src/Store/Leases.antt =====
-- How long a lock lives, over texts of times that order and parse as the times do.
use shared_concurrency_subst.Common.{
  ℕ, ◌+◌, ◌*◌, ◌<◌, ◌≡◌, refl, sym, ◌∙◌, ◌↔◌, String, Bool, true, false, Option, none, some, inl,
  inr, arith, ◌=s◌, =s→≡, ≡→=s, Bool-cases, In, update, update-In, In-update, subst, ap, first-In,
}
use shared_concurrency_subst.Store.Data.{TimeText, IsLawful, LockInfo, Tables, ok}
use shared_concurrency_subst.Store.Cleanup.{delete_lock, over_held, lease_over, cleanup_expired}
use shared_concurrency_subst.Store.Cleanup.Survivors.{
  cleanup_expired_iff, In-delete_lock, delete_lock-In,
}
use shared_concurrency_subst.Store.Acquire.{Request, Readings, new_lock}
use shared_concurrency_subst.Store.Release.{find_lock, renew_row, heartbeat}
use shared_concurrency_subst.Store.Invariant.Ids.{Distinct}

-- Less than the cap has passed since the lock was taken.
abbrev pub UnderCap : Option ℕ → ℕ → ℕ → Type 0
UnderCap none acquired now = Unit {0}
UnderCap (some cap) acquired now = now < acquired + cap * 1000

module _ {Stamp : Type 0} (t : TimeText Stamp) (law : IsLawful t) where
  pub lease_over_iff :
      (a : LockInfo Stamp) (end now : ℕ)
      → a.lease_expires_at ≡ t.isoformat end
      → (lease_over t now a ≡ false) ↔ (now < end)
  unfolding lease_over
  lease_over_iff a end now e = (
    λ h. ground (arith, law.text_le-isoformat end now),
    λ h. rw (e, law.text_le-isoformat) (ground arith),
  )

  pub over_held_iff :
      (a : LockInfo Stamp) (acquired now : ℕ) (cap : Option ℕ)
      → a.acquired_at ≡ t.isoformat acquired
      → a.max_hold_ms ≡ cap
      → (over_held t now a ≡ false) ↔ UnderCap cap acquired now
  unfolding over_held
  over_held_iff a acquired now none e c = (λ h. tt, λ h. rw c)
  over_held_iff a acquired now (some cap) e c =
      let p = law.fromisoformat-isoformat acquired in
      (λ h. ground (arith, p), λ h. ground (arith, p))

  -- A lock as it was granted survives a clean-up exactly when the clean-up comes before the end of its
  -- lease and, if the lock has a cap, before the cap is reached.
  pub new_lock_survives_iff :
      (r : Readings) (q : Request) (now_iso now : ℕ) (s : Tables Stamp)
      → Distinct s.locks
      → In (new_lock t r q) s.locks
      → In (new_lock t r q) (cleanup_expired t now_iso now s).locks
        ↔ ((now_iso < r.granted_now + q.lease_ms * 1000) × UnderCap q.max_hold_ms r.granted_now now)
  unfolding new_lock
  new_lock_survives_iff r q now_iso now s d m =
      let a = new_lock t r q in
      let alive = cleanup_expired_iff t now_iso now s a d in
      let lease = lease_over_iff a (r.granted_now + q.lease_ms * 1000) now_iso refl in
      let cap = over_held_iff a r.granted_now now q.max_hold_ms refl refl in
      (
        λ i. let (_, l, c) = alive.0 i in (lease.0 l, cap.0 c),
        λ h. alive.1 (m, lease.1 h.0, cap.1 h.1),
      )

  -- Only the rows of a key may differ.
  pub record SameBeside (id : String) (s s' : Tables Stamp) : Type 0 where
    pub kept : (a : LockInfo Stamp) → ¬ (a.lock_id ≡ id) → In a s.locks → In a s'.locks
    pub no_other : (a : LockInfo Stamp) → ¬ (a.lock_id ≡ id) → In a s'.locks → In a s.locks
    pub same_queue : s'.queue ≡ s.queue
    pub same_counter : s'.last_req ≡ s.last_req

  update-SameBeside :
      (id key : String) (f : LockInfo Stamp → LockInfo Stamp) (s : Tables Stamp)
      → key ≡ id
      → ((a : LockInfo Stamp) → (f a).lock_id ≡ a.lock_id)
      → SameBeside id s (record s { locks = update (λ x. x.lock_id =s key) f s.locks })
  update-SameBeside id key f s same keeps = record {
    kept = λ a n i.
        let other : (a.lock_id =s key) ≡ false =
          ground (arith, λ (e : a.lock_id ≡ key). n (e ∙ same)) in
        rw other at (update-In (λ x. x.lock_id =s key) f a s.locks i);
    no_other = λ b n i.
        let (a, j, e) = In-update (λ x. x.lock_id =s key) f b s.locks i in
        elim (Bool-cases (a.lock_id =s key)) [
          | inr miss ↦ subst (λ x. In x s.locks) (sym (rw miss at e)) j
          | inl hit ↦ absurd (n (ap (λ x. x.lock_id) (rw hit at e) ∙ keeps a ∙ =s→≡ _ _ hit ∙ same))
        ];
    same_queue = refl;
    same_counter = refl;
  }

  -- A heartbeat of the holder. Under the cap it succeeds, and the key's lock then has a lease that ends
  -- `lease_ms` after the reading of the clock, and its other fields as before. At or over the cap it
  -- fails, and no lock with the key is left. Either way the locks with other keys, the queue and the
  -- counter are as before.
  pub heartbeat_outcome :
      (held_now now lease_ms acquired : ℕ) (cap : Option ℕ) (id owner : String) (s : Tables Stamp)
      (r : LockInfo Stamp)
      → find_lock id s ≡ some r
      → r.owner ≡ owner
      → r.acquired_at ≡ t.isoformat acquired
      → r.max_hold_ms ≡ cap
      → (b : Bool) × (s' : Tables Stamp) × (heartbeat t held_now now id owner lease_ms s
          ≡ ok (b, s'))
        × (b ≡ true
            → UnderCap cap acquired held_now
              × In (record r { lease_expires_at = t.isoformat (now + lease_ms * 1000) }) s'.locks)
        × (b ≡ false
            → (¬ UnderCap cap acquired held_now)
              × ((a : LockInfo Stamp) → In a s'.locks → ¬ (a.lock_id ≡ id)))
        × SameBeside id s s'
  unfolding heartbeat renew_row
  heartbeat_outcome held_now now lease_ms acquired cap id owner s r e o acq c =
      let (m, same) = first-In _ r s.locks e in
      let under = over_held_iff r acquired held_now cap acq c in
      let mine = ≡→=s r.owner owner o in
      elim (Bool-cases (over_held t held_now r)) [
        | inl over ↦ (
          false,
          record s { locks = delete_lock r.lock_id s.locks },
          rw (e, heartbeat, mine, over),
          λ k. cc,
          λ _. (
            λ u. let h = under.1 u in cc,
            λ a i k. (In-delete_lock r.lock_id a s.locks i).1 (k ∙ sym (=s→≡ _ _ same)),
          ),
          record {
            kept = λ a n i. delete_lock-In r.lock_id a s.locks i (λ e. n (e ∙ =s→≡ _ _ same));
            no_other = λ a n i. (In-delete_lock r.lock_id a s.locks i).0;
            same_queue = refl;
            same_counter = refl;
          },
        )
        | inr fine ↦ (
          true,
          record s {
            locks =
                update (λ x. x.lock_id =s r.lock_id)
                  (λ x. record x { lease_expires_at = t.isoformat (now + lease_ms * 1000) })
                  s.locks;
          },
          rw (e, heartbeat, mine, fine),
          λ _. (
            under.0 fine,
            rw (≡→=s r.lock_id r.lock_id refl) at (
                update-In (λ x. x.lock_id =s r.lock_id)
                  (λ x. record x { lease_expires_at = t.isoformat (now + lease_ms * 1000) }) r
                  s.locks m),
          ),
          λ k. cc,
          update-SameBeside id r.lock_id _ s (=s→≡ _ _ same) (λ a. refl),
        )
      ]
