-- ===== src/Store/Strangers.antt =====
-- `release` by somebody who does not hold the lock.
use shared_concurrency_subst.Common.{
  ◌≡◌, sym, ◌∙◌, String, false, inl, inr, arith, ◌=s◌, =s→≡, ≡→=s, Option-cases, In, first-In,
  first-none,
}
use shared_concurrency_subst.Store.Data.{LockInfo, Tables, permission_error, err}
use shared_concurrency_subst.Store.Release.{find_lock, release}
use shared_concurrency_subst.Store.Invariant.Ids.{Distinct, Distinct-eq}

module _ {Stamp : Type 0} where
  -- A row with the key is the owner's.
  abbrev pub HeldBy : Tables Stamp → String → String → Type 0
  HeldBy s id owner = (r : LockInfo Stamp) × In r s.locks × (r.lock_id ≡ id) × (r.owner ≡ owner)

  -- The release of somebody else's lock raises a PermissionError.
  pub release-stranger :
      (s : Tables Stamp) (id owner stranger : String)
      → Distinct s.locks
      → HeldBy s id owner
      → ¬ (owner ≡ stranger)
      → release id stranger s ≡ err permission_error
  unfolding release
  release-stranger s id owner stranger d (r, m, k, o) other = elim (Option-cases (find_lock id s)) [
    | inl none_found ↦ absurd (
        let h = first-none (λ x. x.lock_id =s id) r s.locks none_found m in
        let g = ≡→=s r.lock_id id k in cc)
    | inr (x, hit) ↦
        let (n, same) = first-In _ x s.locks hit in
        let e : x ≡ r = Distinct-eq s.locks x r d n m (=s→≡ _ _ same ∙ sym k) in
        let not_mine : (x.owner =s stranger) ≡ false = ground arith in rw (hit, release, not_mine)
  ]
