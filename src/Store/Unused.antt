-- ===== src/Store/Unused.antt =====
-- A request for a path that nobody uses, at the store.
use shared_concurrency_subst.Common.{
  ℕ, suc, ◌==◌, ◌≤◌, ◌≡◌, refl, ◌∙◌, inl, inr, String, Bool, false, ◌&&◌, List, [], ◌∷◌, ◌++◌, none,
  arith, ◌=s◌, Option-cases, first, first-In, select-last, true, not, In, In-append,
  In-append_right,
}
use shared_concurrency_subst.Store.Data.{Mode, read, write, TimeText, LockInfo, QueueInfo, Tables}
use shared_concurrency_subst.Store.Acquire.{
  Request, Readings, Pending, granted, enqueue, enter, new_lock, dequeue, poll,
}
use shared_concurrency_subst.Store.Cleanup.{cleanup_expired}
use shared_concurrency_subst.Store.Invariant.Ids.{Distinct, Rising-bounds}
use shared_concurrency_subst.Store.Invariant.Valid.{IsValid}
use shared_concurrency_subst.Store.Rounds.{leaves, poll-granted, poll-queue}
use shared_concurrency_subst.Store.Fairness.{MayProceed, cleaned, poll-granted_iff}

pub first-eq-none :
    {A : Type 0} (p : A → Bool) (xs : List A)
    → ((a : A) → In a xs → p a ≡ false)
    → first p xs ≡ none
first-eq-none p xs h = elim (Option-cases (first p xs)) [
  | inl e ↦ e
  | inr (a, e) ↦ absurd (let (m, hit) = first-In p a xs e in let miss = h a m in cc)
]

module _ {Stamp : Type 0} (t : TimeText Stamp) where
  -- The path has no lock and no request.
  abbrev pub Unused : String → Tables Stamp → Type 0
  Unused path s =
      ((a : LockInfo Stamp) → In a s.locks → ¬ (a.path ≡ path))
      × ((q : QueueInfo Stamp) → In q s.queue → ¬ (q.path ≡ path))

  pub enter-Unused :
      (now : ℕ) (q : Request) (s : Tables Stamp)
      → Unused q.path s
      → enter t now q s ≡ enqueue t now q s
  unfolding enter
  enter-Unused now q s free =
      let miss =
        first-eq-none (λ r. (r.path =s q.path) && (r.owner =s q.owner)) s.locks
          (λ a m. ground (arith, free.0 a m)) in
      rw (miss, enter)

  only_row :
      (now : ℕ) (q : Request) (s : Tables Stamp) (x : QueueInfo Stamp)
      → Unused q.path s
      → In x (enqueue t now q s).1.queue
      → x.path ≡ q.path
      → suc s.last_req ≤ x.req_id
  unfolding enqueue
  only_row now q s x free m e = elim (In-append x s.queue _ m) [
    | inl old ↦ absurd (free.1 x old e)
    | inr (inl new) ↦ rw new (omega arith)
    | inr (inr never) ↦ absurd never
  ]

  alone-MayProceed :
      (now : ℕ) (r : Readings) (q : Request) (s : Tables Stamp) (mode : Mode)
      → Unused q.path s
      → MayProceed t r (enqueue t now q s).1 q.path mode (suc s.last_req)
  unfolding enqueue
  alone-MayProceed now r q s write free = (
    ((_, In-append_right _ s.queue _ (inl refl), refl, refl), λ x m e. only_row now q s x free m e),
    λ a l. free.0 a l.0,
  )
  alone-MayProceed now r q s read free =
      (λ a l e. absurd (free.0 a l.0 e), λ x m e w. only_row now q s x free m e)

  -- The request is granted by the next round, if its new key is fresh.
  pub poll-Unused :
      (now start : ℕ) (r : Readings) (q : Request) (s : Tables Stamp)
      → Unused q.path s
      → Distinct s.locks
      → ((a : LockInfo Stamp) → In a s.locks → ¬ (a.lock_id ≡ r.new_id))
      → (poll t r
          (record { request = q; req_id = suc s.last_req; start = start })
          (enqueue t now q s).1).0
        ≡ granted (new_lock t r q)
  unfolding enqueue
  poll-Unused now start r q s free d fresh =
      (poll-granted_iff t r (record { request = q; req_id = suc s.last_req; start = start })
          (enqueue t now q s).1 d (λ a l. fresh a l.0)).1
        (alone-MayProceed now r q s q.mode free)

  -- The tables after a grant on an unused path.
  pub poll-tables :
      (now start : ℕ) (r : Readings) (q : Request) (s : Tables Stamp)
      → IsValid s
      → let p : Pending = record { request = q; req_id = suc s.last_req; start = start } in
        let y = poll t r p (enqueue t now q s).1 in
        y.0 ≡ granted (new_lock t r q)
        → (y.1.locks ≡ (cleaned t r s).locks ++ new_lock t r q ∷ []) × (y.1.queue ≡ s.queue)
  unfolding enqueue cleanup_expired dequeue
  poll-tables now start r q s v g =
      let p : Pending = record { request = q; req_id = suc s.last_req; start = start } in
      let s' = (enqueue t now q s).1 in
      let left : leaves t (poll t r p s').0 ≡ true = rw g refl in
      (
        (poll-granted t r p s' (new_lock t r q) g).1,
        poll-queue t r p s'
            ∙ rw left (
                select-last (λ x. not (x.req_id == suc s.last_req)) _ s.queue
                  (λ x m.
                    let b = Rising-bounds 0 s.last_req s.queue x v.rising m in ground (arith, b))
                  (ground arith)),
      )
