-- ===== src/System/Effects.antt =====
-- What the methods of `LockStore` do to the queue and its counter.
use shared_concurrency_subst.Common.{
  ℕ, suc, ◌≡◌, refl, ◌++◌, [], ◌∷◌, List, String, inl, inr, arith, ◌=s◌, ◌==◌, In, select-In,
  In-select, Bool-cases, Option-cases, first, ◌&&◌, ◌||◌, not,
}
use shared_concurrency_subst.Store.Data.{TimeText, LockInfo, QueueInfo, Tables}
use shared_concurrency_subst.Store.Queries.{is_write, same_mode}
use shared_concurrency_subst.Store.Cleanup.{cleanup_expired}
use shared_concurrency_subst.Store.Acquire.{
  Request, Entered, returned, queued, Readings, Pending, enter, enter_held, enqueue,
  has_other_owner, dequeue, grant, give_up_or_wait, poll,
}
use shared_concurrency_subst.Store.Release.{release, heartbeat, after}

module _ {Stamp : Type 0} where
  -- The queue and its counter are as before.
  abbrev pub SameQueue : Tables Stamp → Tables Stamp → Type 0
  SameQueue s s' = (s'.queue ≡ s.queue) × (s'.last_req ≡ s.last_req)

  pub release-SameQueue :
      (lock_id owner : String) (s : Tables Stamp) → SameQueue s (after s (release lock_id owner s))
  unfolding release
  release-SameQueue lock_id owner s = ground arith

  module _ (t : TimeText Stamp) where
    pub heartbeat-SameQueue :
        (held_now now : ℕ) (lock_id owner : String) (lease_ms : ℕ) (s : Tables Stamp)
        → SameQueue s (after s (heartbeat t held_now now lock_id owner lease_ms s))
    unfolding heartbeat
    heartbeat-SameQueue held_now now lock_id owner lease_ms s = ground arith

    -- A call either returns at once and leaves the queue, or adds a row with the next key.
    abbrev pub Enters : ℕ → Request → Tables Stamp → Entered Stamp × Tables Stamp → Type 0
    Enters now q s (returned r, s') = SameQueue s s'
    Enters now q s (queued i, s') =
        (i ≡ suc s.last_req)
        × (s'.last_req ≡ suc s.last_req)
        × (s'.queue
            ≡ s.queue
              ++ record {
                req_id = i;
                path = q.path;
                mode = q.mode;
                owner = q.owner;
                requested_at = t.isoformat now;
              }
                ∷ [])

    enter_held-Enters :
        (now : ℕ) (q : Request) (r : LockInfo Stamp) (s : Tables Stamp)
        → Enters now q s (enter_held t now q r s)
    unfolding enter_held
    enter_held-Enters now q r s = elim (Bool-cases (is_write r.mode || same_mode r.mode q.mode)) [
      | inl again ↦ rw again (refl, refl)
      | inr weaker ↦
          elim (Bool-cases (
            (not (is_write r.mode) && is_write q.mode)
            && not (has_other_owner t s q.path q.owner))) [
              | inl alone ↦ rw (weaker, alone) (refl, refl)
              | inr shared ↦ rw (weaker, shared) (refl, refl, refl)
            ]
    ]

    pub enter-Enters : (now : ℕ) (q : Request) (s : Tables Stamp) → Enters now q s (enter t now q s)
    unfolding enter enqueue
    enter-Enters now q s =
        elim (Option-cases (first (λ r. (r.path =s q.path) && (r.owner =s q.owner)) s.locks)) [
          | inl miss ↦ rw (miss, enter) (refl, refl, refl)
          | inr (r, hit) ↦ rw (hit, enter) (enter_held-Enters now q r s)
        ]

    pub poll-last_req :
        (r : Readings) (p : Pending) (s : Tables Stamp) → (poll t r p s).1.last_req ≡ s.last_req
    unfolding poll grant give_up_or_wait cleanup_expired
    poll-last_req r p s = ground arith

    pub dequeue-In :
        (i : ℕ) (q : QueueInfo Stamp) (qs : List (QueueInfo Stamp))
        → In q qs
        → ¬ (q.req_id ≡ i)
        → In q (dequeue t i qs)
    unfolding dequeue
    dequeue-In i q qs m ne = select-In _ q qs m (ground arith)

    pub In-dequeue :
        (i : ℕ) (q : QueueInfo Stamp) (qs : List (QueueInfo Stamp))
        → In q (dequeue t i qs)
        → In q qs × (¬ (q.req_id ≡ i))
    unfolding dequeue
    In-dequeue i q qs m =
        let (k, h) = In-select (λ (x : QueueInfo Stamp). not (x.req_id == i)) q qs m in
        (k, λ e. ground arith)
