-- ===== src/System/Progress.antt =====
-- The waiting calls and the rows of the queue, and progress on a path without live locks.
use shared_concurrency_subst.Common.{
  ℕ, ◌≤◌, ◌≡◌, refl, sym, subst, ◌∙◌, inl, inr, List, [], ◌∷◌, arith, ◌=s◌, In, In-append,
  In-append_left, In-append_right, select-In, Bool-cases, Option-cases, any, any-In, =s→≡,
}
use shared_concurrency_subst.Store.Data.{Mode, read, write, TimeText, LockInfo, QueueInfo, Tables}
use shared_concurrency_subst.Store.Cleanup.{cleanup_expired}
use shared_concurrency_subst.Store.Cleanup.Survivors.{In-cleanup_expired}
use shared_concurrency_subst.Store.Queries.{can_grant}
use shared_concurrency_subst.Store.Queries.Grants.{oldest}
use shared_concurrency_subst.Store.Acquire.{
  Request, Entered, returned, queued, Readings, Pending, granted, dequeue, new_lock, enter, grant,
  give_up_or_wait, poll,
}
use shared_concurrency_subst.Store.Release.{release, heartbeat, after}
use shared_concurrency_subst.Store.Invariant.Valid.{IsValid, empty_tables-IsValid}
use shared_concurrency_subst.Store.Fairness.{Live, MayProceed, poll-granted_iff}
use shared_concurrency_subst.Store.Rounds.{leaves, poll-queue}
use shared_concurrency_subst.System.Effects.{
  SameQueue, release-SameQueue, heartbeat-SameQueue, Enters, enter-Enters, In-dequeue,
}
use shared_concurrency_subst.System.{
  Broker, Event, acquires, polls, releases, heartbeats, restarts, entered, ends, after_poll,
  find_pending, round, step, run, start_broker,
}
use shared_concurrency_subst.System.Safety.{run-IsValid}

module _ {Stamp : Type 0} where
  -- The call waits for the row.
  abbrev pub Answers : Pending → QueueInfo Stamp → Type 0
  Answers p q = (p.req_id ≡ q.req_id) × (p.request.path ≡ q.path) × (p.request.mode ≡ q.mode)

  abbrev pub Tracked : Broker Stamp → Type 0
  Tracked b =
      (q : QueueInfo Stamp) → In q b.tables.queue → (p : Pending) × In p b.pending × Answers p q

  -- A new key is that of no lock.
  abbrev pub Fresh : Tables Stamp → Readings → Type 0
  Fresh s r = (a : LockInfo Stamp) → In a s.locks → ¬ (a.lock_id ≡ r.new_id)

  -- No restart, and `uuid4` gives no key that is taken.
  abbrev pub Orderly : Broker Stamp → Event → Type 0
  Orderly b restarts = ⊥
  Orderly b (polls i r) = Fresh b.tables r
  Orderly b (acquires _ _ _) = Unit {0}
  Orderly b (releases _ _) = Unit {0}
  Orderly b (heartbeats _ _ _ _ _) = Unit {0}

module _ {Stamp : Type 0} (t : TimeText Stamp) where
  same-Tracked :
      (b : Broker Stamp) (s : Tables Stamp)
      → Tracked b
      → SameQueue b.tables s
      → Tracked (record b { tables = s })
  same-Tracked b s k (e, n) q m = k q (subst (In q) e m)

  entered-Tracked :
      (b : Broker Stamp) (now start : ℕ) (c : Request) (x : Entered Stamp) (s : Tables Stamp)
      → Tracked b
      → Enters t now c b.tables (x, s)
      → Tracked (record { tables = s; pending = entered t start c b.pending x })
  unfolding entered
  entered-Tracked b now start c (returned r) s k e q m = same-Tracked b s k e q m
  entered-Tracked b now start c (queued i) s k (j, n, e) q m =
      elim (In-append q b.tables.queue _ (subst (In q) e m)) [
        | inl old ↦ let (p, l, a) = k q old in (p, In-append_left p b.pending _ l, a)
        | inr (inl new) ↦ (
          record { request = c; req_id = i; start = start },
          In-append_right _ b.pending _ (inl refl),
          rw new (refl, refl, refl),
        )
        | inr (inr never) ↦ absurd never
      ]

  grant-ne-raised :
      (r : Readings) (p : Pending) (s : Tables Stamp)
      → Fresh s r
      → ends t (grant t r p s).0 ≡ leaves t (grant t r p s).0
  unfolding grant
  grant-ne-raised r p s f = elim (Bool-cases (any (λ x. x.lock_id =s r.new_id) s.locks)) [
    | inl taken ↦ let (a, m, h) = any-In _ s.locks taken in absurd (f a m (=s→≡ _ _ h))
    | inr free ↦ rw free
  ]

  give_up_or_wait-ends :
      (r : Readings) (p : Pending) (s : Tables Stamp)
      → ends t (give_up_or_wait t r p s).0 ≡ leaves t (give_up_or_wait t r p s).0
  unfolding give_up_or_wait
  give_up_or_wait-ends r p s = ground arith

  -- With a fresh key a round ends the call exactly when it takes the row from the queue.
  poll-ends :
      (r : Readings) (p : Pending) (s : Tables Stamp)
      → Fresh s r
      → ends t (poll t r p s).0 ≡ leaves t (poll t r p s).0
  unfolding poll
  poll-ends r p s f =
      let s' = cleanup_expired t r.cleanup_now r.held_now s in
      elim (Bool-cases (can_grant s' p.request.path p.request.mode p.req_id)) [
        | inl go ↦ rw go (
            grant-ne-raised r p s'
              (λ a m. f a (In-cleanup_expired t r.cleanup_now r.held_now s a m).0))
        | inr stay ↦ rw stay (give_up_or_wait-ends r p s')
      ]

  round-Tracked :
      (b : Broker Stamp) (r : Readings) (p : Pending)
      → Tracked b
      → Fresh b.tables r
      → Tracked (round t r p b)
  unfolding round after_poll
  round-Tracked b r p k f q m = elim (Bool-cases (leaves t (poll t r p b.tables).0)) [
    | inl over ↦
        let m' : In q (dequeue t p.req_id b.tables.queue) =
          rw (poll-queue t r p b.tables, over) at m in
        let (old, other) = In-dequeue t p.req_id q b.tables.queue m' in
        let (x, l, a) = k q old in
        (x, rw (poll-ends r p b.tables f, over) (select-In _ x b.pending l (ground arith)), a)
    | inr on ↦
        let m' : In q b.tables.queue = rw (poll-queue t r p b.tables, on) at m in
        let (x, l, a) = k q m' in (x, rw (poll-ends r p b.tables f, on) l, a)
  ]

  -- Every event but a restart, with a fresh key, keeps a waiting call for every row of the queue.
  pub step-Tracked : (e : Event) (b : Broker Stamp) → Orderly b e → Tracked b → Tracked (step t e b)
  unfolding step
  step-Tracked (acquires now start c) b o k =
      entered-Tracked b now start c (enter t now c b.tables).0 (enter t now c b.tables).1 k
        (enter-Enters t now c b.tables)
  step-Tracked (polls i r) b o k = elim (Option-cases (find_pending t i b.pending)) [
    | inl miss ↦ rw (miss, step) k
    | inr (p, hit) ↦ rw (hit, step) (round-Tracked b r p k o)
  ]
  step-Tracked (releases id owner) b o k =
      same-Tracked b (after b.tables (release id owner b.tables)) k
        (release-SameQueue id owner b.tables)
  step-Tracked (heartbeats held now id owner lease) b o k =
      same-Tracked b (after b.tables (heartbeat t held now id owner lease b.tables)) k
        (heartbeat-SameQueue t held now id owner lease b.tables)
  step-Tracked restarts b o k = absurd o

  -- A history without restarts in which every new key is fresh.
  abbrev pub OrderlyRun : Broker Stamp → List Event → Type 0
  OrderlyRun b [] = Unit {0}
  OrderlyRun b (e ∷ es) = Orderly b e × OrderlyRun (step t e b) es

  pub run-Tracked :
      (es : List Event) (b : Broker Stamp) → OrderlyRun b es → Tracked b → Tracked (run t es b)
  unfolding run
  run-Tracked [] b o k = k
  run-Tracked (e ∷ es) b (o, os) k = run-Tracked es (step t e b) os (step-Tracked e b o k)

  oldest-MayProceed :
      (r : Readings) (s : Tables Stamp) (q : QueueInfo Stamp) (mode : Mode)
      → In q s.queue
      → q.mode ≡ mode
      → ((y : QueueInfo Stamp) → In y s.queue → y.path ≡ q.path → q.req_id ≤ y.req_id)
      → ((a : LockInfo Stamp) → Live t r s a → ¬ (a.path ≡ q.path))
      → MayProceed t r s q.path mode q.req_id
  oldest-MayProceed r s q write m e first free = (((q, m, refl, refl), first), free)
  oldest-MayProceed r s q read m e first free =
      (λ a l p. absurd (free a l p), λ y l p w. first y l p)

  -- No deadlock: while every row of the queue has its call, and no live lock stands on the path of a
  -- row, some call that waits on that path is granted by its next round, given a fresh key.
  pub no_deadlock :
      (b : Broker Stamp) (r : Readings) (q : QueueInfo Stamp)
      → IsValid b.tables
      → Tracked b
      → In q b.tables.queue
      → Fresh b.tables r
      → ((a : LockInfo Stamp) → Live t r b.tables a → ¬ (a.path ≡ q.path))
      → (p : Pending) × In p b.pending
        × (p.request.path ≡ q.path)
        × ((poll t r p b.tables).0 ≡ granted (new_lock t r p.request))
  no_deadlock b r q v k m f free =
      let (x, l, e, first) = oldest b.tables q.path q m refl in
      let (p, w, answers) = k x l in
      let (i, path, mode) = answers in
      let may : MayProceed t r b.tables x.path p.request.mode x.req_id =
        oldest-MayProceed r b.tables x p.request.mode l (sym mode) (λ y n h. first y n (h ∙ e))
          (λ a n h. free a n (h ∙ e)) in
      (
        p,
        w,
        path ∙ e,
        (poll-granted_iff t r p b.tables v.distinct (λ a n. f a n.0)).1 (
            subst (λ z. MayProceed t r b.tables z p.request.mode p.req_id) (sym path)
              (subst (λ z. MayProceed t r b.tables x.path p.request.mode z) (sym i) may)),
      )

  -- After every history from a new database without a restart, in which every new key was fresh: if a
  -- request is queued on a path without a live lock, some call that waits on that path is granted by
  -- its next round, given a fresh key.
  pub run_no_deadlock :
      (es : List Event) (r : Readings) (q : QueueInfo Stamp)
      → OrderlyRun start_broker es
      → In q (run t es start_broker).tables.queue
      → Fresh (run t es start_broker).tables r
      → ((a : LockInfo Stamp) → Live t r (run t es start_broker).tables a → ¬ (a.path ≡ q.path))
      → (p : Pending) × In p (run t es start_broker).pending
        × (p.request.path ≡ q.path)
        × ((poll t r p (run t es start_broker).tables).0 ≡ granted (new_lock t r p.request))
  run_no_deadlock es r q o =
      no_deadlock (run t es start_broker) r q (run-IsValid t es start_broker empty_tables-IsValid)
        (run-Tracked es start_broker o (λ x m. elim m [ ]))
