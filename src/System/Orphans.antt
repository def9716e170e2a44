-- ===== src/System/Orphans.antt =====
-- The rows of the queue outlive the process that answers them: `_init_schema` keeps the table, and
-- only the call that added a row takes it out.
use shared_concurrency_subst.Common.{
  ℕ, ◌≤◌, ◌<◌, ◌≡◌, sym, subst, ◌⊎◌, inl, inr, List, [], ◌∷◌, arith, In, In-append, In-append_left,
  In-select, first-In, Bool-cases, Option-cases, if◌then◌else◌,
}
use shared_concurrency_subst.Store.Data.{write, TimeText, LockInfo, QueueInfo, Tables}
use shared_concurrency_subst.Store.Acquire.{
  Request, Entered, returned, Readings, Pending, Polled, granted, dequeue, enter, poll,
}
use shared_concurrency_subst.Store.Invariant.Ids.{Rising-bounds}
use shared_concurrency_subst.Store.Invariant.Valid.{IsValid}
use shared_concurrency_subst.Store.Fairness.{poll_no_overtaking}
use shared_concurrency_subst.Store.Rounds.{leaves, poll-queue}
use shared_concurrency_subst.System.Effects.{
  SameQueue, release-SameQueue, heartbeat-SameQueue, Enters, enter-Enters, poll-last_req,
  dequeue-In,
}
use shared_concurrency_subst.System.{
  Broker, Event, acquires, polls, releases, heartbeats, restarts, entered, ends, after_poll,
  find_pending, round, step, run,
}

module _ {Stamp : Type 0} (t : TimeText Stamp) where
  -- A row that is older than every call that waits.
  pub record Orphan (q : QueueInfo Stamp) (b : Broker Stamp) : Type 0 where
    pub queued : In q b.tables.queue
    pub counted : q.req_id ≤ b.tables.last_req
    pub older : (p : Pending) → In p b.pending → q.req_id < p.req_id

  -- A step that leaves the queue and the calls that wait.
  same-Orphan :
      (q : QueueInfo Stamp) (b : Broker Stamp) (s : Tables Stamp)
      → Orphan q b
      → SameQueue b.tables s
      → Orphan q (record b { tables = s })
  same-Orphan q b s o (e, n) = record {
    queued = subst (In q) (sym e) o.queued;
    counted = omega (arith, o.counted);
    older = o.older;
  }

  entered-Orphan :
      (q : QueueInfo Stamp) (b : Broker Stamp) (now start : ℕ) (c : Request) (x : Entered Stamp)
      (s : Tables Stamp)
      → Orphan q b
      → Enters t now c b.tables (x, s)
      → Orphan q (record { tables = s; pending = entered t start c b.pending x })
  unfolding entered
  entered-Orphan q b now start c (returned r) s o e = same-Orphan q b s o e
  entered-Orphan q b now start c (Entered.queued i) s o (k, n, e) = record {
    queued = subst (In q) (sym e) (In-append_left q b.tables.queue _ o.queued);
    counted = omega (arith, o.counted);
    older = λ p m. elim (In-append p b.pending _ m) [
      | inl old ↦ o.older p old
      | inr (inl new) ↦ rw new (omega (arith, o.counted))
      | inr (inr never) ↦ absurd never
    ];
  }

  after_poll-In :
      (p x : Pending) (r : Polled Stamp) (ps : List Pending) → In x (after_poll t p r ps) → In x ps
  unfolding after_poll
  after_poll-In p x r ps m = elim (Bool-cases (ends t r)) [
    | inl over ↦ (In-select _ x ps (rw over at m)).0
    | inr on ↦ rw on at m
  ]

  round-Orphan :
      (q : QueueInfo Stamp) (b : Broker Stamp) (r : Readings) (p : Pending)
      → Orphan q b
      → In p b.pending
      → Orphan q (round t r p b)
  unfolding round
  round-Orphan q b r p o m = record {
    queued = subst (In q) (sym (poll-queue t r p b.tables)) kept;
    counted = omega (arith, o.counted, poll-last_req t r p b.tables);
    older = λ x k. o.older x (after_poll-In p x (poll t r p b.tables).0 b.pending k);
  }
    where
      stays : In q (dequeue t p.req_id b.tables.queue)
      stays =
          dequeue-In t p.req_id q b.tables.queue o.queued (λ e. absurd (omega (arith, o.older p m)))

      kept : In q (
          if leaves t (poll t r p b.tables).0
          then dequeue t p.req_id b.tables.queue
          else b.tables.queue)
      kept = ground (arith, stays, o.queued)

  pub step-Orphan :
      (q : QueueInfo Stamp) (e : Event) (b : Broker Stamp) → Orphan q b → Orphan q (step t e b)
  unfolding step
  step-Orphan q (acquires now start c) b o =
      entered-Orphan q b now start c (enter t now c b.tables).0 (enter t now c b.tables).1 o
        (enter-Enters t now c b.tables)
  step-Orphan q (polls i r) b o = elim (Option-cases (find_pending t i b.pending)) [
    | inl miss ↦ rw (miss, step) o
    | inr (p, hit) ↦ rw (hit, step) (round-Orphan q b r p o (first-In _ p b.pending hit).0)
  ]
  step-Orphan q (releases id owner) b o = same-Orphan q b _ o (release-SameQueue id owner b.tables)
  step-Orphan q (heartbeats held now id owner lease) b o =
      same-Orphan q b _ o (heartbeat-SameQueue t held now id owner lease b.tables)
  step-Orphan q restarts b o = record {
    queued = o.queued;
    counted = o.counted;
    older = λ p m. elim m [ ];
  }

  pub run-Orphan :
      (q : QueueInfo Stamp) (es : List Event) (b : Broker Stamp)
      → Orphan q b
      → Orphan q (run t es b)
  unfolding run
  run-Orphan q [] b o = o
  run-Orphan q (e ∷ es) b o = run-Orphan q es (step t e b) (step-Orphan q e b o)

  restart-Orphan :
      (q : QueueInfo Stamp) (b : Broker Stamp)
      → IsValid b.tables
      → In q b.tables.queue
      → Orphan q (step t restarts b)
  unfolding step
  restart-Orphan q b v m = record {
    queued = m;
    counted = (Rising-bounds 0 b.tables.last_req b.tables.queue q v.rising m).1;
    older = λ p k. elim k [ ];
  }

  -- A request that is queued when the broker restarts is in the queue after any later events, and no
  -- round grants a call that waits then on its path and asks for a write, or any call that waits there
  -- if the request was a write. (A call of an owner who holds the path already may not have to wait.)
  pub restart_blocks :
      (q : QueueInfo Stamp) (b : Broker Stamp) (es : List Event)
      → IsValid b.tables
      → In q b.tables.queue
      → In q (run t es (step t restarts b)).tables.queue
        × ((p : Pending) (r : Readings) (l : LockInfo Stamp)
            → In p (run t es (step t restarts b)).pending
            → q.path ≡ p.request.path
            → (q.mode ≡ write) ⊎ (p.request.mode ≡ write)
            → ¬ ((poll t r p (run t es (step t restarts b)).tables).0 ≡ granted l))
  restart_blocks q b es v m = (
    o.queued,
    λ p r l waits e conflict. poll_no_overtaking t r p _ q l o.queued e (o.older p waits) conflict,
  )
    where
      o : Orphan q (run t es (step t restarts b))
      o = run-Orphan q es _ (restart-Orphan q b v m)
