-- ===== src/Remote/Progress.antt =====
-- A call of `acquire` of the client on a path that nobody uses.
use shared_concurrency_subst.Common.{
  ℕ, suc, ◌==◌, ◌≡◌, refl, ap, ◌∙◌, inl, inr, String, List, [], ◌∷◌, ◌++◌, Option, some, arith,
  Option-cases, first-none, In, In-append_right,
}
use shared_concurrency_subst.Store.Data.{Mode, TimeText, LockInfo, Tables}
use shared_concurrency_subst.Store.Acquire.{
  Readings, Pending, granted, parse_mode, enqueue, new_lock, poll,
}
use shared_concurrency_subst.Fuse.World.{LockService}
use shared_concurrency_subst.Store.Fairness.{cleaned}
use shared_concurrency_subst.System.{Broker, Event, entered, find_pending, round, run, step}
use shared_concurrency_subst.Broker.{Config, Posted, blocked, grant_of, reply_to, reply_entered}
use shared_concurrency_subst.Client.{acquire_payload, read_reply}
use shared_concurrency_subst.Client.Agreement.{asked, client_acquire}
use shared_concurrency_subst.Effects.{done}
use shared_concurrency_subst.Remote.{
  Line, newest, await, respond_to, round_of, handled, arrived, exchange, remote_service,
}
use shared_concurrency_subst.Remote.Served.{newest-append}
use shared_concurrency_subst.Store.Unused.{Unused, enter-Unused, poll-Unused, poll-tables}

find_pending-append :
    {Stamp : Type 0} (t : TimeText Stamp) (p : Pending) (ps : List Pending)
    → (x : Pending) × (find_pending t p.req_id (ps ++ p ∷ []) ≡ some x)
find_pending-append t p ps = elim (Option-cases (find_pending t p.req_id (ps ++ p ∷ []))) [
  | inl missed ↦ absurd (
      let h =
        first-none (λ x. x.req_id == p.req_id) p (ps ++ p ∷ []) missed
          (In-append_right p ps _ (inl refl)) in
      ground arith)
  | inr found ↦ found
]

module _ {Stamp : Type 0} (t : TimeText Stamp) (c : Config) (readings : ℕ → Readings)
    (others : ℕ → List Event) (rounds : ℕ) where
  abbrev service : LockService (Line Stamp)
  service = remote_service t c readings others (suc rounds)

  await-granted :
      (p x : Pending) (s : Line Stamp) (l : LockInfo Stamp)
      → find_pending t p.req_id (run t (others s.tick) s.broker).pending ≡ some x
      → (poll t (readings s.tick) p (run t (others s.tick) s.broker).tables).0 ≡ granted l
      → let y = await t c readings others (suc rounds) (suc rounds) p s in
        (y.0 ≡ done (record { code = 200; body = grant_of l }))
        × (y.1.broker.tables
            ≡ (poll t (readings s.tick) p (run t (others s.tick) s.broker).tables).1)
  unfolding await reply_to round_of round
  await-granted p x s l there g = rw (there, await, g) (refl, refl)

  respond_to-granted :
      (i : ℕ) (y : Posted Stamp) (ps : List Pending) (p : Pending) (s : Line Stamp)
      (l : LockInfo Stamp)
      → y ≡ blocked i
      → s.broker.pending ≡ ps ++ p ∷ []
      → others s.tick ≡ []
      → (poll t (readings s.tick) p s.broker.tables).0 ≡ granted l
      → let z = respond_to t c readings others (suc rounds) y s in
        (z.0 ≡ done (record { code = 200; body = grant_of l }))
        × (z.1.broker.tables ≡ (poll t (readings s.tick) p s.broker.tables).1)
  unfolding respond_to run
  respond_to-granted i y ps p s l blocks waits quiet g =
      let same : run t (others s.tick) s.broker ≡ s.broker = rw (quiet, run) refl in
      let last : newest s.broker.pending ≡ some p = rw waits (newest-append ps p) in
      let (x, there) = find_pending-append t p ps in
      let there' : find_pending t p.req_id (run t (others s.tick) s.broker).pending ≡ some x =
        rw (same, waits) there in
      let g' : (poll t (readings s.tick) p (run t (others s.tick) s.broker).tables).0 ≡ granted l =
        rw same g in
      let (z, tables) = await-granted p x s l there' g' in
      rw (blocks, respond_to, last)
        (z, tables ∙ ap (λ (b : Broker Stamp). (poll t (readings s.tick) p b.tables).1) same)

  -- A call of `acquire` of the client on a path without locks and requests, when no other client acts
  -- while it waits and its key is fresh, where one round at least is looked at: it returns that key, its
  -- lock comes after those that the clean-up leaves, and the queue is as it was.
  pub acquire-Unused :
      (path text owner : String) (mode : Mode) (timeout : Option ℕ) (lease : ℕ) (cap : Option ℕ)
      (s : Line Stamp)
      → ¬ (path ≡ "")
      → ¬ (owner ≡ "")
      → parse_mode text ≡ some mode
      → Unused t path s.broker.tables
      → ((a : LockInfo Stamp)
          → In a s.broker.tables.locks
          → ¬ (a.lock_id ≡ (readings (suc s.tick)).new_id))
      → others (suc s.tick) ≡ []
      → let y = service.acquire path text owner timeout lease cap s in
        let next = readings (suc s.tick) in
        (y.0 ≡ done next.new_id)
        × (y.1.broker.tables.locks
            ≡ (cleaned t next s.broker.tables).locks
              ++ new_lock t next (asked t c path mode owner timeout lease cap) ∷ [])
        × (y.1.broker.tables.queue ≡ s.broker.tables.queue)
  unfolding remote_service exchange read_reply new_lock reply_entered step entered enqueue
  acquire-Unused path text owner mode timeout lease cap s p o good free fresh quiet =
      let r = readings s.tick in
      let q = asked t c path mode owner timeout lease cap in
      let b = s.broker in
      let i = suc b.tables.last_req in
      let call : Pending = record { request = q; req_id = i; start = r.monotonic } in
      let body = acquire_payload path text owner timeout lease cap in
      let x = handled t c readings others (suc rounds) "/v1/locks/acquire" body s in
      let reached : x ≡ (
        blocked i,
        record {
          tables = (enqueue t r.granted_now q b.tables).1;
          pending = b.pending ++ call ∷ [];
        },
      ) =
        client_acquire t c r.granted_now r.granted_now r.monotonic path text owner mode timeout
          lease cap b p o good
        ∙ rw (enter-Unused t r.granted_now q b.tables free) refl in
      let tables = ap (λ (y : Posted Stamp × Broker Stamp). y.1.tables) reached in
      let next = readings (suc s.tick) in
      let g = poll-Unused t r.granted_now r.monotonic next q b.tables free s.valid.distinct fresh in
      let (got, after) =
        respond_to-granted i x.0 b.pending call
          (arrived t c readings others (suc rounds) "/v1/locks/acquire" body s) (new_lock t next q)
          (ap (λ (y : Posted Stamp × Broker Stamp). y.0) reached)
          (ap (λ (y : Posted Stamp × Broker Stamp). y.1.pending) reached) quiet (rw tables g) in
      let (locks, queue) = poll-tables t r.granted_now r.monotonic next q b.tables s.valid g in
      let same = after ∙ ap (λ s'. (poll t next call s').1) tables in
      (
        rw got refl,
        ap (λ (s' : Tables Stamp). s'.locks) same ∙ locks,
        ap (λ (s' : Tables Stamp). s'.queue) same ∙ queue,
      )
