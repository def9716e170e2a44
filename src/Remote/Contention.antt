-- ===== src/Remote/Contention.antt =====
-- A file that another client holds for writing.
use shared_concurrency_subst.Common.{
  ℕ, zero, suc, ◌≡◌, refl, sym, ap, subst, ◌∙◌, ◌⊎◌, inl, inr, String, false, ◌&&◌, List, [], ◌∷◌,
  ◌++◌, Option, some, arith, ◌=s◌, Option-cases, In, first-none, none, In-append_right, ◌-◌, ◌+◌,
  ◌<◌, ◌≤◌, ◌/◌,
}
use shared_concurrency_subst.Store.Data.{Mode, write, TimeText, LockInfo, Tables}
use shared_concurrency_subst.Store.Cleanup.{lease_over, over_held}
use shared_concurrency_subst.Store.Acquire.{
  Request, Readings, Pending, Polled, timed_out, waiting, parse_mode, enter, enqueue, poll,
}
use shared_concurrency_subst.Store.Invariant.Valid.{IsValid}
use shared_concurrency_subst.Store.Unused.{first-eq-none}
use shared_concurrency_subst.Remote.Served.{newest-append}
use shared_concurrency_subst.Client.Agreement.{asked, client_acquire}
use shared_concurrency_subst.Fuse.World.{LockService}
use shared_concurrency_subst.Store.Fairness.{Live, cleaned}
use shared_concurrency_subst.System.{
  Broker, Event, step, entered, find_pending, round, run, after_poll,
}
use shared_concurrency_subst.Broker.{
  Config, Response, Posted, blocked, state, reply_entered, reply_to,
}
use shared_concurrency_subst.Client.{acquire_payload, read_reply}
use shared_concurrency_subst.Effects.{Outcome, raises, runtime_error, unanswered, done}
use shared_concurrency_subst.Remote.{
  Line, newest, handled, arrived, respond_to, exchange, remote_service, await, round_of, others_act,
  body_of, key_in,
}
use shared_concurrency_subst.Store.Sticky.{conflict-can_grant}
use shared_concurrency_subst.Remote.Limits.{await_ends}
use shared_concurrency_subst.Store.Conflicts.{Live-poll, give_up_or_wait-cases, poll-conflict}

module _ {Stamp : Type 0} (t : TimeText Stamp) (c : Config) (readings : ℕ → Readings)
    (patience : ℕ) where
  abbrev silent : ℕ → List Event
  silent n = []

  -- At every instant the lock's lease runs and it is under its cap.
  abbrev pub Lasts : LockInfo Stamp → Type 0
  Lasts a =
      (n : ℕ)
      → (lease_over t (readings n).cleanup_now a ≡ false)
        × (over_held t (readings n).held_now a ≡ false)

  abbrev late_reply : Response Stamp
  late_reply = record { code = 408; body = state "timeout" }

  -- A call that is not granted: it still waits, or it has a limit and the broker's 408.
  Blocked : Option ℕ → Outcome (Response Stamp) → Type 0
  Blocked timeout x =
      (x ≡ raises unanswered) ⊎ ((x ≡ done late_reply) × (limit : ℕ) × (timeout ≡ some limit))

  await-Blocked :
      (n : ℕ) (p : Pending) (s : Line Stamp) (a : LockInfo Stamp) (x : Pending)
      → find_pending t p.req_id s.broker.pending ≡ some x
      → Lasts a
      → In a s.broker.tables.locks
      → a.mode ≡ write
      → a.path ≡ p.request.path
      → Blocked p.request.timeout_ms (await t c readings silent patience n p s).0
  unfolding await round_of round run reply_to after_poll Blocked
  await-Blocked zero p s a x there lasts m writes path = inl refl
  await-Blocked (suc n) p s a x there lasts m writes path =
      let r = readings s.tick in
      let tables = s.broker.tables in
      let (lease, cap) = lasts s.tick in
      let live : Live t r tables a = (m, lease, cap) in
      let polled =
        poll-conflict t r p tables
          (conflict-can_grant t r tables a p s.valid.distinct live path (inl writes)) in
      elim (give_up_or_wait-cases t r p (cleaned t r tables)) [
        | inl (ms, w) ↦
            let on : (poll t r p tables).0 ≡ waiting ms =
              ap (λ (y : Polled Stamp × Tables Stamp). y.0) polled ∙ w in
            rw (there, await, on, reply_to)
              (await-Blocked n p
                (round_of t c readings silent patience r p
                  (others_act t c readings silent patience s))
                a x (rw on there) lasts (Live-poll t r p tables a s.valid.distinct live) writes
                path)
        | inr (late, limit, given) ↦
            let over : (poll t r p tables).0 ≡ timed_out =
              ap (λ (y : Polled Stamp × Tables Stamp). y.0) polled ∙ late in
            rw (there, await, over, reply_to) (inr (refl, limit, given))
      ]

  abbrev pub client : LockService (Line Stamp)
  client = remote_service t c readings silent patience

  -- No row on the path is the owner's, since a write lock of another owner is there.
  enter-contended :
      (now : ℕ) (q : Request) (s : Tables Stamp) (a : LockInfo Stamp)
      → IsValid s
      → In a s.locks
      → a.mode ≡ write
      → a.path ≡ q.path
      → ¬ (a.owner ≡ q.owner)
      → enter t now q s ≡ enqueue t now q s
  unfolding enter
  enter-contended now q s a v m writes path other =
      let miss =
        first-eq-none (λ r. (r.path =s q.path) && (r.owner =s q.owner)) s.locks
          (λ r i.
            ground (arith, λ (e : r.path ≡ q.path). v.exclusive a r m i (path ∙ sym e) writes)) in
      rw (miss, enter)

  abbrev key_of : Outcome (Response Stamp) → Outcome String
  key_of x = key_in t c readings silent patience (body_of t c readings silent patience x)

  find_pending-append :
      (ps : List Pending) (p : Pending)
      → (x : Pending) × (find_pending t p.req_id (ps ++ p ∷ []) ≡ some x)
  find_pending-append ps p = elim (Option-cases (find_pending t p.req_id (ps ++ p ∷ []))) [
    | inr (x, e) ↦ (x, e)
    | inl miss ↦ absurd (
        let no = first-none _ p (ps ++ p ∷ []) miss (In-append_right p ps (p ∷ []) (inl refl)) in
        ground (arith, no))
  ]

  -- The outcomes of a call of `acquire`, by its limit: without one it is never answered. With one, it
  -- raises the RuntimeError of the broker's 408 when a round at which the limit has passed is reached.
  pub record Waits (timeout : Option ℕ) (s : Line Stamp) (x : Outcome String) : Type 0 where
    pub fails : (x ≡ raises unanswered) ⊎ (x ≡ raises runtime_error)
    pub blocks : timeout ≡ none → x ≡ raises unanswered
    pub gives_up :
        (limit k : ℕ)
        → timeout ≡ some limit
        → k < patience
        → limit ≤ ((readings (k + suc s.tick)).monotonic - (readings s.tick).monotonic) / 1000
        → x ≡ raises runtime_error

  Blocked-Waits :
      (timeout : Option ℕ) (p : Pending) (s s' : Line Stamp)
      → p.request.timeout_ms ≡ timeout
      → p.start ≡ (readings s.tick).monotonic
      → s'.tick ≡ suc s.tick
      → Blocked timeout (await t c readings silent patience patience p s').0
      → Waits timeout s (key_of (await t c readings silent patience patience p s').0)
  unfolding Blocked read_reply
  Blocked-Waits timeout p s s' asks began next (inl u) = record {
    fails = inl (ap key_of u);
    blocks = λ e. ap key_of u;
    gives_up = λ limit k e enough late. absurd (
        await_ends t c readings silent patience k patience p s' limit (asks ∙ e)
          (rw (began, next) late) enough u);
  }
  Blocked-Waits timeout p s s' asks began next (inr (d, limit, e)) = record {
    fails = inr (ap key_of d);
    blocks = λ n. absurd (cc);
    gives_up = λ limit' k e' enough late. ap key_of d;
  }

  -- A call of `acquire` on a path that another owner holds for writing, for as long as the lock lasts and
  -- no other client acts.
  pub acquire-contended :
      (path text owner : String) (mode : Mode) (timeout : Option ℕ) (lease : ℕ) (most : Option ℕ)
      (s : Line Stamp) (a : LockInfo Stamp)
      → ¬ (path ≡ "")
      → ¬ (owner ≡ "")
      → parse_mode text ≡ some mode
      → Lasts a
      → In a s.broker.tables.locks
      → a.mode ≡ write
      → a.path ≡ path
      → ¬ (a.owner ≡ owner)
      → Waits timeout s (client.acquire path text owner timeout lease most s).0
  unfolding remote_service exchange respond_to reply_entered step entered enqueue
  acquire-contended path text owner mode timeout lease most s a p o good lasts m writes same other =
      let r = readings s.tick in
      let q = asked t c path mode owner timeout lease most in
      let b = s.broker in
      let i = suc b.tables.last_req in
      let call : Pending = record { request = q; req_id = i; start = r.monotonic } in
      let body = acquire_payload path text owner timeout lease most in
      let x = handled t c readings silent patience "/v1/locks/acquire" body s in
      let s' = arrived t c readings silent patience "/v1/locks/acquire" body s in
      let reached : x ≡ (
        blocked i,
        record {
          tables = (enqueue t r.granted_now q b.tables).1;
          pending = b.pending ++ call ∷ [];
        },
      ) =
        client_acquire t c r.granted_now r.granted_now r.monotonic path text owner mode timeout
          lease most b p o good
        ∙ rw (enter-contended r.granted_now q b.tables a s.valid m writes same other) refl in
      let there : In a s'.broker.tables.locks =
        subst (λ (y : Posted Stamp × Broker Stamp). In a y.1.tables.locks) (sym reached) m in
      let waits : newest s'.broker.pending ≡ some call =
        ap (λ (y : Posted Stamp × Broker Stamp). newest y.1.pending) reached
        ∙ newest-append b.pending call in
      let answer = ap (λ (y : Posted Stamp × Broker Stamp). y.0) reached in
      let (found, here) = find_pending-append b.pending call in
      let pending = ap (λ (y : Posted Stamp × Broker Stamp). y.1.pending) reached in
      let known : find_pending t i s'.broker.pending ≡ some found =
        ap (λ l. find_pending t i l) pending ∙ here in
      rw (answer, respond_to, waits)
        (Blocked-Waits timeout call s s' refl refl refl
          (await-Blocked patience call s' a found known lasts there writes same))
