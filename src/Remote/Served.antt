-- ===== src/Remote/Served.antt =====
-- A call of `acquire` of the client over the handler and the store: what it returns.
use shared_concurrency_subst.Common.{
  ℕ, zero, suc, ◌≡◌, refl, sym, ap, ◌∙◌, ◌⊎◌, inl, inr, String, false, List, [], ◌∷◌, ◌++◌, Option,
  none, some, arith, ◌=s◌, ≡→=s, Bool-cases, Option-cases,
}
use shared_concurrency_subst.Store.Data.{Mode, TimeText, LockInfo, Tables}
use shared_concurrency_subst.Store.Acquire.{
  Request, Entered, returned, queued, Readings, Pending, Polled, granted, timed_out, waiting,
  raised, parse_mode, enter, poll,
}
use shared_concurrency_subst.Store.Returned.{Serves, enter-Serves, poll-Serves}
use shared_concurrency_subst.System.{Broker, Event, acquires, entered, find_pending, round, step}
use shared_concurrency_subst.Broker.{
  value, Config, grant_of, state, Payload, Response, Posted, replied, dropped, bad_request,
  reply_to, reply_entered, valid_mode, post_acquire, do_post,
}
use shared_concurrency_subst.Client.{acquire_payload, read_reply}
use shared_concurrency_subst.Client.Agreement.{asked, valid_mode-value, client_acquire}
use shared_concurrency_subst.Effects.{Outcome, done}
use shared_concurrency_subst.Fuse.World.{LockService}
use shared_concurrency_subst.Remote.{
  Line, newest, await, respond_to, arrived, round_of, others_act, response_of, exchange, body_of,
  key_in, remote_service,
}

pub newest-append : (ps : List Pending) (p : Pending) → newest (ps ++ p ∷ []) ≡ some p
unfolding newest
newest-append [] p = refl
newest-append (q ∷ []) p = refl
newest-append (q ∷ r ∷ ps) p = newest-append (r ∷ ps) p

module _ {Stamp : Type 0} (t : TimeText Stamp) (c : Config) (readings : ℕ → Readings)
    (others : ℕ → List Event) (patience : ℕ) where
  -- A lock with the key is in the tables and serves the request.
  abbrev pub ServedBy : Request → String → Tables Stamp → Type 0
  ServedBy q id s = (l : LockInfo Stamp) × (now : ℕ) × Serves t now q l s × (l.lock_id ≡ id)

  abbrev key_of : Outcome (Response Stamp) → Outcome String
  key_of x = key_in t c readings others patience (body_of t c readings others patience x)

  abbrev response : Posted Stamp → Outcome (Response Stamp)
  response = response_of t c readings others patience

  reply_to-granted :
      (y : Polled Stamp) (x : Posted Stamp) (id : String)
      → reply_to t y ≡ some x
      → key_of (response x) ≡ done id
      → (l : LockInfo Stamp) × (y ≡ granted l) × (l.lock_id ≡ id)
  unfolding reply_to read_reply
  reply_to-granted (granted l) x id e k =
      let same : x ≡ replied (record { code = 200; body = grant_of l }) = cc in
      let h = rw same at k in (l, refl, cc)
  reply_to-granted timed_out x id e k =
      let same : x ≡ replied (record { code = 408; body = state "timeout" }) = cc in
      let h = rw same at k in cc
  reply_to-granted (waiting n) x id e k = cc
  reply_to-granted (raised r) x id e k = let same : x ≡ dropped r = cc in let h = rw same at k in cc

  await-ServedBy :
      (n : ℕ) (p : Pending) (s : Line Stamp) (id : String)
      → key_of (await t c readings others patience n p s).0 ≡ done id
      → ServedBy p.request id (await t c readings others patience n p s).1.broker.tables
  unfolding await round_of round
  await-ServedBy zero p s id k = cc
  await-ServedBy (suc n) p s id k =
      let s' = others_act t c readings others patience s in
      let y = poll t (readings s.tick) p s'.broker.tables in
      elim (Option-cases (find_pending t p.req_id s'.broker.pending)) [
        | inl gone ↦ absurd (let h = rw (gone, await) at k in cc)
        | inr (_, there) ↦ elim (Option-cases (reply_to t y.0)) [
          | inl on ↦
              rw (there, await, on)
                (await-ServedBy n p (round_of t c readings others patience (readings s.tick) p s')
                  id (rw (there, await, on) at k))
          | inr (x, over) ↦
              let h : key_of (response x) ≡ done id = rw (there, await, over) at k in
              let (l, g, i) = reply_to-granted y.0 x id over h in
              rw (there, await, over)
                (l, (readings s.tick).granted_now, poll-Serves t (readings s.tick) p _ l g, i)
        ]
      ]

  -- A call of `acquire` up to its loop: it is refused, or it is an `acquires` event of the broker.
  Posts :
      (r : Readings) (path text owner : String) (timeout : Option ℕ) (lease : ℕ) (cap : Option ℕ)
      → Broker Stamp
      → Posted Stamp × Broker Stamp
      → Type 0
  Posts r path text owner timeout lease cap b x =
      (x ≡ (bad_request t, b))
      ⊎ ((mode : Mode) × (parse_mode text ≡ some mode)
          × (x ≡ (
            reply_entered t
                (enter t r.granted_now (asked t c path mode owner timeout lease cap) b.tables).0,
            step t
                (acquires r.granted_now r.monotonic (asked t c path mode owner timeout lease cap))
                b,
          )))

  valid_mode-none : (text : String) → parse_mode text ≡ none → valid_mode (value text) ≡ none
  unfolding parse_mode
  valid_mode-none text e = ground arith

  nonempty : (s : String) → (s =s "") ≡ false → ¬ (s ≡ "")
  nonempty s e = ground arith

  acquire-Posts :
      (r : Readings) (path text owner : String) (timeout : Option ℕ) (lease : ℕ) (cap : Option ℕ)
      (b : Broker Stamp)
      → Posts r path text owner timeout lease cap b (
          do_post t c r.granted_now r.granted_now r.monotonic "/v1/locks/acquire"
            (acquire_payload path text owner timeout lease cap)
            b)
  unfolding Posts do_post post_acquire acquire_payload
  acquire-Posts r path text owner timeout lease cap b =
      let here = ≡→=s "/v1/locks/acquire" "/v1/locks/acquire" refl in
      elim (Bool-cases (path =s "")) [
        | inl no_path ↦ inl (rw (here, no_path, post_acquire))
        | inr p ↦ elim (Option-cases (parse_mode text)) [
          | inl e ↦ inl (rw (here, p, post_acquire, valid_mode-none text e))
          | inr (mode, e) ↦ elim (Bool-cases (owner =s "")) [
            | inl no_owner ↦
                inl (rw (here, p, post_acquire, valid_mode-value t text mode e, no_owner))
            | inr o ↦ inr (
              mode,
              e,
              client_acquire t c r.granted_now r.granted_now r.monotonic path text owner mode
                  timeout lease cap b (nonempty path p) (nonempty owner o) e,
            )
          ]
        ]
      ]

  abbrev respond : Posted Stamp → Line Stamp → Outcome (Response Stamp) × Line Stamp
  respond = respond_to t c readings others patience

  respond_to-ServedBy :
      (now start : ℕ) (q : Request) (b : Broker Stamp) (s : Line Stamp) (x : Entered Stamp)
      (id : String)
      → (enter t now q b.tables).0 ≡ x
      → (enter t now q b.tables).1 ≡ s.broker.tables
      → s.broker.pending ≡ entered t start q b.pending x
      → key_of (respond (reply_entered t x) s).0 ≡ done id
      → ServedBy q id (respond (reply_entered t x) s).1.broker.tables
  unfolding respond_to reply_entered read_reply entered
  respond_to-ServedBy now start q b s (returned l) id e tables pending k =
      (l, now, rw tables at (enter-Serves t now q b.tables l e), cc)
  respond_to-ServedBy now start q b s (queued i) id e tables pending k =
      let p : Pending = record { request = q; req_id = i; start = start } in
      let last : newest s.broker.pending ≡ some p =
        rw (pending, entered) (newest-append b.pending p) in
      rw (last, respond_to) (await-ServedBy patience p s id (rw (last, respond_to) at k))

  abbrev exchanged : String → Payload → Line Stamp → Outcome (Response Stamp) × Line Stamp
  exchanged = exchange t c readings others patience

  posted-ServedBy :
      (r : Readings) (path text owner : String) (timeout : Option ℕ) (lease : ℕ) (cap : Option ℕ)
      (b : Broker Stamp) (x : Posted Stamp × Broker Stamp) (s : Line Stamp) (id : String)
      → Posts r path text owner timeout lease cap b x
      → s.broker ≡ x.1
      → key_of (respond x.0 s).0 ≡ done id
      → (mode : Mode) × (parse_mode text ≡ some mode)
        × ServedBy (asked t c path mode owner timeout lease cap) id (respond x.0 s).1.broker.tables
  unfolding Posts step respond_to read_reply
  posted-ServedBy r path text owner timeout lease cap b x s id (inl bad) same k =
      absurd (let h = rw bad at k in cc)
  posted-ServedBy r path text owner timeout lease cap b x s id (inr (mode, good, e)) same k =
      let q = asked t c path mode owner timeout lease cap in
      let e' : x.0 ≡ reply_entered t (enter t r.granted_now q b.tables).0 = ap (λ y. y.0) e in
      let f : s.broker ≡ step t (acquires r.granted_now r.monotonic q) b = same ∙ ap (λ y. y.1) e in
      (
        mode,
        good,
        rw e' (
            respond_to-ServedBy r.granted_now r.monotonic q b s (enter t r.granted_now q b.tables).0
              id refl (sym (ap (λ y. y.tables) f)) (ap (λ y. y.pending) f) (rw e' at k)),
      )

  abbrev remote : LockService (Line Stamp)
  remote = remote_service t c readings others patience

  -- A call of `acquire` that returns: a lock with the key that it returns is in the broker's tables and
  -- serves the call.
  pub acquire-ServedBy :
      (path text owner : String) (timeout : Option ℕ) (lease : ℕ) (cap : Option ℕ) (s : Line Stamp)
      (id : String)
      → (remote.acquire path text owner timeout lease cap s).0 ≡ done id
      → (mode : Mode) × (parse_mode text ≡ some mode)
        × ServedBy
            (asked t c path mode owner timeout lease cap)
            id
            (remote.acquire path text owner timeout lease cap s).1.broker.tables
  unfolding remote_service exchange
  acquire-ServedBy path text owner timeout lease cap s id k =
      let r = readings s.tick in
      posted-ServedBy r path text owner timeout lease cap s.broker
        (do_post t c r.granted_now r.granted_now r.monotonic "/v1/locks/acquire"
          (acquire_payload path text owner timeout lease cap) s.broker)
        (arrived t c readings others patience "/v1/locks/acquire"
          (acquire_payload path text owner timeout lease cap) s)
        id (acquire-Posts r path text owner timeout lease cap s.broker) refl k
