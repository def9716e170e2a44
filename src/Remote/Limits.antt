-- ===== src/Remote/Limits.antt =====
-- A call of `acquire` with a limit, as the waiting client sees it.
use shared_concurrency_subst.Common.{
  ℕ, zero, suc, ◌+◌, ◌≤◌, ◌<◌, ◌≡◌, refl, subst, inl, inr, none, some, arith, List, Option-cases,
}
use shared_concurrency_subst.Store.Data.{TimeText}
use shared_concurrency_subst.Store.Acquire.{
  Readings, Pending, Polled, granted, timed_out, waiting, raised, elapsed_ms, poll,
}
use shared_concurrency_subst.Store.Rounds.{poll_timeout}
use shared_concurrency_subst.System.{Event, find_pending}
use shared_concurrency_subst.Broker.{Config, Response, Posted, replied, blocked, dropped, reply_to}
use shared_concurrency_subst.Effects.{Outcome, raises, unanswered}
use shared_concurrency_subst.Remote.{Line, await, round_of, others_act, response_of}

module _ {Stamp : Type 0} (t : TimeText Stamp) (c : Config) (readings : ℕ → Readings)
    (others : ℕ → List Event) (patience : ℕ) where
  reply_to-none : (y : Polled Stamp) → reply_to t y ≡ none → (ms : ℕ) × (y ≡ waiting ms)
  unfolding reply_to
  reply_to-none (granted l) e = cc
  reply_to-none timed_out e = cc
  reply_to-none (waiting ms) e = (ms, refl)
  reply_to-none (raised r) e = cc

  response_of-ne :
      (x : Posted Stamp) → ¬ (response_of t c readings others patience x ≡ raises unanswered)
  response_of-ne (replied r) e = cc
  response_of-ne (blocked i) e = ground arith
  response_of-ne (dropped r) e = ground arith

  abbrev unmet : Outcome (Response Stamp)
  unmet = raises unanswered

  abbrev next : Pending → Line Stamp → Line Stamp
  next p s =
      round_of t c readings others patience (readings s.tick) p
        (others_act t c readings others patience s)

  -- A call that this round does not answer came to it before the limit.
  await-unanswered :
      (n : ℕ) (p : Pending) (s : Line Stamp) (limit : ℕ)
      → p.request.timeout_ms ≡ some limit
      → (await t c readings others patience (suc n) p s).0 ≡ unmet
      → (elapsed_ms t (readings s.tick) p < limit)
        × ((await t c readings others patience n p (next p s)).0 ≡ unmet)
  unfolding await
  await-unanswered n p s limit e d =
      let s' = others_act t c readings others patience s in
      let r = readings s.tick in
      elim (Option-cases (find_pending t p.req_id s'.broker.pending)) [
        | inl gone ↦ absurd (let h = rw (gone, await) at d in ground arith)
        | inr (_, there) ↦ elim (Option-cases (reply_to t (poll t r p s'.broker.tables).0)) [
          | inr (x, over) ↦ absurd (response_of-ne x (rw (there, await, over) at d))
          | inl on ↦
              let (ms, w) = reply_to-none (poll t r p s'.broker.tables).0 on in
              ((poll_timeout t r p s'.broker.tables limit ms e w).0, rw (there, await, on) at d)
        ]
      ]

  -- A call with a limit of milliseconds gets a reply, or loses its connection, by the first round at
  -- which the limit has passed: when more rounds than that are looked at it is never `unanswered`,
  -- whatever the other clients do.
  pub await_ends :
      (k n : ℕ) (p : Pending) (s : Line Stamp) (limit : ℕ)
      → p.request.timeout_ms ≡ some limit
      → limit ≤ elapsed_ms t (readings (k + s.tick)) p
      → k < n
      → ¬ ((await t c readings others patience n p s).0 ≡ raises unanswered)
  unfolding round_of
  await_ends k zero p s limit e late enough d = absurd (omega (arith, enough))
  await_ends zero (suc n) p s limit e late enough d =
      let (early, _) = await-unanswered n p s limit e d in
      let same : 0 + s.tick ≡ s.tick = omega arith in
      let now = subst (λ i. limit ≤ elapsed_ms t (readings i) p) same late in
      absurd (omega (arith, early, now))
  await_ends (suc j) (suc n) p s limit e late enough d =
      let (_, rest) = await-unanswered n p s limit e d in
      await_ends j n p (next p s) limit e
        (subst (λ i. limit ≤ elapsed_ms t (readings i) p) (omega arith) late)
        (omega (arith, enough)) rest
