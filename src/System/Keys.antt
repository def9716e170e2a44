-- ===== src/System/Keys.antt =====
-- What the row of a key stays, from event to event.
use shared_concurrency_subst.Common.{
  ℕ, ◌≡◌, refl, sym, ap, subst, ◌∙◌, inl, inr, String, not, ◌&&◌, ◌||◌, List, [], ◌∷◌, arith, ltb,
  ◌=s◌, Bool-cases, Option-cases, update, any, first, In, In-append, In-update,
}
use shared_concurrency_subst.Store.Data.{write, TimeText, LockInfo, Tables}
use shared_concurrency_subst.Store.Queries.{is_write, same_mode, can_grant}
use shared_concurrency_subst.Store.Cleanup.{delete_lock, over_held}
use shared_concurrency_subst.Store.Cleanup.Survivors.{In-delete_lock, In-cleanup_expired}
use shared_concurrency_subst.Store.Acquire.{
  Request, Readings, Pending, hold_again, upgrade, has_other_owner, enqueue, rewrite_lock,
  enter_held, enter, new_lock, grant, give_up_or_wait, poll,
}
use shared_concurrency_subst.Store.Release.{
  or_one, after, find_lock, drop_hold, release_row, release, renew_row, heartbeat,
}
use shared_concurrency_subst.Store.Fairness.{cleaned}
use shared_concurrency_subst.System.{
  Broker, Event, acquires, polls, releases, heartbeats, restarts, find_pending, round, step, run,
}

-- No round of the events makes a lock under the key.
abbrev pub Unissued : String → List Event → Type 0
Unissued id es = (i : ℕ) (r : Readings) → In (polls i r) es → ¬ (r.new_id ≡ id)

module _ {Stamp : Type 0} (id path owner : String) where
  -- A lock with the key is the owner's write lock on the path.
  abbrev pub Writes : List (LockInfo Stamp) → Type 0
  Writes ls =
      (a : LockInfo Stamp)
      → In a ls
      → a.lock_id ≡ id
      → (a.path ≡ path) × (a.mode ≡ write) × (a.owner ≡ owner)

  fewer-Writes :
      (old new : List (LockInfo Stamp))
      → ((a : LockInfo Stamp) → In a new → In a old)
      → Writes old
      → Writes new
  fewer-Writes old new sub w a i e = w a (sub a i) e

  delete-Writes :
      (key : String) (ls : List (LockInfo Stamp)) → Writes ls → Writes (delete_lock key ls)
  delete-Writes key ls w a i e = w a (In-delete_lock key a ls i).0 e

  -- What an update does to a row that may be the key's.
  abbrev Steady : (LockInfo Stamp → LockInfo Stamp) → Type 0
  Steady f =
      (a : LockInfo Stamp)
      → ((f a).lock_id ≡ a.lock_id)
        × ((f a).path ≡ a.path)
        × ((f a).owner ≡ a.owner)
        × (a.mode ≡ write → (f a).mode ≡ write)

  update-Writes :
      (key : String) (f : LockInfo Stamp → LockInfo Stamp) (ls : List (LockInfo Stamp))
      → Steady f
      → Writes ls
      → Writes (update (λ x. x.lock_id =s key) f ls)
  update-Writes key f ls steady w b i same =
      let (a, j, e) = In-update (λ x. x.lock_id =s key) f b ls i in
      let (k, p, o, m) = steady a in
      elim (Bool-cases (a.lock_id =s key)) [
        | inr miss ↦ let e' = rw miss at e in w b (subst (λ x. In x ls) (sym e') j) same
        | inl hit ↦
            let e' = rw hit at e in
            let (p', m', o') = w a j (sym k ∙ sym (ap (λ x. x.lock_id) e') ∙ same) in
            (
              ap (λ x. x.path) e' ∙ p ∙ p',
              ap (λ x. x.mode) e' ∙ m m',
              ap (λ x. x.owner) e' ∙ o ∙ o',
            )
      ]

  release-Writes :
      (key who : String) (s : Tables Stamp)
      → Writes s.locks
      → Writes (after s (release key who s)).locks
  unfolding release release_row drop_hold
  release-Writes key who s w = elim (Option-cases (find_lock key s)) [
    | inl miss ↦ rw (miss, release) w
    | inr (r, hit) ↦ elim (Bool-cases (r.owner =s who)) [
      | inr other ↦ rw (hit, release, other) w
      | inl mine ↦ elim (Bool-cases (ltb 1 (or_one r.hold_count))) [
        | inl many ↦
            rw (hit, release, mine, many)
              (update-Writes r.lock_id drop_hold s.locks (λ a. (refl, refl, refl, λ m. m)) w)
        | inr last ↦ rw (hit, release, mine, last) (delete-Writes r.lock_id s.locks w)
      ]
    ]
  ]

  heartbeat-Writes :
      (t : TimeText Stamp) (held now : ℕ) (key who : String) (lease : ℕ) (s : Tables Stamp)
      → Writes s.locks
      → Writes (after s (heartbeat t held now key who lease s)).locks
  unfolding heartbeat renew_row
  heartbeat-Writes t held now key who lease s w = elim (Option-cases (find_lock key s)) [
    | inl miss ↦ rw (miss, heartbeat) w
    | inr (r, hit) ↦ elim (Bool-cases (r.owner =s who)) [
      | inr other ↦ rw (hit, heartbeat, other) w
      | inl mine ↦ elim (Bool-cases (over_held t held r)) [
        | inl over ↦ rw (hit, heartbeat, mine, over) (delete-Writes r.lock_id s.locks w)
        | inr fine ↦
            rw (hit, heartbeat, mine, fine)
              (update-Writes r.lock_id _ s.locks (λ a. (refl, refl, refl, λ m. m)) w)
      ]
    ]
  ]

  module _ (t : TimeText Stamp) where
    enter_held-Writes :
        (now : ℕ) (q : Request) (r : LockInfo Stamp) (s : Tables Stamp)
        → Writes s.locks
        → Writes (enter_held t now q r s).1.locks
    unfolding enter_held enqueue rewrite_lock hold_again upgrade
    enter_held-Writes now q r s w = elim (Bool-cases (is_write r.mode || same_mode r.mode q.mode)) [
      | inl again ↦ rw again (update-Writes r.lock_id _ s.locks (λ a. (refl, refl, refl, λ m. m)) w)
      | inr weaker ↦
          elim (Bool-cases (
            (not (is_write r.mode) && is_write q.mode)
            && not (has_other_owner t s q.path q.owner))) [
              | inl alone ↦
                  rw (weaker, alone)
                    (update-Writes r.lock_id _ s.locks (λ a. (refl, refl, refl, λ m. refl)) w)
              | inr shared ↦ rw (weaker, shared) w
            ]
    ]

    enter-Writes :
        (now : ℕ) (q : Request) (s : Tables Stamp)
        → Writes s.locks
        → Writes (enter t now q s).1.locks
    unfolding enter enqueue
    enter-Writes now q s w =
        elim (Option-cases (first (λ r. (r.path =s q.path) && (r.owner =s q.owner)) s.locks)) [
          | inl miss ↦ rw (miss, enter) w
          | inr (r, hit) ↦ rw (hit, enter) (enter_held-Writes now q r s w)
        ]

    grant-Writes :
        (r : Readings) (p : Pending) (s : Tables Stamp)
        → ¬ (r.new_id ≡ id)
        → Writes s.locks
        → Writes (grant t r p s).1.locks
    unfolding grant new_lock
    grant-Writes r p s new w = elim (Bool-cases (any (λ x. x.lock_id =s r.new_id) s.locks)) [
      | inl taken ↦ rw taken w
      | inr fresh ↦ rw fresh (λ a i e. elim (In-append a s.locks _ i) [
        | inl old ↦ w a old e
        | inr (inl made) ↦ absurd (new (sym (ap (λ x. x.lock_id) made) ∙ e))
        | inr (inr never) ↦ absurd never
      ])
    ]

    give_up_or_wait-Writes :
        (r : Readings) (p : Pending) (s : Tables Stamp)
        → Writes s.locks
        → Writes (give_up_or_wait t r p s).1.locks
    unfolding give_up_or_wait
    give_up_or_wait-Writes r p s w =
        fewer-Writes s.locks (give_up_or_wait t r p s).1.locks (λ a i. ground arith) w

    poll-Writes :
        (r : Readings) (p : Pending) (s : Tables Stamp)
        → ¬ (r.new_id ≡ id)
        → Writes s.locks
        → Writes (poll t r p s).1.locks
    unfolding poll
    poll-Writes r p s new w =
        let kept : Writes (cleaned t r s).locks =
          λ a i e. w a (In-cleanup_expired t r.cleanup_now r.held_now s a i).0 e in
        elim (Bool-cases (can_grant (cleaned t r s) p.request.path p.request.mode p.req_id)) [
          | inl go ↦ rw go (grant-Writes r p (cleaned t r s) new kept)
          | inr stay ↦ rw stay (give_up_or_wait-Writes r p (cleaned t r s) kept)
        ]

    step-Writes :
        (e : Event) (b : Broker Stamp)
        → Unissued id (e ∷ [])
        → Writes b.tables.locks
        → Writes (step t e b).tables.locks
    unfolding step round
    step-Writes (acquires now _ q) b new w = enter-Writes now q b.tables w
    step-Writes (polls i r) b new w = elim (Option-cases (find_pending t i b.pending)) [
      | inl miss ↦ rw (miss, step) w
      | inr (p, hit) ↦ rw (hit, step) (poll-Writes r p b.tables (new i r (inl refl)) w)
    ]
    step-Writes (releases key who) b new w = release-Writes key who b.tables w
    step-Writes (heartbeats held now key who lease) b new w =
        heartbeat-Writes t held now key who lease b.tables w
    step-Writes restarts b new w = w

    -- A key that no later round gives away again belongs to its owner's write lock on its path for as
    -- long as there is a row with it.
    pub run-Writes :
        (es : List Event) (b : Broker Stamp)
        → Unissued id es
        → Writes b.tables.locks
        → Writes (run t es b).tables.locks
    unfolding run
    run-Writes [] b new w = w
    run-Writes (e ∷ es) b new w =
        run-Writes es (step t e b) (λ i r m. new i r (inr m))
          (step-Writes e b (λ i r m. elim m [ inl k ↦ new i r (inl k) | inr k ↦ absurd k ]) w)
