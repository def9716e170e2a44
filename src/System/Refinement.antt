-- ===== src/System/Refinement.antt =====
-- Every event of the broker is a move of the specification.
use shared_concurrency_subst.Common.{
  ℕ, ◌≡◌, refl, sym, ap, subst, ◌∙◌, inl, inr, String, true, false, not, ◌&&◌, ◌||◌, List, [], ◌∷◌,
  ◌++◌, map, arith, ltb, ◌=s◌, Bool-cases, Option-cases, update, any, first, In, In-append,
  In-update, first-In, any-false, =s→≡,
}
use shared_concurrency_subst.Store.Data.{TimeText, LockInfo, Tables}
use shared_concurrency_subst.Store.Queries.{is_write, same_mode, can_grant}
use shared_concurrency_subst.Store.Queries.Grants.{can_grant-Grantable}
use shared_concurrency_subst.Store.Cleanup.{delete_lock, over_held}
use shared_concurrency_subst.Store.Cleanup.Survivors.{In-delete_lock, In-cleanup_expired}
use shared_concurrency_subst.Store.Acquire.{
  Request, Readings, Pending, hold_again, upgrade, has_other_owner, enqueue, rewrite_lock,
  enter_held, enter, new_lock, grant, give_up_or_wait, poll,
}
use shared_concurrency_subst.Store.Release.{
  or_one, after, find_lock, drop_hold, release_row, release, renew_row, heartbeat,
}
use shared_concurrency_subst.Store.Invariant.Exclusion.{Covers, update-Covers}
use shared_concurrency_subst.Store.Invariant.Ids.{Distinct-eq}
use shared_concurrency_subst.Store.Invariant.Valid.{IsValid, empty_tables-IsValid}
use shared_concurrency_subst.Store.Invariant.Steps.{Grantable-free}
use shared_concurrency_subst.Store.Fairness.{cleaned}
use shared_concurrency_subst.System.{
  Broker, Event, acquires, polls, releases, heartbeats, restarts, find_pending, round, step, run,
  start_broker,
}
use shared_concurrency_subst.System.Safety.{step-IsValid}
use shared_concurrency_subst.System.Spec.{
  Held, written, Move, shrinks, grants, upgrades, Moves, none_made, one_more,
}

module _ {Stamp : Type 0} where
  abbrev pub view : LockInfo Stamp → Held
  view r = record { path = r.path; mode = r.mode; owner = r.owner }

  abbrev pub holders : List (LockInfo Stamp) → List Held
  holders ls = map view ls

  In-map :
      (h : Held) (ls : List (LockInfo Stamp))
      → In h (holders ls)
      → (a : LockInfo Stamp) × In a ls × (h ≡ view a)
  In-map h [] m = elim m [ ]
  In-map h (x ∷ xs) (inl e) = (x, inl refl, e)
  In-map h (x ∷ xs) (inr m) = let (a, i, e) = In-map h xs m in (a, inr i, e)

  map-In : (a : LockInfo Stamp) (ls : List (LockInfo Stamp)) → In a ls → In (view a) (holders ls)
  map-In a [] m = elim m [ ]
  map-In a (x ∷ xs) (inl e) = inl (ap view e)
  map-In a (x ∷ xs) (inr m) = inr (map-In a xs m)

  -- Rows that an older table covers.
  Covers-shrinks :
      (old new : List (LockInfo Stamp)) → Covers new old → Move (holders old) (holders new)
  Covers-shrinks old new c = shrinks (λ h m.
      let (b, i, e) = In-map h new m in
      let (a, j, p, w, o) = c b i in
      let same : view b ≡ view a = cc in
      subst (λ x. In x (holders old)) (sym (e ∙ same)) (map-In a old j))

  same-Covers : (ls : List (LockInfo Stamp)) → Covers ls ls
  same-Covers ls b i = (b, i, refl, refl, refl)

  delete-Covers : (id : String) (ls : List (LockInfo Stamp)) → Covers (delete_lock id ls) ls
  delete-Covers id ls b i = (b, (In-delete_lock id b ls i).0, refl, refl, refl)

  release-Covers :
      (id owner : String) (s : Tables Stamp) → Covers (after s (release id owner s)).locks s.locks
  unfolding release release_row drop_hold
  release-Covers id owner s = elim (Option-cases (find_lock id s)) [
    | inl miss ↦ rw (miss, release) (same-Covers s.locks)
    | inr (r, hit) ↦ elim (Bool-cases (r.owner =s owner)) [
      | inr other ↦ rw (hit, release, other) (same-Covers s.locks)
      | inl mine ↦ elim (Bool-cases (ltb 1 (or_one r.hold_count))) [
        | inl many ↦
            rw (hit, release, mine, many)
              (update-Covers _ drop_hold (λ a. (refl, refl, refl)) s.locks)
        | inr last ↦ rw (hit, release, mine, last) (delete-Covers r.lock_id s.locks)
      ]
    ]
  ]

  heartbeat-Covers :
      (t : TimeText Stamp) (held now : ℕ) (id owner : String) (lease : ℕ) (s : Tables Stamp)
      → Covers (after s (heartbeat t held now id owner lease s)).locks s.locks
  unfolding heartbeat renew_row
  heartbeat-Covers t held now id owner lease s = elim (Option-cases (find_lock id s)) [
    | inl miss ↦ rw (miss, heartbeat) (same-Covers s.locks)
    | inr (r, hit) ↦ elim (Bool-cases (r.owner =s owner)) [
      | inr other ↦ rw (hit, heartbeat, other) (same-Covers s.locks)
      | inl mine ↦ elim (Bool-cases (over_held t held r)) [
        | inl over ↦ rw (hit, heartbeat, mine, over) (delete-Covers r.lock_id s.locks)
        | inr fine ↦
            rw (hit, heartbeat, mine, fine) (update-Covers _ _ (λ a. (refl, refl, refl)) s.locks)
      ]
    ]
  ]

module _ {Stamp : Type 0} (t : TimeText Stamp) where
  upgrade-Move :
      (now : ℕ) (q : Request) (r : LockInfo Stamp) (s : Tables Stamp)
      → In r s.locks
      → r.path ≡ q.path
      → r.owner ≡ q.owner
      → IsValid s
      → has_other_owner t s q.path q.owner ≡ false
      → Move (holders s.locks) (holders (rewrite_lock t (upgrade t now q) r s).1.locks)
  unfolding rewrite_lock upgrade has_other_owner
  upgrade-Move now q r s m p o v alone =
      upgrades (view r) (map-In r s.locks m)
        (λ h i path.
          let (a, j, f) = In-map h s.locks i in
          let other =
            any-false (λ x. (x.path =s q.path) && not (x.owner =s q.owner)) a s.locks alone j in
          let on_path : a.path ≡ q.path = sym (ap (λ x. x.path) f) ∙ path ∙ p in
          let mine : a.owner ≡ q.owner = ground arith in ap (λ x. x.owner) f ∙ mine ∙ sym o)
        (λ h (i : In h (holders (update (λ x. x.lock_id =s r.lock_id) (upgrade t now q) s.locks))).
          let (b, j, f) =
            In-map h (update (λ x. x.lock_id =s r.lock_id) (upgrade t now q) s.locks) i in
          let (a, k, e) = In-update _ (upgrade t now q) b s.locks j in
          elim (Bool-cases (a.lock_id =s r.lock_id)) [
            | inl hit ↦
                let same = Distinct-eq s.locks a r v.distinct k m (=s→≡ _ _ hit) in
                inl (f ∙ ap view (rw hit at e) ∙ ap (λ x. written (view x)) same)
            | inr miss ↦ inr (
                subst (λ x. In x (holders s.locks)) (sym (f ∙ ap view (rw miss at e)))
                  (map-In a s.locks k))
          ])

  enter_held-Move :
      (now : ℕ) (q : Request) (r : LockInfo Stamp) (s : Tables Stamp)
      → In r s.locks
      → r.path ≡ q.path
      → r.owner ≡ q.owner
      → IsValid s
      → Move (holders s.locks) (holders (enter_held t now q r s).1.locks)
  unfolding enter_held enqueue rewrite_lock hold_again
  enter_held-Move now q r s m p o v =
      elim (Bool-cases (is_write r.mode || same_mode r.mode q.mode)) [
        | inl again ↦
            rw again
              (Covers-shrinks s.locks _ (update-Covers _ _ (λ a. (refl, refl, refl)) s.locks))
        | inr weaker ↦
            elim (Bool-cases (
              (not (is_write r.mode) && is_write q.mode)
              && not (has_other_owner t s q.path q.owner))) [
                | inl alone ↦ rw (weaker, alone) (upgrade-Move now q r s m p o v (ground arith))
                | inr shared ↦
                    rw (weaker, shared) (Covers-shrinks s.locks s.locks (same-Covers s.locks))
              ]
      ]

  enter-Move :
      (now : ℕ) (q : Request) (s : Tables Stamp)
      → IsValid s
      → Move (holders s.locks) (holders (enter t now q s).1.locks)
  unfolding enter enqueue
  enter-Move now q s v =
      elim (Option-cases (first (λ r. (r.path =s q.path) && (r.owner =s q.owner)) s.locks)) [
        | inl miss ↦ rw (miss, enter) (Covers-shrinks s.locks s.locks (same-Covers s.locks))
        | inr (r, hit) ↦
            let (m, found) = first-In _ r s.locks hit in
            rw (hit, enter) (enter_held-Move now q r s m (ground arith) (ground arith) v)
      ]

  cleaned-Move :
      (r : Readings) (s : Tables Stamp) (ls : List (LockInfo Stamp))
      → ls ≡ (cleaned t r s).locks
      → Move (holders s.locks) (holders ls)
  cleaned-Move r s ls e = Covers-shrinks s.locks ls (λ b i. (
    b,
    (In-cleanup_expired t r.cleanup_now r.held_now s b (subst (In b) e i)).0,
    refl,
    refl,
    refl,
  ))

  grant-Move :
      (r : Readings) (p : Pending) (s : Tables Stamp) (ls : List (LockInfo Stamp))
      → can_grant (cleaned t r s) p.request.path p.request.mode p.req_id ≡ true
      → ls ≡ (cleaned t r s).locks ++ new_lock t r p.request ∷ []
      → Move (holders s.locks) (holders ls)
  unfolding new_lock
  grant-Move r p s ls go e =
      grants (view (new_lock t r p.request))
        (λ h m.
          let (a, i, f) = In-map h ls m in
          elim (In-append a (cleaned t r s).locks _ (subst (In a) e i)) [
            | inl old ↦
                let there = (In-cleanup_expired t r.cleanup_now r.held_now s a old).0 in
                inr (subst (λ x. In x (holders s.locks)) (sym f) (map-In a s.locks there))
            | inr (inl new) ↦ inl (f ∙ ap view new)
            | inr (inr never) ↦ absurd never
          ])
        (λ h m path.
          let (a, i, f) = In-map h ls m in
          elim (In-append a (cleaned t r s).locks _ (subst (In a) e i)) [
            | inl old ↦
                let (reads, asks) =
                  Grantable-free t (cleaned t r s) p.request.path p.request.mode p.req_id a
                    (can_grant-Grantable _ p.request.path p.request.mode p.req_id go) old
                    (sym (ap (λ x. x.path) f) ∙ path) in
                inr (ap (λ x. x.mode) f ∙ reads, asks)
            | inr (inl new) ↦ inl (f ∙ ap view new)
            | inr (inr never) ↦ absurd never
          ])

  give_up_or_wait-locks :
      (r : Readings) (p : Pending) (s : Tables Stamp) → (give_up_or_wait t r p s).1.locks ≡ s.locks
  unfolding give_up_or_wait
  give_up_or_wait-locks r p s = ground arith

  poll-Move :
      (r : Readings) (p : Pending) (s : Tables Stamp)
      → Move (holders s.locks) (holders (poll t r p s).1.locks)
  unfolding poll grant give_up_or_wait
  poll-Move r p s =
      elim (Bool-cases (can_grant (cleaned t r s) p.request.path p.request.mode p.req_id)) [
        | inl go ↦ elim (Bool-cases (any (λ x. x.lock_id =s r.new_id) (cleaned t r s).locks)) [
          | inl taken ↦ rw (go, taken) (cleaned-Move r s (cleaned t r s).locks refl)
          | inr fresh ↦ rw (go, fresh) (grant-Move r p s _ go refl)
        ]
        | inr stay ↦ rw stay (cleaned-Move r s _ (give_up_or_wait-locks r p (cleaned t r s)))
      ]

  -- Every event of the broker makes a move of the specification on the locks that are held.
  pub step-Move :
      (e : Event) (b : Broker Stamp)
      → IsValid b.tables
      → Move (holders b.tables.locks) (holders (step t e b).tables.locks)
  unfolding step round
  step-Move (acquires now _ q) b v = enter-Move now q b.tables v
  step-Move (polls i r) b v = elim (Option-cases (find_pending t i b.pending)) [
    | inl miss ↦
        rw (miss, step) (Covers-shrinks b.tables.locks b.tables.locks (same-Covers b.tables.locks))
    | inr (p, hit) ↦ rw (hit, step) (poll-Move r p b.tables)
  ]
  step-Move (releases id owner) b v =
      Covers-shrinks b.tables.locks _ (release-Covers id owner b.tables)
  step-Move (heartbeats held now id owner lease) b v =
      Covers-shrinks b.tables.locks _ (heartbeat-Covers t held now id owner lease b.tables)
  step-Move restarts b v = Covers-shrinks b.tables.locks b.tables.locks (same-Covers b.tables.locks)

  run-Moves-from :
      (es : List Event) (b : Broker Stamp) (x : List Held)
      → IsValid b.tables
      → Moves x (holders b.tables.locks)
      → Moves x (holders (run t es b).tables.locks)
  unfolding run
  run-Moves-from [] b x v ms = ms
  run-Moves-from (e ∷ es) b x v ms =
      run-Moves-from es (step t e b) x (step-IsValid t e b v) (one_more ms (step-Move e b v))

  -- Every history of the broker from a new database, in every order, is a run of the specification, from
  -- no locks to those that the tables hold.
  pub run-Moves :
      (es : List Event) → Moves [] (holders (run t es (start_broker {Stamp = Stamp})).tables.locks)
  run-Moves es = run-Moves-from es start_broker [] empty_tables-IsValid none_made
