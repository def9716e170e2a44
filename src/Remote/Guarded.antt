-- ===== src/Remote/Guarded.antt =====
-- A write through a mount, and the lock of its handle at the broker.
use shared_concurrency_subst.Common.{
  ℕ, ◌+◌, ◌*◌, ◌≡◌, refl, subst, ◌⊎◌, inl, inr, String, Bool, true, false, List, arith, ◌=s◌, =s→≡,
  ≡→=s, Bool-cases, Option-cases, String_discrete, In, first-In, update, update-In, leb,
}
use shared_concurrency_subst.Store.Data.{
  TimeText, LockInfo, Tables, permission_error, value_error, integrity_error, Error, Result, ok,
  err,
}
use shared_concurrency_subst.Store.Cleanup.{over_held}
use shared_concurrency_subst.Store.Acquire.{Readings}
use shared_concurrency_subst.Store.Release.{find_lock, renew_row, heartbeat}
use shared_concurrency_subst.Store.Strangers.{HeldBy}
use shared_concurrency_subst.System.{Broker, Event}
use shared_concurrency_subst.Broker.{
  Config, Response, Posted, replied, reply_result, post_heartbeat, do_post,
}
use shared_concurrency_subst.Client.{heartbeat_payload, read_reply}
use shared_concurrency_subst.Broker.Replies.{heartbeat-err}
use shared_concurrency_subst.Effects.{done, gives, raises, runtime_error}
use shared_concurrency_subst.Fuse.World.{
  LockService, seek_read, seek_write, Kernel, Platform, Mount, World,
}
use shared_concurrency_subst.Fuse.Locks.{heartbeat_lock}
use shared_concurrency_subst.Fuse.Operations.{keep_lock, read, write}
use shared_concurrency_subst.Fuse.Returns.{HasHandle}
use shared_concurrency_subst.Remote.{Line, respond_to, exchange, remote_service}

module _ {Stamp : Type 0} (t : TimeText Stamp) where
  -- A heartbeat that is accepted finds the owner's lock, and leaves it.
  heartbeat-HeldBy :
      (held now : ℕ) (id owner : String) (lease : ℕ) (s s' : Tables Stamp)
      → heartbeat t held now id owner lease s ≡ ok (true, s')
      → HeldBy s id owner × HeldBy s' id owner
  unfolding heartbeat renew_row
  heartbeat-HeldBy held now id owner lease s s' e = elim (Option-cases (find_lock id s)) [
    | inl miss ↦ absurd (let h = rw (miss, heartbeat) at e in cc)
    | inr (r, hit) ↦ elim (Bool-cases (r.owner =s owner)) [
      | inr other ↦ absurd (let h = rw (hit, heartbeat, other) at e in cc)
      | inl mine ↦ elim (Bool-cases (over_held t held r)) [
        | inl over ↦ absurd (let h = rw (hit, heartbeat, mine, over) at e in cc)
        | inr fine ↦
            let (m, found) = first-In _ r s.locks hit in
            let k = =s→≡ r.lock_id id found in
            let o = =s→≡ r.owner owner mine in
            let h = rw (hit, heartbeat, mine, fine) at e in
            let renew : LockInfo Stamp → LockInfo Stamp =
              λ x. record x { lease_expires_at = t.isoformat (now + lease * 1000) } in
            let same : record s { locks = update (λ x. x.lock_id =s r.lock_id) renew s.locks }
                ≡ s' =
              cc in
            let there =
              rw (≡→=s r.lock_id r.lock_id refl) at
                (update-In (λ x. x.lock_id =s r.lock_id) renew r s.locks m) in
            (
              (r, m, k, o),
              (renew r, subst (λ (x : Tables Stamp). In (renew r) x.locks) same there, k, o),
            )
      ]
    ]
  ]

  -- The outcome of a heartbeat of the client: a RuntimeError, or the owner's lock is there, before and
  -- after.
  Guards : Tables Stamp → String → String → Posted Stamp × Broker Stamp → Type 0
  Guards s id owner x =
      ((r : Response Stamp) × (x.0 ≡ replied r) × (leb 400 r.code ≡ true))
      ⊎ (((r : Response Stamp) × (x.0 ≡ replied r) × (leb 400 r.code ≡ false))
          × HeldBy s id owner
          × HeldBy x.1.tables id owner)

  reply_result-Guards :
      (s : Tables Stamp) (id owner : String) (b : Broker Stamp) (x : Result (Bool × Tables Stamp))
      → ((e : Error) → x ≡ err e → e ≡ permission_error)
      → ((s' : Tables Stamp) → x ≡ ok (true, s') → HeldBy s id owner × HeldBy s' id owner)
      → Guards s id owner (reply_result t "ok" b x)
  unfolding Guards reply_result
  reply_result-Guards s id owner b (ok (true, s')) e h =
      let k = h s' refl in inr ((_, refl, refl), k.0, k.1)
  reply_result-Guards s id owner b (ok (false, s')) e h = inl (_, refl, refl)
  reply_result-Guards s id owner b (err permission_error) e h = inl (_, refl, refl)
  reply_result-Guards s id owner b (err value_error) e h = absurd (let k = e value_error refl in cc)
  reply_result-Guards s id owner b (err integrity_error) e h =
      absurd (let k = e integrity_error refl in cc)

  post-Guards :
      (c : Config) (n start : ℕ) (id owner : String) (lease : ℕ) (b : Broker Stamp)
      → Guards b.tables id owner
          (do_post t c n n start "/v1/locks/heartbeat" (heartbeat_payload id owner lease) b)
  unfolding do_post post_heartbeat heartbeat_payload String_discrete Guards
  post-Guards c n start id owner lease b = elim (Bool-cases (id =s "")) [
    | inl no_id ↦ rw (no_id, post_heartbeat) (inl (_, refl, refl))
    | inr i ↦ elim (Bool-cases (owner =s "")) [
      | inl no_owner ↦ rw (i, post_heartbeat, no_owner) (inl (_, refl, refl))
      | inr o ↦
          rw (i, post_heartbeat, o)
            (reply_result-Guards b.tables id owner b (heartbeat t n n id owner lease b.tables)
              (λ e. heartbeat-err t n n id owner lease b.tables e)
              (λ s'. heartbeat-HeldBy n n id owner lease b.tables s'))
    ]
  ]

module _ {Stamp : Type 0} (t : TimeText Stamp) (c : Config) (readings : ℕ → Readings)
    (others : ℕ → List Event) (patience : ℕ) where
  abbrev service : LockService (Line Stamp)
  service = remote_service t c readings others patience

  -- A heartbeat of the client raises a RuntimeError, or the owner's lock is there, before and after.
  pub remote-heartbeat :
      (id owner : String) (lease : ℕ) (s : Line Stamp)
      → ((service.heartbeat id owner lease s).0 ≡ raises runtime_error)
        ⊎ (((service.heartbeat id owner lease s).0 ≡ done tt)
            × HeldBy s.broker.tables id owner
            × HeldBy (service.heartbeat id owner lease s).1.broker.tables id owner)
  unfolding remote_service exchange respond_to read_reply Guards
  remote-heartbeat id owner lease s =
      let r = readings s.tick in
      elim (post-Guards t c r.granted_now r.monotonic id owner lease s.broker) [
        | inl (x, e, bad) ↦ inl (rw (e, bad) refl)
        | inr ((x, e, good), before, after) ↦ inr (rw (e, good) refl, before, rw e after)
      ]

  module _ {K : Type 0} (os : Kernel K) (p : Platform) (m : Mount) where
    -- A write through a handle of the mount: either the caller gets a RuntimeError and the kernel is not
    -- called, or the broker has the handle's lock under the handle's token, before the write and after,
    -- and the kernel writes once.
    pub write_guarded :
        (buf : List ℕ) (offset fh : ℕ) (id owner : String) (fd : ℕ) (w : World (Line Stamp) K)
        → HasHandle service os p m fh id owner fd w
        → ¬ (id ≡ "")
        → ¬ (owner ≡ "")
        → let y = write service os p m buf offset fh w in
          ((y.0 ≡ raises runtime_error) × (y.1.kernel ≡ w.kernel))
          ⊎ (HeldBy w.service.broker.tables id owner
              × HeldBy y.1.service.broker.tables id owner
              × (y.1.kernel ≡ (os.call (seek_write fd offset buf) w.kernel).1))
    unfolding write keep_lock heartbeat_lock
    write_guarded buf offset fh id owner fd w h named owned =
        let i : (id =s "") ≡ false = ground arith in
        let o : (owner =s "") ≡ false = ground arith in
        elim (remote-heartbeat id owner m.lease_ms w.service) [
          | inl refused ↦ inl (rw (write, keep_lock, h.lock, h.owned, i, o, refused) (refl, refl))
          | inr (kept, before, after) ↦ inr (
              rw (write, keep_lock, h.lock, h.owned, i, o, kept, h.descriptor)
                (before, after, refl))
        ]

    -- When the lock of a handle is gone from the broker, a write through the handle raises a RuntimeError
    -- and leaves the files alone, but a read still gives what the kernel reads.
    pub lost_lock :
        (buf : List ℕ) (n offset fh : ℕ) (id owner : String) (fd : ℕ) (w : World (Line Stamp) K)
        (x : List ℕ)
        → HasHandle service os p m fh id owner fd w
        → ¬ (id ≡ "")
        → ¬ (owner ≡ "")
        → ¬ HeldBy w.service.broker.tables id owner
        → (os.call (seek_read fd offset n) w.kernel).0 ≡ gives x
        → ((write service os p m buf offset fh w).0 ≡ raises runtime_error)
          × ((write service os p m buf offset fh w).1.kernel ≡ w.kernel)
          × ((read service os p m n offset fh w).0 ≡ done x)
    unfolding read
    lost_lock buf n offset fh id owner fd w x h named owned lost bytes =
        let got : (read service os p m n offset fh w).0 ≡ done x = rw (h.descriptor, bytes) refl in
        elim (write_guarded buf offset fh id owner fd w h named owned) [
          | inl (refused, same) ↦ (refused, same, got)
          | inr (kept, _, _) ↦ absurd (lost kept)
        ]
