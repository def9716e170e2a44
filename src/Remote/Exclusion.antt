-- ===== src/Remote/Exclusion.antt =====
-- A file that is open for writing on a mount, and the other users of the broker.
use shared_concurrency_subst.Common.{
  ℕ, suc, ◌≡◌, refl, sym, ◌∙◌, ◌⊎◌, inl, inr, String, List, Option, some, String_discrete, arith,
  In, ap,
}
use shared_concurrency_subst.Store.Data.{Mode, write, TimeText, LockInfo}
use shared_concurrency_subst.Store.Acquire.{Readings, parse_mode}
use shared_concurrency_subst.System.{Broker, Event, run}
use shared_concurrency_subst.System.Safety.{run-IsValid}
use shared_concurrency_subst.Broker.{Config}
use shared_concurrency_subst.Effects.{Errno, Raised, Outcome, done, raises, Reply, gives, fails}
use shared_concurrency_subst.Fuse.World.{LockService, Kernel, Platform, Mount, World}
use shared_concurrency_subst.Fuse.Locks.{
  lock_key, full_path, acquire, acquire_for_key, release_lock, remember,
}
use shared_concurrency_subst.Fuse.Operations.{opened, open_with}
use shared_concurrency_subst.Fuse.Leaks.{
  token, token-=s-empty, first_acquire, after_open, open_with-opened,
}
use shared_concurrency_subst.Fuse.Returns.{HasHandle, open_with-HasHandle}
use shared_concurrency_subst.Remote.{Line, remote_service}
use shared_concurrency_subst.Remote.Served.{acquire-ServedBy}
use shared_concurrency_subst.System.Keys.{Unissued, Writes, run-Writes}
use shared_concurrency_subst.Store.Invariant.Ids.{Distinct-eq}

Outcome-cases :
    {A : Type 0} (x : Outcome A) → ((a : A) × (x ≡ done a)) ⊎ ((e : Raised) × (x ≡ raises e))
Outcome-cases (done a) = inl (a, refl)
Outcome-cases (raises e) = inr (e, refl)

Reply-cases : {A : Type 0} (x : Reply A) → ((a : A) × (x ≡ gives a)) ⊎ ((e : Errno) × (x ≡ fails e))
Reply-cases (gives a) = inl (a, refl)
Reply-cases (fails e) = inr (e, refl)

module _ {S K : Type 0} (service : LockService S) (os : Kernel K) (c : Platform) (m : Mount) where
  abbrev W : Type 0
  W = World S K

  open_with-refused :
      (path mode : String) (flags : ℕ) (perm : Option ℕ) (w : W) (e : Raised) (fh : ℕ)
      → (first_acquire service os c m path mode w).0 ≡ raises e
      → ¬ ((open_with service os c m path mode flags perm w).0 ≡ done fh)
  unfolding open_with acquire_for_key acquire
  open_with-refused path mode flags perm w e fh bad k =
      let h =
        rw (open_with, acquire_for_key, acquire, token-=s-empty m.owner (c.hex w.tokens), bad) at
          k in
      ground arith

  opened-fails :
      (id owner key : String) (e : Errno) (w : W) (fh : ℕ)
      → ¬ ((opened service os c m id owner key (fails e) w).0 ≡ done fh)
  unfolding opened release_lock
  opened-fails id owner key e w fh k = ground arith

  -- A successful `open` took a lock and got a descriptor.
  pub open_with-done :
      (path mode : String) (flags : ℕ) (perm : Option ℕ) (w : W) (fh : ℕ)
      → (open_with service os c m path mode flags perm w).0 ≡ done fh
      → (id : String) × (fd : ℕ) × ((first_acquire service os c m path mode w).0 ≡ done id)
        × ((os.open_file (full_path service os c m path) flags perm w.kernel).0 ≡ gives fd)
        × (fh ≡ suc w.next_fh)
        × ((open_with service os c m path mode flags perm w).1.service
            ≡ (first_acquire service os c m path mode w).1)
  unfolding opened remember
  open_with-done path mode flags perm w fh k =
      elim (Outcome-cases (first_acquire service os c m path mode w).0) [
        | inr (e, bad) ↦ absurd (open_with-refused path mode flags perm w e fh bad k)
        | inl (id, got) ↦
            let shape = open_with-opened service os c m path mode flags perm w id got in
            elim (Reply-cases
              (os.open_file (full_path service os c m path) flags perm w.kernel).0) [
                | inr (e, failed) ↦ absurd (
                    opened-fails id (token service os c m w) (lock_key path) e
                      (after_open service os c m path mode flags perm w) fh
                      (rw (shape, failed) at k))
                | inl (fd, gave) ↦
                    let h = rw (shape, gave) at k in (id, fd, got, gave, cc, rw (shape, gave) refl)
              ]
      ]

module _ {Stamp K : Type 0} (t : TimeText Stamp) (c : Config) (readings : ℕ → Readings)
    (others : ℕ → List Event) (patience : ℕ) (os : Kernel K) (p : Platform) (m : Mount) where
  abbrev client : LockService (Line Stamp)
  client = remote_service t c readings others patience

  -- The write lock of a token on a path, beside which there is no lock of another owner on the path
  -- in any tables that the broker reaches while it keeps a row with the lock's key.
  pub record Excludes (path owner : String) (l : LockInfo Stamp) (b : Broker Stamp) : Type 0 where
    pub held : In l b.tables.locks
    pub on_path : l.path ≡ path
    pub writes : l.mode ≡ write
    pub owned : l.owner ≡ owner
    pub alone :
        (es : List Event) (r a : LockInfo Stamp)
        → Unissued l.lock_id es
        → In r (run t es b).tables.locks
        → r.lock_id ≡ l.lock_id
        → In a (run t es b).tables.locks
        → a.path ≡ path
        → a.owner ≡ owner

  key_alone :
      (s : Line Stamp) (l : LockInfo Stamp) {path owner : String}
      → In l s.broker.tables.locks
      → l.path ≡ path
      → l.mode ≡ write
      → l.owner ≡ owner
      → (es : List Event) (r a : LockInfo Stamp) → Unissued l.lock_id es
      → In r (run t es s.broker).tables.locks
      → r.lock_id ≡ l.lock_id
      → In a (run t es s.broker).tables.locks
      → a.path ≡ path
      → a.owner ≡ owner
  key_alone s l {path} {owner} held on_path writes owned es r a new i same j e =
      let start : Writes l.lock_id path owner s.broker.tables.locks = λ x n k.
        let eq = Distinct-eq s.broker.tables.locks x l s.valid.distinct n held k in
        (
          ap (λ y. y.path) eq ∙ on_path,
          ap (λ y. y.mode) eq ∙ writes,
          ap (λ y. y.owner) eq ∙ owned,
        ) in
      let (at, mode, mine) = run-Writes l.lock_id path owner t es s.broker new start r i same in
      sym ((run-IsValid t es s.broker s.valid).exclusive r a i j (at ∙ sym e) mode) ∙ mine

  write-mode : (mode : Mode) → parse_mode "write" ≡ some mode → mode ≡ write
  unfolding parse_mode String_discrete
  write-mode mode e = cc

  -- Opening a file for writing, with the client, the handler, the store and other clients behind the
  -- mount: when `open` or `create` returns a handle, the handle's lock is a write lock on the file's
  -- key under the handle's token in the broker's tables. After any further events in which `uuid4` does
  -- not give the lock's key again, as long as there is a row with it (renewed or not), every lock on
  -- that path is the token's.
  pub open_with-Excludes :
      (path : String) (flags : ℕ) (perm : Option ℕ) (w : World (Line Stamp) K) (fh : ℕ)
      → (open_with client os p m path "write" flags perm w).0 ≡ done fh
      → (l : LockInfo Stamp) × (fd : ℕ) × HasHandle client os p m fh l.lock_id
          (token client os p m w)
          fd
          (open_with client os p m path "write" flags perm w).1
        × Excludes
            (lock_key path)
            (token client os p m w)
            l
            (open_with client os p m path "write" flags perm w).1.service.broker
  open_with-Excludes path flags perm w fh k =
      let (id, fd, got, gave, number, service) =
        open_with-done client os p m path "write" flags perm w fh k in
      let (mode, good, served) =
        acquire-ServedBy t c readings others patience (lock_key path) "write"
          (token client os p m w) m.acquire_timeout_ms m.lease_ms m.max_hold_ms w.service id got in
      let (l, now, serves, key) = served in
      let h = open_with-HasHandle client os p m path "write" flags perm w id fd got gave in
      let writes : l.mode ≡ write = elim serves.allowed [
        | inl e ↦ e
        | inr e ↦ e ∙ write-mode mode good
      ] in
      (
        l,
        fd,
        rw (key, number) h.1,
        rw service (record {
          held = serves.held;
          on_path = serves.on_path;
          writes = writes;
          owned = serves.owned;
          alone =
              key_alone (first_acquire client os p m path "write" w).1 l serves.held serves.on_path
                writes serves.owned;
        }),
      )
