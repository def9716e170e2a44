-- ===== src/Fuse/Returns.antt =====
-- What becomes of the locks that the operations of the mount take.
use shared_concurrency_subst.Common.{
  ℕ, suc, ◌≡◌, refl, ap, String, true, false, List, [], ◌∷◌, Option, some, arith, ◌=s◌,
}
use shared_concurrency_subst.Effects.{
  Errno, Outcome, done, raises, Raised, os_error, gives, fails, M, bind_result, pure, finish,
}
use shared_concurrency_subst.Fuse.World.{
  LockService, close, Kernel, Platform, Mount, World, dict_get, dict_set,
}
use shared_concurrency_subst.Fuse.Locks.{
  lock_key, sorted, full_path, acquire_for_key, acquire_all, acquire_multi, release_lock,
  finalize_handle, remember,
}
use shared_concurrency_subst.Fuse.Operations.{
  with_write_lock, with_two_locks, opened, open_with, release,
}
use shared_concurrency_subst.Fuse.Leaks.{token, first_acquire, open_with-opened}

module _ {W A : Type 0} where
  finish-world : (r : Outcome A) (p : Outcome (Unit {0}) × W) → (finish r p).1 ≡ p.1
  finish-world r (done _, w) = refl
  finish-world r (raises e, w) = refl

  finish-done :
      (r : Outcome A) (p : Outcome (Unit {0}) × W) (u : Unit {0})
      → p.0 ≡ done u
      → (finish r p).0 ≡ r
  finish-done r (done _, w) u e = refl
  finish-done r (raises x, w) u e = cc

pub bind_result-pure :
    {W A B : Type 0} (b : B) (p : Outcome A × W) → (bind_result p (λ _. pure b)).1 ≡ p.1
bind_result-pure b (done _, w) = refl
bind_result-pure b (raises e, w) = refl

module _ {S K : Type 0} (service : LockService S) (os : Kernel K) (c : Platform) (m : Mount) where
  -- An operation under one write lock releases the lock that it took, under the owner that took it,
  -- whether the kernel's call succeeds or raises; and if the release succeeds the caller gets what
  -- that call gave.
  pub with_write_lock_returns :
      {A : Type 0} (path : String) (body : M (World S K) A) (w w1 : World S K) (id owner : String)
      → acquire_for_key service os c m (lock_key path) "write" true w ≡ (done (id, owner), w1)
      → ¬ (owner ≡ "")
      → ((with_write_lock service os c m path body w).1.service
          ≡ (service.release id owner (body w1).1.service).1)
        × ((service.release id owner (body w1).1.service).0 ≡ done tt
            → (with_write_lock service os c m path body w).0 ≡ (body w1).0)
  unfolding with_write_lock release_lock
  with_write_lock_returns path body w w1 id owner e named =
      let n : (owner =s "") ≡ false = ground arith in
      rw (e, with_write_lock, n)
        (
          ap (λ (x : World S K). x.service) (finish-world (body w1).0 _),
          λ d. finish-done (body w1).0 _ tt d,
        )

  dict_get-set :
      {V : Type 0} (k : ℕ) (v : V) (d : List (ℕ × V)) → dict_get k (dict_set k v d) ≡ some v
  unfolding dict_get dict_set
  dict_get-set k v [] = ground arith
  dict_get-set k v ((j, x) ∷ d) = ground (arith, dict_get-set k v d)

  -- The handle is in the three tables that the end of a handle reads.
  pub record HasHandle (fh : ℕ) (id owner : String) (fd : ℕ) (w : World S K) : Type 0 where
    pub lock : dict_get fh w.handle_locks ≡ some id
    pub descriptor : dict_get fh w.handle_fds ≡ some fd
    pub owned : dict_get fh w.handle_owners ≡ some owner

  -- `open` and `create` that succeed return the next handle, and record the lock, the descriptor and
  -- the token under it.
  pub open_with-HasHandle :
      (path mode : String) (flags : ℕ) (perm : Option ℕ) (w : World S K) (id : String) (fd : ℕ)
      → (first_acquire service os c m path mode w).0 ≡ done id
      → (os.open_file (full_path service os c m path) flags perm w.kernel).0 ≡ gives fd
      → ((open_with service os c m path mode flags perm w).0 ≡ done (suc w.next_fh))
        × HasHandle
            (suc w.next_fh)
            id
            (token service os c m w)
            fd
            (open_with service os c m path mode flags perm w).1
  unfolding opened remember
  open_with-HasHandle path mode flags perm w id fd got gave =
      rw (open_with-opened service os c m path mode flags perm w id got, gave)
        (
          refl,
          record {
            lock = dict_get-set (suc w.next_fh) id w.handle_locks;
            descriptor = dict_get-set (suc w.next_fh) fd w.handle_fds;
            owned = dict_get-set (suc w.next_fh) (token service os c m w) w.handle_owners;
          },
        )

  -- The end of a handle. If the kernel closes the descriptor, the lock is released under the owner that
  -- took it. If the kernel's `close` fails, the handle is forgotten, the caller gets the kernel's error,
  -- and the lock is not released.
  pub release_handle :
      (fh : ℕ) (id owner : String) (fd : ℕ) (w : World S K)
      → HasHandle fh id owner fd w
      → ¬ (id ≡ "")
      → ¬ (owner ≡ "")
      → ((x : List ℕ)
          → (os.call (close fd) w.kernel).0 ≡ gives x
          → (release service os c m fh w).1.service ≡ (service.release id owner w.service).1)
        × ((e : Errno)
            → (os.call (close fd) w.kernel).0 ≡ fails e
            → ((release service os c m fh w).0 ≡ raises (os_error e))
              × ((release service os c m fh w).1.service ≡ w.service))
  unfolding release finalize_handle
  release_handle fh id owner fd w h lock_named owner_named =
      let i : (id =s "") ≡ false = ground arith in
      let o : (owner =s "") ≡ false = ground arith in
      (
        λ x e.
            rw (release, h.lock, h.descriptor, h.owned, e, i, o)
              (ap (λ (y : World S K). y.service)
                (bind_result-pure 0 ((service.release id owner w.service).0, _))),
        λ f e. rw (release, h.lock, h.descriptor, h.owned, e) (refl, refl),
      )

  -- The first of two locks is not returned when the second cannot be taken: the operation passes the
  -- exception on, and the service is as the failed request left it.
  pub with_two_locks_leaks :
      {A : Type 0} (a b p q : String) (body : M (World S K) A) (w w1 w2 : World S K)
      (id : String × String) (e : Raised)
      → sorted (lock_key a ∷ lock_key b ∷ []) ≡ p ∷ q ∷ []
      → acquire_for_key service os c m p "write" true w ≡ (done id, w1)
      → acquire_for_key service os c m q "write" true w1 ≡ (raises e, w2)
      → with_two_locks service os c m a b body w ≡ (raises e, w2)
  unfolding with_two_locks acquire_multi acquire_all
  with_two_locks_leaks a b p q body w w1 w2 id e order first second =
      rw (with_two_locks, acquire_multi, order, acquire_all, first, second)
