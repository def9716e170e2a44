-- ===== src/Fuse/Shapes.antt =====
-- The operations of a mount keep the tables of its handles aligned.
use mathlib.Core.List.{reverse}
use shared_concurrency_subst.Common.{
  ℕ, suc, sym, ◌∙◌, ap, subst, inl, inr, String, true, false, [], ◌∷◌, Option, none, some, arith,
  Bool-cases, ◌=s◌,
}
use shared_concurrency_subst.Effects.{
  Raised, fuse_os_error, Reply, gives, fails, M, pure, raise, try_finally, or_raise, eio,
}
use shared_concurrency_subst.Fuse.World.{
  LockService, Kernel, Platform, Mount, World, dict_get, dict_set, dict_remove,
}
use shared_concurrency_subst.Fuse.World
use shared_concurrency_subst.Fuse.Locks
use shared_concurrency_subst.Fuse.Operations
use shared_concurrency_subst.Fuse.Handles.{
  keys, keys-dict_set, keys-dict_remove, key_set, key_remove, In-key_set, In-key_remove,
}
use shared_concurrency_subst.Fuse.Keeps.{
  IsAligned, Keeps, outside-IsAligned, bind_result-IsAligned, try_finally-Keeps, raised_as-world,
  acquire_for_key-Keeps, acquire_all-Keeps, release_lock-Keeps, release_all-Keeps,
}

module _ {S K : Type 0} (service : LockService S) (os : Kernel K) (c : Platform) (m : Mount) where
  abbrev W : Type 0
  W = World S K

  pub with_write_lock-Keeps :
      {A : Type 0} (path : String) (body : M W A)
      → Keeps body
      → Keeps (Operations.with_write_lock service os c m path body)
  unfolding Operations.with_write_lock
  with_write_lock-Keeps path body k w v =
      bind_result-IsAligned
        (Locks.acquire_for_key service os c m (Locks.lock_key path) "write" true w)
        (λ p. try_finally body (Locks.release_lock service os c m p.0 (some p.1)))
        (acquire_for_key-Keeps service os c m (Locks.lock_key path) "write" true w v)
        (λ p.
          try_finally-Keeps body (Locks.release_lock service os c m p.0 (some p.1)) k
            (release_lock-Keeps service os c m p.0 (some p.1)))

  pub with_two_locks-Keeps :
      {A : Type 0} (a b : String) (body : M W A)
      → Keeps body
      → Keeps (Operations.with_two_locks service os c m a b body)
  unfolding Operations.with_two_locks Locks.acquire_multi Locks.release_multi
  with_two_locks-Keeps a b body k w v =
      let paths = Locks.sorted (Locks.lock_key a ∷ Locks.lock_key b ∷ []) in
      bind_result-IsAligned (Locks.acquire_all service os c m paths [] w)
        (λ ids. try_finally body (Locks.release_all service os c m (reverse ids)))
        (acquire_all-Keeps service os c m paths [] w v)
        (λ ids.
          try_finally-Keeps body (Locks.release_all service os c m (reverse ids)) k
            (release_all-Keeps service os c m (reverse ids)))

  pub syscall-Keeps : (x : World.Syscall) → Keeps (Locks.syscall service os c m x)
  syscall-Keeps x w v = outside-IsAligned w _ _ _ v

  forget-IsAligned : (fh : ℕ) (w : W) → IsAligned w → IsAligned (Locks.forget service os c m fh w)
  unfolding Locks.forget
  forget-IsAligned fh w v =
      let locks = keys-dict_remove fh w.handle_locks in
      record {
        of_paths = keys-dict_remove fh w.handle_paths ∙ ap (key_remove fh) v.of_paths ∙ sym locks;
        of_fds = keys-dict_remove fh w.handle_fds ∙ ap (key_remove fh) v.of_fds ∙ sym locks;
        of_owners =
            keys-dict_remove fh w.handle_owners ∙ ap (key_remove fh) v.of_owners ∙ sym locks;
        below = λ k i. v.below k (In-key_remove k fh (keys w.handle_locks) (rw locks at i));
      }

  remember-IsAligned :
      (id key owner : String) (fd : ℕ) (w : W)
      → IsAligned w
      → IsAligned (Locks.remember service os c m id key owner fd w)
  unfolding Locks.remember
  remember-IsAligned id key owner fd w v =
      let fh = suc w.next_fh in
      let locks = keys-dict_set fh id w.handle_locks in
      record {
        of_paths = keys-dict_set fh key w.handle_paths ∙ ap (key_set fh) v.of_paths ∙ sym locks;
        of_fds = keys-dict_set fh fd w.handle_fds ∙ ap (key_set fh) v.of_fds ∙ sym locks;
        of_owners =
            keys-dict_set fh owner w.handle_owners ∙ ap (key_set fh) v.of_owners ∙ sym locks;
        below = λ k i. elim (In-key_set k fh (keys w.handle_locks) (rw locks at i)) [
          | inl e ↦ omega (arith, e)
          | inr old ↦ let b = v.below k old in omega (arith, b)
        ];
      }

  pub if_lock-Keeps :
      (o : Option String) (f : String → M W (Unit {0}))
      → ((id : String) → Keeps (f id))
      → Keeps (Locks.if_lock service os c m o f)
  if_lock-Keeps none f k w v = v
  if_lock-Keeps (some id) f k w v = elim (Bool-cases (id =s "")) [
    | inl e ↦ rw e v
    | inr e ↦ rw e (k id w v)
  ]

  pub close_fd-Keeps : (o : Option ℕ) → Keeps (Locks.close_fd service os c m o)
  close_fd-Keeps none w v = v
  close_fd-Keeps (some fd) w v =
      bind_result-IsAligned (Locks.syscall service os c m (World.close fd) w) (λ t. pure tt)
        (syscall-Keeps (World.close fd) w v) (λ t x u. u)

  pub finalize_handle-Keeps : (fh : ℕ) → Keeps (Locks.finalize_handle service os c m fh)
  unfolding Locks.finalize_handle
  finalize_handle-Keeps fh w v =
      let owner = dict_get fh w.handle_owners in
      let fd = dict_get fh w.handle_fds in
      let lock = dict_get fh w.handle_locks in
      bind_result-IsAligned (Locks.close_fd service os c m fd (Locks.forget service os c m fh w))
        (λ t. Locks.if_lock service os c m lock (λ id. Locks.release_lock service os c m id owner))
        (close_fd-Keeps fd _ (forget-IsAligned fh w v))
        (λ t. if_lock-Keeps lock _ (λ id. release_lock-Keeps service os c m id owner))

  pub keep_lock-Keeps : (fh : ℕ) → Keeps (Operations.keep_lock service os c m fh)
  unfolding Operations.keep_lock Locks.heartbeat_lock
  keep_lock-Keeps fh w v =
      if_lock-Keeps (dict_get fh w.handle_locks)
        (λ id. Locks.heartbeat_lock service os c m id (dict_get fh w.handle_owners))
        (λ id x u. outside-IsAligned x _ _ _ u) w v

  pub opened-Keeps :
      (id owner key : String) (r : Reply ℕ)
      → Keeps (Operations.opened service os c m id owner key r)
  unfolding Operations.opened
  opened-Keeps id owner key (gives fd) w v = remember-IsAligned id key owner fd w v
  opened-Keeps id owner key (fails e) w v =
      bind_result-IsAligned (Locks.release_lock service os c m id none w)
        (λ t. raise {A = ℕ} (fuse_os_error e)) (release_lock-Keeps service os c m id none w v)
        (λ t x u. u)

  pub or_raise-Keeps : {A : Type 0} (f : M W A) (e : Raised) → Keeps f → Keeps (or_raise f e)
  or_raise-Keeps f e k w v = subst IsAligned (sym (raised_as-world e (f w))) (k w v)

  abbrev pub after_lock : String → ℕ → Option ℕ → String × String → M W ℕ
  after_lock path flags perm (id, owner) w =
      let r = os.open_file (Locks.full_path service os c m path) flags perm w.kernel in
      Operations.opened service os c m id owner (Locks.lock_key path) r.0
        (record w { kernel = r.1 })

  pub open_with-Keeps :
      (path mode : String) (flags : ℕ) (perm : Option ℕ)
      → Keeps (Operations.open_with service os c m path mode flags perm)
  unfolding Operations.open_with
  open_with-Keeps path mode flags perm w v =
      let take = Locks.acquire_for_key service os c m (Locks.lock_key path) mode false in
      bind_result-IsAligned (or_raise take (fuse_os_error eio) w) (after_lock path flags perm)
        (or_raise-Keeps take (fuse_os_error eio) (acquire_for_key-Keeps service os c m _ mode false)
          w v)
        (λ p x u. opened-Keeps p.0 p.1 (Locks.lock_key path) _ _ (outside-IsAligned x _ _ _ u))
