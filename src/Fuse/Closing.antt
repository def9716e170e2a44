-- ===== src/Fuse/Closing.antt =====
-- A file that is opened and closed again.
use shared_concurrency_subst.Common.{
  ℕ, suc, ◌≡◌, refl, String, List, Option, arith, In, ◌=s◌, false,
}
use shared_concurrency_subst.Effects.{done, gives}
use shared_concurrency_subst.Fuse.World.{LockService, Kernel, Platform, Mount, World, close}
use shared_concurrency_subst.Fuse.Locks.{
  full_path, finalize_handle, forget, remember, release_lock, lock_key,
}
use shared_concurrency_subst.Fuse.Operations.{opened, open_with, release}
use shared_concurrency_subst.Fuse.Leaks.{
  token, token-=s-empty, first_acquire, after_open, open_with-opened,
}
use shared_concurrency_subst.Fuse.Returns.{HasHandle, bind_result-pure, open_with-HasHandle}
use shared_concurrency_subst.Fuse.Handles.{keys, dict_remove-set}
use shared_concurrency_subst.Fuse.Keeps.{IsAligned}

module _ {S K : Type 0} (service : LockService S) (os : Kernel K) (c : Platform) (m : Mount) where
  abbrev W : Type 0
  W = World S K

  -- The state that a handle leaves when its descriptor is closed and its lock released.
  abbrev closed : ℕ → String → String → ℕ → W → W
  closed fh id owner fd w = record (forget service os c m fh w) {
    kernel = (os.call (close fd) w.kernel).1;
    service = (service.release id owner w.service).1;
  }

  release-closed :
      (fh : ℕ) (id owner : String) (fd : ℕ) (w : W) (x : List ℕ)
      → HasHandle service os c m fh id owner fd w
      → (id =s "") ≡ false
      → (owner =s "") ≡ false
      → (os.call (close fd) w.kernel).0 ≡ gives x
      → (release service os c m fh w).1 ≡ closed fh id owner fd w
  unfolding release finalize_handle release_lock
  release-closed fh id owner fd w x h i o e =
      rw (release, h.lock, h.descriptor, h.owned, e, i, o)
        (bind_result-pure 0 ((service.release id owner w.service).0, _))

  fresh : (w : W) → IsAligned w → ¬ In (suc w.next_fh) (keys w.handle_locks)
  fresh w v m = absurd (let b = v.below (suc w.next_fh) m in omega (arith, b))

  -- The state that a successful `open` leaves.
  abbrev pub opened_state : String → String → ℕ → Option ℕ → String → ℕ → W → W
  opened_state path mode flags perm id fd w =
      remember service os c m id (lock_key path) (token service os c m w) fd
        (after_open service os c m path mode flags perm w)

  open_with-state :
      (path mode : String) (flags : ℕ) (perm : Option ℕ) (w : W) (id : String) (fd : ℕ)
      → (first_acquire service os c m path mode w).0 ≡ done id
      → (os.open_file (full_path service os c m path) flags perm w.kernel).0 ≡ gives fd
      → (open_with service os c m path mode flags perm w).1
        ≡ opened_state path mode flags perm id fd w
  unfolding opened
  open_with-state path mode flags perm w id fd got gave =
      rw (open_with-opened service os c m path mode flags perm w id got, gave) refl

  -- A file is opened, and the handle that `open` gave is closed at once, and the kernel does both: then
  -- the tables of handles are as they were before, and the lock service has given the lock to the token
  -- and taken it back from it.
  pub release-open_with :
      (path mode : String) (flags : ℕ) (perm : Option ℕ) (w : W) (id : String) (fd : ℕ) (x : List ℕ)
      → IsAligned w
      → (first_acquire service os c m path mode w).0 ≡ done id
      → ¬ (id ≡ "")
      → (os.open_file (full_path service os c m path) flags perm w.kernel).0 ≡ gives fd
      → (os.call (close fd) (open_with service os c m path mode flags perm w).1.kernel).0 ≡ gives x
      → (let w' =
            (release service os c m
              (suc w.next_fh)
              (open_with service os c m path mode flags perm w).1).1 in
          (w'.handle_locks ≡ w.handle_locks)
          × (w'.handle_paths ≡ w.handle_paths)
          × (w'.handle_fds ≡ w.handle_fds)
          × (w'.handle_owners ≡ w.handle_owners)
          × (w'.service
              ≡ (service.release id
                  (token service os c m w)
                  (first_acquire service os c m path mode w).1).1))
  unfolding remember forget
  release-open_with path mode flags perm w id fd x v got named gave shut =
      let (_, h) = open_with-HasHandle service os c m path mode flags perm w id fd got gave in
      let i : (id =s "") ≡ false = ground arith in
      let o = token-=s-empty m.owner (c.hex w.tokens) in
      let state = open_with-state path mode flags perm w id fd got gave in
      let n = fresh w v in
      rw (release-closed (suc w.next_fh) id (token service os c m w) fd _ x h i o shut) (
        rw state (dict_remove-set (suc w.next_fh) id w.handle_locks n),
        rw (state)
            (dict_remove-set (suc w.next_fh) (lock_key path) w.handle_paths (rw v.of_paths n)),
        rw (state) (dict_remove-set (suc w.next_fh) fd w.handle_fds (rw v.of_fds n)),
        rw (state) (
            dict_remove-set (suc w.next_fh) (token service os c m w) w.handle_owners
              (rw v.of_owners n)),
        rw (state) refl,
      )
