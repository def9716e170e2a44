-- ===== src/Fuse/Operations.antt =====
-- fuse_fs.py: the file operations of `GateFuse` that take locks, use handles or change state.
use Prim.Native.Char.{code}
use Prim.Native.Nat.{bit_and, bit_or}
use shared_concurrency_subst.Common.{
  ℕ, suc, String, Bool, true, false, not, List, [], ◌∷◌, Option, none, some, ◌==◌, if◌then◌else◌,
}
use shared_concurrency_subst.Effects.{
  eio, ebadf, eacces, done, fuse_os_error, Reply, gives, fails, M, ◌>>=◌, ◌>>◌, pure, raise, gets,
  try_finally, or_raise,
}
use shared_concurrency_subst.Fuse.World.{
  LockService, Syscall, Kernel, Platform, Mount, World, dict_get,
}
use shared_concurrency_subst.Fuse.World
use shared_concurrency_subst.Fuse.Locks.{
  lock_key, full_path, reply_outcome, syscall, open_file, acquire_for_key, acquire_multi,
  release_lock, release_multi, heartbeat_lock, if_lock, finalize_handle, remember,
}

module _ {S K : Type 0} (service : LockService S) (os : Kernel K) (c : Platform) (m : Mount) where
  abbrev W : Type 0
  W = World S K

  -- `_is_write_flags`
  unfoldable pub is_write_flags : ℕ → Bool
  is_write_flags flags =
      not (bit_and flags (bit_or (bit_or (bit_or c.o_wronly c.o_rdwr) c.o_trunc) c.o_append) == 0)

  -- The shape of nine operations: a write lock around a call of `os`.
  unfoldable pub with_write_lock : {A : Type 0} → String → M W A → M W A
  with_write_lock path body = do
    (id, owner) ← acquire_for_key service os c m (lock_key path) "write" true
    try_finally body (release_lock service os c m id (some owner))

  abbrev path_of : String → String
  path_of path = full_path service os c m path

  abbrev sys : Syscall → M W (List ℕ)
  sys x = syscall service os c m x

  unfoldable pub chmod : String → ℕ → M W (List ℕ)
  unfolding with_write_lock
  chmod path mode = with_write_lock path (sys (World.chmod (path_of path) mode))

  unfoldable pub chown : String → ℕ → ℕ → M W (List ℕ)
  unfolding with_write_lock
  chown path uid gid = with_write_lock path (sys (World.chown (path_of path) uid gid))

  unfoldable pub mknod : String → ℕ → ℕ → M W (List ℕ)
  unfolding with_write_lock
  mknod path mode dev = with_write_lock path (sys (World.mknod (path_of path) mode dev))

  unfoldable pub rmdir : String → M W (List ℕ)
  unfolding with_write_lock
  rmdir path = with_write_lock path (sys (World.rmdir (path_of path)))

  unfoldable pub mkdir : String → ℕ → M W (List ℕ)
  unfolding with_write_lock
  mkdir path mode = with_write_lock path (sys (World.mkdir (path_of path) mode))

  unfoldable pub unlink : String → M W (List ℕ)
  unfolding with_write_lock
  unlink path = with_write_lock path (sys (World.unlink (path_of path)))

  unfoldable pub utimens : String → Option (ℕ × ℕ) → M W (List ℕ)
  unfolding with_write_lock
  utimens path times = with_write_lock path (sys (World.utime (path_of path) times))

  unfoldable pub truncate : String → ℕ → M W (List ℕ)
  unfolding with_write_lock
  truncate path size = with_write_lock path (sys (World.truncate (path_of path) size))

  -- The shape of `symlink`, `rename` and `link`: write locks on two paths.
  unfoldable pub with_two_locks : {A : Type 0} → String → String → M W A → M W A
  with_two_locks a b body = do
    ids ← acquire_multi service os c m (lock_key a ∷ lock_key b ∷ [])
    try_finally body (release_multi service os c m ids)

  unfoldable pub symlink : String → String → M W (List ℕ)
  unfolding with_two_locks
  symlink name target = with_two_locks name target (sys (World.symlink name (path_of target)))

  unfoldable pub rename : String → String → M W (List ℕ)
  unfolding with_two_locks
  rename old new = with_two_locks old new (sys (World.rename (path_of old) (path_of new)))

  unfoldable pub link : String → String → M W (List ℕ)
  unfolding with_two_locks
  link target name = with_two_locks target name (sys (World.link (path_of target) (path_of name)))

  abbrev new_handle : String → String → String → ℕ → M W ℕ
  new_handle id owner key fd w = (done (suc w.next_fh), remember service os c m id key owner fd w)

  -- The end of `open` and `create`: a new handle, or the lock back and the kernel's error.
  unfoldable pub opened : String → String → String → Reply ℕ → M W ℕ
  opened id owner key (gives fd) = new_handle id owner key fd
  opened id owner key (fails e) = do release_lock service os c m id none; raise (fuse_os_error e)

  unfoldable pub open_with : String → String → ℕ → Option ℕ → M W ℕ
  unfolding opened
  open_with path mode flags perm = do
    (id, owner) ←
        or_raise (acquire_for_key service os c m (lock_key path) mode false) (fuse_os_error eio)
    reply ← open_file service os c m (path_of path) flags perm
    opened id owner (lock_key path) reply

  unfoldable pub open_path : String → ℕ → M W ℕ
  unfolding open_with is_write_flags
  open_path path flags =
      open_with path (if is_write_flags flags then "write" else "read") flags none

  unfoldable pub create : String → ℕ → M W ℕ
  unfolding open_with
  create path mode =
      open_with path "write" (bit_or (bit_or c.o_wronly c.o_creat) c.o_trunc) (some mode)

  abbrev pub with_fd : Option ℕ → (ℕ → M W (List ℕ)) → M W (List ℕ)
  with_fd none f = raise (fuse_os_error ebadf)
  with_fd (some fd) f = f fd

  unfoldable pub read : ℕ → ℕ → ℕ → M W (List ℕ)
  read length offset fh = do
    fd ← gets (λ w. dict_get fh w.handle_fds)
    with_fd fd (λ d. sys (World.seek_read d offset length))

  -- The heartbeat of `write`, `flush` and `fsync`.
  unfoldable pub keep_lock : ℕ → M W (Unit {0})
  keep_lock fh = do
    lock_id ← gets (λ w. dict_get fh w.handle_locks)
    owner ← gets (λ w. dict_get fh w.handle_owners)
    if_lock service os c m lock_id (λ id. heartbeat_lock service os c m id owner)

  unfoldable pub write : List ℕ → ℕ → ℕ → M W (List ℕ)
  unfolding keep_lock
  write buf offset fh = do
    keep_lock fh
    fd ← gets (λ w. dict_get fh w.handle_fds)
    with_fd fd (λ d. sys (World.seek_write d offset buf))

  unfoldable pub flush : ℕ → M W ℕ
  unfolding keep_lock
  flush fh = do
    (if m.release_on_flush then finalize_handle service os c m fh else keep_lock fh)
    pure 0

  unfoldable pub release : ℕ → M W ℕ
  release fh = do finalize_handle service os c m fh; pure 0

  unfoldable pub fsync : ℕ → M W ℕ
  unfolding keep_lock
  fsync fh = do keep_lock fh; pure 0

  unfoldable pub access : String → ℕ → M W (Unit {0})
  access path mode w =
      if os.access (path_of path) mode w.kernel then pure tt w else raise (fuse_os_error eacces) w

  -- The operations that take no lock and change nothing.
  unfoldable pub getattr : String → M W (List ℕ)
  getattr path = sys (World.lstat (path_of path))

  unfoldable pub statfs : String → M W (List ℕ)
  statfs path = sys (World.statvfs (path_of path))

  unfoldable pub readdir : String → M W (List String)
  readdir path w =
      if os.is_dir (path_of path) w.kernel
      then (do
        names ← (λ v. (reply_outcome service os c m (os.list_dir (path_of path) v.kernel), v))
        pure ("." ∷ ".." ∷ names))
          w
      else (done ("." ∷ ".." ∷ []), w)

  -- A link to an absolute path is shown relative to the root.
  abbrev shown : String → String
  shown String.[] = String.[]
  shown (String.◌∷◌ x s) =
      if code x == b'/' then c.relpath (String.◌∷◌ x s) m.root else String.◌∷◌ x s

  unfoldable pub readlink : String → M W String
  readlink path = do
    pathname ← (λ v. (reply_outcome service os c m (os.read_link (path_of path) v.kernel), v))
    pure (shown pathname)
