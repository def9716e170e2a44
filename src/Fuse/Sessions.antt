-- ===== src/Fuse/Sessions.antt =====
-- Whole sessions of a mount: the calls that the kernel makes, in any order, and the handles they leave.
use shared_concurrency_subst.Common.{
  ℕ, refl, String, Bool, true, false, List, [], ◌∷◌, Option, none, some, inl, inr, Bool-cases,
  if◌then◌else◌,
}
use shared_concurrency_subst.Effects.{Reply, gives, fails, M, bind_result, pure}
use shared_concurrency_subst.Fuse.World.{
  LockService, Kernel, Platform, Mount, World, dict_get, dict_set, dict_remove,
}
use shared_concurrency_subst.Fuse.World
use shared_concurrency_subst.Fuse.Locks
use shared_concurrency_subst.Fuse.Operations
use shared_concurrency_subst.Fuse.Handles.{keys}
use shared_concurrency_subst.Fuse.Keeps.{IsAligned, Keeps, bind_result-IsAligned}
use shared_concurrency_subst.Fuse.Shapes.{
  with_write_lock-Keeps, with_two_locks-Keeps, syscall-Keeps, finalize_handle-Keeps,
  keep_lock-Keeps, open_with-Keeps,
}

-- A call of one of the operations.
pub data Call : Type 0 where
  chmod truncate access : String → ℕ → Call
  mkdir : String → ℕ → Call
  chown mknod : String → ℕ → ℕ → Call
  rmdir unlink getattr statfs readdir readlink : String → Call
  utimens : String → Option (ℕ × ℕ) → Call
  symlink rename link : String → String → Call
  open_path create : String → ℕ → Call
  read : ℕ → ℕ → ℕ → Call
  write : List ℕ → ℕ → ℕ → Call
  flush release fsync : ℕ → Call

-- A mount that has just been made.
abbrev pub mounted : {S K : Type 0} → S → K → World S K
mounted s k = record {
  next_fh = 0;
  handle_locks = [];
  handle_paths = [];
  handle_fds = [];
  handle_owners = [];
  tokens = 0;
  service = s;
  kernel = k;
}

module _ {S K : Type 0} (service : LockService S) (os : Kernel K) (c : Platform) (m : Mount) where
  abbrev W : Type 0
  W = World S K

  unfoldable pub perform : Call → W → W
  perform (chmod path mode) w = (Operations.chmod service os c m path mode w).1
  perform (truncate path size) w = (Operations.truncate service os c m path size w).1
  perform (access path mode) w = (Operations.access service os c m path mode w).1
  perform (mkdir path mode) w = (Operations.mkdir service os c m path mode w).1
  perform (chown path uid gid) w = (Operations.chown service os c m path uid gid w).1
  perform (mknod path mode dev) w = (Operations.mknod service os c m path mode dev w).1
  perform (rmdir path) w = (Operations.rmdir service os c m path w).1
  perform (unlink path) w = (Operations.unlink service os c m path w).1
  perform (getattr path) w = (Operations.getattr service os c m path w).1
  perform (statfs path) w = (Operations.statfs service os c m path w).1
  perform (readdir path) w = (Operations.readdir service os c m path w).1
  perform (readlink path) w = (Operations.readlink service os c m path w).1
  perform (utimens path times) w = (Operations.utimens service os c m path times w).1
  perform (symlink name target) w = (Operations.symlink service os c m name target w).1
  perform (rename old new) w = (Operations.rename service os c m old new w).1
  perform (link target name) w = (Operations.link service os c m target name w).1
  perform (open_path path flags) w = (Operations.open_path service os c m path flags w).1
  perform (create path mode) w = (Operations.create service os c m path mode w).1
  perform (read length offset fh) w = (Operations.read service os c m length offset fh w).1
  perform (write buf offset fh) w = (Operations.write service os c m buf offset fh w).1
  perform (flush fh) w = (Operations.flush service os c m fh w).1
  perform (release fh) w = (Operations.release service os c m fh w).1
  perform (fsync fh) w = (Operations.fsync service os c m fh w).1

  unfoldable pub perform_all : List Call → W → W
  unfolding perform
  perform_all [] w = w
  perform_all (x ∷ xs) w = perform_all xs (perform x w)

  locked :
      (path : String) (x : World.Syscall) (w : W)
      → IsAligned w
      → IsAligned
          (Operations.with_write_lock service os c m path (Locks.syscall service os c m x) w).1
  locked path x =
      with_write_lock-Keeps service os c m path (Locks.syscall service os c m x)
        (syscall-Keeps service os c m x)

  locked_two :
      (a b : String) (x : World.Syscall) (w : W)
      → IsAligned w
      → IsAligned
          (Operations.with_two_locks service os c m a b (Locks.syscall service os c m x) w).1
  locked_two a b x =
      with_two_locks-Keeps service os c m a b (Locks.syscall service os c m x)
        (syscall-Keeps service os c m x)

  with_fd-IsAligned :
      (o : Option ℕ) (f : ℕ → World.Syscall) (w : W)
      → IsAligned w
      → IsAligned
          (Operations.with_fd service os c m o (λ d. Locks.syscall service os c m (f d)) w).1
  with_fd-IsAligned none f w v = v
  with_fd-IsAligned (some d) f w v = syscall-Keeps service os c m (f d) w v

  abbrev write_at : List ℕ → ℕ → ℕ → M W (List ℕ)
  write_at buf offset fh w =
      Operations.with_fd service os c m (dict_get fh w.handle_fds)
        (λ d. Locks.syscall service os c m (World.seek_write d offset buf)) w

  either-Keeps :
      {A : Type 0} (b : Bool) (f g : M W A) → Keeps f → Keeps g → Keeps (if b then f else g)
  either-Keeps true f g k l = k
  either-Keeps false f g k l = l

  reply-IsAligned :
      {A B : Type 0} (r : Reply A) (f : A → B) (w : W)
      → IsAligned w
      → IsAligned (bind_result (Locks.reply_outcome service os c m r, w) (λ a. pure (f a))).1
  reply-IsAligned (gives a) f w v = v
  reply-IsAligned (fails e) f w v = v

  perform-IsAligned : (x : Call) (w : W) → IsAligned w → IsAligned (perform x w)
  unfolding perform Operations.chmod Operations.truncate Operations.access Operations.mkdir
      Operations.chown Operations.mknod Operations.rmdir Operations.unlink Operations.getattr
      Operations.statfs Operations.readdir Operations.readlink Operations.utimens Operations.symlink
      Operations.rename Operations.link Operations.open_path Operations.create Operations.read
      Operations.write Operations.flush Operations.release Operations.fsync
  perform-IsAligned (chmod path mode) w v = locked path _ w v
  perform-IsAligned (truncate path size) w v = locked path _ w v
  perform-IsAligned (mkdir path mode) w v = locked path _ w v
  perform-IsAligned (chown path uid gid) w v = locked path _ w v
  perform-IsAligned (mknod path mode dev) w v = locked path _ w v
  perform-IsAligned (rmdir path) w v = locked path _ w v
  perform-IsAligned (unlink path) w v = locked path _ w v
  perform-IsAligned (utimens path times) w v = locked path _ w v
  perform-IsAligned (getattr path) w v = syscall-Keeps service os c m _ w v
  perform-IsAligned (statfs path) w v = syscall-Keeps service os c m _ w v
  perform-IsAligned (symlink name target) w v = locked_two name target _ w v
  perform-IsAligned (rename old new) w v = locked_two old new _ w v
  perform-IsAligned (link target name) w v = locked_two target name _ w v
  perform-IsAligned (open_path path flags) w v =
      open_with-Keeps service os c m path _ flags none w v
  perform-IsAligned (create path mode) w v =
      open_with-Keeps service os c m path "write" _ (some mode) w v
  perform-IsAligned (access path mode) w v =
      elim (Bool-cases (os.access (Locks.full_path service os c m path) mode w.kernel)) [
        | inl e ↦ rw (perform, e) v
        | inr e ↦ rw (perform, e) v
      ]
  perform-IsAligned (readdir path) w v =
      elim (Bool-cases (os.is_dir (Locks.full_path service os c m path) w.kernel)) [
        | inl e ↦ rw (perform, e) (reply-IsAligned _ _ w v)
        | inr e ↦ rw (perform, e) v
      ]
  perform-IsAligned (readlink path) w v = reply-IsAligned _ _ w v
  perform-IsAligned (read length offset fh) w v =
      with_fd-IsAligned (dict_get fh w.handle_fds) (λ d. World.seek_read d offset length) w v
  perform-IsAligned (write buf offset fh) w v =
      bind_result-IsAligned (Operations.keep_lock service os c m fh w) (λ t. write_at buf offset fh)
        (keep_lock-Keeps service os c m fh w v)
        (λ t x u.
          with_fd-IsAligned (dict_get fh x.handle_fds) (λ d. World.seek_write d offset buf) x u)
  perform-IsAligned (flush fh) w v =
      bind_result-IsAligned
        ((if m.release_on_flush
            then Locks.finalize_handle service os c m fh
            else Operations.keep_lock service os c m fh)
          w)
        (λ t. pure {A = ℕ} 0)
        (either-Keeps m.release_on_flush _ _ (finalize_handle-Keeps service os c m fh)
          (keep_lock-Keeps service os c m fh) w v)
        (λ t x u. u)
  perform-IsAligned (release fh) w v =
      bind_result-IsAligned (Locks.finalize_handle service os c m fh w) (λ t. pure 0)
        (finalize_handle-Keeps service os c m fh w v) (λ t x u. u)
  perform-IsAligned (fsync fh) w v =
      bind_result-IsAligned (Operations.keep_lock service os c m fh w) (λ t. pure 0)
        (keep_lock-Keeps service os c m fh w v) (λ t x u. u)

  mounted-IsAligned : (s : S) (k : K) → IsAligned (mounted s k)
  unfolding keys
  mounted-IsAligned s k = record {
    of_paths = refl;
    of_fds = refl;
    of_owners = refl;
    below = λ i n. elim n [ ];
  }

  perform_all-Keeps : (xs : List Call) (w : W) → IsAligned w → IsAligned (perform_all xs w)
  unfolding perform_all
  perform_all-Keeps [] w v = v
  perform_all-Keeps (x ∷ xs) w v = perform_all-Keeps xs (perform x w) (perform-IsAligned x w v)

  -- After any calls on a new mount, the four tables of handles hold the same handles, none of them
  -- after the last one given out.
  pub perform_all-IsAligned :
      (xs : List Call) (s : S) (k : K) → IsAligned (perform_all xs (mounted s k))
  perform_all-IsAligned xs s k = perform_all-Keeps xs (mounted s k) (mounted-IsAligned s k)
