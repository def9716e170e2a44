-- ===== src/Cli/Mounts.antt =====
-- cli.py: what the commands do to mounts, directories and processes, over an abstract host.
use shared_concurrency_subst.Common.{
  ℕ, String, Bool, true, false, List, [], ◌∷◌, Option, none, some, ◌=s◌, any, if◌then◌else◌,
}
use shared_concurrency_subst.Effects.{
  enotconn, Outcome, done, raises, os_error, runtime_error, called_process_error, Reply, gives,
  fails, M, ◌>>=◌, ◌>>◌, pure, raise, gets,
}
use shared_concurrency_subst.Cli.Host.{
  is_pid_running, Host, sigterm, sigkill, reply_outcome, run, signal, wait,
}

module _ {H : Type 0} (os : Host H) where
  -- A path whose mount has lost its server counts as there.
  abbrev pub exists_or_stale : Reply Bool → Outcome Bool
  exists_or_stale (gives b) = done b
  exists_or_stale (fails enotconn) = done true
  exists_or_stale (fails e) = raises (os_error e)

  -- `umount`, and again with sudo if it fails.
  abbrev pub umount_or_sudo : String → Bool × H → Outcome (Unit {0}) × H
  umount_or_sudo path (true, h) = (done tt, h)
  umount_or_sudo path (false, h) =
      if os.which "sudo" h
      then run os ("sudo" ∷ "umount" ∷ path ∷ []) h
      else (raises called_process_error, h)

  -- The part of `_unmount_path` that runs a command.
  unfoldable pub unmount_with : String → M H (Unit {0})
  unmount_with path h =
      if os.which "fusermount3" h
      then run os ("fusermount3" ∷ "-u" ∷ path ∷ []) h
      else if os.which "fusermount" h
      then run os ("fusermount" ∷ "-u" ∷ path ∷ []) h
      else umount_or_sudo path (os.run_command ("umount" ∷ path ∷ []) h)

  abbrev pub unmount_listed : String → M H (Unit {0})
  unmount_listed path = do
    lines ← (λ h. (reply_outcome os (os.mounts h), h))
    if any (λ line. os.is_in path line) lines then unmount_with path else pure tt

  unfoldable pub unmount_path : String → M H (Unit {0})
  unfolding unmount_with
  unmount_path path = do
    found ← (λ h. (exists_or_stale (os.path_exists path h), h))
    if found then unmount_listed path else pure tt

  abbrev mkdir : String → M H (Unit {0})
  mkdir path h = let r = os.make_dirs path h in (reply_outcome os r.0, r.1)

  abbrev make_again : String → Reply (Unit {0}) → M H (Unit {0})
  make_again path (gives _) = pure tt
  make_again path (fails enotconn) = do unmount_path path; mkdir path
  make_again path (fails e) = raise (os_error e)

  unfoldable pub ensure_mount_dir : String → M H (Unit {0})
  unfolding unmount_path
  ensure_mount_dir path h = let r = os.make_dirs path h in make_again path r.0 r.1

  -- `any(path.iterdir())`
  abbrev pub refuse_entries : List String → M H (Unit {0})
  refuse_entries [] = pure tt
  refuse_entries (_ ∷ _) = raise runtime_error

  abbrev pub entries : String → M H (List String)
  entries path h = (reply_outcome os (os.list_dir path h), h)

  abbrev pub check_empty : String → Reply (List String) → M H (Unit {0})
  check_empty path (gives l) = refuse_entries l
  check_empty path (fails enotconn) = do unmount_path path; l ← entries path; refuse_entries l
  check_empty path (fails e) = raise (os_error e)

  unfoldable pub ensure_empty_dir : String → M H (Unit {0})
  unfolding ensure_mount_dir unmount_path
  ensure_empty_dir path = do
    ensure_mount_dir path
    r ← gets (λ h. os.list_dir path h)
    check_empty path r

  -- The second signal, after the wait.
  abbrev kill_forced : ℕ → Bool → M H (Unit {0})
  kill_forced pid force = do
    running ← gets (λ h. is_pid_running os pid h)
    if force then (if running then signal os pid sigkill else pure tt) else pure tt

  abbrev pub stop_pid : ℕ → Bool → M H (Unit {0})
  stop_pid pid force = do
    running ← gets (λ h. is_pid_running os pid h)
    if running then (do signal os pid sigterm; wait os 1000000; kill_forced pid force) else pure tt

  -- An exception of the signals is passed on only without `force`.
  abbrev pub forget_pid : String → Bool → Outcome (Unit {0}) × H → Outcome (Unit {0}) × H
  forget_pid file force (done _, h) = (done tt, os.unlink file h)
  forget_pid file true (raises _, h) = (done tt, os.unlink file h)
  forget_pid file false (raises e, h) = (raises e, h)

  -- The file is there and was read, or not.
  abbrev pub stop_read : String → Bool → Option ℕ → M H (Unit {0})
  stop_read file force none h = (done tt, os.unlink file h)
  stop_read file force (some pid) h = forget_pid file force (stop_pid pid force h)

  unfoldable pub stop_pid_file : String → Bool → M H (Unit {0})
  stop_pid_file file force = do
    found ← (λ h. (reply_outcome os (os.path_exists file h), h))
    pid ← gets (λ h. os.read_pid file h)
    if found then stop_read file force pid else pure tt

  -- The loop of `_safe_clear_dir`.
  abbrev remove : String → M H (Unit {0})
  remove entry h = let r = os.remove_entry entry h in (reply_outcome os r.0, r.1)

  unfoldable pub clear_entries : List String → M H (Unit {0})
  clear_entries [] = pure tt
  clear_entries (entry ∷ l) = do remove entry; clear_entries l

  abbrev pub clear_resolved : String → String → M H (Unit {0})
  clear_resolved path root =
      if path =s root
      then raise runtime_error
      else if any (λ p. p =s root) (os.parents path)
      then (do l ← entries path; clear_entries l)
      else raise runtime_error

  unfoldable pub safe_clear_dir : (path root : String) → M H (Unit {0})
  unfolding clear_entries
  safe_clear_dir path root h = elim (os.resolve path h) [
    | none ↦ (raises runtime_error, h)
    | some resolved ↦ elim (os.resolve root h) [
      | none ↦ (raises runtime_error, h)
      | some root_resolved ↦ clear_resolved resolved root_resolved h
    ]
  ]
