-- ===== src/Cli/Status/Reading.antt =====
-- What the command `status` does to the machine.
use Prim.Native.String.{◌++◌ as ◌<>◌}
use shared_concurrency_subst.Common.{
  ℕ, ◌≡◌, refl, String, Bool, true, false, List, Option, none, some, if◌then◌else◌,
}
use shared_concurrency_subst.Effects.{
  eio, ebadf, eacces, enotconn, enoent, other, Outcome, done, raises, Raised, system_exit,
  unanswered, fuse_os_error, os_error, runtime_error, called_process_error, value_error,
  file_not_found_error, Reply, gives, fails, M, bind_result, caught,
}
use shared_concurrency_subst.Cli.Commands.{
  Texts, gate_log_dir, gate_tunnel_pid_path, gate_host_direct_port_path, gate_host_direct_pid_path,
}
use shared_concurrency_subst.Cli.Host.{
  is_pid_running, Host, exists, query, say, pid_in, run, reply_outcome,
}
use shared_concurrency_subst.Cli.Down.{when_exists, when, vm_pid, state_of}
use shared_concurrency_subst.Cli.Status.{
  StatusArgs, ssh_words, show_text, show_port, show_mount, try_ssh, say_process, status_vm,
  status_ssh, status_process, status_direct, status_mount, status, say_mounted, mount_found,
  host_mount_of,
}

-- A predicate that a method keeps, whatever its outcome.
abbrev Keeps : {H A : Type 0} → (H → Type 0) → M H A → Type 0
Keeps P m = (h : _) → P h → P (m h).1

module _ {H : Type 0} (P : H → Type 0) where
  bind_result-Keeps :
      {A B : Type 0} (r : Outcome A × H) (f : A → M H B)
      → P r.1
      → ((a : A) → Keeps P (f a))
      → P (bind_result r f).1
  bind_result-Keeps (done a, w) f k l = l a w k
  bind_result-Keeps (raises e, w) f k l = k

  caught-Keeps :
      {A : Type 0} (r : Outcome A × H) (f : Raised → M H A)
      → P r.1
      → ((e : Raised) → Keeps P (f e))
      → P (caught r f).1
  caught-Keeps (done a, w) f k l = k
  caught-Keeps (raises system_exit, w) f k l = k
  caught-Keeps (raises (fuse_os_error n), w) f k l = l (fuse_os_error n) w k
  caught-Keeps (raises (os_error n), w) f k l = l (os_error n) w k
  caught-Keeps (raises runtime_error, w) f k l = l runtime_error w k
  caught-Keeps (raises unanswered, w) f k l = l unanswered w k
  caught-Keeps (raises called_process_error, w) f k l = l called_process_error w k
  caught-Keeps (raises value_error, w) f k l = l value_error w k
  caught-Keeps (raises file_not_found_error, w) f k l = l file_not_found_error w k

  if-Keeps :
      {A : Type 0} (b : Bool) (m n : M H A) (h : H)
      → P (m h).1
      → P (n h).1
      → P ((if b then m else n) h).1
  if-Keeps true m n h k l = k
  if-Keeps false m n h k l = l

module _ {H : Type 0} (os : Host H) (x : Texts) (home : String) (P : H → Type 0)
    (printing : (line : String) (h : H) → P h → P (os.print line h))
    (running : (cmd : List String) (h : H) → P h → P (os.run_command cmd h).1) where
  say-Keeps : (line : String) → Keeps P (say os line)
  say-Keeps line h p = printing line h p

  pid_in-Keeps :
      (file : String) (r : Option ℕ) (h : H) → os.read_pid file h ≡ r → P h → P (pid_in os file h).1
  pid_in-Keeps file none h e p = rw (pid_in, e) p
  pid_in-Keeps file (some pid) h e p = rw (pid_in, e) p

  pid-Keeps : (file : String) → Keeps P (pid_in os file)
  pid-Keeps file h p = pid_in-Keeps file (os.read_pid file h) h refl p

  when-Keeps :
      (b : Bool) (m : M H (Unit {0})) (h : H) → P h → P (m h).1 → P (when os x home b m h).1
  when-Keeps true m h p k = k
  when-Keeps false m h p k = p

  -- The part for a file that is there.
  when_exists-Keeps :
      (path : String) (m : M H (Unit {0})) (h : H)
      → P h
      → P (m h).1
      → P (when_exists os x home path m h).1
  when_exists-Keeps path m h p k = exists_then (os.path_exists path h)
    where
      exists_then :
          (r : Reply Bool) → P (bind_result (reply_outcome os r, h) (λ b. when os x home b m)).1
      exists_then (gives b) = when-Keeps b m h p k
      exists_then (fails e) = p

  or_said : (r : Outcome (Unit {0}) × H) (line : String) → P r.1 → P (caught r (λ e. say os line)).1
  or_said r line k = caught-Keeps P r (λ e. say os line) k (λ e h p. printing line h p)

  said :
      (b : Bool) (one two : String) (h : H) → P h → P ((if b then say os one else say os two) h).1
  said true one two h p = printing one h p
  said false one two h p = printing two h p

  say_mounted-Keeps : (label path : String) (h : H) → P h → P (say_mounted os x home label path h).1
  say_mounted-Keeps label path h p =
      bind_result-Keeps P (query os os.mounts h) _ p (λ lines w q. printing _ w q)

  status_vm-Keeps : (vm : String) → Keeps P (status_vm os x home vm)
  unfolding status_vm
  status_vm-Keeps vm h p = bind_result-Keeps P (exists os (vm_pid os x home vm) h) _ p (λ found w q.
      if-Keeps P found _ _ w
        (bind_result-Keeps P (pid_in os (vm_pid os x home vm) w) _ (pid-Keeps _ w q)
          (λ pid v r. said (is_pid_running os pid v) _ _ v r))
        (printing _ w q))

  status_ssh-Keeps : (a : StatusArgs) → Keeps P (status_ssh os x home a)
  unfolding status_ssh
  status_ssh-Keeps a h p = or_said (try_ssh os x home a h) "SSH: unreachable" (
      bind_result-Keeps P (run os (ssh_words os x home a) h) (λ u. say os "SSH: reachable")
        (running _ h p) (λ u w q. printing _ w q))

  status_process-Keeps : (label file : String) → Keeps P (status_process os x home label file)
  unfolding status_process
  status_process-Keeps label file h p = when_exists-Keeps file _ h p (
      or_said (say_process os x home label file h) (label <> ": unknown (pid file unreadable)")
        (bind_result-Keeps P (pid_in os file h) _ (pid-Keeps file h p) (λ pid w q. printing _ w q)))

  show_text-Keeps :
      (file line : String) (f : String → M H (Unit {0})) (h : H)
      → P h
      → ((text : String) → P (f text h).1)
      → P (show_text os x home file line f h).1
  show_text-Keeps file line f h p k = when_exists-Keeps file _ h p (
      or_said (bind_result (query os (os.read_text file) h) f) line
        (read_then (os.read_text file h)))
    where
      read_then : (r : Reply String) → P (bind_result (reply_outcome os r, h) f).1
      read_then (gives text) = k text
      read_then (fails e) = p

  status_direct-Keeps : (vm : String) → Keeps P (status_direct os x home vm)
  unfolding status_direct
  status_direct-Keeps vm h p =
      let dir = state_of os x home vm in
      bind_result-Keeps P (status_process os x home "SSH tunnel" (gate_tunnel_pid_path x dir) h) _
        (status_process-Keeps _ _ h p)
        (λ _ i q.
          bind_result-Keeps P
            (show_text os x home (gate_host_direct_port_path x dir) "Host direct port: unknown"
              (show_port os x home) i)
            _ (show_text-Keeps _ _ (show_port os x home) i q (λ text. printing _ i q))
            (λ _ j r.
              bind_result-Keeps P
                (status_process os x home "Host direct" (gate_host_direct_pid_path x dir) j) _
                (status_process-Keeps _ _ j r)
                (λ _ k t.
                  show_text-Keeps _ _ (show_mount os x home) k t
                    (λ text. say_mounted-Keeps "Host direct mount" (x.strip text) k t))))

  mount_found-Keeps :
      (path : String) (r : Reply Bool) (h : H) → P h → P (mount_found os x home path r h).1
  mount_found-Keeps path (gives true) h p =
      or_said (say_mounted os x home "Host mount" path h) ("Host mount: " <> (path <> " (unknown)"))
        (say_mounted-Keeps "Host mount" path h p)
  mount_found-Keeps path (gives false) h p = printing _ h p
  mount_found-Keeps path (fails enotconn) h p = printing _ h p
  mount_found-Keeps path (fails eio) h p = p
  mount_found-Keeps path (fails ebadf) h p = p
  mount_found-Keeps path (fails eacces) h p = p
  mount_found-Keeps path (fails enoent) h p = p
  mount_found-Keeps path (fails (other n)) h p = p

  -- `status` keeps every property of the machine that printing a line and running a program keep.
  pub status-keeps : (a : StatusArgs) (h : H) → P h → P (status os x home a h).1
  unfolding status status_mount
  status-keeps a h p =
      let line = os.print ("Logs: " <> gate_log_dir x home a.vm_name) h in
      bind_result-Keeps P (status_vm os x home a.vm_name line) _
        (status_vm-Keeps a.vm_name line (printing _ h p))
        (λ _ i q.
          bind_result-Keeps P (status_ssh os x home a i) _ (status_ssh-Keeps a i q) (λ _ j r.
            bind_result-Keeps P (status_direct os x home a.vm_name j) _
              (status_direct-Keeps a.vm_name j r)
              (λ _ k t.
                mount_found-Keeps (host_mount_of os x home a.host_mount a.vm_name)
                  (os.path_exists (host_mount_of os x home a.host_mount a.vm_name) k) k t)))
