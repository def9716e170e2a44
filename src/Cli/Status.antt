-- ===== src/Cli/Status.antt =====
-- cli.py: the commands `status`, `logs` and `vm-list`, which print and change nothing but the output.
pub mod Reading
use Prim.Native.String.{◌++◌ as ◌<>◌}
use shared_concurrency_subst.Common.{
  ℕ, zero, suc, ◌-◌, String, Bool, true, false, List, [], ◌∷◌, Option, none, some, ◌=s◌, any,
  length, if◌then◌else◌,
}
use shared_concurrency_subst.Effects.{
  enotconn, Raised, Reply, gives, fails, M, ◌>>=◌, ◌>>◌, pure, raise, gets, catch,
}
use shared_concurrency_subst.Cli.Commands.{
  Texts, gate_log_dir, gate_mount_dir, gate_tunnel_pid_path, gate_host_direct_pid_path,
  gate_host_direct_mount_path, gate_host_direct_port_path,
}
use shared_concurrency_subst.Cli.Host.{is_pid_running, Host, exists, query, say, pid_in, run}
use shared_concurrency_subst.Cli.Down.{vm_names, when_exists, state_of, vm_pid}

pub record StatusArgs : Type 0 where
  pub vm_name : String
  pub vm_user : String
  pub vm_host : String
  pub ssh_port : ℕ
  pub host_mount : Option String

module _ {H : Type 0} (os : Host H) (x : Texts) (home : String) where
  abbrev pub or_say : String → M H (Unit {0}) → M H (Unit {0})
  or_say line m = catch m (λ e. say os line)

  abbrev pub running_or : Bool → String → String
  running_or true other = "running"
  running_or false other = other

  -- The state of the VM: `os.kill(pid, 0)` tells.
  unfoldable pub status_vm : String → M H (Unit {0})
  status_vm vm = do
    found ← exists os (vm_pid os x home vm)
    if found
        then (do
          pid ← pid_in os (vm_pid os x home vm)
          running ← gets (is_pid_running os pid)
          if running
              then say os ("VM: running (pid " <> (x.str pid <> ")"))
              else say os "VM: not running (stale pid)")
        else say os "VM: not running"

  abbrev pub ssh_words : StatusArgs → List String
  ssh_words a =
      "ssh"
      ∷ "-p"
      ∷ x.str a.ssh_port
      ∷ "-o"
      ∷ ("UserKnownHostsFile=" <> x.join (state_of os x home a.vm_name) "known_hosts")
      ∷ "-o"
      ∷ "StrictHostKeyChecking=accept-new"
      ∷ "-o"
      ∷ "BatchMode=yes"
      ∷ "-o"
      ∷ "ConnectTimeout=3"
      ∷ (a.vm_user <> ("@" <> a.vm_host))
      ∷ "echo"
      ∷ "ok"
      ∷ []

  abbrev pub try_ssh : StatusArgs → M H (Unit {0})
  try_ssh a = do run os (ssh_words a); say os "SSH: reachable"

  unfoldable pub status_ssh : StatusArgs → M H (Unit {0})
  status_ssh a = or_say "SSH: unreachable" (try_ssh a)

  abbrev pub say_process : (label file : String) → M H (Unit {0})
  say_process label file = do
    pid ← pid_in os file
    running ← gets (is_pid_running os pid)
    say os (label <> (": " <> (running_or running "stopped" <> (" (pid " <> (x.str pid <> ")")))))

  -- A process whose pid is in a file.
  unfoldable pub status_process : (label file : String) → M H (Unit {0})
  status_process label file =
      when_exists os x home file
        (or_say (label <> ": unknown (pid file unreadable)") (say_process label file))

  abbrev pub mounted_line : String → Bool → String → String
  mounted_line label true path = label <> (": mounted (" <> (path <> ")"))
  mounted_line label false path = label <> (": not mounted (" <> (path <> ")"))

  -- Whether a line of /proc/mounts has the path in it.
  abbrev pub say_mounted : (label path : String) → M H (Unit {0})
  say_mounted label path = do
    lines ← query os os.mounts
    say os (mounted_line label (any (λ line. os.is_in path line) lines) path)

  -- A text that is read and shown, if its file is there.
  abbrev pub show_text : (file line : String) → (String → M H (Unit {0})) → M H (Unit {0})
  show_text file line f =
      when_exists os x home file (or_say line (do text ← query os (os.read_text file); f text))

  abbrev pub show_port : String → M H (Unit {0})
  show_port text = say os ("Host direct port: " <> x.strip text)

  abbrev pub show_mount : String → M H (Unit {0})
  show_mount text = say_mounted "Host direct mount" (x.strip text)

  unfoldable pub status_direct : String → M H (Unit {0})
  unfolding status_process
  status_direct vm = do
    let dir = state_of os x home vm
    status_process "SSH tunnel" (gate_tunnel_pid_path x dir)
    show_text (gate_host_direct_port_path x dir) "Host direct port: unknown" show_port
    status_process "Host direct" (gate_host_direct_pid_path x dir)
    show_text (gate_host_direct_mount_path x dir) "Host direct mount: unknown" show_mount

  -- Only an OSError is caught here, and /proc/mounts raises no other.
  abbrev pub mount_found : String → Reply Bool → M H (Unit {0})
  mount_found path (gives true) =
      or_say ("Host mount: " <> (path <> " (unknown)")) (say_mounted "Host mount" path)
  mount_found path (gives false) = say os ("Host mount: " <> (path <> " (missing)"))
  mount_found path (fails enotconn) =
      say os ("Host mount: stale (transport endpoint not connected) (" <> (path <> ")"))
  mount_found path (fails e) = raise (Raised.os_error e)

  unfoldable pub status_mount : String → M H (Unit {0})
  status_mount path = do found ← gets (os.path_exists path); mount_found path found

  abbrev pub host_mount_of : Option String → String → String
  host_mount_of none vm = gate_mount_dir x home vm
  host_mount_of (some path) vm = if path =s "" then gate_mount_dir x home vm else x.expanduser path

  unfoldable pub status : StatusArgs → M H (Unit {0})
  unfolding status_vm status_ssh status_direct status_mount
  status a = do
    say os ("Logs: " <> gate_log_dir x home a.vm_name)
    status_vm a.vm_name
    status_ssh a
    status_direct a.vm_name
    status_mount (host_mount_of a.host_mount a.vm_name)

  -- A line of `vm-list`.
  abbrev pub vm_state : String → M H String
  vm_state vm = do
    found ← exists os (vm_pid os x home vm)
    if found
        then catch
            (do
              pid ← pid_in os (vm_pid os x home vm)
              running ← gets (is_pid_running os pid)
              pure (if running then "running (pid " <> (x.str pid <> ")") else "stopped"))
            (λ e. pure "stale pid")
        else pure "stopped"

  unfoldable pub say_vms : List String → M H (Unit {0})
  say_vms [] = pure tt
  say_vms (name ∷ names) = do state ← vm_state name; say os (name <> ("\t" <> state)); say_vms names

  abbrev pub vm_listed : List String → M H (Unit {0})
  vm_listed [] = say os "No VMs found."
  vm_listed (name ∷ names) = say_vms (name ∷ names)

  unfoldable pub vm_list : M H (Unit {0})
  unfolding say_vms
  vm_list = do names ← vm_names os x home; vm_listed names

  -- `l[-n:]`
  abbrev pub drop : ℕ → List String → List String
  drop zero l = l
  drop (suc n) [] = []
  drop (suc n) (a ∷ l) = drop n l

  -- `lines[-tail:] if tail > 0 else lines`
  unfoldable pub last_lines : ℕ → List String → List String
  last_lines zero lines = lines
  last_lines (suc n) lines = drop (length lines - suc n) lines

  -- `"\n".join(lines)`
  abbrev pub join_lines : List String → String
  join_lines [] = ""
  join_lines (line ∷ []) = line
  join_lines (line ∷ a ∷ lines) = line <> ("\n" <> join_lines (a ∷ lines))

  abbrev pub say_all : List String → M H (Unit {0})
  say_all [] = pure tt
  say_all (line ∷ lines) = do say os line; say_all lines

  -- `glob` gives the paths that `sorted` has ordered.
  module _ (splitlines : String → List String) (glob : String → H → List String) where
    abbrev pub say_log : ℕ → String → Bool → M H (Unit {0})
    say_log tail path false = say os ("Log not found: " <> path)
    say_log tail path true = do
      text ← query os (os.read_text path)
      say os (join_lines (last_lines tail (splitlines text)))

    abbrev pub logs_in : String → String → ℕ → Bool → M H (Unit {0})
    logs_in log_dir component tail false = say os ("No logs at " <> log_dir)
    logs_in log_dir component tail true =
        if component =s "all" then (do paths ← gets (glob log_dir); say_all paths) else (do
          found ← exists os (x.join log_dir (component <> ".log"))
          say_log tail (x.join log_dir (component <> ".log")) found)

    unfoldable pub logs : (vm_name component : String) (tail : ℕ) → M H (Unit {0})
    unfolding last_lines
    logs vm_name component tail = do
      found ← exists os (gate_log_dir x home vm_name)
      logs_in (gate_log_dir x home vm_name) component tail found
