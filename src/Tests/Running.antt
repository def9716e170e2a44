-- ===== src/Tests/Running.antt =====
-- The theorems about the commands of `gate`, on machines of one or two facts.
use Prim.Native.String.{◌++◌ as ◌<>◌}
use shared_concurrency_subst.Common.{
  ℕ, ◌≡◌, refl, ◌+◌, String, Bool, true, false, not, List, [], ◌∷◌, none, some, ◌=s◌,
  String_discrete,
}
use shared_concurrency_subst.Effects.{done, raises, os_error, eacces, called_process_error, gives}
use shared_concurrency_subst.Cli.Commands.{Texts}
use shared_concurrency_subst.Cli.Host.{Host, require_cmd}
use shared_concurrency_subst.Cli.Guards.{IsTidy}
use shared_concurrency_subst.Cli.Build.{Program}
use shared_concurrency_subst.Cli.Up.{UpArgs, Up, pid_file}
use shared_concurrency_subst.Cli.Up.Run.{bring_up, try_up}
use shared_concurrency_subst.Cli.Up.Failure.{before_vm, try_up-failed}
use shared_concurrency_subst.Cli.Status.{StatusArgs}
use shared_concurrency_subst.Cli.Parser.{Given}
use shared_concurrency_subst.Cli.Main.{Runtime}
use shared_concurrency_subst.Cli.Up.Stopping.{ended_by_signals}

-- The time, and whether the one file that may come and go is there.
abbrev pub Machine : Type 0
Machine = ℕ × Bool

abbrev copying : List String → Bool
copying [] = false
copying (word ∷ words) = word =s "scp"

-- A file that is written is there; every program runs well but the copy into the VM.
abbrev pub host : Host Machine
host = record {
  path_exists = λ path h. gives h.1;
  make_dirs = λ path h. (gives tt, h);
  list_dir = λ path h. gives [];
  mounts = λ h. gives [];
  is_in = λ path line. false;
  which = λ name h. true;
  run_command = λ cmd h. (true, h);
  read_pid = λ file h. some 7;
  unlink = λ file h. (h.0, false);
  null_signal = λ pid h. gives tt;
  kill = λ pid which h. (gives tt, h);
  sleep = λ us h. (h.0 + us, h.1);
  monotonic = λ h. h.0;
  connect = λ name port h. (true, h);
  resolve = λ path h. some path;
  parents = λ path. [];
  remove_entry = λ entry h. (gives tt, h);
  dir_entries = λ path h. some (("vm", true) ∷ []);
  is_file = λ path h. true;
  is_dir = λ path h. true;
  read_text = λ path h. gives "7";
  write_text = λ path text h. (gives tt, (h.0, true));
  remove_tree = λ path h. (gives tt, h);
  copy = λ from to h. (gives tt, h);
  chmod = λ path mode h. (gives tt, h);
  open_log = λ log h. (gives tt, h);
  spawn = λ cmd log h. (gives 7, h);
  run_logged = λ cmd log h. (not (copying cmd), h);
  run_piped = λ cmd log h. (([], true), h);
  urlopen = λ url h. gives [];
  print = λ line h. h;
}

host-IsTidy : IsTidy host
host-IsTidy = record { found = λ path h. h.1; looks = λ path h. refl; gone = λ path h. refl }

abbrev pub texts : Texts
texts = record {
  str = λ n. "22";
  join = λ a b. a <> ("/" <> b);
  suffix = λ a. "";
  without_suffix = λ a. a;
  expanduser = λ a. a;
  quote = λ a. a;
  strip = λ a. a;
  parent = λ a. a;
  replace = λ a b text. text;
}

abbrev program : Program
program = record {
  frozen = false;
  executable = "python";
  resolved = "/usr/bin/python";
  repo_root = none;
}

abbrev args : UpArgs
args = record {
  vm_name = "vm";
  vm_dir = "/v";
  base = "debian-12";
  ssh_key = "/k";
  ssh_port = 2222;
  disk_size = "20G";
  redownload = false;
  repo_path = "/r";
  vm_repo_path = "/opt/target";
  binary = none;
  host_mount = none;
  host_direct = true;
  strict_host_key = false;
  ssh_timeout = 180;
  memory = "4096";
  cpus = "2";
  max_hold_ms = none;
  skip_build = true;
  skip_host_mount = false;
  dry_run = false;
  keep_vm_on_error = false;
  verbose = false;
}

abbrev start : Up Machine
start = record {
  host = (0, false);
  started_vm = false;
  started_tunnel = false;
  started_host_direct = false;
}

-- The VM is started, and its pid file written.
abbrev started : Up Machine
started = record {
  host = (0, true);
  started_vm = true;
  started_tunnel = false;
  started_host_direct = false;
}

abbrev split : String → List String
split line = []

try_up-failed_example :
    let y =
      try_up host texts "/h" program args (λ h port. true) split (λ h. some "/gate") "/k" start in
    let k =
      before_vm host texts "/h" program args
        (λ h port. true)
        split
        (λ h. some "/gate")
        false
        false
        (0, true) in
    (y.0 ≡ raises called_process_error)
    × (host.path_exists (pid_file host texts "/h" program args) y.1.host ≡ gives false)
    × ((pid : ℕ)
        → host.path_exists (pid_file host texts "/h" program args) k ≡ gives true
        → host.read_pid (pid_file host texts "/h" program args) k ≡ some pid
        → y.1.host
          ≡ host.unlink (pid_file host texts "/h" program args) (
              ended_by_signals host texts "/h" program args
                (λ h port. true)
                split
                (λ h. some "/gate")
                pid
                k))
unfolding bring_up String_discrete require_cmd
try_up-failed_example =
    try_up-failed host texts "/h" program args (λ h port. true) split (λ h. some "/gate") "/k" start
      started called_process_error host-IsTidy refl (λ e. cc) refl refl

-- The state directory may not be written.
abbrev runtime : Runtime Machine (Unit {0})
runtime = record {
  os = host;
  texts = texts;
  xdg_state_home = some "/h";
  program = program;
  hostname_pid = "h:1";
  int = λ s. none;
  defaults = record {
    state_dir = "/s";
    host = "h";
    port = 8787;
    lease_ms = 1;
    max_hold_ms = none;
    acquire_timeout_ms = none;
  };
  port_free = λ h port. true;
  which_gate = λ h. none;
  split = split;
  splitlines = split;
  glob = λ dir h. [];
  make_tmp = λ h. (gives "/t", h);
  tar = λ out dir h. (gives tt, h);
  realpath = λ path. path;
  release_on_flush = true;
  make_server = λ config h. (raises (os_error eacces), h);
  serve_forever = λ s h. (done tt, h);
  fuse = λ m mountpoint name port options h. (done tt, h);
}

abbrev line : Given
line = record { command = "broker"; option = λ name. none; switch = λ name. false }

abbrev asked : StatusArgs
asked = record { vm_name = "vm"; vm_user = "gate"; vm_host = "h"; ssh_port = 22; host_mount = none }
