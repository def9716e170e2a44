-- ===== src/Cli/Parser/Vms.antt =====
-- cli.py: the options of the commands about VMs, and the choice of the command.
use shared_concurrency_subst.Common.{ℕ, String, Bool, Option, ◌||◌, ◌=s◌}
use shared_concurrency_subst.Effects.{M, ◌>>=◌, ◌>>◌, pure}
use shared_concurrency_subst.Cli.Parser.{
  Given, BrokerConfig, Command, vm_build, vm_run, up, status, logs, down, clean, host_provision,
  host_mount, option, text, required, switch, number, limit, chosen,
}

module _ (int : String → Option ℕ) (defaults : BrokerConfig) where
  abbrev opt : String → M Given (Option String)
  opt = option int defaults

  abbrev str : String → String → M Given String
  str = text int defaults

  abbrev req : String → M Given String
  req = required int defaults

  abbrev on : String → M Given Bool
  on = switch int defaults

  abbrev num : String → ℕ → M Given ℕ
  num = number int defaults

  unfoldable pub parse_vm_build : M Given Command
  parse_vm_build = do
    base ← str "--base" "ubuntu-22.04"
    chosen int defaults (base =s "ubuntu-22.04" || base =s "ubuntu-24.04" || base =s "debian-12")
    vm_dir ← str "--vm-dir" "./vm_build"
    vm_name ← str "--vm-name" "gate-vm"
    repo_url ← opt "--repo-url"
    repo_branch ← str "--repo-branch" "main"
    ssh_key ← req "--ssh-key"
    disk_size ← opt "--disk-size"
    no_clone ← on "--no-clone"
    redownload ← on "--redownload"
    pure (
        vm_build (record {
          base = base;
          vm_dir = vm_dir;
          vm_name = vm_name;
          repo_url = repo_url;
          repo_branch = repo_branch;
          ssh_key = ssh_key;
          disk_size = disk_size;
          no_clone = no_clone;
          redownload = redownload;
        }))

  unfoldable pub parse_vm_run : M Given Command
  parse_vm_run = do
    vm_dir ← req "--vm-dir"
    vm_name ← req "--vm-name"
    ssh_port ← str "--ssh-port" "2222"
    memory ← str "--memory" "4096"
    cpus ← str "--cpus" "2"
    pure (
        vm_run (record {
          vm_dir = vm_dir;
          vm_name = vm_name;
          ssh_port = ssh_port;
          memory = memory;
          cpus = cpus;
        }))

  unfoldable pub parse_up : M Given Command
  parse_up = do
    vm_name ← str "--vm-name" "gate-vm"
    vm_dir ← str "--vm-dir" "./vm_build"
    base ← str "--base" "ubuntu-22.04"
    ssh_key ← req "--ssh-key"
    ssh_port ← num "--ssh-port" 2222
    disk_size ← str "--disk-size" "20G"
    redownload ← on "--redownload"
    repo_path ← req "--repo-path"
    vm_repo_path ← str "--vm-repo-path" "/opt/target"
    binary ← opt "--binary"
    host_dir ← opt "--host-mount"
    method ← str "--host-mount-method" "host-direct"
    chosen int defaults (method =s "sshfs" || method =s "host-direct")
    strict_host_key ← on "--strict-host-key"
    ssh_timeout ← num "--ssh-timeout" 180
    memory ← str "--memory" "4096"
    cpus ← str "--cpus" "2"
    max_hold_ms ← limit int defaults "--max-hold-ms" defaults.max_hold_ms
    skip_build ← on "--skip-build"
    skip_host_mount ← on "--skip-host-mount"
    verbose ← on "--verbose"
    dry_run ← on "--dry-run"
    keep_vm_on_error ← on "--keep-vm-on-error"
    pure (
        up (record {
          vm_name = vm_name;
          vm_dir = vm_dir;
          base = base;
          ssh_key = ssh_key;
          ssh_port = ssh_port;
          disk_size = disk_size;
          redownload = redownload;
          repo_path = repo_path;
          vm_repo_path = vm_repo_path;
          binary = binary;
          host_mount = host_dir;
          host_direct = method =s "host-direct";
          strict_host_key = strict_host_key;
          ssh_timeout = ssh_timeout;
          memory = memory;
          cpus = cpus;
          max_hold_ms = max_hold_ms;
          skip_build = skip_build;
          skip_host_mount = skip_host_mount;
          dry_run = dry_run;
          keep_vm_on_error = keep_vm_on_error;
          verbose = verbose;
        }))

  -- `status` has a `--vm-dir` that it does not use.
  unfoldable pub parse_status : M Given Command
  parse_status = do
    vm_name ← str "--vm-name" "gate-vm"
    vm_user ← str "--vm-user" "gate"
    vm_host ← str "--vm-host" "127.0.0.1"
    ssh_port ← num "--ssh-port" 2222
    host_dir ← opt "--host-mount"
    pure (
        status (record {
          vm_name = vm_name;
          vm_user = vm_user;
          vm_host = vm_host;
          ssh_port = ssh_port;
          host_mount = host_dir;
        }))

  unfoldable pub parse_logs : M Given Command
  parse_logs = do
    vm_name ← str "--vm-name" "gate-vm"
    component ← str "--component" "all"
    tail ← num "--tail" 200
    pure (logs (record { vm_name = vm_name; component = component; tail = tail }))

  unfoldable pub parse_down : M Given Command
  parse_down = do
    vm_name ← opt "--vm-name"
    force ← on "--force"
    skip_unmount ← on "--skip-unmount"
    pure (down (record { vm_name = vm_name; force = force; skip_unmount = skip_unmount }))

  unfoldable pub parse_clean : M Given Command
  parse_clean = do
    vm_name ← opt "--vm-name"
    log_files ← on "--logs"
    state ← on "--state"
    all ← on "--all"
    pure (clean (record { vm_name = vm_name; logs = log_files; state = state; all = all }))

  unfoldable pub parse_host_provision : M Given Command
  parse_host_provision = do
    vm_user ← req "--vm-user"
    vm_host ← req "--vm-host"
    ssh_port ← num "--ssh-port" 22
    binary ← opt "--binary"
    bundle ← opt "--bundle"
    target_dir ← str "--target-dir" "/opt/target"
    repo_path ← opt "--repo-path"
    vm_repo_path ← opt "--vm-repo-path"
    start_gate ← on "--start-gate"
    pure (
        host_provision (record {
          vm_user = vm_user;
          vm_host = vm_host;
          ssh_port = ssh_port;
          binary = binary;
          bundle = bundle;
          target_dir = target_dir;
          repo_path = repo_path;
          vm_repo_path = vm_repo_path;
          start_gate = start_gate;
        }))

  -- `--method` is another spelling of `--host-mount-method`.
  unfoldable pub parse_host_mount : M Given Command
  parse_host_mount = do
    vm_user ← req "--vm-user"
    vm_host ← req "--vm-host"
    ssh_port ← num "--ssh-port" 22
    vm_mount ← str "--vm-mount" "/mnt/gate"
    host_dir ← req "--host-mount"
    method ← str "--host-mount-method" "sshfs"
    chosen int defaults (method =s "sshfs")
    known_hosts ← opt "--known-hosts"
    accept_host_key ← on "--accept-host-key"
    pure (
        host_mount (record {
          vm_user = vm_user;
          vm_host = vm_host;
          ssh_port = ssh_port;
          vm_mount = vm_mount;
          host_mount = host_dir;
          known_hosts = known_hosts;
          accept_host_key = accept_host_key;
        }))
