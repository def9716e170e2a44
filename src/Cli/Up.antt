-- ===== src/Cli/Up.antt =====
-- cli.py: the command `up`, step by step. The environment of the programs it starts is left out.
pub mod InGuest
pub mod OnHost
pub mod Run
pub mod Stopping
pub mod Failure
use Prim.Native.String.{◌++◌ as ◌<>◌}
use shared_concurrency_subst.Common.{
  ℕ, String, Bool, true, false, not, ◌||◌, List, [], ◌∷◌, ◌++◌, Option, none, some, if◌then◌else◌,
}
use shared_concurrency_subst.Effects.{
  enoent, os_error, M, ◌>>=◌, ◌>>◌, pure, raise, gets, modify, catch,
}
use shared_concurrency_subst.Cli.Commands.{
  Texts, qemu_command, ssh_command, resolve_ssh_identity, gate_state_dir, gate_log_dir,
}
use shared_concurrency_subst.Cli.Host.{
  run_background_pid, is_pid_running, Host, exists, effect, unlink, pid_in, usage_error, run_logged,
  require_cmd,
}
use shared_concurrency_subst.Cli.Build.{Program}

pub record UpArgs : Type 0 where
  pub vm_name : String
  pub vm_dir : String
  pub base : String
  pub ssh_key : String
  pub ssh_port : ℕ
  pub disk_size : String
  pub redownload : Bool
  pub repo_path : String
  pub vm_repo_path : String
  pub binary : Option String
  pub host_mount : Option String
  pub host_direct : Bool  -- `--host-mount-method`
  pub strict_host_key : Bool
  pub ssh_timeout : ℕ
  pub memory : String
  pub cpus : String
  pub max_hold_ms : Option ℕ
  pub skip_build : Bool
  pub skip_host_mount : Bool
  pub dry_run : Bool
  pub keep_vm_on_error : Bool
  pub verbose : Bool

-- The host and the three flags.
pub record Up (H : Type 0) : Type 0 where
  pub host : H
  pub started_vm : Bool
  pub started_tunnel : Bool
  pub started_host_direct : Bool

module _ {H : Type 0} (os : Host H) (x : Texts) (home : String) (p : Program) (a : UpArgs) where
  abbrev pub on_host : {A : Type 0} → M H A → M (Up H) A
  on_host m u = let r = m u.host in (r.0, record u { host = r.1 })

  abbrev pub vm_dir : String
  vm_dir = x.expanduser a.vm_dir

  abbrev pub state_dir : String
  state_dir = gate_state_dir x home a.vm_name

  abbrev pub log_file : String → String
  log_file name = x.join (gate_log_dir x home a.vm_name) name

  abbrev pub pid_file : String
  pid_file = x.join state_dir "vm.pid"

  abbrev pub known_hosts : String
  known_hosts = x.join state_dir "known_hosts"

  abbrev pub accept_host_key : Bool
  accept_host_key = not a.strict_host_key

  abbrev pub qemu : List String
  qemu = qemu_command x vm_dir a.vm_name (x.str a.ssh_port) a.memory a.cpus

  -- An f-string's text of a limit that may be None.
  abbrev pub str_limit : Option ℕ → String
  str_limit none = "None"
  str_limit (some n) = x.str n

  abbrev pub identity_or_usage : Option String → M H String
  identity_or_usage none = usage_error os
  identity_or_usage (some path) = pure path

  abbrev pub when : Bool → M H (Unit {0}) → M H (Unit {0})
  when true m = m
  when false m = pure tt

  -- What comes before the `try`: the identity for ssh.
  unfoldable pub prepare : M H String
  unfolding resolve_ssh_identity
  prepare = do
    effect os (os.make_dirs vm_dir)
    effect os (os.make_dirs state_dir)
    there ← gets (os.is_file (x.expanduser a.ssh_key))
    (if there then pure tt else usage_error os)
    identity ← (λ h.
        identity_or_usage
          (resolve_ssh_identity x (λ path. os.is_file path h) (x.expanduser a.ssh_key)) h)
    old ← (if accept_host_key then exists os known_hosts else pure false)
    when old (unlink os known_hosts)
    pure identity

  abbrev program_args : List String
  program_args =
      if p.frozen
      then p.executable ∷ "vm-build" ∷ []
      else p.executable ∷ "-m" ∷ "gate.cli" ∷ "vm-build" ∷ []

  unfoldable pub build_command : List String
  build_command =
      program_args
      ++ (("--base" ∷ a.base ∷ "--vm-dir" ∷ vm_dir ∷ "--vm-name" ∷ a.vm_name ∷ "--ssh-key"
            ∷ a.ssh_key ∷ "--disk-size" ∷ a.disk_size ∷ [])
          ++ (if a.redownload then "--redownload" ∷ [] else []))

  -- Step 1: the images, if one is missing.
  unfoldable pub build_vm : M H (Unit {0})
  unfolding build_command
  build_vm = do
    disk ← (if a.skip_build then pure true else exists os (x.join vm_dir (a.vm_name <> ".qcow2")))
    seed ←
        (if a.skip_build || not disk
          then pure true
          else exists os (x.join vm_dir (a.vm_name <> "-seed.img")))
    when (not disk || not seed) (run_logged os build_command (log_file "vm-build.log") a.verbose)

  -- A pid file that is stale or cannot be read goes.
  abbrev check_pid : M H (Unit {0})
  check_pid =
      catch
        (do
          pid ← pid_in os pid_file
          running ← gets (is_pid_running os pid)
          if running then pure tt else raise (os_error enoent))
        (λ e. unlink os pid_file)

  abbrev spawn_vm : M (Up H) (Unit {0})
  spawn_vm = do
    on_host (require_cmd os "qemu-system-x86_64")
    pid ← on_host (run_background_pid os qemu (log_file "vm-run.log"))
    on_host (effect os (os.write_text pid_file (x.str pid)))
    modify (λ u. record u { started_vm = true })

  -- Step 2: the VM, if it does not run.
  unfoldable pub run_vm : M (Up H) (Unit {0})
  unfolding qemu_command
  run_vm = do
    old ← on_host (exists os pid_file)
    on_host (when old check_pid)
    there ← on_host (exists os pid_file)
    if there then pure tt else spawn_vm

  abbrev pub guest : String
  guest = "gate@127.0.0.1"

  -- A command in the VM.
  abbrev pub in_vm : (identity cmd log : String) → M H (Unit {0})
  in_vm identity cmd log =
      run_logged os
        (ssh_command x a.ssh_port (some known_hosts) accept_host_key (some identity) guest cmd)
        (log_file log) a.verbose

  abbrev pub repo : String
  repo = x.expanduser a.repo_path
