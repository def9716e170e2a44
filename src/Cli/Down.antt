-- ===== src/Cli/Down.antt =====
-- cli.py: the commands `down` and `clean`, which take apart what `up` leaves on the host.
pub mod Clearing
use Prim.Native.String.{◌++◌ as ◌<>◌}
use shared_concurrency_subst.Common.{
  ℕ, String, Bool, true, false, not, ◌||◌, List, [], ◌∷◌, Option, none, some, if◌then◌else◌,
}
use shared_concurrency_subst.Effects.{runtime_error, M, ◌>>=◌, ◌>>◌, pure, raise, gets, catch}
use shared_concurrency_subst.Cli.Commands.{
  Texts, list_vm_names, gate_state_dir, gate_log_dir, gate_mount_dir, gate_host_direct_mount_dir,
  gate_tunnel_pid_path, gate_host_direct_pid_path, gate_host_direct_mount_path,
  gate_host_direct_port_path,
}
use shared_concurrency_subst.Cli.Host.{
  is_pid_running, Host, sigterm, sigkill, exists, unlink, query, effect, say, pid_in, usage_error,
  signal, wait,
}
use shared_concurrency_subst.Cli.Mounts.{unmount_path, stop_pid_file, safe_clear_dir}

pub record DownArgs : Type 0 where
  pub vm_name : Option String
  pub force : Bool
  pub skip_unmount : Bool

pub record CleanArgs : Type 0 where
  pub vm_name : Option String
  pub logs : Bool
  pub state : Bool
  pub all : Bool

-- `home` is `_state_home()`.
module _ {H : Type 0} (os : Host H) (x : Texts) (home : String) where
  abbrev pub vm_names : M H (List String)
  vm_names = gets (λ h. list_vm_names (os.dir_entries (x.join (x.join home "gate") "state") h))

  abbrev pub say_names : List String → M H (Unit {0})
  say_names [] = pure tt
  say_names (name ∷ names) = do say os ("  - " <> name); say_names names

  abbrev the_only : List String → M H (Option String)
  the_only [] = usage_error os
  the_only (name ∷ []) = pure (some name)
  the_only (a ∷ b ∷ names) = do
    say os "Multiple VMs found. Provide --vm-name."
    say_names (a ∷ b ∷ names)
    pure none

  -- The name that is given, or that of the only VM; none where the command returns.
  unfoldable pub choose_vm : Option String → M H (Option String)
  choose_vm (some name) = pure (some name)
  choose_vm none = do names ← vm_names; the_only names

  abbrev pub when : Bool → M H (Unit {0}) → M H (Unit {0})
  when true m = m
  when false m = pure tt

  abbrev pub when_exists : String → M H (Unit {0}) → M H (Unit {0})
  when_exists path m = do found ← exists os path; when found m

  -- `except Exception as exc: if not args.force: raise RuntimeError(…) from exc`
  abbrev pub unless_forced : Bool → M H (Unit {0}) → M H (Unit {0})
  unless_forced force m = catch m (λ e. if force then pure tt else raise runtime_error)

  -- `except Exception: pass`
  abbrev pub ignoring : M H (Unit {0}) → M H (Unit {0})
  ignoring m = catch m (λ e. pure tt)

  abbrev pub state_of : String → String
  state_of vm = gate_state_dir x home vm

  abbrev pub vm_pid : String → String
  vm_pid vm = x.join (state_of vm) "vm.pid"

  -- The path that the record of the mount holds is unmounted.
  abbrev pub unmount_recorded : String → M H (Unit {0})
  unmount_recorded file = do text ← query os (os.read_text file); unmount_path os (x.strip text)

  -- Two signals, two seconds apart.
  abbrev pub stop_vm : ℕ → M H (Unit {0})
  stop_vm pid = do
    signal os pid sigterm
    wait os 2000000
    running ← gets (is_pid_running os pid)
    when running (signal os pid sigkill)

  abbrev pub stop_recorded : String → M H (Unit {0})
  stop_recorded vm = do
    pid ← pid_in os (vm_pid vm)
    running ← gets (is_pid_running os pid)
    when running (stop_vm pid)
    unlink os (vm_pid vm)
    say os ("Stopped VM " <> vm)

  -- The part that concerns the host-direct mount and its tunnel.
  unfoldable pub down_direct : Bool → String → M H (Unit {0})
  down_direct force vm = do
    when_exists (gate_host_direct_pid_path x (state_of vm))
        (stop_pid_file os (gate_host_direct_pid_path x (state_of vm)) force)
    when_exists (gate_tunnel_pid_path x (state_of vm))
        (stop_pid_file os (gate_tunnel_pid_path x (state_of vm)) force)
    when_exists (gate_host_direct_port_path x (state_of vm))
        (unlink os (gate_host_direct_port_path x (state_of vm)))
    when_exists (gate_host_direct_mount_path x (state_of vm)) (do
      unless_forced force (unmount_recorded (gate_host_direct_mount_path x (state_of vm)))
      unlink os (gate_host_direct_mount_path x (state_of vm)))

  -- The part that concerns the VM.
  unfoldable pub down_vm : Bool → String → M H (Unit {0})
  down_vm force vm = do
    found ← exists os (vm_pid vm)
    if found
        then unless_forced force (stop_recorded vm)
        else say os ("No PID file for " <> (vm <> " (already stopped?)"))

  unfoldable pub down_named : DownArgs → String → M H (Unit {0})
  unfolding down_direct down_vm
  down_named a vm = do
    down_direct a.force vm
    when (not a.skip_unmount) (unless_forced a.force (unmount_path os (gate_mount_dir x home vm)))
    down_vm a.force vm

  abbrev chosen : Option String → (String → M H (Unit {0})) → M H (Unit {0})
  chosen none f = pure tt
  chosen (some vm) f = f vm

  unfoldable pub down : DownArgs → M H (Unit {0})
  unfolding choose_vm down_named
  down a = do vm ← choose_vm a.vm_name; chosen vm (down_named a)

  -- The record of the mount, or the default where it is missing or cannot be read.
  abbrev pub direct_mount : String → M H String
  direct_mount vm = do
    found ← exists os (gate_host_direct_mount_path x (state_of vm))
    if found
        then catch
            (do
              text ← query os (os.read_text (gate_host_direct_mount_path x (state_of vm)))
              pure (x.strip text))
            (λ e. pure (gate_host_direct_mount_dir x home))
        else pure (gate_host_direct_mount_dir x home)

  -- The processes are stopped and the mounts unmounted, as far as that goes.
  unfoldable pub clean_mounts : String → M H String
  clean_mounts vm = do
    stop_pid_file os (gate_host_direct_pid_path x (state_of vm)) true
    stop_pid_file os (gate_tunnel_pid_path x (state_of vm)) true
    ignoring (unmount_path os (gate_mount_dir x home vm))
    direct ← direct_mount vm
    ignoring (unmount_path os direct)
    pure direct

  abbrev pub mounts_root : String
  mounts_root = x.join (x.join home "gate") "mounts"

  abbrev pub remove_dir : String → M H (Unit {0})
  remove_dir path = when_exists path (effect os (os.remove_tree path))

  -- The directories and records that are deleted.
  unfoldable pub clean_rest : CleanArgs → String → String → M H (Unit {0})
  clean_rest a vm direct = do
    when_exists direct (safe_clear_dir os direct mounts_root)
    when (a.all || a.logs) (remove_dir (gate_log_dir x home vm))
    when (a.all || a.state) (remove_dir (state_of vm))
    say os ("Cleaned host state for " <> vm)

  unfoldable pub clean_named : CleanArgs → String → M H (Unit {0})
  unfolding clean_mounts clean_rest
  clean_named a vm = do
    direct ← clean_mounts vm
    when_exists (gate_mount_dir x home vm)
        (safe_clear_dir os (gate_mount_dir x home vm) mounts_root)
    clean_rest a vm direct

  unfoldable pub clean : CleanArgs → M H (Unit {0})
  unfolding choose_vm clean_named
  clean a = do vm ← choose_vm a.vm_name; chosen vm (clean_named a)
