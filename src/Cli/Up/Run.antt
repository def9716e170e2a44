-- ===== src/Cli/Up/Run.antt =====
-- cli.py: the whole command `up`: its order of steps, its dry run, and what it does when a step fails.
use Prim.Native.String.{◌++◌ as ◌<>◌}
use shared_concurrency_subst.Common.{
  ℕ, suc, ◌*◌, String, Bool, true, false, not, ◌&&◌, List, [], ◌∷◌, Option, none, some, ◌=s◌,
  if◌then◌else◌,
}
use shared_concurrency_subst.Effects.{Raised, M, bind_result, ◌>>=◌, ◌>>◌, pure, raise, gets, catch}
use shared_concurrency_subst.Cli.Commands.{Texts, gate_log_dir}
use shared_concurrency_subst.Cli.Host.{
  is_pid_running, Host, sigterm, sigkill, exists, query, unlink, say, pid_in, signal, wait,
}
use shared_concurrency_subst.Cli.Build.{Program}
use shared_concurrency_subst.Cli.Mounts.{unmount_path, stop_pid_file}
use shared_concurrency_subst.Cli.Waits.{wait_for_ssh}
use shared_concurrency_subst.Cli.Up.{
  UpArgs, Up, on_host, vm_dir, pid_file, known_hosts, accept_host_key, qemu, when, prepare,
  log_file, build_vm, run_vm,
}
use shared_concurrency_subst.Cli.Up.InGuest.{
  install_deps, install_binary, sync_repo, start_services,
}
use shared_concurrency_subst.Cli.Up.OnHost.{
  looped, tunnel_pid_path, direct_pid_path, direct_mount_record, direct_port_path, host_mount_path,
  mount_on_host,
}

-- `which_gate` is `shutil.which("gate")`.
module _ {H : Type 0} (os : Host H) (x : Texts) (home : String) (p : Program) (a : UpArgs)
    (port_free : H → ℕ → Bool) (split : String → List String) (which_gate : H → Option String) where
  abbrev lift : {A : Type 0} → M H A → M (Up H) A
  lift = on_host os x home p a

  -- Steps 1 to 4: a VM that answers and has its packages.
  unfoldable pub boot : (identity : String) → M (Up H) (Unit {0})
  unfolding build_vm run_vm install_deps wait_for_ssh
  boot identity = do
    lift (build_vm os x home p a)
    run_vm os x home p a
    lift (λ h. looped os x home p a port_free split (
        wait_for_ssh os x (suc (suc (a.ssh_timeout * 4))) "gate" "127.0.0.1" a.ssh_port
          (some (known_hosts os x home p a)) (accept_host_key os x home p a) (some identity)
          a.ssh_timeout (log_file os x home p a "ssh.log") a.verbose h))
    lift (install_deps os x home p a identity)

  -- Steps 5 to 7: the binary, the repository and the services in the VM.
  unfoldable pub fill_guest : (identity : String) → M H String
  unfolding install_binary sync_repo start_services
  fill_guest identity = do
    binary ← install_binary os x home p a which_gate identity
    sync_repo os x home p a identity
    start_services os x home p a identity
    pure binary

  unfoldable pub bring_up : (identity : String) → M (Up H) (Unit {0})
  unfolding boot fill_guest mount_on_host
  bring_up identity = do
    boot identity
    binary ← lift (fill_guest identity)
    mount_on_host os x home p a port_free split identity binary
    lift (say os ("Gate up complete. Logs: " <> gate_log_dir x home a.vm_name))

  abbrev ignoring : M H (Unit {0}) → M H (Unit {0})
  ignoring m = catch m (λ e. pure tt)

  abbrev pub unmount_recorded : M H (Unit {0})
  unmount_recorded = do
    there ← exists os (direct_mount_record os x home p a port_free split)
    when os x home p a there (do
      text ← query os (os.read_text (direct_mount_record os x home p a port_free split))
      unmount_path os (x.strip text))

  abbrev pub stop_direct : Bool → M H (Unit {0})
  stop_direct false = pure tt
  stop_direct true = do
    stop_pid_file os (direct_pid_path os x home p a port_free split) true
    ignoring unmount_recorded

  abbrev pub stop_tunnel : Bool → M H (Unit {0})
  stop_tunnel false = pure tt
  stop_tunnel true = stop_pid_file os (tunnel_pid_path os x home p a port_free split) true

  abbrev pub forget_port : M H (Unit {0})
  forget_port = do
    there ← exists os (direct_port_path os x home p a port_free split)
    when os x home p a there (unlink os (direct_port_path os x home p a port_free split))

  -- Two signals, two seconds apart; no exception leaves it.
  abbrev pub kill_vm : M H (Unit {0})
  kill_vm = ignoring (do
    pid ← pid_in os (pid_file os x home p a)
    signal os pid sigterm
    wait os 2000000
    running ← gets (is_pid_running os pid)
    when os x home p a running (ignoring (signal os pid sigkill)))

  -- The VM is stopped if this run started it and it is not to be kept.
  abbrev pub stop_vm : Bool → M H (Unit {0})
  stop_vm false = pure tt
  stop_vm true = do
    there ← exists os (pid_file os x home p a)
    when os x home p a there (do kill_vm; unlink os (pid_file os x home p a))

  -- What is done before the exception is raised again.
  unfoldable pub clean_up : (started_vm started_tunnel started_host_direct : Bool) → M H (Unit {0})
  unfolding stop_pid_file unmount_path
  clean_up started_vm started_tunnel started_host_direct = do
    stop_direct started_host_direct
    stop_tunnel started_tunnel
    forget_port
    stop_vm (not a.keep_vm_on_error && started_vm)

  abbrev pub clean_up_after : Raised → M (Up H) (Unit {0})
  clean_up_after e u =
      bind_result (lift (clean_up u.started_vm u.started_tunnel u.started_host_direct) u)
        (λ _. raise e)

  -- The `try` of the command.
  unfoldable pub try_up : (identity : String) → M (Up H) (Unit {0})
  unfolding bring_up clean_up
  try_up identity = catch (bring_up identity) clean_up_after

  abbrev given_or : Option String → String → String
  given_or none d = d
  given_or (some s) d = if s =s "" then d else s

  -- `' '.join(words)`
  abbrev unwords : List String → String
  unwords [] = ""
  unwords (word ∷ []) = word
  unwords (word ∷ w ∷ words) = word <> (" " <> unwords (w ∷ words))

  abbrev mount_lines : M H (Unit {0})
  mount_lines =
      if a.host_direct
      then (do
        say os "- start ssh tunnel: 127.0.0.1:8787 -> vm 127.0.0.1:8787"
        when os x home p a (not a.skip_host_mount) (
            say os (
              "- host direct mount: "
              <> (a.repo_path <> (" -> " <> host_mount_path os x home p a port_free split)))))
      else (do
        say os "- start mount: /opt/gate/bin/gate mount --root <repo> --mount /mnt/gate"
        when os x home p a (not a.skip_host_mount) (
            say os
              ("- host mount: /mnt/gate -> " <> host_mount_path os x home p a port_free split)))

  unfoldable pub dry_run : M H (Unit {0})
  unfolding host_mount_path
  dry_run = do
    say os "Dry run:"
    say os (
        "- vm-build (base="
        <> (a.base
            <> (", vm-dir=" <> (vm_dir os x home p a <> (", vm-name=" <> (a.vm_name <> ")"))))))
    say os ("- vm-run: " <> unwords (qemu os x home p a))
    say os ("- wait for ssh: gate@127.0.0.1:" <> x.str a.ssh_port)
    say os "- install deps: apt-get update && apt-get install -y fuse3 libfuse3-3"
    say os ("- copy binary: " <> (given_or a.binary "$(which gate)" <> " -> /opt/gate/bin/gate"))
    say os ("- rsync repo: " <> (a.repo_path <> (" -> " <> a.vm_repo_path)))
    say os "- start broker: /opt/gate/bin/gate broker --port 8787"
    mount_lines
    say os ("- logs: " <> gate_log_dir x home a.vm_name)

  abbrev run_up : String → M H (Unit {0})
  run_up identity h =
      let r = try_up identity (record {
        host = h;
        started_vm = false;
        started_tunnel = false;
        started_host_direct = false;
      }) in
      (r.0, r.1.host)

  unfoldable pub up : M H (Unit {0})
  unfolding prepare dry_run try_up
  up = do identity ← prepare os x home p a; if a.dry_run then dry_run else run_up identity
