-- ===== src/Cli/Up/OnHost.antt =====
-- cli.py, the command `up`: the last step, the mount on the host, straight on the host or over sshfs.
use Prim.Native.String.{◌++◌ as ◌<>◌}
use shared_concurrency_subst.Common.{
  ℕ, String, Bool, true, List, [], ◌∷◌, ◌++◌, Option, none, some, ◌=s◌, if◌then◌else◌,
}
use shared_concurrency_subst.Effects.{
  Outcome, raises, runtime_error, M, ◌>>=◌, ◌>>◌, pure, raise, gets, modify, catch,
}
use shared_concurrency_subst.Cli.Commands.{
  Texts, ssh_base_args, gate_mount_dir, gate_host_direct_mount_dir, gate_tunnel_pid_path,
  gate_host_direct_pid_path, gate_host_direct_mount_path, gate_host_direct_port_path,
}
use shared_concurrency_subst.Cli.Host.{
  run_background, run_background_pid, is_pid_running, Host, exists, effect, unlink, pid_in,
  require_cmd,
}
use shared_concurrency_subst.Cli.Build.{Program}
use shared_concurrency_subst.Cli.Mounts.{ensure_mount_dir, ensure_empty_dir}
use shared_concurrency_subst.Cli.Ports.{pick_free_port}
use shared_concurrency_subst.Cli.Waits.{Loop, wait_for_port, wait_for_fuse_mount}
use shared_concurrency_subst.Cli.Up.{
  UpArgs, Up, on_host, state_dir, log_file, known_hosts, accept_host_key, guest, repo, str_limit,
  when,
}

-- `port_free` tells whether `bind` succeeds, `split` is the method of texts.
module _ {H : Type 0} (os : Host H) (x : Texts) (home : String) (p : Program) (a : UpArgs)
    (port_free : H → ℕ → Bool) (split : String → List String) where
  -- A loop that has fuel left ends so; the fuel is enough by the theorems on the waiting loops.
  abbrev pub looped : Loop os → Outcome (Unit {0}) × H
  looped (some r, h) = (r, h)
  looped (none, h) = (raises runtime_error, h)

  abbrev pub tunnel_pid_path : String
  tunnel_pid_path = gate_tunnel_pid_path x (state_dir os x home p a)

  abbrev pub direct_pid_path : String
  direct_pid_path = gate_host_direct_pid_path x (state_dir os x home p a)

  abbrev pub direct_mount_record : String
  direct_mount_record = gate_host_direct_mount_path x (state_dir os x home p a)

  abbrev pub direct_port_path : String
  direct_port_path = gate_host_direct_port_path x (state_dir os x home p a)

  -- `Path(args.host_mount).expanduser() if args.host_mount else …`
  abbrev mount_or : String → Option String → String
  mount_or d none = d
  mount_or d (some path) = if path =s "" then d else x.expanduser path

  unfoldable pub host_mount_path : String
  host_mount_path =
      mount_or
        (if a.host_direct
          then gate_host_direct_mount_dir x home
          else gate_mount_dir x home a.vm_name)
        a.host_mount

  abbrev port_or_raise : Option ℕ → M H ℕ
  port_or_raise none = raise runtime_error
  port_or_raise (some port) = pure port

  -- A pid file of a tunnel that has ended, or that cannot be read, goes.
  abbrev check_tunnel : M H (Unit {0})
  check_tunnel =
      catch
        (do
          pid ← pid_in os tunnel_pid_path
          running ← gets (is_pid_running os pid)
          if running then pure tt else unlink os tunnel_pid_path)
        (λ e. unlink os tunnel_pid_path)

  unfoldable pub tunnel_command : (identity : String) (port : ℕ) → List String
  unfolding ssh_base_args
  tunnel_command identity port =
      "ssh"
      ∷ (ssh_base_args x a.ssh_port (some (known_hosts os x home p a))
            (accept_host_key os x home p a) (some identity)
          ++ ("-o"
              ∷ "ExitOnForwardFailure=yes"
              ∷ "-N"
              ∷ "-L"
              ∷ (x.str port <> ":127.0.0.1:8787")
              ∷ guest os x home p a
              ∷ []))

  abbrev lift : {A : Type 0} → M H A → M (Up H) A
  lift = on_host os x home p a

  abbrev spawn_tunnel : String → ℕ → M (Up H) (Unit {0})
  spawn_tunnel identity port = do
    pid ←
        lift (
          run_background_pid os (tunnel_command identity port)
            (log_file os x home p a "tunnel.log"))
    lift (effect os (os.write_text tunnel_pid_path (x.str pid)))
    modify (λ u. record u { started_tunnel = true })

  -- The tunnel to the broker, and its port.
  unfoldable pub open_tunnel : (identity : String) → M (Up H) ℕ
  unfolding tunnel_command pick_free_port
  open_tunnel identity = do
    free ← gets (λ u. port_free u.host)
    port ← lift (port_or_raise (pick_free_port free 8787 20))
    lift (effect os (os.write_text direct_port_path (x.str port)))
    old ← lift (exists os tunnel_pid_path)
    lift (when os x home p a old check_tunnel)
    there ← lift (exists os tunnel_pid_path)
    (if there then pure tt else spawn_tunnel identity port)
    lift (λ h. looped (wait_for_port os 82 "127.0.0.1" port 20 h))
    pure port

  unfoldable pub direct_command : (binary : String) (port : ℕ) → List String
  unfolding host_mount_path
  direct_command binary port =
      binary
      ∷ "mount"
      ∷ "--root"
      ∷ repo os x home p a
      ∷ "--mount"
      ∷ host_mount_path
      ∷ "--broker-host"
      ∷ "127.0.0.1"
      ∷ "--broker-port"
      ∷ x.str port
      ∷ "--max-hold-ms"
      ∷ str_limit os x home p a a.max_hold_ms
      ∷ "--foreground"
      ∷ []

  unfoldable pub mount_direct : (identity binary : String) → M (Up H) (Unit {0})
  unfolding host_mount_path open_tunnel direct_command ensure_empty_dir wait_for_fuse_mount
  mount_direct identity binary = do
    lift (ensure_empty_dir os host_mount_path)
    lift (effect os (os.write_text direct_mount_record host_mount_path))
    port ← open_tunnel identity
    lift (
        when os x home p a p.frozen
          (effect os (os.make_dirs (x.join (state_dir os x home p a) "pyi"))))
    pid ← lift (
        run_background_pid os (direct_command binary port)
          (log_file os x home p a "host-direct.log"))
    lift (effect os (os.write_text direct_pid_path (x.str pid)))
    modify (λ u. record u { started_host_direct = true })
    lift (λ h. looped (wait_for_fuse_mount os split 82 host_mount_path 20 h))

  unfoldable pub sshfs_command : (identity : String) → List String
  unfolding host_mount_path
  sshfs_command identity =
      "sshfs"
      ∷ "-o"
      ∷ ("port=" <> x.str a.ssh_port)
      ∷ "-o"
      ∷ ("UserKnownHostsFile=" <> known_hosts os x home p a)
      ∷ ((if accept_host_key os x home p a
            then "-o" ∷ "StrictHostKeyChecking=accept-new" ∷ []
            else [])
          ++ ("-o"
              ∷ ("IdentityFile=" <> identity)
              ∷ "-o"
              ∷ "IdentitiesOnly=yes"
              ∷ "gate@127.0.0.1:/mnt/gate"
              ∷ host_mount_path
              ∷ []))

  unfoldable pub mount_sshfs : (identity : String) → M H (Unit {0})
  unfolding host_mount_path sshfs_command ensure_mount_dir
  mount_sshfs identity = do
    ensure_mount_dir os host_mount_path
    require_cmd os "sshfs"
    run_background os (sshfs_command identity) (log_file os x home p a "host-mount.log")

  -- Step 8.
  unfoldable pub mount_on_host : (identity binary : String) → M (Up H) (Unit {0})
  unfolding mount_direct mount_sshfs
  mount_on_host identity binary =
      if a.skip_host_mount
      then pure tt
      else if a.host_direct
      then mount_direct identity binary
      else lift (mount_sshfs identity)
