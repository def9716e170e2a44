-- ===== src/Cli/Up/InGuest.antt =====
-- cli.py, the command `up`: the steps inside the VM.
use Prim.Native.String.{◌++◌ as ◌<>◌}
use shared_concurrency_subst.Common.{
  String, not, List, [], ◌∷◌, ◌++◌, Option, none, some, if◌then◌else◌,
}
use shared_concurrency_subst.Effects.{done, M, ◌>>=◌, ◌>>◌, pure, gets}
use shared_concurrency_subst.Cli.Commands.{Texts, ssh_base_args, ssh_command, ssh_shell_command}
use shared_concurrency_subst.Cli.Host.{Host, usage_error, run_logged}
use shared_concurrency_subst.Cli.Build.{Program}
use shared_concurrency_subst.Cli.Up.{
  UpArgs, in_vm, log_file, known_hosts, accept_host_key, guest, repo, str_limit, when,
}

module _ {H : Type 0} (os : Host H) (x : Texts) (home : String) (p : Program) (a : UpArgs) where
  abbrev setup_line : String
  setup_line =
      "sudo mkdir -p /var/lib/gate /opt/target; "
      <> ("if ! grep -q ' /mnt/gate ' /proc/mounts; then sudo mkdir -p /mnt/gate; fi; "
          <> ("if ! grep -q '^user_allow_other' /etc/fuse.conf 2>/dev/null; then "
              <> "echo 'user_allow_other' | sudo tee -a /etc/fuse.conf >/dev/null; fi"))

  -- Step 4: the packages and directories of the VM.
  unfoldable pub install_deps : String → M H (Unit {0})
  unfolding ssh_command ssh_shell_command
  install_deps identity = do
    in_vm os x home p a identity "sudo env DEBIAN_FRONTEND=noninteractive apt-get update" "deps.log"
    in_vm os x home p a identity
        "sudo env DEBIAN_FRONTEND=noninteractive apt-get install -y fuse3 libfuse3-3 libfuse2"
        "deps.log"
    in_vm os x home p a identity (ssh_shell_command x setup_line) "deps.log"

  -- The binary that goes into the VM; none if there is no candidate.
  unfoldable pub binary_path : (which_gate : H → Option String) → H → Option String
  binary_path which_gate h = elim a.binary [
    | some path ↦ some (x.expanduser path)
    | none ↦ if p.frozen then some p.resolved else which_gate h
  ]

  abbrev pub the_file : Option String → M H String
  the_file none h = usage_error os h
  the_file (some path) h = if os.is_file path h then (done path, h) else usage_error os h

  abbrev accept_args : List String
  accept_args =
      if accept_host_key os x home p a then "-o" ∷ "StrictHostKeyChecking=accept-new" ∷ [] else []

  unfoldable pub scp_command : (identity binary : String) → List String
  scp_command identity binary =
      "scp"
      ∷ "-P"
      ∷ x.str a.ssh_port
      ∷ "-i"
      ∷ identity
      ∷ "-o"
      ∷ "IdentitiesOnly=yes"
      ∷ "-o"
      ∷ ("UserKnownHostsFile=" <> known_hosts os x home p a)
      ∷ (accept_args ++ (binary ∷ "gate@127.0.0.1:/tmp/gate" ∷ []))

  -- Step 5: the binary is found and copied into the VM.
  unfoldable pub install_binary :
      (which_gate : H → Option String) → (identity : String) → M H String
  unfolding binary_path scp_command ssh_base_args
  install_binary which_gate identity = do
    found ← gets (binary_path which_gate)
    binary ← the_file found
    run_logged os (scp_command identity binary) (log_file os x home p a "copy.log") a.verbose
    run_logged os
        ("ssh"
          ∷ (ssh_base_args x a.ssh_port (some (known_hosts os x home p a))
                (accept_host_key os x home p a) (some identity)
              ++ (guest os x home p a
                  ∷ "sudo"
                  ∷ "install"
                  ∷ "-m"
                  ∷ "0755"
                  ∷ "/tmp/gate"
                  ∷ "/opt/gate/bin/gate"
                  ∷ [])))
        (log_file os x home p a "copy.log") a.verbose
    pure binary

  -- Step 6: the repository is copied into the VM.
  unfoldable pub sync_repo : (identity : String) → M H (Unit {0})
  sync_repo identity = do
    there ← gets (os.is_dir (repo os x home p a))
    (if there then pure tt else usage_error os)
    run_logged os
        ("rsync"
          ∷ "-a"
          ∷ "--delete"
          ∷ "--info=progress2"
          ∷ "-e"
          ∷ ("ssh -p "
              <> (x.str a.ssh_port
                  <> (" -i "
                      <> (x.quote identity
                          <> (" -o IdentitiesOnly=yes -o UserKnownHostsFile="
                              <> (known_hosts os x home p a
                                  <> (" "
                                      <> (if accept_host_key os x home p a
                                          then "-o StrictHostKeyChecking=accept-new"
                                          else ""))))))))
          ∷ (repo os x home p a <> "/")
          ∷ ("gate@127.0.0.1:" <> (a.vm_repo_path <> "/"))
          ∷ [])
        (log_file os x home p a "rsync.log") a.verbose

  abbrev broker_line : String
  broker_line =
      "nohup /opt/gate/bin/gate broker --state-dir /var/lib/gate --host 127.0.0.1 --port 8787 --max-hold-ms "
      <> (str_limit os x home p a a.max_hold_ms <> " > /var/lib/gate/broker.log 2>&1 &")

  abbrev mount_line : String
  mount_line =
      "nohup /opt/gate/bin/gate mount --root "
      <> (x.quote a.vm_repo_path
          <> (" --mount /mnt/gate --broker-host 127.0.0.1 --broker-port 8787 --max-hold-ms "
              <> (str_limit os x home p a a.max_hold_ms <> " > /var/lib/gate/fuse.log 2>&1 &")))

  -- Step 7: the broker, and the mount in the VM.
  unfoldable pub start_services : (identity : String) → M H (Unit {0})
  unfolding ssh_command ssh_shell_command
  start_services identity = do
    in_vm os x home p a identity (ssh_shell_command x broker_line) "broker.log"
    when os x home p a (not a.host_direct)
        (in_vm os x home p a identity (ssh_shell_command x mount_line) "mount.log")
