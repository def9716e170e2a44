-- ===== src/Cli/Provision.antt =====
-- cli.py: the commands `host-provision` and `host-mount`.
use Prim.Native.String.{◌++◌ as ◌<>◌}
use shared_concurrency_subst.Common.{
  ℕ, String, Bool, List, [], ◌∷◌, ◌++◌, Option, none, some, ◌=s◌, if◌then◌else◌,
}
use shared_concurrency_subst.Effects.{done, M, ◌>>=◌, ◌>>◌, pure, gets}
use shared_concurrency_subst.Cli.Commands.{Texts, ssh_shell_command, gate_log_dir}
use shared_concurrency_subst.Cli.Host.{run_background, Host, say, usage_error, run, require_cmd}
use shared_concurrency_subst.Cli.Mounts.{ensure_mount_dir}

pub record ProvisionArgs : Type 0 where
  pub vm_user : String
  pub vm_host : String
  pub ssh_port : ℕ
  pub binary : Option String
  pub bundle : Option String
  pub target_dir : String
  pub repo_path : Option String
  pub vm_repo_path : Option String
  pub start_gate : Bool

pub record HostMountArgs : Type 0 where
  pub vm_user : String
  pub vm_host : String
  pub ssh_port : ℕ
  pub vm_mount : String
  pub host_mount : String
  pub known_hosts : Option String
  pub accept_host_key : Bool

-- `shutil.which("gate")` gives a path.
module _ {H : Type 0} (os : Host H) (x : Texts) (which_gate : H → Option String) where
  abbrev the_file : String → M H String
  the_file path h = if os.is_file path h then (done path, h) else usage_error os h

  abbrev found_or_usage : Option String → M H String
  found_or_usage none = usage_error os
  found_or_usage (some path) = pure path

  abbrev provision_binary : Option String → M H String
  provision_binary (some path) = the_file (x.expanduser path)
  provision_binary none = do found ← gets which_gate; found_or_usage found

  abbrev remote : ProvisionArgs → String
  remote a = a.vm_user <> ("@" <> a.vm_host)

  abbrev scp : ProvisionArgs → (from to : String) → M H (Unit {0})
  scp a from to = run os ("scp" ∷ "-P" ∷ x.str a.ssh_port ∷ from ∷ (remote a <> (":" <> to)) ∷ [])

  abbrev ssh : ProvisionArgs → List String → M H (Unit {0})
  ssh a words = run os ("ssh" ∷ "-p" ∷ x.str a.ssh_port ∷ remote a ∷ words)

  unfoldable pub send_binary : ProvisionArgs → String → M H (Unit {0})
  send_binary a binary_path = do
    require_cmd os "scp"
    require_cmd os "ssh"
    scp a binary_path "/tmp/gate"
    ssh a ("sudo" ∷ "mkdir" ∷ "-p" ∷ "/opt/gate/bin" ∷ [])
    ssh a ("sudo" ∷ "install" ∷ "-m" ∷ "0755" ∷ "/tmp/gate" ∷ "/opt/gate/bin/gate" ∷ [])

  abbrev install_command : ProvisionArgs → String
  install_command a =
      "sudo mkdir -p /opt/gate && "
      <> ("sudo tar -xzf /tmp/gate_bundle.tar.gz -C /opt/gate && "
          <> ("sudo chmod +x /opt/gate/bin/gate && "
              <> ("sudo /opt/gate/bin/gate bundle-install --target-dir "
                  <> (x.quote a.target_dir
                      <> (" " <> (if a.start_gate then "--start-gate" else ""))))))

  unfoldable pub send_bundle : ProvisionArgs → Option String → M H (Unit {0})
  send_bundle a none = pure tt
  send_bundle a (some bundle) = do
    path ← the_file (x.expanduser bundle)
    require_cmd os "scp"
    require_cmd os "ssh"
    scp a path "/tmp/gate_bundle.tar.gz"
    ssh a (ssh_shell_command x (install_command a) ∷ [])

  abbrev the_dir : String → M H String
  the_dir path h = if os.is_dir path h then (done path, h) else usage_error os h

  abbrev text_or : Option String → String → String
  text_or none d = d
  text_or (some s) d = if s =s "" then d else s

  unfoldable pub send_repo :
      ProvisionArgs → (vm_repo_path : String) → Option String → M H (Unit {0})
  send_repo a vm_repo_path none = pure tt
  send_repo a vm_repo_path (some repo) = do
    path ← the_dir (x.expanduser repo)
    require_cmd os "rsync"
    require_cmd os "ssh"
    ssh a ("mkdir" ∷ "-p" ∷ vm_repo_path ∷ [])
    run os (
        "rsync"
        ∷ "-a"
        ∷ "--delete"
        ∷ "--info=progress2"
        ∷ "-e"
        ∷ ("ssh -p " <> x.str a.ssh_port)
        ∷ (path <> "/")
        ∷ (remote a <> (":" <> (vm_repo_path <> "/")))
        ∷ [])

  -- The test that there is something to do cannot fail, since the binary was found before it.
  unfoldable pub host_provision : ProvisionArgs → M H (Unit {0})
  unfolding send_binary send_bundle send_repo
  host_provision a = do
    binary_path ← provision_binary a.binary
    send_binary a binary_path
    send_bundle a a.bundle
    send_repo a (text_or a.vm_repo_path a.target_dir) a.repo_path

  abbrev known_args : Option String → List String
  known_args none = []
  known_args (some path) =
      if path =s "" then [] else "-o" ∷ ("UserKnownHostsFile=" <> x.expanduser path) ∷ []

  unfoldable pub host_mount : HostMountArgs → (home : String) → M H (Unit {0})
  host_mount a home = do
    let path = x.expanduser a.host_mount
    ensure_mount_dir os path
    require_cmd os "sshfs"
    run_background os
        ("sshfs"
          ∷ "-o"
          ∷ ("port=" <> x.str a.ssh_port)
          ∷ (known_args a.known_hosts
              ++ ((if a.accept_host_key then "-o" ∷ "StrictHostKeyChecking=accept-new" ∷ [] else [])
                  ++ ((a.vm_user <> ("@" <> (a.vm_host <> (":" <> a.vm_mount)))) ∷ path ∷ []))))
        (x.join (gate_log_dir x home "host-mount") "sshfs.log")
    say os ("Mount started: " <> (a.vm_host <> (":" <> (a.vm_mount <> (" -> " <> path)))))
