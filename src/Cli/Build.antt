-- ===== src/Cli/Build.antt =====
-- cli.py: the commands `vm-build` and `vm-run`, and the running program.
pub mod Bundles
use Prim.Native.String.{◌++◌ as ◌<>◌}
use shared_concurrency_subst.Common.{
  String, Bool, true, false, not, ◌&&◌, List, [], ◌∷◌, Option, none, some, ◌=s◌, if◌then◌else◌,
}
use shared_concurrency_subst.Effects.{done, M, ◌>>=◌, ◌>>◌, pure}
use shared_concurrency_subst.Cli.Commands.{Texts, qemu_command}
use shared_concurrency_subst.Cli.Host.{
  Host, exists, unlink, query, effect, say, usage_error, run, require_cmd,
}
use shared_concurrency_subst.Cli.Templates.{user_data_template, meta_data_template}

pub record VmBuildArgs : Type 0 where
  pub base : String
  pub vm_dir : String
  pub vm_name : String
  pub repo_url : Option String
  pub repo_branch : String
  pub ssh_key : String
  pub disk_size : Option String
  pub no_clone : Bool
  pub redownload : Bool

pub record VmRunArgs : Type 0 where
  pub vm_dir : String
  pub vm_name : String
  pub ssh_port : String
  pub memory : String
  pub cpus : String

-- The running program: `sys.frozen`, `sys.executable` as it stands and resolved, and
-- `_find_repo_root()`.
pub record Program : Type 0 where
  pub frozen : Bool
  pub executable : String
  pub resolved : String
  pub repo_root : Option String

-- The URL and the file of a base image.
unfoldable pub base_image : String → String × String
base_image base =
    if base =s "ubuntu-22.04"
    then (
      "https://cloud-images.ubuntu.com/jammy/current/jammy-server-cloudimg-amd64.img",
      "ubuntu-22.04-base.qcow2",
    )
    else if base =s "ubuntu-24.04"
    then (
      "https://cloud-images.ubuntu.com/noble/current/noble-server-cloudimg-amd64.img",
      "ubuntu-24.04-base.qcow2",
    )
    else if base =s "debian-12"
    then (
      "https://cloud.debian.org/images/cloud/bookworm/latest/debian-12-genericcloud-amd64.qcow2",
      "debian-12-base.qcow2",
    )
    else ("", "")

-- `clone_block` and `enable_units`.
abbrev clone_from : String → Option String → (no_clone : Bool) → String × String
clone_from branch (some url) false = (
  "git clone --branch " <> (branch <> (" " <> (url <> " /opt/gate"))),
  "cp /opt/gate/systems/gate_vm/systemd/gate.env /etc/gate/gate.env\n"
      <> ("  - cp /opt/gate/systems/gate_vm/systemd/gate-broker.service /etc/systemd/system/gate-broker.service\n"
          <> ("  - cp /opt/gate/systems/gate_vm/systemd/gate-fuse.service /etc/systemd/system/gate-fuse.service\n"
              <> ("  - systemctl daemon-reload\n"
                  <> ("  - systemctl enable --now gate-broker.service\n"
                      <> "  - systemctl enable --now gate-fuse.service")))),
)
clone_from branch _ _ = ("# no clone", "# no gate units")

unfoldable pub clone_lines : VmBuildArgs → String × String
clone_lines a = clone_from a.repo_branch a.repo_url a.no_clone

module _ {H : Type 0} (os : Host H) (x : Texts) where
  -- The chunks up to the first empty one.
  unfoldable pub downloaded : List String → String
  downloaded [] = ""
  downloaded (chunk ∷ chunks) =
      let rest = downloaded chunks in if chunk =s "" then "" else chunk <> rest

  -- Its progress lines are left out.
  unfoldable pub download_with_progress : (url dest : String) → M H (Unit {0})
  unfolding downloaded
  download_with_progress url dest = do
    effect os (os.make_dirs (x.parent dest))
    chunks ← query os (os.urlopen url)
    effect os (os.write_text dest (downloaded chunks))

  abbrev file_or_usage : String → M H (Unit {0})
  file_or_usage path h = if os.is_file path h then (done tt, h) else usage_error os h

  abbrev when : Bool → M H (Unit {0}) → M H (Unit {0})
  when true m = m
  when false m = pure tt

  abbrev resize : String → Option String → M H (Unit {0})
  resize root_path none = pure tt
  resize root_path (some size) =
      if size =s "" then pure tt else run os ("qemu-img" ∷ "resize" ∷ root_path ∷ size ∷ [])

  -- The base image is there, and new if that was asked for.
  unfoldable pub fetch_base : VmBuildArgs → (base_path : String) → M H (Unit {0})
  unfolding base_image download_with_progress
  fetch_base a base_path = do
    old ← (if a.redownload then exists os base_path else pure false)
    when old (unlink os base_path)
    there ← exists os base_path
    when (not there) (download_with_progress (base_image a.base).0 base_path)

  -- The two files that cloud-init reads.
  unfoldable pub write_seed : VmBuildArgs → (user_data meta_data ssh_key : String) → M H (Unit {0})
  unfolding clone_lines
  write_seed a user_data meta_data ssh_key = do
    effect os (
        os.write_text user_data (
          x.replace "__ENABLE_GATE_UNITS__" (clone_lines a).1 (
            x.replace "__CLONE_BLOCK__" (clone_lines a).0
              (x.replace "__SSH_KEY__" ssh_key user_data_template))))
    effect os (os.write_text meta_data (x.replace "__VM_NAME__" a.vm_name meta_data_template))

  unfoldable pub vm_build : VmBuildArgs → M H (Unit {0})
  unfolding fetch_base write_seed base_image
  vm_build a = do
    let vm_dir = x.expanduser a.vm_dir
    let base_path = x.join vm_dir (base_image a.base).1
    let root_path = x.join vm_dir (a.vm_name <> ".qcow2")
    let seed_path = x.join vm_dir (a.vm_name <> "-seed.img")
    require_cmd os "cloud-localds"
    require_cmd os "qemu-img"
    effect os (os.make_dirs vm_dir)
    file_or_usage (x.expanduser a.ssh_key)
    fetch_base a base_path
    effect os (os.copy base_path root_path)
    resize root_path a.disk_size
    key ← query os (os.read_text (x.expanduser a.ssh_key))
    write_seed a (x.join vm_dir "user-data") (x.join vm_dir "meta-data") (x.strip key)
    run os
        ("cloud-localds" ∷ seed_path ∷ x.join vm_dir "user-data" ∷ x.join vm_dir "meta-data" ∷ [])
    say os ("VM image ready: " <> root_path)
    say os ("Seed image ready: " <> seed_path)

  unfoldable pub vm_run : VmRunArgs → M H (Unit {0})
  unfolding qemu_command
  vm_run a = do
    let vm_dir = x.expanduser a.vm_dir
    require_cmd os "qemu-system-x86_64"
    disk ← exists os (x.join vm_dir (a.vm_name <> ".qcow2"))
    seed ← (if disk then exists os (x.join vm_dir (a.vm_name <> "-seed.img")) else pure false)
    if disk && seed
        then run os (qemu_command x vm_dir a.vm_name a.ssh_port a.memory a.cpus)
        else usage_error os
