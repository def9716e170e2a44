-- ===== src/Cli/Commands.antt =====
-- cli.py: the command lines and texts that are made of the arguments.
use Prim.Native.String.{◌++◌ as ◌<>◌}
use shared_concurrency_subst.Common.{
  ℕ, ◌/◌, ◌%◌, String, Bool, true, false, List, [], ◌∷◌, ◌++◌, Option, none, some, ltb, ◌==◌, ◌=s◌,
  if◌then◌else◌,
}
use shared_concurrency_subst.Fuse.Locks.{sorted}

-- What the helpers use of Python: numbers as decimals, and of `pathlib` the operator `/`, `suffix`,
-- `with_suffix("")`, `parent` and `expanduser`.
pub record Texts : Type 0 where
  pub str : ℕ → String
  pub join : String → String → String
  pub suffix : String → String
  pub without_suffix : String → String
  pub expanduser : String → String
  pub quote : String → String  -- `shlex.quote`
  pub strip : String → String
  pub parent : String → String
  pub replace : (old new text : String) → String

-- `_maybe_sudo`: none is a RuntimeError.
unfoldable pub maybe_sudo : (is_root has_sudo : Bool) → List String → Option (List String)
maybe_sudo true has_sudo cmd = some cmd
maybe_sudo false false cmd = none
maybe_sudo false true cmd = some ("sudo" ∷ cmd)

module _ (x : Texts) where
  -- `_state_home`: the value is that of XDG_STATE_HOME.
  unfoldable pub state_home : Option String → String
  state_home none = x.expanduser "~/.local/state"
  state_home (some base) = x.expanduser base

  -- The directories under `_state_home()`, and the files in a state directory.
  unfoldable pub gate_dir : String → String → String → String
  gate_dir home kind vm_name = x.join (x.join (x.join home "gate") kind) vm_name

  unfoldable pub gate_state_dir : String → String → String
  unfolding gate_dir
  gate_state_dir home vm_name = gate_dir home "state" vm_name

  unfoldable pub gate_log_dir : String → String → String
  unfolding gate_dir
  gate_log_dir home vm_name = gate_dir home "logs" vm_name

  unfoldable pub gate_mount_dir : String → String → String
  unfolding gate_dir
  gate_mount_dir home vm_name = gate_dir home "mounts" vm_name

  unfoldable pub gate_host_direct_mount_dir : String → String
  unfolding gate_dir
  gate_host_direct_mount_dir home = gate_dir home "mounts" "gate-host-direct"

  unfoldable pub gate_tunnel_pid_path : String → String
  gate_tunnel_pid_path state_dir = x.join state_dir "tunnel.pid"

  unfoldable pub gate_host_direct_pid_path : String → String
  gate_host_direct_pid_path state_dir = x.join state_dir "host-direct.pid"

  unfoldable pub gate_host_direct_mount_path : String → String
  gate_host_direct_mount_path state_dir = x.join state_dir "host-direct.mount"

  unfoldable pub gate_host_direct_port_path : String → String
  gate_host_direct_port_path state_dir = x.join state_dir "host-direct.port"

  unfoldable pub qemu_command : (vm_dir vm_name ssh_port memory cpus : String) → List String
  qemu_command vm_dir vm_name ssh_port memory cpus =
      "qemu-system-x86_64"
      ∷ "-enable-kvm"
      ∷ "-m"
      ∷ memory
      ∷ "-smp"
      ∷ cpus
      ∷ "-drive"
      ∷ ("file=" <> (x.join vm_dir (vm_name <> ".qcow2") <> ",if=virtio,format=qcow2"))
      ∷ "-drive"
      ∷ ("file=" <> (x.join vm_dir (vm_name <> "-seed.img") <> ",if=virtio,format=raw"))
      ∷ "-netdev"
      ∷ ("user,id=net0,hostfwd=tcp::" <> (ssh_port <> "-:22"))
      ∷ "-device"
      ∷ "virtio-net-pci,netdev=net0"
      ∷ "-nographic"
      ∷ []

  abbrev key_args : Option String → List String
  key_args none = []
  key_args (some key) = "-i" ∷ key ∷ "-o" ∷ "IdentitiesOnly=yes" ∷ []

  abbrev hosts_args : Option String → List String
  hosts_args none = []
  hosts_args (some known) = "-o" ∷ ("UserKnownHostsFile=" <> known) ∷ []

  unfoldable pub ssh_base_args :
      ℕ → (known_hosts : Option String) → Bool → (ssh_key : Option String) → List String
  ssh_base_args ssh_port known_hosts accept_host_key ssh_key =
      ("-p" ∷ x.str ssh_port ∷ [])
      ++ (key_args ssh_key
          ++ (hosts_args known_hosts
              ++ (if accept_host_key then "-o" ∷ "StrictHostKeyChecking=accept-new" ∷ [] else [])))

  unfoldable pub ssh_command :
      ℕ
      → (known_hosts : Option String) → Bool
      → (ssh_key : Option String) → (user_host remote_cmd : String) → List String
  unfolding ssh_base_args
  ssh_command ssh_port known_hosts accept_host_key ssh_key user_host remote_cmd =
      "ssh"
      ∷ (ssh_base_args ssh_port known_hosts accept_host_key ssh_key
          ++ (user_host ∷ remote_cmd ∷ []))

  unfoldable pub ssh_shell_command : String → String
  ssh_shell_command command = "sh -lc " <> x.quote command

  -- `_resolve_ssh_identity`: none is a FileNotFoundError.
  unfoldable pub resolve_ssh_identity : (String → Bool) → String → Option String
  resolve_ssh_identity is_file path =
      let given : Option String = if is_file path then some path else none in
      if x.suffix path =s ".pub"
      then (if is_file (x.without_suffix path) then some (x.without_suffix path) else given)
      else given

  -- Two digits at least.
  abbrev pad : ℕ → String
  pad n = if ltb n 10 then "0" <> x.str n else x.str n

  -- `_format_eta`, on microseconds.
  unfoldable pub format_eta : ℕ → String
  format_eta us =
      let seconds = us / 1000000 in
      let mins = seconds / 60 in
      if us == 0
      then "0s"
      else if ltb mins 60
      then x.str mins <> ("m" <> (pad (seconds % 60) <> "s"))
      else x.str (mins / 60) <> ("h" <> (pad (mins % 60) <> "m"))

-- `_list_vm_names`: the entries of the state directory and whether they are directories; none if there
-- is no such directory.
abbrev directories : List (String × Bool) → List String
directories [] = []
directories ((name, is_dir) ∷ l) = if is_dir then name ∷ directories l else directories l

unfoldable pub list_vm_names : Option (List (String × Bool)) → List String
unfolding sorted
list_vm_names none = []
list_vm_names (some l) = sorted (directories l)
