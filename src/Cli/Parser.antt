-- ===== src/Cli/Parser.antt =====
-- cli.py: the options of the commands, their defaults and which of them must be given. `argparse` is
-- taken to give the text of each option.
pub mod Vms
use shared_concurrency_subst.Common.{ℕ, String, Bool, true, false, Option, none, some}
use shared_concurrency_subst.Effects.{system_exit, M, ◌>>=◌, ◌>>◌, pure, raise, gets}
use shared_concurrency_subst.Cli.Build.{VmBuildArgs, VmRunArgs}
use shared_concurrency_subst.Cli.Provision.{ProvisionArgs, HostMountArgs}
use shared_concurrency_subst.Cli.Up.{UpArgs}
use shared_concurrency_subst.Cli.Down.{DownArgs, CleanArgs}
use shared_concurrency_subst.Cli.Status.{StatusArgs}
use shared_concurrency_subst.Cli.Install.{InstallArgs}

-- What stands on the command line: the command, the options with a text, and the switches.
pub record Given : Type 0 where
  pub command : String
  pub option : String → Option String
  pub switch : String → Bool

-- `BrokerConfig`
pub record BrokerConfig : Type 0 where
  pub state_dir : String
  pub host : String
  pub port : ℕ
  pub lease_ms : ℕ
  pub max_hold_ms : Option ℕ
  pub acquire_timeout_ms : Option ℕ

pub record MountArgs : Type 0 where
  pub root : String
  pub mount : String
  pub broker_host : String
  pub broker_port : ℕ
  pub lease_ms : ℕ
  pub max_hold_ms : Option ℕ
  pub acquire_timeout_ms : Option ℕ
  pub foreground : Bool
  pub owner : Option String
  pub allow_other : Bool

pub record BundleArgs : Type 0 where
  pub binary : Option String
  pub out : String

pub record BinaryArgs : Type 0 where
  pub name : String
  pub out_dir : String
  pub build_dir : String
  pub python : Option String

pub record LogsArgs : Type 0 where
  pub vm_name : String
  pub component : String
  pub tail : ℕ

pub data Command : Type 0 where
  broker : BrokerConfig → Command
  mount : MountArgs → Command
  bundle_build : BundleArgs → Command
  build_binary : BinaryArgs → Command
  bundle_install : InstallArgs → Command
  vm_build : VmBuildArgs → Command
  vm_run : VmRunArgs → Command
  up : UpArgs → Command
  status : StatusArgs → Command
  logs : LogsArgs → Command
  vm_list : Command
  down : DownArgs → Command
  clean : CleanArgs → Command
  host_provision : ProvisionArgs → Command
  host_mount : HostMountArgs → Command

-- `int` is Python's, none on a ValueError; `defaults` is `BrokerConfig()`.
module _ (int : String → Option ℕ) (defaults : BrokerConfig) where
  abbrev pub or_else : {A : Type 0} → A → Option A → A
  or_else d none = d
  or_else d (some a) = a

  abbrev pub given : Option String → M Given String
  given none = raise system_exit
  given (some s) = pure s

  abbrev pub as_number : Option ℕ → M Given ℕ
  as_number none = raise system_exit
  as_number (some n) = pure n

  abbrev pub number_of : ℕ → Option String → M Given ℕ
  number_of d none = pure d
  number_of d (some s) = as_number (int s)

  abbrev pub limit_of : Option ℕ → Option String → M Given (Option ℕ)
  limit_of d none = pure d
  limit_of d (some s) = do n ← as_number (int s); pure (some n)

  abbrev pub option : String → M Given (Option String)
  option name = gets (λ g. g.option name)

  -- `default=d`, `required=True`, `action="store_true"` and `type=int`.
  abbrev pub text : String → String → M Given String
  text name d = gets (λ g. or_else d (g.option name))

  abbrev pub required : String → M Given String
  required name = do s ← option name; given s

  abbrev pub switch : String → M Given Bool
  switch name = gets (λ g. g.switch name)

  abbrev pub number : String → ℕ → M Given ℕ
  number name d = do s ← option name; number_of d s

  abbrev pub limit : String → Option ℕ → M Given (Option ℕ)
  limit name d = do s ← option name; limit_of d s

  abbrev pub chosen : Bool → M Given (Unit {0})
  chosen true = pure tt
  chosen false = raise system_exit

  unfoldable pub broker_args : M Given BrokerConfig
  broker_args = do
    state_dir ← text "--state-dir" defaults.state_dir
    host ← text "--host" defaults.host
    port ← number "--port" defaults.port
    lease_ms ← number "--lease-ms" defaults.lease_ms
    max_hold_ms ← limit "--max-hold-ms" defaults.max_hold_ms
    acquire_timeout_ms ← limit "--acquire-timeout-ms" defaults.acquire_timeout_ms
    pure (record {
      state_dir = state_dir;
      host = host;
      port = port;
      lease_ms = lease_ms;
      max_hold_ms = max_hold_ms;
      acquire_timeout_ms = acquire_timeout_ms;
    })

  unfoldable pub parse_broker : M Given Command
  unfolding broker_args
  parse_broker = do a ← broker_args; pure (broker a)

  unfoldable pub mount_args : M Given MountArgs
  mount_args = do
    root ← required "--root"
    dir ← required "--mount"
    broker_host ← text "--broker-host" defaults.host
    broker_port ← number "--broker-port" defaults.port
    lease_ms ← number "--lease-ms" defaults.lease_ms
    max_hold_ms ← limit "--max-hold-ms" defaults.max_hold_ms
    acquire_timeout_ms ← limit "--acquire-timeout-ms" defaults.acquire_timeout_ms
    foreground ← switch "--foreground"
    owner ← option "--owner"
    allow_other ← switch "--allow-other"
    pure (record {
      root = root;
      mount = dir;
      broker_host = broker_host;
      broker_port = broker_port;
      lease_ms = lease_ms;
      max_hold_ms = max_hold_ms;
      acquire_timeout_ms = acquire_timeout_ms;
      foreground = foreground;
      owner = owner;
      allow_other = allow_other;
    })

  unfoldable pub parse_mount : M Given Command
  unfolding mount_args
  parse_mount = do a ← mount_args; pure (mount a)

  unfoldable pub parse_bundle : M Given Command
  parse_bundle = do
    binary ← option "--binary"
    out ← text "--out" "./dist/gate_bundle.tar.gz"
    pure (bundle_build (record { binary = binary; out = out }))

  unfoldable pub parse_binary : M Given Command
  parse_binary = do
    name ← text "--name" "gate"
    out_dir ← text "--out-dir" "./dist"
    build_dir ← text "--build-dir" "./.build_gate"
    python ← option "--python"
    pure (
        build_binary
          (record { name = name; out_dir = out_dir; build_dir = build_dir; python = python }))

  unfoldable pub parse_install : M Given Command
  parse_install = do
    prefix ← text "--prefix" "/opt/gate"
    target_dir ← text "--target-dir" "/opt/target"
    state_dir ← text "--state-dir" "/var/lib/gate"
    mount_dir ← text "--mount-dir" "/mnt/gate"
    start_gate ← switch "--start-gate"
    pure (
        bundle_install (record {
          prefix = prefix;
          target_dir = target_dir;
          state_dir = state_dir;
          mount_dir = mount_dir;
          start_gate = start_gate;
        }))
