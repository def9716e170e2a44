-- ===== src/Cli/Main.antt =====
-- cli.py: `main`, the choice of the command; and the scripts gate_broker.py and gate_mount.py, which do
-- what two of the commands do.
pub mod Scripts
use shared_concurrency_subst.Common.{ℕ, String, Bool, List, Option, none, some, ◌=s◌, if◌then◌else◌}
use shared_concurrency_subst.Effects.{
  Outcome, done, raises, system_exit, Reply, M, ◌>>=◌, ◌>>◌, pure, raise,
}
use shared_concurrency_subst.Fuse.World.{Mount}
use shared_concurrency_subst.Cli.Commands.{Texts, state_home}
use shared_concurrency_subst.Cli.Host.{Host}
use shared_concurrency_subst.Cli.Build.{Program, vm_build, vm_run}
use shared_concurrency_subst.Cli.Build.Bundles.{bundle_build, build_binary}
use shared_concurrency_subst.Cli.Provision.{host_provision, host_mount}
use shared_concurrency_subst.Cli.Up.Run.{up}
use shared_concurrency_subst.Cli.Down.{down, clean}
use shared_concurrency_subst.Cli.Status.{status, logs, vm_list}
use shared_concurrency_subst.Cli.Install.{bundle_install}
use shared_concurrency_subst.Cli.Parser.{
  Given, BrokerConfig, MountArgs, Command, broker, mount, parse_broker, parse_mount, parse_bundle,
  parse_binary, parse_install,
}
use shared_concurrency_subst.Cli.Parser
use shared_concurrency_subst.Cli.Parser.Vms.{
  parse_vm_build, parse_vm_run, parse_up, parse_status, parse_logs, parse_down, parse_clean,
  parse_host_provision, parse_host_mount,
}

-- The options that `FUSE` is called with.
pub record FuseOptions : Type 0 where
  pub foreground : Bool
  pub allow_other : Bool
  pub default_permissions : Bool
  pub use_ino : Bool

-- What a run of `gate` finds: the machine, the program itself, and the libraries that it calls.
-- `hostname_pid` is the text of both with a colon; `Server` is a `LockBrokerServer`.
pub record Runtime (H Server : Type 0) : Type 0 where
  pub os : Host H
  pub texts : Texts
  pub xdg_state_home : Option String
  pub program : Program
  pub hostname_pid : String
  pub int : String → Option ℕ
  pub defaults : BrokerConfig
  pub port_free : H → ℕ → Bool
  pub which_gate : H → Option String
  pub split : String → List String
  pub splitlines : String → List String
  pub glob : String → H → List String
  pub make_tmp : H → Reply String × H
  pub tar : (out dir : String) → H → Reply (Unit {0}) × H
  pub realpath : String → String
  pub release_on_flush : Bool
  pub make_server : BrokerConfig → H → Outcome Server × H
  pub serve_forever : Server → H → Outcome (Unit {0}) × H
  pub fuse :
      Mount
      → (mountpoint broker_host : String) (broker_port : ℕ) → FuseOptions
      → H
      → Outcome (Unit {0}) × H

module _ {H Server : Type 0} (r : Runtime H Server) where
  -- The client waits for a reply without a limit.
  unfoldable pub mount_fuse :
      (root mountpoint broker_host : String) (broker_port : ℕ) (owner : String) (lease_ms : ℕ)
      → (acquire_timeout_ms max_hold_ms : Option ℕ) → FuseOptions
      → M H (Unit {0})
  mount_fuse root mountpoint broker_host broker_port owner lease_ms acquire_timeout_ms max_hold_ms
        options =
      r.fuse
        (record {
          root = r.realpath root;
          owner = owner;
          lease_ms = lease_ms;
          acquire_timeout_ms = acquire_timeout_ms;
          max_hold_ms = max_hold_ms;
          release_on_flush = r.release_on_flush;
        })
        mountpoint broker_host broker_port options

  abbrev pub owner_or : Option String → String
  owner_or none = r.hostname_pid
  owner_or (some owner) = owner

  unfoldable pub mount_command : MountArgs → M H (Unit {0})
  unfolding mount_fuse
  mount_command a =
      mount_fuse a.root a.mount a.broker_host a.broker_port (owner_or a.owner) a.lease_ms
        a.acquire_timeout_ms a.max_hold_ms
        (record {
          foreground = a.foreground;
          allow_other = a.allow_other;
          default_permissions = a.allow_other;
          use_ino = a.allow_other;
        })

  unfoldable pub broker_command : BrokerConfig → M H (Unit {0})
  broker_command config = do server ← r.make_server config; r.serve_forever server

  -- The subparser of the command; `required=True` and an unknown command are usage errors.
  unfoldable pub build_parser : String → M Given Command
  unfolding parse_broker parse_mount parse_bundle parse_binary parse_install parse_vm_build
      parse_vm_run parse_up parse_status parse_logs parse_down parse_clean parse_host_provision
      parse_host_mount
  build_parser name =
      if name =s "broker"
      then parse_broker r.int r.defaults
      else if name =s "mount"
      then parse_mount r.int r.defaults
      else if name =s "bundle-build"
      then parse_bundle r.int r.defaults
      else if name =s "build-binary"
      then parse_binary r.int r.defaults
      else if name =s "bundle-install"
      then parse_install r.int r.defaults
      else if name =s "vm-build"
      then parse_vm_build r.int r.defaults
      else if name =s "vm-run"
      then parse_vm_run r.int r.defaults
      else if name =s "up"
      then parse_up r.int r.defaults
      else if name =s "status"
      then parse_status r.int r.defaults
      else if name =s "logs"
      then parse_logs r.int r.defaults
      else if name =s "vm-list"
      then pure Parser.vm_list
      else if name =s "down"
      then parse_down r.int r.defaults
      else if name =s "clean"
      then parse_clean r.int r.defaults
      else if name =s "host-provision"
      then parse_host_provision r.int r.defaults
      else if name =s "host-mount"
      then parse_host_mount r.int r.defaults
      else raise system_exit

  abbrev home : String
  home = state_home r.texts r.xdg_state_home

  unfoldable pub run_command : Command → M H (Unit {0})
  unfolding broker_command mount_command bundle_build build_binary bundle_install vm_build vm_run up
      status logs vm_list down clean host_provision host_mount
  run_command (broker a) = broker_command a
  run_command (mount a) = mount_command a
  run_command (Parser.bundle_build a) =
      bundle_build r.os r.texts r.make_tmp r.tar r.program a.binary a.out
  run_command (Parser.build_binary a) =
      build_binary r.os r.texts r.program a.python a.build_dir a.out_dir a.name
  run_command (Parser.bundle_install a) = bundle_install r.os r.texts r.splitlines r.program a
  run_command (Parser.vm_build a) = vm_build r.os r.texts a
  run_command (Parser.vm_run a) = vm_run r.os r.texts a
  run_command (Parser.up a) = up r.os r.texts home r.program a r.port_free r.split r.which_gate
  run_command (Parser.status a) = status r.os r.texts home a
  run_command (Parser.logs a) =
      logs r.os r.texts home r.splitlines r.glob a.vm_name a.component a.tail
  run_command Parser.vm_list = vm_list r.os r.texts home
  run_command (Parser.down a) = down r.os r.texts home a
  run_command (Parser.clean a) = clean r.os r.texts home a
  run_command (Parser.host_provision a) = host_provision r.os r.texts r.which_gate a
  run_command (Parser.host_mount a) = host_mount r.os r.texts r.which_gate a home

  abbrev pub run_parsed : Outcome Command → M H (Unit {0})
  run_parsed (done c) = run_command c
  run_parsed (raises e) = raise e

  unfoldable pub main : Given → M H (Unit {0})
  unfolding build_parser run_command
  main g = run_parsed (build_parser g.command g).0
