-- ===== src/Cli/Main/Scripts.antt =====
-- scripts/gate_broker.py and scripts/gate_mount.py, against the commands `broker` and `mount`.
use shared_concurrency_subst.Common.{◌≡◌, refl, sym, ap, ◌⊎◌, inl, inr, String, String_discrete}
use shared_concurrency_subst.Effects.{
  eio, ebadf, eacces, enotconn, enoent, other, Outcome, done, raises, Raised, os_error,
  fuse_os_error, runtime_error, called_process_error, value_error, file_not_found_error,
  system_exit, unanswered, M, bind_result, ◌>>◌, pure, raise,
}
use shared_concurrency_subst.Cli.Host.{say}
use shared_concurrency_subst.Cli.Parser.{
  Given, broker, mount, BrokerConfig, MountArgs, broker_args, mount_args, parse_broker, parse_mount,
}
use shared_concurrency_subst.Cli.Main.{
  Runtime, broker_command, mount_command, mount_fuse, owner_or, build_parser, run_command,
  run_parsed, main,
}
use Prim.Native.String.{◌++◌ as ◌<>◌}

-- `str` is that of an exception.
module _ {H Server : Type 0} (r : Runtime H Server) (str : Raised → String) where
  -- `except PermissionError`: of the error numbers, EACCES.
  abbrev refused : Outcome Server × H → Outcome Server × H
  refused (done s, h) = (done s, h)
  refused (raises (os_error eacces), h) =
      (do
        say r.os ("Permission error creating state dir or DB: " <> str (os_error eacces))
        say r.os "Ensure the state directory exists and is writable (e.g., /var/lib/gate)."
        raise system_exit)
        h
  refused (raises e, h) = (raises e, h)

  abbrev serve : Outcome BrokerConfig → M H (Unit {0})
  serve (raises e) h = (raises e, h)
  serve (done config) h = bind_result (refused (r.make_server config h)) r.serve_forever

  unfoldable pub gate_broker : Given → M H (Unit {0})
  unfolding broker_args
  gate_broker g = serve (broker_args r.int r.defaults g).0

  abbrev mounts : Outcome MountArgs → M H (Unit {0})
  mounts (raises e) h = (raises e, h)
  mounts (done a) h =
      mount_fuse r a.root a.mount a.broker_host a.broker_port (owner_or r a.owner) a.lease_ms
        a.acquire_timeout_ms a.max_hold_ms
        (record {
          foreground = a.foreground;
          allow_other = a.allow_other;
          default_permissions = a.allow_other;
          use_ino = a.allow_other;
        })
        h

  unfoldable pub gate_mount : Given → M H (Unit {0})
  unfolding mount_args mount_fuse
  gate_mount g = mounts (mount_args r.int r.defaults g).0

  refused-cases :
      (p : Outcome Server × H)
      → (refused p ≡ p) ⊎ ((p.0 ≡ raises (os_error eacces)) × ((refused p).0 ≡ raises system_exit))
  refused-cases (done s, h) = inl refl
  refused-cases (raises (os_error eacces), h) = inr (refl, refl)
  refused-cases (raises (os_error eio), h) = inl refl
  refused-cases (raises (os_error ebadf), h) = inl refl
  refused-cases (raises (os_error enotconn), h) = inl refl
  refused-cases (raises (os_error enoent), h) = inl refl
  refused-cases (raises (os_error (other n)), h) = inl refl
  refused-cases (raises (fuse_os_error n), h) = inl refl
  refused-cases (raises runtime_error, h) = inl refl
  refused-cases (raises unanswered, h) = inl refl
  refused-cases (raises called_process_error, h) = inl refl
  refused-cases (raises value_error, h) = inl refl
  refused-cases (raises file_not_found_error, h) = inl refl
  refused-cases (raises system_exit, h) = inl refl

  raised_on :
      {A B : Type 0} (p : Outcome A × H) (f : A → M H B) (e : Raised)
      → p.0 ≡ raises e
      → (bind_result p f).0 ≡ raises e
  raised_on (done a, h) f e q = cc
  raised_on (raises x, h) f e q = cc

  broker_from :
      (p : Outcome BrokerConfig × Given) (h : H)
      → (run_parsed r (bind_result p (λ a. pure (broker a))).0 h ≡ serve p.0 h)
        ⊎ (((run_parsed r (bind_result p (λ a. pure (broker a))).0 h).0 ≡ raises (os_error eacces))
            × ((serve p.0 h).0 ≡ raises system_exit))
  unfolding run_command broker_command
  broker_from (raises e, g) h = inl refl
  broker_from (done config, g) h = elim (refused-cases (r.make_server config h)) [
    | inl same ↦ inl (ap (λ p. bind_result p r.serve_forever) (sym same))
    | inr (denied, ended) ↦ inr (
      raised_on (r.make_server config h) r.serve_forever (os_error eacces) denied,
      raised_on (refused (r.make_server config h)) r.serve_forever system_exit ended,
    )
  ]

  mount_from :
      (p : Outcome MountArgs × Given) (h : H)
      → run_parsed r (bind_result p (λ a. pure (mount a))).0 h ≡ mounts p.0 h
  unfolding run_command mount_command
  mount_from (raises e, g) h = refl
  mount_from (done a, g) h = refl

  named_broker : (g : Given) → build_parser r "broker" g ≡ parse_broker r.int r.defaults g
  unfolding build_parser String_discrete
  named_broker g = refl

  named_mount : (g : Given) → build_parser r "mount" g ≡ parse_mount r.int r.defaults g
  unfolding build_parser String_discrete
  named_mount g = refl

  -- The script gate_broker.py does what the command `broker` does, except that where the command passes
  -- on a PermissionError of the new server, the script ends the program itself.
  pub gate_broker-main :
      (g : Given) (h : H)
      → g.command ≡ "broker"
      → (main r g h ≡ gate_broker g h)
        ⊎ (((main r g h).0 ≡ raises (os_error eacces)) × ((gate_broker g h).0 ≡ raises system_exit))
  unfolding main gate_broker parse_broker
  gate_broker-main g h named =
      rw (ap (λ n. build_parser r n g) named, named_broker g)
        (broker_from (broker_args r.int r.defaults g) h)

  -- The script gate_mount.py does what the command `mount` does.
  pub gate_mount-main : (g : Given) (h : H) → g.command ≡ "mount" → main r g h ≡ gate_mount g h
  unfolding main gate_mount parse_mount
  gate_mount-main g h named =
      rw (ap (λ n. build_parser r n g) named, named_mount g)
        (mount_from (mount_args r.int r.defaults g) h)
