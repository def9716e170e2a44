-- ===== src/Cli/Up/Failure.antt =====
-- What `up` leaves behind when a step fails.
use shared_concurrency_subst.Common.{
  ℕ, ◌≡◌, refl, ◌∙◌, String, Bool, true, false, not, ◌&&◌, List, Option, none, some,
}
use shared_concurrency_subst.Effects.{done, raises, Raised, system_exit, gives, ◌>>◌}
use shared_concurrency_subst.Cli.Commands.{Texts}
use shared_concurrency_subst.Cli.Host.{Host}
use shared_concurrency_subst.Cli.Build.{Program}
use shared_concurrency_subst.Cli.Guards.{IsTidy, then-done}
use shared_concurrency_subst.Cli.Calm.{caught-raised}
use shared_concurrency_subst.Cli.Up.{UpArgs, Up, pid_file}
use shared_concurrency_subst.Cli.Up.InGuest.{binary_path, install_binary}
use shared_concurrency_subst.Cli.Up.Run.{
  boot, fill_guest, bring_up, stop_direct, stop_tunnel, forget_port, stop_vm, clean_up,
  clean_up_after, try_up,
}
use shared_concurrency_subst.Cli.Up.Stopping.{
  stop_direct-done, stop_tunnel-done, forget_port-done, stop_vm-done, stop_vm-host,
  ended_by_signals,
}

module _ {H : Type 0} (os : Host H) (x : Texts) (home : String) (p : Program) (a : UpArgs)
    (port_free : H → ℕ → Bool) (split : String → List String) (which_gate : H → Option String) where
  -- The cleanup ends well, and where the VM is to be stopped, its pid file is gone.
  clean_up-done :
      IsTidy os
      → (started_tunnel started_host_direct : Bool) (h : H) → a.keep_vm_on_error ≡ false
      → ((clean_up os x home p a port_free split which_gate true started_tunnel started_host_direct
            h).0
          ≡ done tt)
        × (os.path_exists
              (pid_file os x home p a)
              (clean_up os x home p a port_free split which_gate true started_tunnel
                started_host_direct h).1
            ≡ gives false)
  unfolding clean_up
  clean_up-done t tunnel direct h drop =
      let stop =
        stop_vm os x home p a port_free split which_gate (not a.keep_vm_on_error && true) in
      let forget = forget_port os x home p a port_free split which_gate in
      let one = stop_direct os x home p a port_free split which_gate direct h in
      let two = stop_tunnel os x home p a port_free split which_gate tunnel one.1 in
      rw
        (
          then-done one
              (stop_tunnel os x home p a port_free split which_gate tunnel >> (forget >> stop))
              (stop_direct-done os x home p a port_free split which_gate t direct h),
          then-done two (forget >> stop)
              (stop_tunnel-done os x home p a port_free split which_gate t tunnel one.1),
          then-done (forget two.1) stop
              (forget_port-done os x home p a port_free split which_gate t two.1),
          drop,
        )
        (stop_vm-done os x home p a port_free split which_gate t (forget two.1).1)

  -- The host when the cleanup comes to the VM.
  abbrev pub before_vm : (started_tunnel started_host_direct : Bool) → H → H
  before_vm tunnel direct h =
      let one = stop_direct os x home p a port_free split which_gate direct h in
      let two = stop_tunnel os x home p a port_free split which_gate tunnel one.1 in
      (forget_port os x home p a port_free split which_gate two.1).1

  clean_up-host :
      IsTidy os
      → (tunnel direct : Bool) (h : H) → a.keep_vm_on_error ≡ false
      → (clean_up os x home p a port_free split which_gate true tunnel direct h).1
        ≡ (stop_vm os x home p a port_free split which_gate true (before_vm tunnel direct h)).1
  unfolding clean_up
  clean_up-host t tunnel direct h drop =
      let stop =
        stop_vm os x home p a port_free split which_gate (not a.keep_vm_on_error && true) in
      let forget = forget_port os x home p a port_free split which_gate in
      let one = stop_direct os x home p a port_free split which_gate direct h in
      let two = stop_tunnel os x home p a port_free split which_gate tunnel one.1 in
      rw
        (
          then-done one
              (stop_tunnel os x home p a port_free split which_gate tunnel >> (forget >> stop))
              (stop_direct-done os x home p a port_free split which_gate t direct h),
          then-done two (forget >> stop)
              (stop_tunnel-done os x home p a port_free split which_gate t tunnel one.1),
          then-done (forget two.1) stop
              (forget_port-done os x home p a port_free split which_gate t two.1),
          drop,
        )
        refl

  -- Where files can be looked for and deleted: when a step of `up` fails with an exception (not the
  -- exit of the argument parser) after this run has started the VM, and --keep-vm-on-error is not
  -- given, then the same exception leaves the command, and the pid file of the VM is gone. If the file
  -- held a pid when the cleanup came to it, the last thing that was done is to send that process
  -- SIGTERM, then SIGKILL if that signal went out and it ran two seconds later, and to delete the file.
  pub try_up-failed :
      (identity : String) (u w : Up H) (e : Raised)
      → IsTidy os
      → bring_up os x home p a port_free split which_gate identity u ≡ (raises e, w)
      → ¬ (e ≡ system_exit)
      → w.started_vm ≡ true
      → a.keep_vm_on_error ≡ false
      → let y = try_up os x home p a port_free split which_gate identity u in
        let k = before_vm w.started_tunnel w.started_host_direct w.host in
        (y.0 ≡ raises e)
        × (os.path_exists (pid_file os x home p a) y.1.host ≡ gives false)
        × ((pid : ℕ)
            → os.path_exists (pid_file os x home p a) k ≡ gives true
            → os.read_pid (pid_file os x home p a) k ≡ some pid
            → y.1.host
              ≡ os.unlink
                  (pid_file os x home p a)
                  (ended_by_signals os x home p a port_free split which_gate pid k))
  unfolding try_up
  try_up-failed identity u w e t failed stays started drop =
      let (ended, gone) = clean_up-done t w.started_tunnel w.started_host_direct w.host drop in
      let same = clean_up-host t w.started_tunnel w.started_host_direct w.host drop in
      rw
        (
          failed,
          caught-raised e w (clean_up_after os x home p a port_free split which_gate) stays,
          started,
          ended,
        )
        (
          refl,
          gone,
          λ pid there found.
              same ∙ stop_vm-host os x home p a port_free split which_gate t pid _ there found,
        )

  -- When the first four steps of `up` succeed and then no binary for the VM is found, `up` ends with the
  -- exit of the argument parser, and everything is as those steps left it: nothing is cleaned up.
  pub try_up-no_binary :
      (identity : String) (u w : Up H)
      → boot os x home p a port_free split which_gate identity u ≡ (done tt, w)
      → binary_path os x home p a which_gate w.host ≡ none
      → try_up os x home p a port_free split which_gate identity u ≡ (raises system_exit, w)
  unfolding try_up bring_up fill_guest install_binary
  try_up-no_binary identity u w booted missing = rw (booted, missing) refl
