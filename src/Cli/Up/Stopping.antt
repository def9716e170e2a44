-- ===== src/Cli/Up/Stopping.antt =====
-- What stops the processes of `up` when a step fails: each ends well, and what it does to the VM.
use shared_concurrency_subst.Common.{
  ℕ, ◌≡◌, refl, ap, inl, inr, String, Bool, true, false, List, Option, none, some, Bool-cases,
}
use shared_concurrency_subst.Effects.{
  Reply, fails, bind_result, Outcome, done, gives, M, caught, pure,
}
use shared_concurrency_subst.Cli.Commands.{Texts}
use shared_concurrency_subst.Cli.Host.{
  is_pid_running, Host, pid_in, sigterm, sigkill, reply_outcome, unlink, exists, signal,
}
use shared_concurrency_subst.Cli.Build.{Program}
use shared_concurrency_subst.Cli.Mounts.{unmount_path, stop_pid_file}
use shared_concurrency_subst.Cli.Guards.{IsTidy, then-done, forced-done}
use shared_concurrency_subst.Cli.Calm.{
  IsCalm, bind_result-IsCalm, caught-ignored, reply_outcome-IsCalm, unmount_path-IsCalm,
}
use shared_concurrency_subst.Cli.Up.{UpArgs, pid_file, when}
use shared_concurrency_subst.Cli.Up.OnHost.{
  direct_pid_path, tunnel_pid_path, direct_mount_record, direct_port_path,
}
use shared_concurrency_subst.Cli.Up.Run.{
  unmount_recorded, stop_direct, stop_tunnel, forget_port, kill_vm, stop_vm,
}

module _ {H : Type 0} (os : Host H) (x : Texts) (home : String) (p : Program) (a : UpArgs)
    (port_free : H → ℕ → Bool) (split : String → List String) (which_gate : H → Option String) where
  when-IsCalm :
      (b : Bool) (m : M H (Unit {0})) (h : H)
      → ((k : H) → IsCalm (m k).0)
      → IsCalm (when os x home p a b m h).0
  when-IsCalm true m h c = c h
  when-IsCalm false m h c = λ q. cc

  unmount_recorded-IsCalm :
      (h : H) → IsCalm (unmount_recorded os x home p a port_free split which_gate h).0
  unmount_recorded-IsCalm h =
      bind_result-IsCalm (exists os (direct_mount_record os x home p a port_free split) h) _
        (reply_outcome-IsCalm os _)
        (λ there w. when-IsCalm there _ w (λ k.
          bind_result-IsCalm
            (
              reply_outcome os (os.read_text (direct_mount_record os x home p a port_free split) k),
              k,
            )
            (λ text. unmount_path os (x.strip text)) (reply_outcome-IsCalm os _)
            (λ text v. unmount_path-IsCalm os (x.strip text) v)))

  pub stop_direct-done :
      IsTidy os
      → (b : Bool) (h : H) → (stop_direct os x home p a port_free split which_gate b h).0 ≡ done tt
  stop_direct-done t false h = refl
  stop_direct-done t true h =
      let file = direct_pid_path os x home p a port_free split in
      rw
        (then-done (stop_pid_file os file true h)
          (λ k. caught (unmount_recorded os x home p a port_free split which_gate k) (λ e. pure tt))
          (forced-done os t file h))
        (caught-ignored _ (unmount_recorded-IsCalm _))

  pub stop_tunnel-done :
      IsTidy os
      → (b : Bool) (h : H) → (stop_tunnel os x home p a port_free split which_gate b h).0 ≡ done tt
  stop_tunnel-done t false h = refl
  stop_tunnel-done t true h = forced-done os t (tunnel_pid_path os x home p a port_free split) h

  when_unlink-done :
      (b : Bool) (file : String) (h : H) → (when os x home p a b (unlink os file) h).0 ≡ done tt
  when_unlink-done true file h = refl
  when_unlink-done false file h = refl

  pub forget_port-done :
      IsTidy os → (h : H) → (forget_port os x home p a port_free split which_gate h).0 ≡ done tt
  forget_port-done t h = rw (t.looks (direct_port_path os x home p a port_free split) h) (
      when_unlink-done (t.found (direct_port_path os x home p a port_free split) h)
        (direct_port_path os x home p a port_free split) h)

  pid_in-IsCalm :
      (file : String) (r : Option ℕ) (h : H) → os.read_pid file h ≡ r → IsCalm (pid_in os file h).0
  pid_in-IsCalm file none h e = rw (pid_in, e) (λ q. cc)
  pid_in-IsCalm file (some pid) h e = rw (pid_in, e) (λ q. cc)

  done-IsCalm : (o : Outcome (Unit {0})) → o ≡ done tt → IsCalm o
  done-IsCalm o e = λ q. cc

  kill_running-IsCalm :
      (pid : ℕ) (b : Bool) (h : H)
      → IsCalm (when os x home p a b (λ k. caught (signal os pid sigkill k) (λ e. pure tt)) h).0
  kill_running-IsCalm pid b h =
      when-IsCalm b (λ k. caught (signal os pid sigkill k) (λ e. pure tt)) h
        (λ k. done-IsCalm _ (caught-ignored (signal os pid sigkill k) (reply_outcome-IsCalm os _)))

  kill_vm-done : (h : H) → (kill_vm os x home p a port_free split which_gate h).0 ≡ done tt
  kill_vm-done h = caught-ignored _ (
      bind_result-IsCalm (pid_in os (pid_file os x home p a) h) _
        (pid_in-IsCalm (pid_file os x home p a) (os.read_pid (pid_file os x home p a) h) h refl)
        (λ pid w. bind_result-IsCalm (signal os pid sigterm w) _ (reply_outcome-IsCalm os _) (λ u v.
          kill_running-IsCalm pid (is_pid_running os pid (os.sleep 2000000 v))
            (os.sleep 2000000 v))))

  pub stop_vm-done :
      IsTidy os
      → (h : H)
      → ((stop_vm os x home p a port_free split which_gate true h).0 ≡ done tt)
        × (os.path_exists
              (pid_file os x home p a)
              (stop_vm os x home p a port_free split which_gate true h).1
            ≡ gives false)
  stop_vm-done t h = elim (Bool-cases (t.found (pid_file os x home p a) h)) [
    | inl there ↦
        rw
          (
            t.looks (pid_file os x home p a) h,
            there,
            then-done (kill_vm os x home p a port_free split which_gate h)
                (unlink os (pid_file os x home p a)) (kill_vm-done h),
          )
          (refl, t.gone (pid_file os x home p a) _)
    | inr missing ↦
        let e : os.path_exists (pid_file os x home p a) h ≡ gives false =
          rw (t.looks (pid_file os x home p a) h, missing) refl in
        rw e (refl, e)
  ]

  abbrev killed_if : Bool → ℕ → H → H
  killed_if true pid h = (os.kill pid sigkill h).1
  killed_if false pid h = h

  abbrev signalled : ℕ → Reply (Unit {0}) × H → H
  signalled pid (fails e, h) = h
  signalled pid (gives u, h) =
      let k = os.sleep 2000000 h in killed_if (is_pid_running os pid k) pid k

  -- SIGTERM, and SIGKILL to a process that still runs two seconds later.
  abbrev pub ended_by_signals : ℕ → H → H
  ended_by_signals pid h = signalled pid (os.kill pid sigterm h)

  caught_twice-host :
      (r : Reply (Unit {0}) × H)
      → (caught (caught (reply_outcome os r.0, r.1) (λ e. pure tt)) (λ e. pure tt)).1 ≡ r.1
  caught_twice-host (gives u, h) = refl
  caught_twice-host (fails e, h) = refl

  killed_if-caught :
      (b : Bool) (pid : ℕ) (h : H)
      → (caught
          (when os x home p a b (λ k. caught (signal os pid sigkill k) (λ e. pure tt)) h)
          (λ e. pure tt)).1
        ≡ killed_if b pid h
  killed_if-caught true pid h = caught_twice-host (os.kill pid sigkill h)
  killed_if-caught false pid h = refl

  signalled-caught :
      (pid : ℕ) (r : Reply (Unit {0}) × H) (f : H → Outcome (Unit {0}) × H)
      → ((k : H) → (caught (f k) (λ e. pure tt)).1 ≡ signalled pid (gives tt, k))
      → (caught (bind_result (reply_outcome os r.0, r.1) (λ _. f)) (λ e. pure tt)).1
        ≡ signalled pid r
  signalled-caught pid (gives u, h) f same = same h
  signalled-caught pid (fails e, h) f same = refl

  kill_vm-host :
      (pid : ℕ) (h : H)
      → os.read_pid (pid_file os x home p a) h ≡ some pid
      → (kill_vm os x home p a port_free split which_gate h).1 ≡ ended_by_signals pid h
  kill_vm-host pid h e =
      rw (pid_in, e)
        (signalled-caught pid (os.kill pid sigterm h) _ (λ k.
          killed_if-caught (is_pid_running os pid (os.sleep 2000000 k)) pid (os.sleep 2000000 k)))

  pub stop_vm-host :
      IsTidy os
      → (pid : ℕ) (h : H) → os.path_exists (pid_file os x home p a) h ≡ gives true
      → os.read_pid (pid_file os x home p a) h ≡ some pid
      → (stop_vm os x home p a port_free split which_gate true h).1
        ≡ os.unlink (pid_file os x home p a) (ended_by_signals pid h)
  stop_vm-host t pid h there found =
      rw
        (
          there,
          then-done (kill_vm os x home p a port_free split which_gate h)
              (unlink os (pid_file os x home p a)) (kill_vm-done h),
        )
        (ap (os.unlink (pid_file os x home p a)) (kill_vm-host pid h found))
