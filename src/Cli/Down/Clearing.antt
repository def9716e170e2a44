-- ===== src/Cli/Down/Clearing.antt =====
-- What `clean` deletes, and what `down` leaves.
use Prim.Native.String.{◌++◌ as ◌<>◌}
use shared_concurrency_subst.Common.{
  ◌≡◌, refl, ap, sym, ◌∙◌, inl, inr, String, true, false, List, some, ◌=s◌, any, Bool-cases,
}
use shared_concurrency_subst.Effects.{
  Outcome, done, raises, runtime_error, fuse_os_error, os_error, called_process_error, value_error,
  file_not_found_error, raise, system_exit, unanswered, gives, M, bind_result, caught, pure,
}
use shared_concurrency_subst.Cli.Commands.{
  Texts, gate_mount_dir, gate_host_direct_mount_dir, gate_host_direct_pid_path,
  gate_tunnel_pid_path, gate_host_direct_mount_path,
}
use shared_concurrency_subst.Cli.Host.{is_pid_running, Host, pid_in}
use shared_concurrency_subst.Cli.Mounts.{unmount_path, stop_pid_file, safe_clear_dir, clear_entries}
use shared_concurrency_subst.Cli.Guards.{IsTidy, bind_result-done, forced-done}
use shared_concurrency_subst.Cli.Calm.{caught-state, unmount_path-IsCalm}
use shared_concurrency_subst.Cli.Down.{
  CleanArgs, state_of, clean_mounts, clean_named, clean_rest, mounts_root, down_vm, vm_pid,
  stop_recorded, stop_vm, when,
}

module _ {H : Type 0} (os : Host H) (x : Texts) (home : String) where
  -- The host after the two processes of a mount were stopped.
  abbrev pub stopped : String → H → H
  stopped vm h =
      (stop_pid_file os (gate_tunnel_pid_path x (state_of os x home vm)) true
        (stop_pid_file os (gate_host_direct_pid_path x (state_of os x home vm)) true h).1).1

  forced-pair :
      IsTidy os
      → (file : String) (h : H)
      → stop_pid_file os file true h ≡ (done tt, (stop_pid_file os file true h).1)
  forced-pair t file h = λ i. (forced-done os t file h i, (stop_pid_file os file true h).1)

  ignored-state :
      (path : String) (h : H)
      → caught (unmount_path os path h) (λ e. pure tt) ≡ (done tt, (unmount_path os path h).1)
  ignored-state path h = caught-state (unmount_path os path h) (unmount_path-IsCalm os path h)

  -- Where the host is after `clean` has tried to unmount.
  abbrev pub unmounted : String → H → H
  unmounted vm h =
      (unmount_path os (gate_host_direct_mount_dir x home)
        (unmount_path os (gate_mount_dir x home vm) (stopped vm h)).1).1

  clean_mounts-unrecorded :
      (vm : String) (h : H)
      → IsTidy os
      → os.path_exists
          (gate_host_direct_mount_path x (state_of os x home vm))
          (unmount_path os (gate_mount_dir x home vm) (stopped vm h)).1
        ≡ gives false
      → clean_mounts os x home vm h ≡ (done (gate_host_direct_mount_dir x home), unmounted vm h)
  unfolding clean_mounts
  clean_mounts-unrecorded vm h t unrecorded =
      let one = stop_pid_file os (gate_host_direct_pid_path x (state_of os x home vm)) true h in
      let two = stop_pid_file os (gate_tunnel_pid_path x (state_of os x home vm)) true one.1 in
      let first = ignored-state (gate_mount_dir x home vm) two.1 in
      let second =
        ignored-state (gate_host_direct_mount_dir x home)
          (unmount_path os (gate_mount_dir x home vm) two.1).1 in
      rw
        (
          forced-pair t (gate_host_direct_pid_path x (state_of os x home vm)) h,
          forced-pair t (gate_tunnel_pid_path x (state_of os x home vm)) one.1,
          first,
          unrecorded,
          second,
        )
        refl

  -- Where files can be looked for and deleted, no host-direct mount is recorded, and the directory of the
  -- VM's files is there, resolves below the root of the mounts and can be listed: after `clean` has tried
  -- to unmount that directory, it goes on to delete the entries that it lists there, whatever came of the
  -- unmounting.
  pub clean_named-clear_entries :
      (a : CleanArgs) (vm : String) (h : H) (path root : String) (l : List String)
      → IsTidy os
      → os.path_exists
          (gate_host_direct_mount_path x (state_of os x home vm))
          (unmount_path os (gate_mount_dir x home vm) (stopped vm h)).1
        ≡ gives false
      → os.path_exists (gate_mount_dir x home vm) (unmounted vm h) ≡ gives true
      → os.resolve (gate_mount_dir x home vm) (unmounted vm h) ≡ some path
      → os.resolve (mounts_root os x home) (unmounted vm h) ≡ some root
      → (path =s root) ≡ false
      → any (λ p. p =s root) (os.parents path) ≡ true
      → os.list_dir path (unmounted vm h) ≡ gives l
      → clean_named os x home a vm h
        ≡ bind_result
            (clear_entries os l (unmounted vm h))
            (λ _. clean_rest os x home a vm (gate_host_direct_mount_dir x home))
  unfolding clean_named safe_clear_dir
  clean_named-clear_entries a vm h path root l t unrecorded there at_path at_root apart below
        listed =
      rw
        (
          clean_mounts-unrecorded vm h t unrecorded,
          there,
          safe_clear_dir,
          at_path,
          at_root,
          apart,
          below,
          listed,
        )
        refl

  passed_on-done :
      (r : Outcome (Unit {0}) × H)
      → (caught r (λ e. raise runtime_error)).0 ≡ done tt
      → (caught r (λ e. raise runtime_error) ≡ r) × (r.0 ≡ done tt)
  passed_on-done (done u, w) e = (refl, refl)
  passed_on-done (raises (fuse_os_error n), w) e = cc
  passed_on-done (raises (os_error n), w) e = cc
  passed_on-done (raises runtime_error, w) e = cc
  passed_on-done (raises unanswered, w) e = cc
  passed_on-done (raises called_process_error, w) e = cc
  passed_on-done (raises value_error, w) e = cc
  passed_on-done (raises file_not_found_error, w) e = cc
  passed_on-done (raises system_exit, w) e = cc

  stop_recorded-done :
      (vm : String) (h : H)
      → IsTidy os
      → ((line path : String) (k : H)
          → os.path_exists path (os.print line k) ≡ os.path_exists path k)
      → (stop_recorded os x home vm h).0 ≡ done tt
      → os.path_exists (vm_pid os x home vm) (stop_recorded os x home vm h).1 ≡ gives false
  stop_recorded-done vm h t quiet ended =
      let (pid, same) = bind_result-done (pid_in os (vm_pid os x home vm) h) _ tt ended in
      let w = (pid_in os (vm_pid os x home vm) h).1 in
      let signals = when os x home (is_pid_running os pid w) (stop_vm os x home pid) w in
      let last : Unit {0} → M H (Unit {0}) =
        λ u k. (done tt, os.print ("Stopped VM " <> vm) (os.unlink (vm_pid os x home vm) k)) in
      let (u, again) = bind_result-done signals last tt (ap (λ r. r.0) (sym same) ∙ ended) in
      rw (same, again) (quiet ("Stopped VM " <> vm) _ _ ∙ t.gone (vm_pid os x home vm) signals.1)

  -- Where files can be looked for and deleted, and printing changes no file: when `down` without
  -- `--force` gets through its part for the VM, the VM has no pid file.
  pub down_vm-unforced :
      (vm : String) (h : H)
      → IsTidy os
      → ((line path : String) (k : H)
          → os.path_exists path (os.print line k) ≡ os.path_exists path k)
      → (down_vm os x home false vm h).0 ≡ done tt
      → os.path_exists (vm_pid os x home vm) (down_vm os x home false vm h).1 ≡ gives false
  unfolding down_vm
  down_vm-unforced vm h t quiet ended = elim (Bool-cases (t.found (vm_pid os x home vm) h)) [
    | inl there ↦
        let e : os.path_exists (vm_pid os x home vm) h ≡ gives true =
          t.looks (vm_pid os x home vm) h ∙ ap (λ b. gives b) there in
        let (same, stop) =
          passed_on-done (stop_recorded os x home vm h) (rw (down_vm, e) at ended) in
        rw (down_vm, e, same) (stop_recorded-done vm h t quiet stop)
    | inr missing ↦
        let e : os.path_exists (vm_pid os x home vm) h ≡ gives false =
          t.looks (vm_pid os x home vm) h ∙ ap (λ b. gives b) missing in
        rw (down_vm, e) (quiet _ _ _ ∙ e)
  ]
