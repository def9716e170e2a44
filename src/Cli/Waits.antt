-- ===== src/Cli/Waits.antt =====
-- cli.py: the loops that wait for a port, a mount and ssh. A loop runs on fuel, and has none left when
-- it answers `none`.
use Prim.Native.String.{◌++◌ as ◌<>◌}
use shared_concurrency_subst.Common.{
  ℕ, zero, suc, ◌-◌, ◌*◌, String, Bool, true, false, List, [], ◌∷◌, ◌++◌, Option, none, some, ltb,
  ◌=s◌, any, if◌then◌else◌,
}
use shared_concurrency_subst.Effects.{
  Errno, enotconn, eio, enoent, Outcome, done, raises, Raised, os_error, runtime_error,
  called_process_error, Reply, gives, fails,
}
use shared_concurrency_subst.Cli.Commands.{Texts, ssh_base_args}
use shared_concurrency_subst.Cli.Host.{Host, run_logged}

-- One turn of a loop after its test of the time.
pub data Attempt : Type 0 where
  finished : Attempt
  again : ℕ → Attempt  -- after a sleep
  stopped : Raised → Attempt

module _ {H : Type 0} (os : Host H) where
  abbrev pub Loop : Type 0
  Loop = Option (Outcome (Unit {0})) × H

  unfoldable pub wait_loop : (H → Attempt × H) → (start limit fuel : ℕ) → H → Loop
  wait_loop attempt start limit zero h = (none, h)
  wait_loop attempt start limit (suc fuel) h =
      if ltb limit (os.monotonic h - start)
      then (some (raises runtime_error), h)
      else elim (attempt h).0 [
        | finished ↦ (some (done tt), (attempt h).1)
        | again us ↦ wait_loop attempt start limit fuel (os.sleep us (attempt h).1)
        | stopped e ↦ (some (raises e), (attempt h).1)
      ]

  abbrev pub retry_after : ℕ → Bool → Attempt
  retry_after us true = finished
  retry_after us false = again us

  abbrev pub port_attempt : String → ℕ → H → Attempt × H
  port_attempt host port h = let r = os.connect host port h in (retry_after 500000 r.0, r.1)

  unfoldable pub wait_for_port : (fuel : ℕ) → String → (port timeout_seconds : ℕ) → H → Loop
  unfolding wait_loop
  wait_for_port fuel host port timeout_seconds h =
      wait_loop (port_attempt host port) (os.monotonic h) (timeout_seconds * 1000000) fuel h

  -- The exceptions that mean that the mount is not there yet.
  abbrev pub mount_error : Errno → Attempt
  mount_error enotconn = again 250000
  mount_error eio = again 250000
  mount_error enoent = again 250000
  mount_error e = stopped (os_error e)

  abbrev pub listed : Reply (List String) → Attempt
  listed (gives _) = finished
  listed (fails e) = mount_error e

  -- `len(parts) >= 2 and parts[1] == str(path)`
  abbrev pub is_second : String → List String → Bool
  is_second path [] = false
  is_second path (_ ∷ []) = false
  is_second path (_ ∷ part ∷ _) = part =s path

  module _ (split : String → List String) where
    abbrev pub mount_listed : String → Reply (List String) → H → Attempt
    mount_listed path (fails e) h = mount_error e
    mount_listed path (gives lines) h =
        if any (λ line. is_second path (split line)) lines
        then listed (os.list_dir path h)
        else again 250000

    unfoldable pub wait_for_fuse_mount : (fuel : ℕ) → String → (timeout_seconds : ℕ) → H → Loop
    unfolding wait_loop
    wait_for_fuse_mount fuel path timeout_seconds h =
        wait_loop (λ k. (mount_listed path (os.mounts k) k, k)) (os.monotonic h)
          (timeout_seconds * 1000000) fuel h

  module _ (x : Texts) where
    abbrev pub ssh_probe :
        (vm_user vm_host : String) → ℕ → Option String → Bool → Option String → List String
    ssh_probe vm_user vm_host ssh_port known_hosts accept_host_key ssh_key =
        "ssh"
        ∷ (ssh_base_args x ssh_port known_hosts accept_host_key ssh_key
            ++ ("-o"
                ∷ "BatchMode=yes"
                ∷ "-o"
                ∷ "ConnectTimeout=5"
                ∷ (vm_user <> ("@" <> vm_host))
                ∷ "echo"
                ∷ "ok"
                ∷ []))

    -- `except subprocess.CalledProcessError: time.sleep(2)`
    abbrev pub ssh_end : Outcome (Unit {0}) → Attempt
    ssh_end (done _) = finished
    ssh_end (raises called_process_error) = again 2000000
    ssh_end (raises e) = stopped e

    abbrev pub ssh_attempt : (cmd : List String) (log : String) (verbose : Bool) → H → Attempt × H
    ssh_attempt cmd log verbose h = let r = run_logged os cmd log verbose h in (ssh_end r.0, r.1)

    unfoldable pub wait_for_ssh :
        (fuel : ℕ)
        → (vm_user vm_host : String) → ℕ
        → Option String
        → Bool
        → Option String
        → (timeout_seconds : ℕ) (log_path : String) (verbose : Bool) → H
        → Loop
    unfolding wait_loop
    wait_for_ssh fuel vm_user vm_host ssh_port known_hosts accept_host_key ssh_key timeout_seconds
          log_path verbose h =
        wait_loop
          (ssh_attempt (ssh_probe vm_user vm_host ssh_port known_hosts accept_host_key ssh_key)
            log_path verbose)
          (os.monotonic h) (timeout_seconds * 1000000) fuel h
