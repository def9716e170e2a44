-- ===== src/Cli/Ends/Ssh.antt =====
-- Termination of the loop of cli.py that waits for ssh.
use shared_concurrency_subst.Common.{
  ℕ, suc, ◌+◌, ◌-◌, ◌*◌, ◌≤◌, ◌<◌, ◌≡◌, refl, subst, ◌⊎◌, String, Bool, true, false, List, [], ◌∷◌,
  Option, some, inl, inr, arith,
}
use shared_concurrency_subst.Effects.{
  done, raises, Raised, runtime_error, called_process_error, value_error, file_not_found_error,
  system_exit, unanswered, fuse_os_error, os_error, Outcome, M, bind_result,
}
use shared_concurrency_subst.Cli.Commands.{Texts}
use shared_concurrency_subst.Cli.Host.{
  Host, run_logged, run_copied, print_all, open_log, effect, parent,
}
use shared_concurrency_subst.Cli.Waits.{
  Attempt, finished, again, stopped, Loop, ssh_probe, ssh_attempt, ssh_end, wait_for_ssh,
}
use shared_concurrency_subst.Cli.Ends.{IsTimed, wait_loop-EndsWell}

module _ {H : Type 0} (os : Host H) where
  -- The clock has not gone back after one thing and another.
  bind_result-later :
      {A B : Type 0} (r : Outcome A × H) (f : A → M H B) (start : ℕ)
      → start ≤ os.monotonic r.1
      → ((a : A) (k : H) → os.monotonic k ≤ os.monotonic (f a k).1)
      → start ≤ os.monotonic (bind_result r f).1
  bind_result-later (done a, k) f start before later =
      let goes_on = later a k in omega (arith, before, goes_on)
  bind_result-later (raises e, k) f start before later = before

  print_all-later :
      IsTimed os
      → (lines : List String) (k : H) → os.monotonic k ≤ os.monotonic (print_all os lines k)
  print_all-later timed [] k = omega arith
  print_all-later timed (line ∷ lines) k =
      let printed = timed.printing line k in
      let rest = print_all-later timed lines (os.print line k) in omega (arith, printed, rest)

  run_copied-later :
      IsTimed os
      → (verbose : Bool) (cmd : List String) (log : String) (k : H)
      → os.monotonic k ≤ os.monotonic (run_copied os verbose cmd log k).1
  run_copied-later timed true cmd log k =
      let ran = timed.piping cmd log k in
      let printed = print_all-later timed (os.run_piped cmd log k).0.0 (os.run_piped cmd log k).1 in
      omega (arith, ran, printed)
  run_copied-later timed false cmd log k = timed.running cmd log k

  run_logged-later :
      IsTimed os
      → (cmd : List String) (log : String) (verbose : Bool) (k : H)
      → os.monotonic k ≤ os.monotonic (run_logged os cmd log verbose k).1
  run_logged-later timed cmd log verbose k =
      bind_result-later (open_log os log k) _ (os.monotonic k)
        (bind_result-later (effect os (os.make_dirs (parent os log)) k) _ (os.monotonic k)
          (timed.making (parent os log) k) (λ a w. timed.opening log w))
        (λ a w. run_copied-later timed verbose cmd log w)

  module _ (x : Texts) where
    abbrev ssh_end-Inverse : Outcome (Unit {0}) → Attempt → Type 0
    ssh_end-Inverse o finished = o ≡ done tt
    ssh_end-Inverse o (again us) = us ≡ 2000000
    ssh_end-Inverse o (stopped e) = o ≡ raises e

    ssh_end-cases : (o : Outcome (Unit {0})) → ssh_end-Inverse o (ssh_end os x o)
    ssh_end-cases (done tt) = refl
    ssh_end-cases (raises called_process_error) = refl
    ssh_end-cases (raises (fuse_os_error n)) = refl
    ssh_end-cases (raises (os_error n)) = refl
    ssh_end-cases (raises runtime_error) = refl
    ssh_end-cases (raises unanswered) = refl
    ssh_end-cases (raises value_error) = refl
    ssh_end-cases (raises file_not_found_error) = refl
    ssh_end-cases (raises system_exit) = refl

    ssh_end-inverse :
        (o : Outcome (Unit {0})) (y : Attempt) → ssh_end os x o ≡ y → ssh_end-Inverse o y
    ssh_end-inverse o y e = subst (ssh_end-Inverse o) e (ssh_end-cases o)

    ssh_attempt-slow :
        IsTimed os
        → (cmd : List String) (log : String) (verbose : Bool) (k : H) (us : ℕ)
        → (ssh_attempt os x cmd log verbose k).0 ≡ again us
        → os.monotonic k + 250000
          ≤ os.monotonic (os.sleep us (ssh_attempt os x cmd log verbose k).1)
    ssh_attempt-slow timed cmd log verbose k us e =
        let same : us ≡ 2000000 =
          ssh_end-inverse (run_logged os cmd log verbose k).0 (again us) e in
        let ran = run_logged-later timed cmd log verbose k in
        let slept = timed.sleeping us (run_logged os cmd log verbose k).1 in
        omega (arith, same, ran, slept)

    module _ (vm_user vm_host : String) (ssh_port : ℕ) (known_hosts : Option String)
        (accept_host_key : Bool) (ssh_key : Option String) (log : String) (verbose : Bool) where
      abbrev pub probe : H → Outcome (Unit {0}) × H
      probe =
          run_logged os
            (ssh_probe os x vm_user vm_host ssh_port known_hosts accept_host_key ssh_key) log
            verbose

      abbrev pub waits : (fuel timeout_seconds : ℕ) → H → Loop os
      waits fuel timeout_seconds h =
          wait_for_ssh os x fuel vm_user vm_host ssh_port known_hosts accept_host_key ssh_key
            timeout_seconds log verbose h

      -- With a clock that goes on, and fuel for four turns in each second of the limit, the wait for
      -- ssh ends: the command of the probe succeeded, a RuntimeError was raised after the limit had
      -- passed, or the probe raised another exception than the error of a program.
      pub wait_for_ssh_ends :
          (timeout_seconds fuel : ℕ) (h : H)
          → IsTimed os
          → timeout_seconds * 4 < fuel
          → ((k : H) × ((probe k).0 ≡ done tt)
              × (waits (suc fuel) timeout_seconds h ≡ (some (done tt), (probe k).1)))
            ⊎ (((k : H) × (timeout_seconds * 1000000 < os.monotonic k - os.monotonic h)
                  × (waits (suc fuel) timeout_seconds h ≡ (some (raises runtime_error), k)))
                ⊎ ((k : H) × (e : Raised) × ((probe k).0 ≡ raises e)
                    × (waits (suc fuel) timeout_seconds h ≡ (some (raises e), (probe k).1))))
      unfolding wait_for_ssh
      wait_for_ssh_ends timeout_seconds fuel h timed enough =
          let cmd = ssh_probe os x vm_user vm_host ssh_port known_hosts accept_host_key ssh_key in
          elim (wait_loop-EndsWell os (ssh_attempt os x cmd log verbose) (os.monotonic h)
            (timeout_seconds * 1000000) fuel h (ssh_attempt-slow timed cmd log verbose)
            (omega arith) (omega (arith, enough))) [
              | inl (k, e, r) ↦ inl (k, ssh_end-inverse _ finished e, r)
              | inr (inl late) ↦ inr (inl late)
              | inr (inr (k, e, s, r)) ↦ inr (inr (k, e, ssh_end-inverse _ (stopped e) s, r))
            ]
