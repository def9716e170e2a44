-- ===== src/Cli/Ends.antt =====
-- Termination of the waiting loops of cli.py.
pub mod Ssh
use shared_concurrency_subst.Common.{
  ℕ, zero, suc, ◌+◌, ◌-◌, ◌*◌, ◌≤◌, ◌<◌, ◌≡◌, refl, ◌⊎◌, String, Bool, true, false, List, ◌∷◌, some,
  ltb, any, inl, inr, arith, Bool-cases,
}
use shared_concurrency_subst.Effects.{
  Errno, eio, ebadf, eacces, enotconn, enoent, other, done, raises, Raised, runtime_error, Reply,
  gives, fails,
}
use shared_concurrency_subst.Cli.Host.{Host, run_logged, open_log}
use shared_concurrency_subst.Cli.Waits.{
  Attempt, finished, again, stopped, wait_loop, wait_for_port, port_attempt, Loop, mount_error,
  listed, is_second, mount_listed, wait_for_fuse_mount, retry_after,
}

-- The clock does not go back, and a sleep lasts as long as it was asked to.
pub record IsTimed {H : Type 0} (os : Host H) : Type 0 where
  pub connecting :
      (host : String) (port : ℕ) (h : H) → os.monotonic h ≤ os.monotonic (os.connect host port h).1
  pub making : (path : String) (h : H) → os.monotonic h ≤ os.monotonic (os.make_dirs path h).1
  pub opening : (log : String) (h : H) → os.monotonic h ≤ os.monotonic (os.open_log log h).1
  pub running :
      (cmd : List String) (log : String) (h : H)
      → os.monotonic h ≤ os.monotonic (os.run_logged cmd log h).1
  pub piping :
      (cmd : List String) (log : String) (h : H)
      → os.monotonic h ≤ os.monotonic (os.run_piped cmd log h).1
  pub printing : (line : String) (h : H) → os.monotonic h ≤ os.monotonic (os.print line h)
  pub sleeping : (us : ℕ) (h : H) → os.monotonic h + us ≤ os.monotonic (os.sleep us h)

module _ {H : Type 0} (os : Host H) where
  -- A loop stopped for a reason: its attempt did, or its time was over.
  abbrev EndsWell : (H → Attempt × H) → ℕ → ℕ → Loop os → Type 0
  EndsWell attempt start limit r =
      ((k : H) × ((attempt k).0 ≡ finished) × (r ≡ (some (done tt), (attempt k).1)))
      ⊎ (((k : H) × (limit < os.monotonic k - start) × (r ≡ (some (raises runtime_error), k)))
          ⊎ ((k : H) × (e : _) × ((attempt k).0 ≡ stopped e)
              × (r ≡ (some (raises e), (attempt k).1))))

  Attempt-cases :
      (a : Attempt) → (a ≡ finished) ⊎ (((us : ℕ) × (a ≡ again us)) ⊎ ((e : _) × (a ≡ stopped e)))
  Attempt-cases finished = inl refl
  Attempt-cases (again us) = inr (inl (us, refl))
  Attempt-cases (stopped e) = inr (inr (e, refl))

  pub wait_loop-EndsWell :
      (attempt : H → Attempt × H) (start limit fuel : ℕ) (h : H)
      → ((k : H) (us : ℕ)
          → (attempt k).0 ≡ again us
          → os.monotonic k + 250000 ≤ os.monotonic (os.sleep us (attempt k).1))
      → start ≤ os.monotonic h
      → limit < (os.monotonic h - start) + fuel * 250000
      → EndsWell attempt start limit (wait_loop os attempt start limit (suc fuel) h)
  unfolding wait_loop
  wait_loop-EndsWell attempt start limit zero h slow after enough =
      let over : ltb limit (os.monotonic h - start) ≡ true = ground arith in
      rw over (inr (inl (h, omega arith, refl)))
  wait_loop-EndsWell attempt start limit (suc fuel) h slow after enough =
      elim (Bool-cases (ltb limit (os.monotonic h - start))) [
        | inl over ↦ rw over (inr (inl (h, ground arith, refl)))
        | inr early ↦ elim (Attempt-cases (attempt h).0) [
          | inl e ↦ rw (early, e) (inl (h, e, refl))
          | inr (inr (x, e)) ↦ rw (early, e) (inr (inr (h, x, e, refl)))
          | inr (inl (us, e)) ↦
              let pause = slow h us e in
              rw (early, e)
                (wait_loop-EndsWell attempt start limit fuel (os.sleep us (attempt h).1) slow
                  (omega (arith, pause, after)) (omega (arith, pause, after, enough)))
        ]
      ]

  port_attempt-slow :
      IsTimed os
      → (host : String) (port : ℕ) (k : H) (us : ℕ) → (port_attempt os host port k).0 ≡ again us
      → os.monotonic k + 250000 ≤ os.monotonic (os.sleep us (port_attempt os host port k).1)
  port_attempt-slow timed host port k us e =
      let same : us ≡ 500000 = ground arith in
      let connected = timed.connecting host port k in
      let slept = timed.sleeping us (os.connect host port k).1 in
      omega (arith, same, connected, slept)

  -- With a clock that goes on, and fuel for four turns in each second of the limit, the wait for a port
  -- ends: a connection was made, or a RuntimeError was raised after the limit had passed.
  pub wait_for_port_ends :
      (host : String) (port timeout_seconds fuel : ℕ) (h : H)
      → IsTimed os
      → timeout_seconds * 4 < fuel
      → ((k : H) × ((os.connect host port k).0 ≡ true)
          × (wait_for_port os (suc fuel) host port timeout_seconds h
              ≡ (some (done tt), (os.connect host port k).1)))
        ⊎ ((k : H) × (timeout_seconds * 1000000 < os.monotonic k - os.monotonic h)
            × (wait_for_port os (suc fuel) host port timeout_seconds h
                ≡ (some (raises runtime_error), k)))
  unfolding wait_for_port
  wait_for_port_ends host port timeout_seconds fuel h timed enough =
      elim (wait_loop-EndsWell (port_attempt os host port) (os.monotonic h)
        (timeout_seconds * 1000000) fuel h (port_attempt-slow timed host port) (omega arith)
        (omega (arith, enough))) [
          | inl (k, e, r) ↦ inl (k, ground arith, r)
          | inr (inl late) ↦ inr late
          | inr (inr (k, x, e, r)) ↦ absurd (ground arith)
        ]

  mount_error-again : (e : Errno) (us : ℕ) → mount_error os e ≡ again us → us ≡ 250000
  mount_error-again enotconn us e = ground arith
  mount_error-again eio us e = ground arith
  mount_error-again enoent us e = ground arith
  mount_error-again ebadf us e = absurd (ground arith)
  mount_error-again eacces us e = absurd (ground arith)
  mount_error-again (other n) us e = absurd (ground arith)

  listed-again : (r : Reply (List String)) (us : ℕ) → listed os r ≡ again us → us ≡ 250000
  listed-again (gives l) us e = absurd (ground arith)
  listed-again (fails x) us e = mount_error-again x us e

  mount_listed-again :
      (split : String → List String) (path : String) (lines : Reply (List String)) (k : H) (us : ℕ)
      → mount_listed os split path lines k ≡ again us
      → us ≡ 250000
  mount_listed-again split path (fails x) k us e = mount_error-again x us e
  mount_listed-again split path (gives lines) k us e =
      elim (Bool-cases (any (λ line. is_second os path (split line)) lines)) [
        | inl there ↦ listed-again (os.list_dir path k) us (rw there at e)
        | inr missing ↦ ground (arith, missing)
      ]

  mount_attempt-slow :
      IsTimed os
      → (split : String → List String) (path : String) (lines : Reply (List String)) (k : H)
        (us : ℕ)
      → mount_listed os split path lines k ≡ again us
      → os.monotonic k + 250000 ≤ os.monotonic (os.sleep us k)
  mount_attempt-slow timed split path lines k us e =
      let same : us ≡ 250000 = mount_listed-again split path lines k us e in
      let slept = timed.sleeping us k in omega (arith, same, slept)

  -- With a clock that goes on, and fuel for four turns in each second of the limit, the wait for a
  -- mount ends: the mount was listed and its directory could be read, a RuntimeError was raised after
  -- the limit had passed, or an OSError that does not mean that the mount is still to come.
  pub wait_for_fuse_mount_ends :
      (split : String → List String) (path : String) (timeout_seconds fuel : ℕ) (h : H)
      → IsTimed os
      → timeout_seconds * 4 < fuel
      → ((k : H) × (mount_listed os split path (os.mounts k) k ≡ finished)
          × (wait_for_fuse_mount os split (suc fuel) path timeout_seconds h ≡ (some (done tt), k)))
        ⊎ (((k : H) × (timeout_seconds * 1000000 < os.monotonic k - os.monotonic h)
              × (wait_for_fuse_mount os split (suc fuel) path timeout_seconds h
                  ≡ (some (raises runtime_error), k)))
            ⊎ ((k : H) × (e : Raised) × (mount_listed os split path (os.mounts k) k ≡ stopped e)
                × (wait_for_fuse_mount os split (suc fuel) path timeout_seconds h
                    ≡ (some (raises e), k))))
  unfolding wait_for_fuse_mount
  wait_for_fuse_mount_ends split path timeout_seconds fuel h timed enough =
      wait_loop-EndsWell (λ k. (mount_listed os split path (os.mounts k) k, k)) (os.monotonic h)
        (timeout_seconds * 1000000) fuel h
        (λ k us e. mount_attempt-slow timed split path (os.mounts k) k us e) (omega arith)
        (omega (arith, enough))

  retry_after-finished : (us : ℕ) (b : Bool) → retry_after os us b ≡ finished → b ≡ true
  retry_after-finished us b e = ground arith

  retry_after-stopped : (us : ℕ) (b : Bool) (x : Raised) → ¬ (retry_after os us b ≡ stopped x)
  retry_after-stopped us true x e = cc
  retry_after-stopped us false x e = cc
