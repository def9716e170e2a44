-- ===== src/Fuse/Leaks.antt =====
-- Whether the locks that an operation takes come back.
use Prim.Native.String.{◌++◌ as ◌<>◌}
use Prim.Native.String.{len}
use text.Mathlib.TextLemmas.{append-nil, append_cancel_left, append-eq-nil_iff}
use shared_concurrency_subst.Common.{
  ℕ, ◌+◌, ◌≡◌, refl, sym, ap, ◌∙◌, String, false, Option, arith, ◌=s◌,
}
use shared_concurrency_subst.Effects.{Errno, Outcome, done, raises, runtime_error, fails}
use shared_concurrency_subst.Fuse.World.{LockService, Kernel, Platform, Mount, World}
use shared_concurrency_subst.Fuse.Locks.{
  lock_key, full_path, acquire, acquire_for_key, release_lock,
}
use shared_concurrency_subst.Fuse.Operations.{opened, open_with}

-- What the mount relies on: a lock that was acquired is held by its owner, and the release of a lock
-- by anybody else is refused and leaves it held.
pub record IsLawfulService {S : Type 0} (service : LockService S)
    (Holds : S → String → String → Type 0) : Type 0 where
  pub acquired :
      (path mode owner : String) (timeout : Option ℕ) (lease : ℕ) (cap : Option ℕ) (s : S)
      (id : String)
      → (service.acquire path mode owner timeout lease cap s).0 ≡ done id
      → Holds (service.acquire path mode owner timeout lease cap s).1 id owner
  pub refused :
      (s : S) (id owner stranger : String)
      → Holds s id owner
      → ¬ (owner ≡ stranger)
      → ((service.release id stranger s).0 ≡ raises runtime_error)
        × Holds (service.release id stranger s).1 id owner

colon-ne : (hex : String) → ¬ ((":" <> hex) ≡ String.[])
colon-ne hex e = let h = append-eq-nil_iff.0 e in absurd (omega (arith, ap len h.0))

-- A token is not the mount's own name.
token-ne : (owner hex : String) → ¬ ((owner <> (":" <> hex)) ≡ owner)
token-ne owner hex e =
    colon-ne hex (append_cancel_left owner (":" <> hex) String.[] (e ∙ sym (append-nil owner)))

-- Nor is it empty.
pub token-ne-empty : (owner hex : String) → ¬ ((owner <> (":" <> hex)) ≡ "")
token-ne-empty owner hex e = colon-ne hex (append-eq-nil_iff.0 e).1

pub token-=s-empty : (owner hex : String) → ((owner <> (":" <> hex)) =s "") ≡ false
token-=s-empty owner hex = ground (arith, token-ne-empty owner hex)

module _ {S K : Type 0} (service : LockService S) (os : Kernel K) (c : Platform) (m : Mount) where
  abbrev W : Type 0
  W = World S K

  -- The token that a method makes.
  abbrev pub token : W → String
  token w = m.owner <> (":" <> c.hex w.tokens)

  -- The call of `acquire` that a method with a new token makes.
  abbrev pub first_acquire : String → String → W → Outcome String × S
  first_acquire path mode w =
      service.acquire (lock_key path) mode (token w) m.acquire_timeout_ms m.lease_ms m.max_hold_ms
        w.service

  acquire_new :
      (path mode : String) (w : W) (id : String)
      → (first_acquire path mode w).0 ≡ done id
      → acquire_for_key service os c m (lock_key path) mode false w ≡ (
        done (id, token w),
        record w { tokens = w.tokens + 1; service = (first_acquire path mode w).1 },
      )
  unfolding acquire_for_key acquire
  acquire_new path mode w id e = rw (acquire, token-=s-empty m.owner (c.hex w.tokens), e)

  -- The state after the lock is taken and the kernel has answered.
  abbrev pub after_open : String → String → ℕ → Option ℕ → W → W
  after_open path mode flags perm w = record w {
    tokens = w.tokens + 1;
    service = (first_acquire path mode w).1;
    kernel = (os.open_file (full_path service os c m path) flags perm w.kernel).1;
  }

  pub open_with-opened :
      (path mode : String) (flags : ℕ) (perm : Option ℕ) (w : W) (id : String)
      → (first_acquire path mode w).0 ≡ done id
      → open_with service os c m path mode flags perm w
        ≡ opened service os c m id
            (token w)
            (lock_key path)
            (os.open_file (full_path service os c m path) flags perm w.kernel).0
            (after_open path mode flags perm w)
  unfolding open_with
  open_with-opened path mode flags perm w id got = rw (open_with, acquire_new path mode w id got)

  opened-refused :
      (id owner key : String) (e : Errno) (w : W)
      → (service.release id m.owner w.service).0 ≡ raises runtime_error
      → opened service os c m id owner key (fails e) w
        ≡ (raises runtime_error, record w { service = (service.release id m.owner w.service).1 })
  unfolding opened release_lock
  opened-refused id owner key e w refused = rw refused

  -- When the kernel refuses to open the file, `open` and `create` try to return the lock under the
  -- mount's own name and not under the token that took it: the broker refuses, the caller gets the
  -- client's error in place of the kernel's, and the token still holds the lock.
  pub open_failed_leaks :
      (Holds : S → String → String → Type 0)
      → IsLawfulService service Holds
      → (path mode : String) (flags : ℕ) (perm : Option ℕ) (w : W) (id : String) (e : Errno)
      → (first_acquire path mode w).0 ≡ done id
      → (os.open_file (full_path service os c m path) flags perm w.kernel).0 ≡ fails e
      → ((open_with service os c m path mode flags perm w).0 ≡ raises runtime_error)
        × Holds (open_with service os c m path mode flags perm w).1.service id (token w)
  open_failed_leaks Holds law path mode flags perm w id e got fault =
      let held =
        law.acquired (lock_key path) mode (token w) m.acquire_timeout_ms m.lease_ms m.max_hold_ms
          w.service id got in
      let refused = law.refused _ id (token w) m.owner held (token-ne m.owner (c.hex w.tokens)) in
      rw
        (
          open_with-opened path mode flags perm w id got,
          fault,
          opened-refused id (token w) (lock_key path) e (after_open path mode flags perm w)
              refused.0,
        )
        (refl, refused.1)
