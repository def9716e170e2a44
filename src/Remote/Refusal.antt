-- ===== src/Remote/Refusal.antt =====
-- `open` and `create` on a file that another client holds for writing.
use shared_concurrency_subst.Common.{
  ℕ, ◌≡◌, refl, inl, inr, String, Option, some, In, none, suc, ◌+◌, ◌-◌, ◌/◌, ◌<◌, ◌≤◌,
}
use shared_concurrency_subst.Store.Data.{Mode, write, TimeText, LockInfo}
use shared_concurrency_subst.Store.Acquire.{Readings, parse_mode}
use shared_concurrency_subst.Broker.{Config}
use shared_concurrency_subst.Effects.{raises, fuse_os_error, eio, unanswered}
use shared_concurrency_subst.Fuse.World.{Kernel, Platform, Mount, World}
use shared_concurrency_subst.Fuse.Locks.{lock_key, acquire, acquire_for_key}
use shared_concurrency_subst.Fuse.Operations.{open_with}
use shared_concurrency_subst.Fuse.Leaks.{token, token-=s-empty, token-ne-empty}
use shared_concurrency_subst.Remote.{Line}
use shared_concurrency_subst.Remote.Roundtrip.{lock_key-ne-empty}
use shared_concurrency_subst.Remote.Contention.{client, Lasts, acquire-contended}

module _ {Stamp K : Type 0} (t : TimeText Stamp) (c : Config) (readings : ℕ → Readings)
    (patience : ℕ) (os : Kernel K) (p : Platform) (m : Mount) where
  -- While a write lock of another owner on the file's key lasts, and no other client acts, `open` and
  -- `create` never call the kernel, for reading as for writing. On a mount without a limit they do not
  -- come back in any number of rounds. On a mount with a limit of milliseconds they fail with EIO, when
  -- enough rounds are looked at to reach one at which the limit has passed since the call.
  pub open_with-contended :
      (path text : String) (mode : Mode) (flags : ℕ) (perm : Option ℕ) (w : World (Line Stamp) K)
      (a : LockInfo Stamp)
      → parse_mode text ≡ some mode
      → Lasts t c readings patience a
      → In a w.service.broker.tables.locks
      → a.mode ≡ write
      → a.path ≡ lock_key path
      → ¬ (a.owner ≡ token (client t c readings patience) os p m w)
      → let y = open_with (client t c readings patience) os p m path text flags perm w in
        (y.1.kernel ≡ w.kernel)
        × (m.acquire_timeout_ms ≡ none → y.0 ≡ raises unanswered)
        × ((limit k : ℕ)
            → m.acquire_timeout_ms ≡ some limit
            → k < patience
            → limit
              ≤ ((readings (k + suc w.service.tick)).monotonic
                  - (readings w.service.tick).monotonic)
                / 1000
            → y.0 ≡ raises (fuse_os_error eio))
  unfolding open_with acquire_for_key acquire
  open_with-contended path text mode flags perm w a good lasts held writes same other =
      let mine = token-=s-empty m.owner (p.hex w.tokens) in
      let waits =
        acquire-contended t c readings patience (lock_key path) text
          (token (client t c readings patience) os p m w) mode m.acquire_timeout_ms m.lease_ms
          m.max_hold_ms w.service a (lock_key-ne-empty path)
          (token-ne-empty m.owner (p.hex w.tokens)) good lasts held writes same other in
      (
        elim waits.fails [
          | inl e ↦ rw (open_with, acquire_for_key, acquire, mine, e) refl
          | inr e ↦ rw (open_with, acquire_for_key, acquire, mine, e) refl
        ],
        λ e. rw (open_with, acquire_for_key, acquire, mine, waits.blocks e) refl,
        λ limit k e enough late.
            rw (open_with, acquire_for_key, acquire, mine, waits.gives_up limit k e enough late)
              refl,
      )
