-- ===== src/Tests/Refusing.antt =====
-- The theorems about a file that another client holds for writing, at concrete data.
use shared_concurrency_subst.Common.{
  ℕ, ◌*◌, ◌≡◌, refl, inl, [], ◌∷◌, none, arith, String_discrete, some,
}
use shared_concurrency_subst.Store.Data.{read, write, Tables}
use shared_concurrency_subst.Store.Acquire.{Readings, parse_mode}
use shared_concurrency_subst.Store.Invariant.Valid.{IsValid}
use shared_concurrency_subst.Store.Cleanup.{over_held, lease_over}
use shared_concurrency_subst.Effects.{raises, unanswered, fuse_os_error, eio}
use shared_concurrency_subst.Fuse.World.{World, Mount}
use shared_concurrency_subst.Fuse.Locks.{lock_key}
use shared_concurrency_subst.Fuse.Operations.{open_with}
use shared_concurrency_subst.Remote.{Line, await}
use shared_concurrency_subst.Remote.Contention.{client}
use shared_concurrency_subst.Remote.Limits.{await_ends}
use shared_concurrency_subst.Remote.Refusal.{open_with-contended}
use shared_concurrency_subst.Tests.Samples.{clock, at, ask, wait, lock_of, differ}
use shared_concurrency_subst.Tests.Serving.{config}
use shared_concurrency_subst.Tests.Mounting.{posix, mount, willing}

-- A writes.
abbrev written_by_a : Tables ℕ
written_by_a = record { locks = lock_of "L1" "A" write 0 1 ∷ []; queue = []; last_req = 0 }

written_by_a-IsValid : IsValid written_by_a
written_by_a-IsValid = record {
  exclusive = λ a b i j p w. ground arith;
  distinct = (λ a i. elim i [ ], tt);
  counted = λ a i. ground arith;
  rising = omega arith;
}

-- A clock that stands at 5.
abbrev standing : ℕ → Readings
standing n = at 5 "L9"

abbrev line : Line ℕ
line = record {
  broker = record { tables = written_by_a; pending = [] };
  valid = written_by_a-IsValid;
  tick = 0;
}

abbrev mounted : World (Line ℕ) ℕ
mounted = record {
  next_fh = 0;
  handle_locks = [];
  handle_paths = [];
  handle_fds = [];
  handle_owners = [];
  tokens = 0;
  service = line;
  kernel = 0;
}

-- The monotonic clock goes on by 3 ms from round to round.
abbrev ticking : ℕ → Readings
ticking n = record (at 5 "L9") { monotonic = n * 3000 }

abbrev patient : Mount
patient = record mount { acquire_timeout_ms = some 5 }

open_with-contended_example :
    (open_with (client clock config ticking 4) willing posix patient "/f" "read" 0 none mounted).0
    ≡ raises (fuse_os_error eio)
unfolding parse_mode String_discrete over_held lease_over lock_key
open_with-contended_example =
    (open_with-contended clock config ticking 4 willing posix patient "/f" "read" read 0 none
        mounted (lock_of "L1" "A" write 0 1) refl (λ n. (refl, refl)) (inl refl) refl refl
        (differ "A" "host:t" refl)).2
      5 2 refl (omega arith) (omega arith)

-- B's write waits, with a limit of 5 ms.
abbrev waiting_line : Line ℕ
waiting_line = record line {
  broker = record { tables = written_by_a; pending = wait (ask "B" write) 1 ∷ [] };
}

await_ends_example : ¬ (
    (await clock config ticking (λ n. []) 4 4 (wait (ask "B" write) 1) waiting_line).0
    ≡ raises unanswered)
await_ends_example =
    await_ends clock config ticking (λ n. []) 4 2 4 (wait (ask "B" write) 1) waiting_line 5 refl
      (omega arith) (omega arith)
