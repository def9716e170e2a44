-- ===== src/Tests/Mounting.antt =====
-- The theorems about a mount, over the lock store and a kernel that answers as it is told.
use Prim.Native.String.{◌++◌ as ◌<>◌}
use shared_concurrency_subst.Common.{
  ℕ, ◌≡◌, refl, String, List, [], ◌∷◌, none, some, true, false, String_discrete, select, first, any,
  update, ◌==◌, if◌then◌else◌,
}
use shared_concurrency_subst.Store.Queries.{
  can_grant, has_any_lock, has_write_lock, writer_ahead, earliest_req,
}
use shared_concurrency_subst.Store.Cleanup.{cleanup_expired}
use shared_concurrency_subst.Store.Acquire.{Readings, parse_mode, enter, has_other_owner, poll}
use shared_concurrency_subst.Store.Release
use shared_concurrency_subst.Effects.{
  Errno, eacces, done, raises, runtime_error, os_error, gives, fails,
}
use shared_concurrency_subst.Fuse.World.{LockService, close, Kernel, Platform, Mount, World}
use shared_concurrency_subst.Fuse.Locks.{lock_key, sorted, acquire_for_key}
use shared_concurrency_subst.Fuse.Operations.{open_with, chmod, rename, release}
use shared_concurrency_subst.Fuse.Handles.{keys}
use shared_concurrency_subst.Fuse.Keeps.{IsAligned}
use shared_concurrency_subst.Fuse.Sessions
use shared_concurrency_subst.Fuse.Sessions.{
  create, write, flush, open_path, perform_all, perform_all-IsAligned,
}
use shared_concurrency_subst.Fuse.Leaks.{token, open_failed_leaks}
use shared_concurrency_subst.Fuse.Returns.{
  with_write_lock_returns, open_with-HasHandle, release_handle, with_two_locks_leaks,
}
use shared_concurrency_subst.Fuse.Service.{
  Session, new_session, store_service, Holds, store_service-IsLawfulService,
}
use shared_concurrency_subst.Tests.Samples.{clock, at, differ}

-- One instant for each call, and its number as the key.
abbrev readings : ℕ → Readings
readings n = at n (if n == 0 then "L0" else if n == 1 then "L1" else "L2")

abbrev pub posix : Platform
posix = record {
  o_wronly = 1;
  o_rdwr = 2;
  o_trunc = 512;
  o_append = 1024;
  o_creat = 64;
  join = λ a b. a <> ("/" <> b);
  relpath = λ a b. a;
  hex = λ n. "t";
}

abbrev pub mount : Mount
mount = record {
  root = "/r";
  owner = "host";
  lease_ms = 30000;
  acquire_timeout_ms = some 0;
  max_hold_ms = none;
  release_on_flush = true;
}

-- A kernel that opens no file, and one that opens every file as descriptor 7.
abbrev refusing : Kernel ℕ
refusing = record {
  open_file = λ path flags mode k. (fails eacces, k);
  call = λ x k. (gives [], k);
  access = λ path mode k. true;
  is_dir = λ path k. false;
  list_dir = λ path k. gives [];
  read_link = λ path k. gives path;
}

abbrev pub willing : Kernel ℕ
willing = record {
  open_file = λ path flags mode k. (gives 7, k);
  call = λ x k. (gives [], k);
  access = λ path mode k. true;
  is_dir = λ path k. false;
  list_dir = λ path k. gives [];
  read_link = λ path k. gives path;
}

-- Every definition that a call of the store computes with.
unfoldable service : LockService (Session ℕ)
unfolding store_service String_discrete select first any update can_grant has_any_lock
    has_write_lock writer_ahead earliest_req cleanup_expired enter has_other_owner poll
    Release.release parse_mode
service = store_service clock readings

abbrev W : Type 0
W = World (Session ℕ) ℕ

abbrev mounted : W
mounted = record {
  next_fh = 0;
  handle_locks = [];
  handle_paths = [];
  handle_fds = [];
  handle_owners = [];
  tokens = 0;
  service = new_session;
  kernel = 0;
}

open_failed_leaks_example :
    ((open_with service refusing posix mount "/f" "write" 1 none mounted).0 ≡ raises runtime_error)
    × Holds clock readings
        (open_with service refusing posix mount "/f" "write" 1 none mounted).1.service
        "L0"
        (token service refusing posix mount mounted)
unfolding service lock_key String_discrete
open_failed_leaks_example =
    open_failed_leaks service refusing posix mount (Holds clock readings)
      (store_service-IsLawfulService clock readings) "/f" "write" 1 none mounted "L0" eacces refl
      refl

-- The state after a lock on `key` was taken with a new token or an open handle's.
abbrev after_lock : String → W → W
after_lock key w = (acquire_for_key service willing posix mount key "write" true w).1

with_write_lock_returns_example :
    ((chmod service willing posix mount "/f" 438 mounted).1.service
      ≡ (service.release "L0" "host:t" (after_lock "f" mounted).service).1)
    × ((service.release "L0" "host:t" (after_lock "f" mounted).service).0 ≡ done tt
        → (chmod service willing posix mount "/f" 438 mounted).0 ≡ done [])
unfolding service lock_key String_discrete chmod acquire_for_key
with_write_lock_returns_example =
    with_write_lock_returns service willing posix mount "/f" (λ w. (done [], w)) mounted
      (after_lock "f" mounted) "L0" "host:t" refl (differ "host:t" "" refl)

-- The state after "/f" was opened for writing.
abbrev after_opening : W
after_opening = (open_with service willing posix mount "/f" "write" 1 none mounted).1

-- The file is closed, by a kernel that then refuses.
release_handle_example :
    ((x : List ℕ)
      → (willing.call (close 7) after_opening.kernel).0 ≡ gives x
      → (release service willing posix mount 1 after_opening).1.service
        ≡ (service.release "L0" "host:t" after_opening.service).1)
    × ((e : Errno)
        → (willing.call (close 7) after_opening.kernel).0 ≡ fails e
        → ((release service willing posix mount 1 after_opening).0 ≡ raises (os_error e))
          × ((release service willing posix mount 1 after_opening).1.service
              ≡ after_opening.service))
unfolding service lock_key String_discrete
release_handle_example =
    release_handle service willing posix mount 1 "L0" "host:t" 7 after_opening
      (open_with-HasHandle service willing posix mount "/f" "write" 1 none mounted "L0" 7 refl
        refl).1
      (differ "L0" "" refl) (differ "host:t" "" refl)

-- "/b" was locked by another client.
abbrev contended : W
contended = record mounted {
  service = (service.acquire "b" "write" "X" (some 0) 30000 none new_session).1;
}

abbrev after_first : W
after_first = after_lock "a" contended

with_two_locks_leaks_example :
    rename service willing posix mount "/b" "/a" contended
    ≡ (raises runtime_error, after_lock "b" after_first)
unfolding service lock_key String_discrete sorted acquire_for_key rename
with_two_locks_leaks_example =
    with_two_locks_leaks service willing posix mount {A = List ℕ} "/b" "/a" "a" "b" _ contended
      after_first (after_lock "b" after_first) ("L1", "host:t") runtime_error refl refl refl

perform_all-IsAligned_example : IsAligned (
    perform_all service willing posix mount
      (create "/f" 438 ∷ write (1 ∷ []) 0 1 ∷ flush 1 ∷ open_path "/f" 0 ∷ [])
      (Sessions.mounted new_session 0))
perform_all-IsAligned_example =
    perform_all-IsAligned service willing posix mount
      (create "/f" 438 ∷ write (1 ∷ []) 0 1 ∷ flush 1 ∷ open_path "/f" 0 ∷ []) new_session 0

mounted-IsAligned : IsAligned mounted
unfolding keys
mounted-IsAligned = record {
  of_paths = refl;
  of_fds = refl;
  of_owners = refl;
  below = λ i n. elim n [ ];
}
