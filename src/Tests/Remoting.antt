-- ===== src/Tests/Remoting.antt =====
-- The theorems about the client over the handler and the store, on concrete calls.
use shared_concurrency_subst.Common.{
  ℕ, ◌≡◌, refl, ◌⊎◌, ◌==◌, List, [], ◌∷◌, none, String_discrete, select, first, any, update,
  if◌then◌else◌,
}
use shared_concurrency_subst.Store.Data.{read, write, LockInfo}
use shared_concurrency_subst.Store.Queries.{
  can_grant, has_any_lock, has_write_lock, writer_ahead, earliest_req,
}
use shared_concurrency_subst.Store.Cleanup.{cleanup_expired}
use shared_concurrency_subst.Store.Acquire.{
  Readings, acquire, new_lock, parse_mode, enter, has_other_owner, poll,
}
use shared_concurrency_subst.Store.Release.{release}
use shared_concurrency_subst.System.{Event, acquires, run}
use shared_concurrency_subst.Broker.{do_post}
use shared_concurrency_subst.Effects.{done, raises, runtime_error}
use shared_concurrency_subst.Fuse.World.{LockService, World}
use shared_concurrency_subst.Fuse.Locks.{lock_key, acquire_for_key}
use shared_concurrency_subst.Fuse.Operations.{open_with}
use shared_concurrency_subst.Fuse.Leaks.{IsLawfulService, token}
use shared_concurrency_subst.Fuse.Returns.{HasHandle, open_with-HasHandle}
use shared_concurrency_subst.Remote.{Line, new_line, remote_service}
use shared_concurrency_subst.Remote.Lawful.{Holds, remote_service-IsLawfulService}
use shared_concurrency_subst.Remote.Exclusion.{Excludes, open_with-Excludes}
use shared_concurrency_subst.Remote.Progress.{acquire-Unused}
use shared_concurrency_subst.Remote.Roundtrip.{open_with-release}
use shared_concurrency_subst.Remote.Guarded.{write_guarded, lost_lock}
use shared_concurrency_subst.Store.Strangers.{HeldBy}
use shared_concurrency_subst.Client.Agreement.{asked}
use shared_concurrency_subst.Fuse.Keeps.{IsAligned}
use shared_concurrency_subst.Fuse.Handles.{keys}
use shared_concurrency_subst.Fuse.Operations
use shared_concurrency_subst.Tests.Samples.{clock, at, ask, differ}
use shared_concurrency_subst.Tests.Serving.{config}
use shared_concurrency_subst.Tests.Mounting.{posix, mount, willing}

abbrev readings : ℕ → Readings
readings n = at n (if n == 1 then "L1" else "L2")

-- Another client asks for the same file while the first call waits.
abbrev others : ℕ → List Event
others n = if n == 1 then acquires 1 1 (ask "B" write) ∷ [] else []

remote_service-IsLawfulService_example :
    IsLawfulService
      (remote_service clock config readings others 2)
      (Holds clock config readings others 2)
remote_service-IsLawfulService_example =
    remote_service-IsLawfulService clock config readings others 2

acquire-Unused_example :
    let y =
      (remote_service clock config readings (λ n. []) 1).acquire "f" "write" "A" none 500 none
        new_line in
    let q = asked clock config "f" write "A" none 500 none in
    (y.0 ≡ done "L1")
    × (y.1.broker.tables.locks ≡ new_lock clock (readings 1) q ∷ [])
    × (y.1.broker.tables.queue ≡ [])
unfolding parse_mode String_discrete cleanup_expired select
acquire-Unused_example =
    acquire-Unused clock config readings (λ n. []) 0 "f" "write" "A" write none 500 none new_line
      (differ "f" "" refl) (differ "A" "" refl) refl ((λ a m. elim m [ ]), (λ q m. elim m [ ]))
      (λ a m. elim m [ ]) refl

-- Every definition that a call of the client computes with.
unfoldable client : LockService (Line ℕ)
unfolding remote_service run enter poll release cleanup_expired can_grant has_any_lock
    has_write_lock writer_ahead earliest_req has_other_owner String_discrete select first any update
    parse_mode do_post
client = remote_service clock config readings others 2

abbrev mounted : World (Line ℕ) ℕ
mounted = record {
  next_fh = 0;
  handle_locks = [];
  handle_paths = [];
  handle_fds = [];
  handle_owners = [];
  tokens = 0;
  service = new_line;
  kernel = 0;
}

open_with-Excludes_example :
    (l : LockInfo ℕ) × (fd : ℕ) × HasHandle client willing posix mount 1 l.lock_id
      (token client willing posix mount mounted)
      fd
      (open_with client willing posix mount "/f" "write" 1 none mounted).1
    × Excludes clock config readings others 2 willing posix mount
        (lock_key "/f")
        (token client willing posix mount mounted)
        l
        (open_with client willing posix mount "/f" "write" 1 none mounted).1.service.broker
unfolding client lock_key String_discrete open_with acquire_for_key acquire
open_with-Excludes_example =
    open_with-Excludes clock config readings others 2 willing posix mount "/f" 1 none mounted 1 refl

-- One user of the broker.
unfoldable alone : LockService (Line ℕ)
unfolding remote_service run enter poll release cleanup_expired can_grant has_any_lock
    has_write_lock writer_ahead earliest_req has_other_owner String_discrete select first any update
    parse_mode do_post
alone = remote_service clock config readings (λ n. []) 1

mounted-IsAligned : IsAligned mounted
unfolding keys
mounted-IsAligned = record {
  of_paths = refl;
  of_fds = refl;
  of_owners = refl;
  below = λ i n. elim n [ ];
}

open_with-release_example :
    let w' =
      (Operations.release alone willing posix mount 1
        (open_with alone willing posix mount "/f" "read" 0 none mounted).1).1 in
    (w'.handle_locks ≡ [])
    × (w'.handle_paths ≡ [])
    × (w'.handle_fds ≡ [])
    × (w'.handle_owners ≡ [])
    × (w'.service.broker.tables.locks ≡ [])
    × (w'.service.broker.tables.queue ≡ [])
unfolding alone parse_mode String_discrete cleanup_expired select
open_with-release_example =
    open_with-release clock config readings (λ n. []) 0 willing posix mount "/f" "read" read 0 none
      mounted 7 [] mounted-IsAligned refl ((λ a m. elim m [ ]), (λ q m. elim m [ ]))
      (λ a m. elim m [ ]) (differ "L1" "" refl) refl refl refl

-- The state after "/f" was opened for writing.
abbrev writing : World (Line ℕ) ℕ
writing = (open_with alone willing posix mount "/f" "write" 1 none mounted).1

write_guarded_example :
    let y = Operations.write alone willing posix mount (1 ∷ []) 0 1 writing in
    ((y.0 ≡ raises runtime_error) × (y.1.kernel ≡ writing.kernel))
    ⊎ (HeldBy writing.service.broker.tables "L1" "host:t"
        × HeldBy y.1.service.broker.tables "L1" "host:t"
        × (y.1.kernel ≡ writing.kernel))
unfolding alone lock_key String_discrete acquire
write_guarded_example =
    write_guarded clock config readings (λ n. []) 1 willing posix mount (1 ∷ []) 0 1 "L1" "host:t" 7
      writing
      (open_with-HasHandle alone willing posix mount "/f" "write" 1 none mounted "L1" 7 refl refl).1
      (differ "L1" "" refl) (differ "host:t" "" refl)

-- The broker has lost its tables.
abbrev lost : World (Line ℕ) ℕ
lost = record writing { service = new_line }

lost-HasHandle : HasHandle alone willing posix mount 1 "L1" "host:t" 7 lost
unfolding alone lock_key String_discrete acquire
lost-HasHandle =
    let h =
      (open_with-HasHandle alone willing posix mount "/f" "write" 1 none mounted "L1" 7 refl
        refl).1 in
    record { lock = h.lock; descriptor = h.descriptor; owned = h.owned }

lost_lock_example :
    ((Operations.write alone willing posix mount (1 ∷ []) 0 1 lost).0 ≡ raises runtime_error)
    × ((Operations.write alone willing posix mount (1 ∷ []) 0 1 lost).1.kernel ≡ lost.kernel)
    × ((Operations.read alone willing posix mount 4 0 1 lost).0 ≡ done [])
unfolding alone
lost_lock_example =
    lost_lock clock config readings (λ n. []) 1 willing posix mount (1 ∷ []) 4 0 1 "L1" "host:t" 7
      lost [] lost-HasHandle (differ "L1" "" refl) (differ "host:t" "" refl) (λ held. held.1) refl
