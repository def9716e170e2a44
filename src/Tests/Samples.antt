-- ===== src/Tests/Samples.antt =====
-- Data of the tests: a clock whose texts are numbers, requests, and short histories.
use shared_concurrency_subst.Common.{
  ℕ, String, ◌+◌, ◌≡◌, refl, List, [], ◌∷◌, none, some, leb, arith, false, ◌=s◌, ≡→=s,
  String_discrete, select, first, any, update,
}
use shared_concurrency_subst.Store.Data.{
  Mode, read, write, TimeText, IsLawful, LockInfo, QueueInfo, Tables,
}
use shared_concurrency_subst.Store.Queries.{
  can_grant, has_any_lock, has_write_lock, writer_ahead, earliest_req,
}
use shared_concurrency_subst.Store.Cleanup.{cleanup_expired}
use shared_concurrency_subst.Store.Acquire.{
  Request, Readings, Pending, enter, has_other_owner, poll,
}
use shared_concurrency_subst.Store.Release.{release, heartbeat}
use shared_concurrency_subst.Store.Invariant.Valid.{IsValid}
use shared_concurrency_subst.System.{Broker, Event, acquires, polls, run, start_broker}

abbrev pub clock : TimeText ℕ
clock = record { isoformat = λ n. n; fromisoformat = λ n. some n; text_le = leb }

pub clock-IsLawful : IsLawful clock
clock-IsLawful = record { text_le-isoformat = λ a b. refl; fromisoformat-isoformat = λ a. refl }

abbrev pub ask : String → Mode → Request
ask owner mode = record {
  path = "f";
  mode = mode;
  owner = owner;
  timeout_ms = some 5;
  lease_ms = 1000;
  max_hold_ms = none;
}

abbrev pub at : ℕ → String → Readings
at now id = record {
  cleanup_now = now;
  held_now = now;
  granted_now = now;
  monotonic = now;
  new_id = id;
}

abbrev pub wait : Request → ℕ → Pending
wait q i = record { request = q; req_id = i; start = 0 }

abbrev pub lock_of : String → String → Mode → ℕ → ℕ → LockInfo ℕ
lock_of id owner mode now holds = record {
  lock_id = id;
  path = "f";
  mode = mode;
  owner = owner;
  acquired_at = now;
  lease_expires_at = now + 1000000;
  max_hold_ms = none;
  hold_count = holds;
}

abbrev pub row_of : ℕ → String → Mode → ℕ → QueueInfo ℕ
row_of i owner mode now = record {
  req_id = i;
  path = "f";
  mode = mode;
  owner = owner;
  requested_at = now;
}

-- Every definition that a run computes with.
unfoldable pub evaluate : List Event → Broker ℕ
unfolding run enter poll release heartbeat cleanup_expired can_grant has_any_lock has_write_lock
    writer_ahead earliest_req has_other_owner String_discrete select first any update
evaluate es = run clock es start_broker

-- A waits twice for a read, is granted both, and then asks for a write: the first lock is upgraded.
abbrev pub upgraded : List Event
upgraded =
    acquires 0 0 (ask "A" read)
    ∷ acquires 0 0 (ask "A" read)
    ∷ polls 1 (at 1 "L1")
    ∷ polls 2 (at 2 "L2")
    ∷ acquires 3 3 (ask "A" write)
    ∷ []

upgraded_locks :
    (evaluate upgraded).tables.locks
    ≡ record (lock_of "L1" "A" write 1 2) { lease_expires_at = 1000003 }
      ∷ lock_of "L2" "A" read 2 1
      ∷ []
unfolding evaluate
upgraded_locks = refl

-- Two texts that differ.
pub differ : (s t : String) → (s =s t) ≡ false → ¬ (s ≡ t)
differ s t h e = let k = ≡→=s s t e in cc

-- B waits for a write, then C for a read.
abbrev pub queued_two : Tables ℕ
queued_two = record {
  locks = [];
  queue = row_of 1 "B" write 0 ∷ row_of 2 "C" read 0 ∷ [];
  last_req = 2;
}

-- A reads.
abbrev pub held_by_a : Tables ℕ
held_by_a = record { locks = lock_of "L1" "A" read 0 2 ∷ []; queue = []; last_req = 0 }

pub queued_two-IsValid : IsValid queued_two
queued_two-IsValid = record {
  exclusive = λ a b i. elim i [ ];
  distinct = tt;
  counted = λ a i. elim i [ ];
  rising = omega arith;
}

pub held_by_a-IsValid : IsValid held_by_a
held_by_a-IsValid = record {
  exclusive = λ a b i j p w. ground arith;
  distinct = (λ a i. elim i [ ], tt);
  counted = λ a i. ground arith;
  rising = omega arith;
}
