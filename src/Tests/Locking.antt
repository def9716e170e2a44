-- ===== src/Tests/Locking.antt =====
-- The theorems about the lock store and the broker's histories, at concrete data.
use shared_concurrency_subst.Common.{
  ℕ, String, ◌+◌, ◌*◌, ◌-◌, ◌<◌, ◌≡◌, refl, ◌↔◌, inl, inr, [], ◌∷◌, none, some, arith, In, Bool,
  true, false, String_discrete, first, any,
}
use shared_concurrency_subst.Store.Data.{read, write, LockInfo, Tables, ok}
use shared_concurrency_subst.Store.Cleanup.{lease_over, over_held, cleanup_expired, delete_lock}
use shared_concurrency_subst.Store.Cleanup.Survivors.{cleanup_expired_iff}
use shared_concurrency_subst.Store.Acquire.{
  Pending, Readings, queued, has_other_owner, granted, new_lock, enter, poll,
}
use shared_concurrency_subst.Store.Release.{release_row, find_lock, heartbeat}
use shared_concurrency_subst.Store.Invariant.Exclusion.{Exclusive}
use shared_concurrency_subst.Store.Invariant.Valid.{IsValid}
use shared_concurrency_subst.Store.Fairness.{Live, MayProceed, poll-granted_iff, poll_no_overtaking}
use shared_concurrency_subst.Store.Race.{upgrade_check, upgrade_commit, upgrade_race}
use shared_concurrency_subst.Store.Interleaved.{release_race}
use shared_concurrency_subst.Store.SelfWait.{upgrade_waits}
use shared_concurrency_subst.Store.Invariant.Ids.{Distinct}
use shared_concurrency_subst.Store.Holds.{release_times, release_times_lem}
use shared_concurrency_subst.Store.Leases.{
  SameBeside, UnderCap, new_lock_survives_iff, heartbeat_outcome,
}
use shared_concurrency_subst.System.{acquires, polls, restarts, step, run}
use shared_concurrency_subst.System.Safety.{step-IsValid, run-exclusive}
use shared_concurrency_subst.System.Progress.{run_no_deadlock}
use shared_concurrency_subst.System.Orphans.{restart_blocks}
use shared_concurrency_subst.Tests.Samples.{
  clock, clock-IsLawful, ask, at, wait, lock_of, row_of, evaluate, upgraded, differ, queued_two,
  held_by_a, queued_two-IsValid, held_by_a-IsValid,
}

run-exclusive_example : ◌≡◌ {A = String} "A" "A"
unfolding evaluate
run-exclusive_example =
    run-exclusive clock upgraded
      (record (lock_of "L1" "A" write 1 2) { lease_expires_at = 1000003 })
      (lock_of "L2" "A" read 2 1) (inl refl) (inr (inl refl)) refl refl

poll-granted_iff_example :
    ((poll clock (at 0 "L1") (wait (ask "B" write) 1) queued_two).0
      ≡ granted (new_lock clock (at 0 "L1") (ask "B" write)))
    ↔ MayProceed clock (at 0 "L1") queued_two "f" write 1
poll-granted_iff_example =
    poll-granted_iff clock (at 0 "L1") (wait (ask "B" write) 1) queued_two tt (λ a l e. l.0)

poll_no_overtaking_example : ¬ (
    (poll clock (at 0 "L1") (wait (ask "C" read) 2) queued_two).0
    ≡ granted (lock_of "L1" "C" read 0 1))
poll_no_overtaking_example =
    poll_no_overtaking clock (at 0 "L1") (wait (ask "C" read) 2) queued_two (row_of 1 "B" write 0)
      (lock_of "L1" "C" read 0 1) (inl refl) refl (omega arith) (inl refl)

run_no_deadlock_example :
    (p : Pending) × In p (evaluate (acquires 0 0 (ask "B" write) ∷ [])).pending
    × (p.request.path ≡ "f")
    × ((poll clock (at 0 "L1") p (evaluate (acquires 0 0 (ask "B" write) ∷ [])).tables).0
        ≡ granted (new_lock clock (at 0 "L1") p.request))
unfolding evaluate
run_no_deadlock_example =
    run_no_deadlock clock (acquires 0 0 (ask "B" write) ∷ []) (at 0 "L1") (row_of 1 "B" write 0)
      (tt, tt) (inl refl) (λ a m e. m) (λ a l e. l.0)

-- B's request was queued before the restart; C's write after it waits for good.
restart_blocks_example : ¬ (
    (poll clock
      (at 9 "L1")
      (wait (ask "C" write) 3)
      (run clock
        (acquires 0 0 (ask "C" write) ∷ [])
        (step clock restarts (record { tables = queued_two; pending = [] }))).tables).0
    ≡ granted (lock_of "L1" "C" write 9 1))
unfolding evaluate
restart_blocks_example =
    (restart_blocks clock (row_of 1 "B" write 0) (record { tables = queued_two; pending = [] })
        (acquires 0 0 (ask "C" write) ∷ []) queued_two-IsValid (inl refl)).1
      (wait (ask "C" write) 3) (at 9 "L1") (lock_of "L1" "C" write 9 1) (inl refl) refl (inl refl)

step-IsValid_example :
    IsValid
      (step clock
        (polls 1 (at 0 "L1"))
        (record { tables = queued_two; pending = wait (ask "B" write) 1 ∷ [] })).tables
step-IsValid_example =
    step-IsValid clock (polls 1 (at 0 "L1"))
      (record { tables = queued_two; pending = wait (ask "B" write) 1 ∷ [] }) queued_two-IsValid

cleanup_expired_iff_example :
    In (lock_of "L1" "A" read 0 2) (cleanup_expired clock 7 8 held_by_a).locks ↔ (
      In (lock_of "L1" "A" read 0 2) held_by_a.locks
      × (lease_over clock 7 (lock_of "L1" "A" read 0 2) ≡ false)
      × (over_held clock 8 (lock_of "L1" "A" read 0 2) ≡ false))
cleanup_expired_iff_example =
    cleanup_expired_iff clock 7 8 held_by_a (lock_of "L1" "A" read 0 2) held_by_a-IsValid.distinct

release_times_lem_example :
    (1 < 2
      → (find_lock "L1" (release_times 1 "L1" "A" held_by_a)
          ≡ some (record (lock_of "L1" "A" read 0 2) { hold_count = 2 - 1 })))
    × (◌≡◌ {A = ℕ} 1 2
        → (release_times 1 "L1" "A" held_by_a).locks ≡ delete_lock "L1" held_by_a.locks)
unfolding evaluate
release_times_lem_example =
    release_times_lem 1 "L1" "A" held_by_a (lock_of "L1" "A" read 0 2) refl refl (omega arith)

-- C reads between the two statements of A's upgrade.
upgrade_race_example :
    ¬ Exclusive
      (upgrade_commit clock 5
        (ask "A" write)
        (lock_of "L1" "A" read 0 2)
        (poll clock (at 0 "L2") (wait (ask "C" read) 1) held_by_a).1).locks
unfolding evaluate upgrade_check lease_over over_held new_lock
upgrade_race_example =
    upgrade_race clock held_by_a (ask "A" write) (lock_of "L1" "A" read 0 2) 5 (at 0 "L2")
      (wait (ask "C" read) 1) (lock_of "L2" "C" read 0 1) held_by_a-IsValid.distinct refl
      (inl refl, refl, refl) refl (differ "C" "A" refl) refl

new_lock_survives_iff_example :
    In
      (new_lock clock (at 0 "L1") (ask "A" read))
      (cleanup_expired clock 7 8
        (record held_by_a { locks = new_lock clock (at 0 "L1") (ask "A" read) ∷ [] })).locks
    ↔ ((7 < 0 + 1000 * 1000) × UnderCap none 0 8)
new_lock_survives_iff_example =
    new_lock_survives_iff clock clock-IsLawful (at 0 "L1") (ask "A" read) 7 8
      (record held_by_a { locks = new_lock clock (at 0 "L1") (ask "A" read) ∷ [] })
      (λ a i. elim i [ ], tt) (inl refl)

heartbeat_outcome_example :
    (b : Bool) × (s' : Tables ℕ) × (heartbeat clock 9 10 "L1" "A" 500 held_by_a ≡ ok (b, s'))
    × (b ≡ true
        → UnderCap none 0 9
          × In (record (lock_of "L1" "A" read 0 2) { lease_expires_at = 10 + 500 * 1000 }) s'.locks)
    × (b ≡ false
        → (¬ UnderCap none 0 9) × ((a : LockInfo ℕ) → In a s'.locks → ¬ (a.lock_id ≡ "L1")))
    × SameBeside clock clock-IsLawful "L1" held_by_a s'
unfolding evaluate
heartbeat_outcome_example =
    heartbeat_outcome clock clock-IsLawful 9 10 500 0 none "L1" "A" held_by_a
      (lock_of "L1" "A" read 0 2) refl refl refl refl

release_race_example :
    ((release_times 2 "L1" "A" held_by_a).locks ≡ delete_lock "L1" held_by_a.locks)
    × (find_lock "L1" (
          release_row
            (lock_of "L1" "A" read 0 2)
            (release_row (lock_of "L1" "A" read 0 2) held_by_a))
        ≡ some (lock_of "L1" "A" read 0 0))
unfolding first String_discrete
release_race_example = release_race held_by_a "L1" (lock_of "L1" "A" read 0 2) refl refl

-- A and B read.
abbrev both_read : Tables ℕ
both_read = record held_by_a { locks = lock_of "L1" "A" read 0 1 ∷ lock_of "L2" "B" read 0 1 ∷ [] }

upgrade_waits_example :
    ((enter clock 5 (ask "A" write) both_read).0 ≡ queued 1)
    × ((later : Tables ℕ) (rd : Readings) (a l : LockInfo ℕ)
        → Distinct later.locks
        → Live clock rd later a
        → a.path ≡ "f"
        → a.owner ≡ "A"
        → ¬ (
            (poll clock rd (record { request = ask "A" write; req_id = 1; start = 5 }) later).0
            ≡ granted l))
unfolding first has_other_owner any String_discrete
upgrade_waits_example =
    upgrade_waits clock 5 5 (ask "A" write) both_read (lock_of "L1" "A" read 0 1) refl refl refl
      refl
