-- ===== src/Tests/Racing.antt =====
-- The theorems about an upgrade that sticks, about rows that vanish, about the specification and about
-- the schema, at concrete data.
use shared_concurrency_subst.Common.{ℕ, String, ◌≡◌, refl, inl, inr, [], ◌∷◌, some, true, In}
use shared_concurrency_subst.Store.Data.{read, write, LockInfo, Tables}
use shared_concurrency_subst.Store.Acquire.{
  Readings, Pending, returned, granted, hold_again, new_lock, poll,
}
use shared_concurrency_subst.Store.Release.{find_lock}
use shared_concurrency_subst.Store.Fairness.{Live}
use shared_concurrency_subst.Store.Race.{upgrade_check}
use shared_concurrency_subst.Store.Strangers.{HeldBy}
use shared_concurrency_subst.Store.Sticky.{given_back, still_write, upgrade_sticks}
use shared_concurrency_subst.Store.Vanished.{reenter_check, reenter_commit, reenter_race}
use shared_concurrency_subst.Store.Schema.{has_column, ensure_lock_columns, ensure_lock_columns_lem}
use shared_concurrency_subst.System.Spec.{Moves}
use shared_concurrency_subst.System.Refinement.{run-Moves}
use shared_concurrency_subst.Tests.Samples.{
  clock, ask, at, wait, lock_of, evaluate, upgraded, differ, held_by_a, held_by_a-IsValid,
}

-- A reads, asks for a write and gives it back.
upgrade_sticks_example :
    (find_lock "L1" (given_back clock 5 (ask "A" write) (lock_of "L1" "A" read 0 2) held_by_a)
      ≡ some (still_write clock 5 (ask "A" write) (lock_of "L1" "A" read 0 2)))
    × ((rd : Readings) (p : Pending) (l : LockInfo ℕ)
        → Live clock rd
            (given_back clock 5 (ask "A" write) (lock_of "L1" "A" read 0 2) held_by_a)
            (still_write clock 5 (ask "A" write) (lock_of "L1" "A" read 0 2))
        → p.request.path ≡ "f"
        → ¬ (
            (poll clock rd p
              (given_back clock 5 (ask "A" write) (lock_of "L1" "A" read 0 2) held_by_a)).0
            ≡ granted l))
unfolding evaluate upgrade_check
upgrade_sticks_example =
    upgrade_sticks clock 5 (ask "A" write) held_by_a (lock_of "L1" "A" read 0 2) held_by_a-IsValid
      (inl refl) refl

-- A's lease is over at the instant 1000000, when B's call is granted a write.
abbrev b_turn : Pending
b_turn = wait (ask "B" write) 1

abbrev asked_b : Tables ℕ
asked_b = record held_by_a {
  queue = record { req_id = 1; path = "f"; mode = write; owner = "B"; requested_at = 0 } ∷ [];
  last_req = 1;
}

reenter_race_example :
    (reenter_commit clock 1000001
        (ask "A" read)
        (lock_of "L1" "A" read 0 2)
        (poll clock (at 1000000 "L2") b_turn asked_b).1
      ≡ (
        returned (hold_again clock 1000001 (ask "A" read) (lock_of "L1" "A" read 0 2)),
        (poll clock (at 1000000 "L2") b_turn asked_b).1,
      ))
    × In (lock_of "L2" "B" write 1000000 1) (poll clock (at 1000000 "L2") b_turn asked_b).1.locks
    × (¬ HeldBy (poll clock (at 1000000 "L2") b_turn asked_b).1 "L1" "A")
unfolding evaluate reenter_check new_lock
reenter_race_example =
    reenter_race clock asked_b (ask "A" read) (lock_of "L1" "A" read 0 2) 1000001 (at 1000000 "L2")
      b_turn (lock_of "L2" "B" write 1000000 1) held_by_a-IsValid.distinct refl refl (inr refl)
      (differ "L2" "L1" refl) refl

-- A's history, from its two reads to its write.
run-Moves_example : Moves [] (
    record { path = "f"; mode = write; owner = "A" }
    ∷ record { path = "f"; mode = read; owner = "A" }
    ∷ [])
unfolding evaluate
run-Moves_example = run-Moves clock upgraded

-- A table of the first version.
ensure_lock_columns_lem_example :
    (has_column "max_hold_ms" (ensure_lock_columns ("lock_id" ∷ "path" ∷ [])) ≡ true)
    × (has_column "hold_count" (ensure_lock_columns ("lock_id" ∷ "path" ∷ [])) ≡ true)
    × ((name : String)
        → has_column name ("lock_id" ∷ "path" ∷ []) ≡ true
        → has_column name (ensure_lock_columns ("lock_id" ∷ "path" ∷ [])) ≡ true)
    × (ensure_lock_columns (ensure_lock_columns ("lock_id" ∷ "path" ∷ []))
        ≡ ensure_lock_columns ("lock_id" ∷ "path" ∷ []))
ensure_lock_columns_lem_example = ensure_lock_columns_lem ("lock_id" ∷ "path" ∷ [])
