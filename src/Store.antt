-- ===== src/Store.antt =====
-- lock_store.py: the tables of the lock broker and the methods of `LockStore`.
pub mod Data
pub mod Queries
pub mod Cleanup
pub mod Acquire
pub mod Release
pub mod Invariant
pub mod Fairness
pub mod Rounds
pub mod Listing
pub mod Race
pub mod Holds
pub mod Interleaved
pub mod SelfWait
pub mod Strangers
pub mod Sticky
pub mod Conflicts
pub mod Vanished
pub mod Unused
pub mod Schema
pub mod Leases
pub mod Returned
