-- ===== src/Store/Invariant.antt =====
-- The invariant of the tables.
pub mod Ids
pub mod Exclusion
pub mod Valid
pub mod Steps
