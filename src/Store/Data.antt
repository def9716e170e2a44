-- ===== src/Store/Data.antt =====
-- lock_store.py: the two tables, their rows, and the texts that stand for times.
use shared_concurrency_subst.Common.{ℕ, String, Bool, List, [], Option, ◌≡◌, some, leb}

pub data Mode : Type 0 where
  read write : Mode

-- What the store uses of `datetime` and of SQLite's order of TEXT. An instant is a number of
-- microseconds; `Stamp` is the type of its texts.
pub record TimeText (Stamp : Type 0) : Type 0 where
  pub isoformat : ℕ → Stamp
  pub fromisoformat : Stamp → Option ℕ  -- `none` is a ValueError
  pub text_le : Stamp → Stamp → Bool  -- `<=` of SQLite on TEXT

-- The texts of UTC instants are ordered as the instants, and parse to them.
pub record IsLawful {Stamp : Type 0} (t : TimeText Stamp) : Type 0 where
  pub text_le-isoformat : (a b : ℕ) → t.text_le (t.isoformat a) (t.isoformat b) ≡ leb a b
  pub fromisoformat-isoformat : (a : ℕ) → t.fromisoformat (t.isoformat a) ≡ some a

-- A row of `locks`.
pub record LockInfo (Stamp : Type 0) : Type 0 where
  pub lock_id : String
  pub path : String
  pub mode : Mode
  pub owner : String
  pub acquired_at : Stamp
  pub lease_expires_at : Stamp
  pub max_hold_ms : Option ℕ
  pub hold_count : ℕ

-- A row of `queue`.
pub record QueueInfo (Stamp : Type 0) : Type 0 where
  pub req_id : ℕ
  pub path : String
  pub mode : Mode
  pub owner : String
  pub requested_at : Stamp

-- The database, its rows in the order of insertion. `last_req` is the counter of AUTOINCREMENT.
pub record Tables (Stamp : Type 0) : Type 0 where
  pub locks : List (LockInfo Stamp)
  pub queue : List (QueueInfo Stamp)
  pub last_req : ℕ

-- A new database, after `_init_schema`.
abbrev pub empty_tables : {Stamp : Type 0} → Tables Stamp
empty_tables = record { locks = []; queue = []; last_req = 0 }

-- The exceptions that reach a caller.
pub data Error : Type 0 where
  value_error permission_error integrity_error : Error

pub data Result {ℓ} (A : Type ℓ) : Type ℓ where
  ok : A → Result A
  err : Error → Result A
