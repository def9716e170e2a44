-- ===== src/Fuse/World.antt =====
-- fuse_fs.py: the state of a mount, and what it calls. One operation runs at a time.
use shared_concurrency_subst.Common.{
  ℕ, String, Bool, List, [], ◌∷◌, Option, none, some, ◌==◌, if◌then◌else◌,
}
use shared_concurrency_subst.Effects.{Outcome, Reply}

-- `LockBrokerClient`, over the state of whatever answers it.
pub record LockService (S : Type 0) : Type 0 where
  pub acquire :
      (path mode owner : String) (timeout_ms : Option ℕ) (lease_ms : ℕ) (max_hold_ms : Option ℕ)
      → S
      → Outcome String × S  -- the key of the lock
  pub release : (lock_id owner : String) → S → Outcome (Unit {0}) × S
  pub heartbeat : (lock_id owner : String) (lease_ms : ℕ) → S → Outcome (Unit {0}) × S

pub data Syscall : Type 0 where
  chmod : String → ℕ → Syscall
  chown : String → ℕ → ℕ → Syscall
  mknod : String → ℕ → ℕ → Syscall
  rmdir unlink : String → Syscall
  mkdir : String → ℕ → Syscall
  utime : String → Option (ℕ × ℕ) → Syscall
  truncate : String → ℕ → Syscall  -- `open(…, "r+b")`, then `truncate`
  symlink rename link : String → String → Syscall
  lstat statvfs : String → Syscall  -- the values of the keys that are passed on
  seek_read : ℕ → ℕ → ℕ → Syscall  -- descriptor, offset, length
  seek_write : ℕ → ℕ → List ℕ → Syscall
  close : ℕ → Syscall

-- The calls of `os`. A reply is a number or bytes.
pub record Kernel (K : Type 0) : Type 0 where
  pub open_file : String → ℕ → Option ℕ → K → Reply ℕ × K
  pub call : Syscall → K → Reply (List ℕ) × K
  pub access : String → ℕ → K → Bool
  pub is_dir : String → K → Bool
  pub list_dir : String → K → Reply (List String)
  pub read_link : String → K → Reply String

-- The constants of `os` and the path functions that the mount uses, and `uuid4().hex`.
pub record Platform : Type 0 where
  pub o_wronly : ℕ
  pub o_rdwr : ℕ
  pub o_trunc : ℕ
  pub o_append : ℕ
  pub o_creat : ℕ
  pub join : String → String → String
  pub relpath : String → String → String
  pub hex : ℕ → String

-- What `__init__` stores and nothing changes, and GATE_RELEASE_ON_FLUSH.
pub record Mount : Type 0 where
  pub root : String
  pub owner : String
  pub lease_ms : ℕ
  pub acquire_timeout_ms : Option ℕ
  pub max_hold_ms : Option ℕ
  pub release_on_flush : Bool

-- A Python dict from file handles.
module _ {ℓ} {V : Type ℓ} where
  unfoldable pub dict_get : ℕ → List (ℕ × V) → Option V
  dict_get k [] = none
  dict_get k ((j, v) ∷ d) = if j == k then some v else dict_get k d

  unfoldable pub dict_set : ℕ → V → List (ℕ × V) → List (ℕ × V)
  dict_set k v [] = (k, v) ∷ []
  dict_set k v ((j, w) ∷ d) = if j == k then (j, v) ∷ d else (j, w) ∷ dict_set k v d

  -- The dict after `pop(k, None)`.
  unfoldable pub dict_remove : ℕ → List (ℕ × V) → List (ℕ × V)
  dict_remove k [] = []
  dict_remove k ((j, v) ∷ d) = if j == k then d else (j, v) ∷ dict_remove k d

-- The mount's variables, the number of tokens made, and the two outside states.
pub record World (S K : Type 0) : Type 0 where
  pub next_fh : ℕ
  pub handle_locks : List (ℕ × String)
  pub handle_paths : List (ℕ × String)
  pub handle_fds : List (ℕ × ℕ)
  pub handle_owners : List (ℕ × String)
  pub tokens : ℕ
  pub service : S
  pub kernel : K
