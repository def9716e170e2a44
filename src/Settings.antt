-- ===== src/Settings.antt =====
-- config.py and version.py: settings from the environment, and the version that is shown.
pub mod Versions
use Prim.Native.String.{◌++◌ as ◌<>◌}
use shared_concurrency_subst.Common.{
  ℕ, String, Bool, List, [], ◌∷◌, Option, none, some, ◌=s◌, if◌then◌else◌,
}
use shared_concurrency_subst.Broker.{Config}

-- `_parse_timeout`: `int` is Python's, none on a ValueError.
unfoldable pub parse_timeout : (String → Option ℕ) → Option String → Option ℕ
parse_timeout int none = none
parse_timeout int (some value) = int value

abbrev env_or : Option String → String → String
env_or none d = d
env_or (some v) d = v

-- The environment's variables that the broker's defaults read.
pub record Environment : Type 0 where
  pub gate_lease_ms : Option String
  pub gate_max_hold_ms : Option String
  pub gate_acquire_timeout_ms : Option String

-- `BrokerConfig()`: none if `int` fails on GATE_LEASE_MS, which stops the import.
unfoldable pub default_config : (String → Option ℕ) → Environment → Option Config
unfolding parse_timeout
default_config int env = elim (int (env_or env.gate_lease_ms "3600000")) [
  | none ↦ none
  | some lease ↦ some (record {
    lease_ms = lease;
    max_hold_ms = parse_timeout int (some (env_or env.gate_max_hold_ms "3600000"));
    acquire_timeout_ms = parse_timeout int env.gate_acquire_timeout_ms;
  })
]

-- `data or None`
abbrev pub non_empty : Option String → Option String
non_empty none = none
non_empty (some s) = if s =s "" then none else some s

-- `_find_repo_root`: the first of the file and its parents that holds the marker.
unfoldable pub find_repo_root : (String → Bool) → List String → Option String
find_repo_root has_marker [] = none
find_repo_root has_marker (p ∷ ps) = if has_marker p then some p else find_repo_root has_marker ps

-- What the version functions read: the stripped texts of the package's file and, under a root, of
-- VERSION and of `git rev-parse`; none where it is missing or fails.
pub record Sources : Type 0 where
  pub gate_version : Option String
  pub resource : Option String
  pub version_file : String → Option String
  pub git_sha : String → Option String

-- The part of `get_version` under a root.
abbrev pub under_root : Sources → Option String → String
under_root s none = "unknown"
under_root s (some root) = elim (non_empty (s.version_file root)) [
  | some v ↦ v
  | none ↦ elim (non_empty (s.git_sha root)) [ some sha ↦ "dev-" <> sha | none ↦ "unknown" ]
]

unfoldable pub get_version : Sources → Option String → String
get_version s root = elim (non_empty s.gate_version) [
  | some v ↦ v
  | none ↦ elim (non_empty s.resource) [ some v ↦ v | none ↦ under_root s root ]
]
