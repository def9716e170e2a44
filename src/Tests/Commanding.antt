-- ===== src/Tests/Commanding.antt =====
-- The theorems about the command line's helpers and the settings, at concrete data.
use shared_concurrency_subst.Common.{
  ℕ, ◌+◌, ◌-◌, ◌*◌, ◌<◌, ◌⊎◌, ◌≡◌, refl, String, Bool, true, false, [], ◌∷◌, some, arith, In, ltb,
  ◌=s◌, String_discrete, any, if◌then◌else◌,
}
use shared_concurrency_subst.Effects.{done, raises, runtime_error, gives}
use shared_concurrency_subst.Cli.Commands.{Texts}
use shared_concurrency_subst.Cli.Host.{Host}
use shared_concurrency_subst.Cli.Mounts.{safe_clear_dir, clear_entries}
use shared_concurrency_subst.Cli.Ends.{IsTimed, wait_for_port_ends}
use shared_concurrency_subst.Cli.Waits.{wait_for_port}
use shared_concurrency_subst.Cli.Guards.{safe_clear_dir_guarded}

-- The time in microseconds, and whether the pid file is there.
abbrev Machine : Type 0
Machine = ℕ × Bool

-- The state directory has one entry, "/s/vm/x"; the port opens after a second.
abbrev host : Host Machine
host = record {
  path_exists = λ path h. gives h.1;
  make_dirs = λ path h. (gives tt, h);
  list_dir = λ path h. gives (if path =s "/s/vm" then "/s/vm/x" ∷ [] else []);
  mounts = λ h. gives ("gate /m fuse" ∷ []);
  is_in = λ path line. false;
  which = λ name h. true;
  run_command = λ cmd h. (true, h);
  read_pid = λ file h. some 7;
  unlink = λ file h. (h.0, false);
  null_signal = λ pid h. gives tt;
  kill = λ pid which h. (gives tt, h);
  sleep = λ us h. (h.0 + us, h.1);
  monotonic = λ h. h.0;
  connect = λ name port h. (ltb 1000000 h.0, h);
  resolve = λ path h. some path;
  parents = λ path. if path =s "/s/vm" then "/s" ∷ "/" ∷ [] else [];
  remove_entry = λ entry h. (gives tt, (h.0 + 1, h.1));
  dir_entries = λ path h. some (("vm", true) ∷ []);
  is_file = λ path h. true;
  is_dir = λ path h. true;
  read_text = λ path h. gives "7";
  write_text = λ path text h. (gives tt, h);
  remove_tree = λ path h. (gives tt, h);
  copy = λ from to h. (gives tt, h);
  chmod = λ path mode h. (gives tt, h);
  open_log = λ log h. (gives tt, h);
  spawn = λ cmd log h. (gives 7, h);
  run_logged = λ cmd log h. (true, h);
  run_piped = λ cmd log h. (([], true), h);
  urlopen = λ url h. gives [];
  print = λ line h. h;
}

host-IsTimed : IsTimed host
host-IsTimed = record {
  connecting = λ name port h. omega arith;
  making = λ path h. omega arith;
  opening = λ log h. omega arith;
  running = λ cmd log h. omega arith;
  piping = λ cmd log h. omega arith;
  printing = λ line h. omega arith;
  sleeping = λ us h. omega arith;
}

wait_for_port_ends_example :
    ((k : Machine) × ((host.connect "h" 22 k).0 ≡ true)
      × (wait_for_port host 10 "h" 22 2 (0, true) ≡ (some (done tt), (host.connect "h" 22 k).1)))
    ⊎ ((k : Machine) × (2 * 1000000 < host.monotonic k - host.monotonic (0, true))
        × (wait_for_port host 10 "h" 22 2 (0, true) ≡ (some (raises runtime_error), k)))
wait_for_port_ends_example = wait_for_port_ends host "h" 22 2 9 (0, true) host-IsTimed (omega arith)

abbrev texts : Texts
texts = record {
  str = λ n. "22";
  join = λ a b. a;
  suffix = λ a. "";
  without_suffix = λ a. a;
  expanduser = λ a. a;
  quote = λ a. a;
  strip = λ a. a;
  parent = λ a. a;
  replace = λ a b text. text;
}

-- The one entry is removed.
cleared : (safe_clear_dir host "/s/vm" "/s" (0, true)).1 ≡ (1, true)
unfolding safe_clear_dir clear_entries String_discrete any
cleared = refl

safe_clear_dir_guarded_example :
    (p : String) × (r : String) × (host.resolve "/s/vm" (0, true) ≡ some p)
    × (host.resolve "/s" (0, true) ≡ some r)
    × In r (host.parents p)
    × ¬ (p ≡ r)
safe_clear_dir_guarded_example =
    safe_clear_dir_guarded host "/s/vm" "/s" (0, true) (λ e. ground (arith, cleared))
