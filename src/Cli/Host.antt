-- ===== src/Cli/Host.antt =====
-- cli.py: what its commands use of the machine they run on.
use shared_concurrency_subst.Common.{
  ℕ, String, Bool, true, false, List, [], ◌∷◌, Option, none, some, if◌then◌else◌,
}
use shared_concurrency_subst.Effects.{
  Outcome, done, raises, os_error, runtime_error, value_error, called_process_error, system_exit,
  Reply, gives, fails, M, raise, pure, ◌>>◌,
}

pub data Signal : Type 0 where
  sigterm sigkill : Signal

-- What the helpers call: `os`, `shutil`, `subprocess`, `socket`, `pathlib` and the file /proc/mounts.
-- A program that is run is there, and a pid file that was found can be removed.
pub record Host (H : Type 0) : Type 0 where
  pub path_exists : String → H → Reply Bool
  pub make_dirs : String → H → Reply (Unit {0}) × H
  pub list_dir : String → H → Reply (List String)
  pub mounts : H → Reply (List String)  -- the lines
  pub is_in : String → String → Bool  -- `in` on texts
  pub which : String → H → Bool
  pub run_command : List String → H → Bool × H  -- false is a CalledProcessError
  pub read_pid : String → H → Option ℕ
  pub unlink : String → H → H
  pub null_signal : ℕ → H → Reply (Unit {0})  -- `os.kill(pid, 0)`
  pub kill : ℕ → Signal → H → Reply (Unit {0}) × H
  pub sleep : ℕ → H → H  -- microseconds, and what happens meanwhile
  pub monotonic : H → ℕ
  pub connect : String → ℕ → H → Bool × H  -- false is an OSError
  pub resolve : String → H → Option String
  pub parents : String → List String
  pub remove_entry : String → H → Reply (Unit {0}) × H  -- `rmtree` or `unlink`
  pub dir_entries : String → H → Option (List (String × Bool))  -- with `is_dir`
  pub is_file : String → H → Bool
  pub is_dir : String → H → Bool
  pub read_text : String → H → Reply String
  pub write_text : String → String → H → Reply (Unit {0}) × H
  pub remove_tree : String → H → Reply (Unit {0}) × H
  pub copy : String → String → H → Reply (Unit {0}) × H  -- of a file or a tree
  pub chmod : String → ℕ → H → Reply (Unit {0}) × H
  pub open_log : String → H → Reply (Unit {0}) × H  -- `open(path, "a")`
  pub spawn : (cmd : List String) (log : String) → H → Reply ℕ × H  -- `Popen`, and the pid
  pub run_logged : (cmd : List String) (log : String) → H → Bool × H
  -- With its lines of output, which go to the log as well.
  pub run_piped : (cmd : List String) (log : String) → H → (List String × Bool) × H
  pub urlopen : String → H → Reply (List String)  -- the chunks that `read` gives
  pub print : String → H → H

module _ {H : Type 0} (os : Host H) where
  abbrev pub reply_outcome : {A : Type 0} → Reply A → Outcome A
  reply_outcome (gives a) = done a
  reply_outcome (fails e) = raises (os_error e)

  abbrev pub ran : Bool → Outcome (Unit {0})
  ran true = done tt
  ran false = raises called_process_error

  abbrev pub run : List String → M H (Unit {0})
  run cmd h = let r = os.run_command cmd h in (ran r.0, r.1)

  -- A call of `os` that may raise an OSError.
  abbrev pub effect : {A : Type 0} → (H → Reply A × H) → M H A
  effect f h = let r = f h in (reply_outcome r.0, r.1)

  abbrev pub query : {A : Type 0} → (H → Reply A) → M H A
  query f h = (reply_outcome (f h), h)

  abbrev pub exists : String → M H Bool
  exists path = query (os.path_exists path)

  abbrev pub unlink : String → M H (Unit {0})
  unlink path h = (done tt, os.unlink path h)

  abbrev pub say : String → M H (Unit {0})
  say line h = (done tt, os.print line h)

  -- `path.parent`
  abbrev pub parent : String → String
  parent path = elim (os.parents path) [ [] ↦ path | p ∷ _ ↦ p ]

  abbrev pub open_log : String → M H (Unit {0})
  open_log log = do effect (os.make_dirs (parent log)); effect (os.open_log log)

  abbrev pub print_all : List String → H → H
  print_all [] h = h
  print_all (line ∷ lines) h = print_all lines (os.print line h)

  -- `if verbose`, in `_run_logged`
  abbrev pub run_copied : Bool → List String → String → M H (Unit {0})
  run_copied true cmd log h = let r = os.run_piped cmd log h in (ran r.0.1, print_all r.0.0 r.1)
  run_copied false cmd log h = let r = os.run_logged cmd log h in (ran r.0, r.1)

  abbrev pub run_logged : List String → String → Bool → M H (Unit {0})
  run_logged cmd log verbose = do open_log log; run_copied verbose cmd log

  abbrev pub run_background_pid : List String → String → M H ℕ
  run_background_pid cmd log = do open_log log; effect (os.spawn cmd log)

  abbrev pub run_background : List String → String → M H (Unit {0})
  run_background cmd log = do open_log log; effect (os.spawn cmd log); pure tt

  abbrev pub answered : {A : Type 0} → Reply A → Bool
  answered (gives a) = true
  answered (fails e) = false

  -- Every exception of the call is caught.
  abbrev pub is_pid_running : ℕ → H → Bool
  is_pid_running pid h = answered (os.null_signal pid h)

  -- `_require_cmd`
  unfoldable pub require_cmd : String → M H (Unit {0})
  require_cmd name h = if os.which name h then (done tt, h) else (raises runtime_error, h)

  -- `int(path.read_text().strip())`
  abbrev pub pid_in : String → M H ℕ
  pid_in file h = elim (os.read_pid file h) [
    | none ↦ (raises value_error, h)
    | some pid ↦ (done pid, h)
  ]

  -- `parser.error`
  abbrev pub usage_error : {A : Type 0} → M H A
  usage_error = raise system_exit

  abbrev pub signal : ℕ → Signal → M H (Unit {0})
  signal pid which = effect (os.kill pid which)

  abbrev pub wait : ℕ → M H (Unit {0})
  wait us h = (done tt, os.sleep us h)
