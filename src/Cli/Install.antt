-- ===== src/Cli/Install.antt =====
-- cli.py: the command `bundle-install`, which copies a bundle and writes the settings of the services.
pub mod Settings
pub mod Written
use Prim.Native.Char.{code}
use Prim.Native.String.{◌++◌ as ◌<>◌}
use shared_concurrency_subst.Common.{
  String, Bool, true, false, ◌||◌, List, [], ◌∷◌, Option, none, some, ◌==◌, ◌=s◌, if◌then◌else◌,
  map,
}
use shared_concurrency_subst.Effects.{runtime_error, M, ◌>>=◌, ◌>>◌, pure, raise}
use shared_concurrency_subst.Cli.Build.{Program}
use shared_concurrency_subst.Cli.Commands.{Texts}
use shared_concurrency_subst.Cli.Host.{Host, exists, query, effect, run}

-- `line.split("=", 1)`; none without a "=".
unfoldable pub split_eq : String → Option (String × String)
split_eq String.[] = none
split_eq (String.◌∷◌ c s) =
    if code c == b'='
    then some ("", s)
    else elim (split_eq s) [ none ↦ none | some (k, v) ↦ some (String.◌∷◌ c k, v) ]

-- `line.startswith("#")`
abbrev pub is_comment : String → Bool
is_comment String.[] = false
is_comment (String.◌∷◌ c s) = code c == b'#'

-- The assignment that a line makes.
unfoldable pub setting : String → Option (String × String)
unfolding split_eq
setting line = if (line =s "") || is_comment line then none else split_eq line

-- `replacements`
unfoldable pub replacement : String → List (String × String) → Option String
replacement key [] = none
replacement key ((k, v) ∷ l) = if k =s key then some v else replacement key l

abbrev assign : String → Option String → String → String
assign key none line = line
assign key (some v) line = key <> ("=" <> v)

-- The body of the loop over the lines.
unfoldable pub rewrite_line : List (String × String) → String → String
unfolding setting replacement
rewrite_line replacements line = elim (setting line) [
  | none ↦ line
  | some (key, _) ↦ assign key (replacement key replacements) line
]

pub record InstallArgs : Type 0 where
  pub prefix : String
  pub target_dir : String
  pub state_dir : String
  pub mount_dir : String
  pub start_gate : Bool

abbrev pub replacements : InstallArgs → List (String × String)
replacements a =
    ("GATE_STATE_DIR", a.state_dir)
    ∷ ("GATE_MOUNT_DIR", a.mount_dir)
    ∷ ("GATE_REPO_DIR", a.target_dir)
    ∷ []

module _ {H : Type 0} (os : Host H) (x : Texts) (splitlines : String → List String) where
  abbrev pub unlines : List String → String
  unlines [] = ""
  unlines (line ∷ lines) = line <> ("\n" <> unlines lines)

  -- `"\n".join(out_lines) + "\n"`
  abbrev pub out_text : List String → String
  out_text [] = "\n"
  out_text (line ∷ lines) = unlines (line ∷ lines)

  abbrev copy : String → String → M H (Unit {0})
  copy from to = effect os (os.copy from to)

  abbrev replace_tree : Bool → String → M H (Unit {0})
  replace_tree true dst = effect os (os.remove_tree dst)
  replace_tree false dst = pure tt

  abbrev copy_sub : Bool → String → String → M H (Unit {0})
  copy_sub false src dst = pure tt
  copy_sub true src dst = do there ← exists os dst; replace_tree there dst; copy src dst

  -- The loop over the three directories.
  unfoldable pub copy_subs : (bundle_root prefix : String) → List String → M H (Unit {0})
  copy_subs bundle_root prefix [] = pure tt
  copy_subs bundle_root prefix (sub ∷ subs) = do
    found ← exists os (x.join bundle_root sub)
    copy_sub found (x.join bundle_root sub) (x.join prefix sub)
    copy_subs bundle_root prefix subs

  -- The settings of the services.
  unfoldable pub write_settings : InstallArgs → String → M H (Unit {0})
  unfolding rewrite_line
  write_settings a path = do
    text ← query os (os.read_text path)
    effect os
        (os.write_text path (out_text (map (rewrite_line (replacements a)) (splitlines text))))

  abbrev systemctl : List String → M H (Unit {0})
  systemctl words = run os ("systemctl" ∷ words)

  abbrev start_services : Bool → M H (Unit {0})
  start_services false = pure tt
  start_services true = do
    systemctl ("enable" ∷ "--now" ∷ "gate-broker.service" ∷ [])
    systemctl ("enable" ∷ "--now" ∷ "gate-fuse.service" ∷ [])

  abbrev install_from : InstallArgs → String → Bool → M H (Unit {0})
  install_from a bundle_root false = raise runtime_error
  install_from a bundle_root true = do
    effect os (os.make_dirs a.prefix)
    effect os (os.make_dirs "/etc/gate")
    copy_subs bundle_root a.prefix ("bin" ∷ "systemd" ∷ "config" ∷ [])
    copy (x.join (x.join a.prefix "systemd") "gate-broker.service")
        "/etc/systemd/system/gate-broker.service"
    copy (x.join (x.join a.prefix "systemd") "gate-fuse.service")
        "/etc/systemd/system/gate-fuse.service"
    copy (x.join (x.join a.prefix "config") "gate.env") (x.join "/etc/gate" "gate.env")
    effect os (os.chmod (x.join (x.join a.prefix "bin") "gate") 493)
    write_settings a (x.join "/etc/gate" "gate.env")
    systemctl ("daemon-reload" ∷ [])
    start_services a.start_gate

  unfoldable pub gate_bundle_root : Program → M H String
  gate_bundle_root p =
      if p.frozen
      then pure (x.parent (x.parent p.resolved))
      else elim p.repo_root [ none ↦ raise runtime_error | some root ↦ pure root ]

  unfoldable pub bundle_install : Program → InstallArgs → M H (Unit {0})
  unfolding copy_subs write_settings gate_bundle_root
  bundle_install p a = do
    bundle_root ← gate_bundle_root p
    found ← exists os (x.join (x.join bundle_root "bin") "gate")
    install_from a bundle_root found
