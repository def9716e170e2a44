-- ===== src/Cli/Build/Bundles.antt =====
-- cli.py: the commands `bundle-build` and `build-binary`.
use Prim.Native.String.{◌++◌ as ◌<>◌}
use shared_concurrency_subst.Common.{String, List, [], ◌∷◌, Option, none, some, ◌=s◌, if◌then◌else◌}
use shared_concurrency_subst.Effects.{Reply, gives, fails, M, ◌>>=◌, ◌>>◌, pure, gets}
use shared_concurrency_subst.Cli.Commands.{Texts}
use shared_concurrency_subst.Cli.Host.{Host, exists, effect, say, usage_error, run, require_cmd}
use shared_concurrency_subst.Cli.Templates.{
  gate_env_template, gate_broker_service_template, gate_fuse_service_template,
}
use shared_concurrency_subst.Cli.Build.{Program}

module _ {H : Type 0} (os : Host H) (x : Texts) where
  -- `_write_file`
  unfoldable pub write_file : (path content : String) → M H (Unit {0})
  write_file path content = do
    effect os (os.make_dirs (x.parent path))
    effect os (os.write_text path content)

  -- `_load_template`
  abbrev text_or : String → Reply String → String
  text_or fallback (gives text) = text
  text_or fallback (fails _) = fallback

  unfoldable pub load_template : Option String → (file fallback : String) → M H String
  load_template none file fallback = gets (λ h. text_or fallback (os.read_text "." h))
  load_template (some dir) file fallback =
      gets (λ h. text_or fallback (os.read_text (x.join dir file) h))

  -- The binary that goes into a bundle.
  abbrev bundle_binary : Program → Option String → M H String
  bundle_binary p (some path) = pure (x.expanduser path)
  bundle_binary p none = if p.frozen then pure p.resolved else usage_error os

  abbrev systemd_of : Option String → Option String
  systemd_of none = none
  systemd_of (some root) = some (x.join (x.join (x.join root "systems") "gate_vm") "systemd")

  -- The texts of the two services and of their settings.
  unfoldable pub bundle_texts : Program → M H (String × (String × String))
  unfolding load_template
  bundle_texts p = do
    broker_service ←
        load_template (systemd_of p.repo_root) "gate-broker.service" gate_broker_service_template
    fuse_service ←
        load_template (systemd_of p.repo_root) "gate-fuse.service" gate_fuse_service_template
    gate_env ← load_template (systemd_of p.repo_root) "gate.env" gate_env_template
    pure (broker_service, (fuse_service, gate_env))

  -- The files of a bundle, in the directory that is packed.
  unfoldable pub fill_bundle :
      (tmp binary_path : String) → String × (String × String) → M H (Unit {0})
  unfolding write_file
  fill_bundle tmp binary_path (broker_service, (fuse_service, gate_env)) = do
    effect os (os.make_dirs (x.join tmp "bin"))
    effect os (os.make_dirs (x.join tmp "systemd"))
    effect os (os.make_dirs (x.join tmp "config"))
    effect os (os.copy binary_path (x.join (x.join tmp "bin") "gate"))
    effect os (os.chmod (x.join (x.join tmp "bin") "gate") 493)
    write_file (x.join (x.join tmp "systemd") "gate-broker.service") broker_service
    write_file (x.join (x.join tmp "systemd") "gate-fuse.service") fuse_service
    write_file (x.join (x.join tmp "config") "gate.env") gate_env

  -- `make_tmp` is `tempfile.TemporaryDirectory`, `tar` is `tarfile`.
  module _ (make_tmp : H → Reply String × H)
      (tar : (out dir : String) → H → Reply (Unit {0}) × H) where
    unfoldable pub bundle_build :
        Program → (binary : Option String) → (out : String) → M H (Unit {0})
    unfolding bundle_texts fill_bundle
    bundle_build p binary out = do
      binary_path ← bundle_binary p binary
      found ← exists os binary_path
      (if found then pure tt else usage_error os)
      texts ← bundle_texts p
      effect os (os.make_dirs (x.parent (x.expanduser out)))
      tmp ← effect os make_tmp
      fill_bundle tmp binary_path texts
      effect os (tar (x.expanduser out) tmp)
      say os ("Built bundle: " <> x.expanduser out)

  abbrev given_or : Option String → String → String
  given_or none d = d
  given_or (some s) d = if s =s "" then d else s

  -- The command of PyInstaller.
  unfoldable pub pyinstaller_command : (root build_dir out_dir name : String) → List String
  pyinstaller_command root build_dir out_dir name =
      x.join (x.join (x.join build_dir "venv") "bin") "python"
      ∷ "-m"
      ∷ "PyInstaller"
      ∷ "--onefile"
      ∷ "--name"
      ∷ name
      ∷ "--paths"
      ∷ x.join root "src"
      ∷ "--add-data"
      ∷ (x.join (x.join (x.join root "src") "gate") "VERSION" <> ":gate")
      ∷ "--distpath"
      ∷ out_dir
      ∷ "--workpath"
      ∷ x.join build_dir "pyinstaller"
      ∷ "--specpath"
      ∷ x.join build_dir "spec"
      ∷ x.join (x.join root "scripts") "gate_cli.py"
      ∷ []

  abbrev build_in : (root python build_dir out_dir name : String) → M H (Unit {0})
  build_in root python build_dir out_dir name = do
    let pip = x.join (x.join (x.join build_dir "venv") "bin") "pip"
    require_cmd os python
    entry ← exists os (x.join (x.join root "scripts") "gate_cli.py")
    (if entry then pure tt else usage_error os)
    effect os (os.make_dirs out_dir)
    effect os (os.make_dirs build_dir)
    run os (python ∷ "-m" ∷ "venv" ∷ x.join build_dir "venv" ∷ [])
    run os (pip ∷ "install" ∷ "--upgrade" ∷ "pip" ∷ [])
    run os (pip ∷ "install" ∷ "-r" ∷ x.join root "requirements.txt" ∷ "pyinstaller" ∷ [])
    run os (pyinstaller_command root build_dir out_dir name)
    say os ("Built binary: " <> x.join out_dir name)

  unfoldable pub build_binary :
      Program → (python : Option String) → (build_dir out_dir name : String) → M H (Unit {0})
  unfolding pyinstaller_command
  build_binary p python build_dir out_dir name = elim p.repo_root [
    | none ↦ usage_error os
    | some root ↦
        build_in root (given_or python p.executable) (x.expanduser build_dir) (x.expanduser out_dir)
          name
  ]
