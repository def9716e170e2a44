-- ===== src/Tests/Splitting.antt =====
-- The theorem about the settings of `bundle-install`, with lines that end at "\n" only.
use Prim.Native.Char.{Char, char, code}
use Prim.Native.String.{◌++◌ as ◌<>◌}
use Prim.Native.String.append
use shared_concurrency_subst.Common.{
  ◌≡◌, refl, ap, ◌∙◌, String, Bool, true, false, not, List, [], ◌∷◌, arith, ◌==◌, inl, inr, map, In,
  Bool-cases, if◌then◌else◌,
}
use shared_concurrency_subst.Effects.{gives}
use shared_concurrency_subst.Cli.Host.{effect}
use shared_concurrency_subst.Cli.Install.{InstallArgs, replacements, write_settings}
use shared_concurrency_subst.Cli.Install.Settings.{settings, replaced}
use shared_concurrency_subst.Cli.Install.Written.{plain, IsSplitting, write_settings-settings}
use shared_concurrency_subst.Tests.Running.{host, texts}

abbrev before : Char → List String → List String
before c [] = String.◌∷◌ c "" ∷ []
before c (l ∷ ls) = String.◌∷◌ c l ∷ ls

unfoldable lines : String → List String
lines String.[] = []
lines (String.◌∷◌ c s) = if code c == 10 then "" ∷ lines s else before c (lines s)

abbrev inside : Char → Bool
inside c = not (code c == 10)

broken : (u : String) → ("" <> ("\n" <> u)) ≡ String.◌∷◌ (char 10 tt) u
broken u =
    (λ i. append.nil ("\n" <> u) i)
    ∙ (λ i. append.cons (char 10 tt) "" u i)
    ∙ ap (String.◌∷◌ _) (λ i. append.nil u i)

later :
    (c : Char) (j u : String) → (String.◌∷◌ c j <> ("\n" <> u)) ≡ String.◌∷◌ c (j <> ("\n" <> u))
later c j u = λ i. append.cons c j ("\n" <> u) i

lines-at_break :
    (line rest : String)
    → plain inside line ≡ true
    → lines (line <> ("\n" <> rest)) ≡ line ∷ lines rest
unfolding lines plain
lines-at_break String.[] rest p = rw (broken rest) refl
lines-at_break (String.◌∷◌ c s) rest p =
    let here : (code c == 10) ≡ false = ground arith in
    let others : plain inside s ≡ true = ground arith in
    rw (later c s rest, here, lines-at_break s rest others) refl

before-plain :
    (c : Char) (ls : List String)
    → inside c ≡ true
    → ((l : String) → In l ls → plain inside l ≡ true)
    → (l : String) → In l (before c ls)
    → plain inside l ≡ true
unfolding plain
before-plain c [] here p l (inl e) = rw (e, here) refl
before-plain c [] here p l (inr i) = absurd i
before-plain c (k ∷ ls) here p l (inl e) = rw (e, here) (p k (inl refl))
before-plain c (k ∷ ls) here p l (inr i) = p l (inr i)

lines-plain : (text line : String) → In line (lines text) → plain inside line ≡ true
unfolding lines plain
lines-plain String.[] line i = elim i [ ]
lines-plain (String.◌∷◌ c s) line i = elim (Bool-cases (code c == 10)) [
  | inl end ↦ elim (rw end at i) [ inl e ↦ rw e refl | inr j ↦ lines-plain s line j ]
  | inr on ↦ before-plain c (lines s) (rw on refl) (λ l. lines-plain s l) line (rw on at i)
]

lines-IsSplitting : IsSplitting lines inside
unfolding lines
lines-IsSplitting = record {
  nothing = refl;
  at_break = lines-at_break;
  lines_plain = lines-plain;
  equals_inside = refl;
}

abbrev given : InstallArgs
given = record {
  prefix = "/opt/gate";
  target_dir = "/t";
  state_dir = "/s";
  mount_dir = "/m";
  start_gate = true;
}

write_settings-settings_example :
    (new : String) × (write_settings
        (record host { read_text = λ path h. gives "GATE_STATE_DIR=/a\nB=1\n" })
        texts
        lines
        given
        "/e"
        (0, true)
      ≡ effect host (host.write_text "/e" new) (0, true))
    × (settings (lines new)
        ≡ map (replaced (replacements given)) (settings (lines "GATE_STATE_DIR=/a\nB=1\n")))
unfolding plain
write_settings-settings_example =
    write_settings-settings lines inside lines-IsSplitting
      (record host { read_text = λ path h. gives "GATE_STATE_DIR=/a\nB=1\n" }) texts given "/e"
      "GATE_STATE_DIR=/a\nB=1\n" (0, true) refl refl refl refl
