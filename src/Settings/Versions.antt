-- ===== src/Settings/Versions.antt =====
-- What the version functions give.
use Prim.Native.String.{◌++◌ as ◌<>◌}
use Prim.Native.String.{len}
use text.Mathlib.TextLemmas.{append-eq-nil_iff}
use shared_concurrency_subst.Common.{
  ◌≡◌, ap, inl, inr, String, Option, none, some, arith, Option-cases,
}
use shared_concurrency_subst.Settings.{non_empty, Sources, under_root, get_version}

non_empty-named : (o : Option String) (v : String) → non_empty o ≡ some v → ¬ (v ≡ "")
non_empty-named none v e = cc
non_empty-named (some s) v e = ground arith

under_root-named : (s : Sources) (root : Option String) → ¬ (under_root s root ≡ "")
under_root-named s none e = omega (arith, ap len e)
under_root-named s (some root) e = elim (Option-cases (non_empty (s.version_file root))) [
  | inr (v, h) ↦ non_empty-named (s.version_file root) v h (rw (under_root, h) at e)
  | inl h ↦ elim (Option-cases (non_empty (s.git_sha root))) [
    | inr (v, g) ↦
        let empty : ("dev-" <> v) ≡ "" = rw (under_root, h, g) at e in
        omega (arith, ap len (append-eq-nil_iff.0 empty).0)
    | inl g ↦ let empty : "unknown" ≡ "" = rw (under_root, h, g) at e in omega (arith, ap len empty)
  ]
]

-- The version that is shown is never the empty text, whichever source it comes from.
pub get_version_named : (s : Sources) (root : Option String) → ¬ (get_version s root ≡ "")
unfolding get_version
get_version_named s root e = elim (Option-cases (non_empty s.gate_version)) [
  | inr (v, h) ↦ non_empty-named s.gate_version v h (rw (get_version, h) at e)
  | inl h ↦ elim (Option-cases (non_empty s.resource)) [
    | inr (v, g) ↦ non_empty-named s.resource v g (rw (get_version, h, g) at e)
    | inl g ↦ under_root-named s root (rw (get_version, h, g) at e)
  ]
]
