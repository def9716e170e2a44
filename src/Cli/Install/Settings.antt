-- ===== src/Cli/Install/Settings.antt =====
-- The rewritten settings, read again.
use Prim.Native.Char.{Char, char, code}
use Prim.Native.String.{◌++◌ as ◌<>◌}
use Prim.Native.String.{len}
use Prim.Native.String.append
use text.Mathlib.TextLemmas.{append-eq-nil_iff}
use shared_concurrency_subst.Common.{
  ◌≡◌, refl, ap, ◌∙◌, subst, String, false, List, [], ◌∷◌, Option, none, some, arith, ◌==◌, ◌=s◌,
  inl, inr, map, Bool-cases, Option-cases,
}
use shared_concurrency_subst.Cli.Install.{split_eq, is_comment, setting, replacement, rewrite_line}

abbrev pub key_of : Option (String × String) → String
key_of none = ""
key_of (some p) = p.0

-- A "=" and what follows it.
pub assigned : (u : String) → ("" <> ("=" <> u)) ≡ String.◌∷◌ (char 61 tt) u
assigned u =
    (λ i. append.nil ("=" <> u) i)
    ∙ (λ i. append.cons (char 61 tt) "" u i)
    ∙ ap (String.◌∷◌ _) (λ i. append.nil u i)

pub joined :
    (c : Char) (j u : String) → (String.◌∷◌ c j <> ("=" <> u)) ≡ String.◌∷◌ c (j <> ("=" <> u))
joined c j u = λ i. append.cons c j ("=" <> u) i

split_eq-again :
    (line k v u : String) → split_eq line ≡ some (k, v) → split_eq (k <> ("=" <> u)) ≡ some (k, u)
unfolding split_eq
split_eq-again String.[] k v u e = cc
split_eq-again (String.◌∷◌ c s) k v u e = elim (Bool-cases (code c == b'=')) [
  | inl here ↦
      let empty : "" ≡ k = ap key_of (rw here at e) in
      subst (λ z. split_eq (z <> ("=" <> u)) ≡ some (z, u)) empty (rw (assigned u) refl)
  | inr later ↦ elim (Option-cases (split_eq s)) [
    | inl bad ↦ absurd (let f = rw (later, bad) at e in cc)
    | inr ((j, w), found) ↦
        let same : String.◌∷◌ c j ≡ k = ap key_of (rw (later, found) at e) in
        let rest = split_eq-again s j w u found in
        subst (λ z. split_eq (z <> ("=" <> u)) ≡ some (z, u)) same
          (rw (joined c j u, later, rest) refl)
  ]
]

is_comment-again :
    (line k v u : String)
    → split_eq line ≡ some (k, v)
    → is_comment line ≡ false
    → is_comment (k <> ("=" <> u)) ≡ false
unfolding split_eq
is_comment-again String.[] k v u e n = cc
is_comment-again (String.◌∷◌ c s) k v u e n = elim (Bool-cases (code c == b'=')) [
  | inl here ↦
      let empty : "" ≡ k = ap key_of (rw here at e) in
      subst (λ z. is_comment (z <> ("=" <> u)) ≡ false) empty (rw (assigned u) refl)
  | inr later ↦ elim (Option-cases (split_eq s)) [
    | inl bad ↦ absurd (let f = rw (later, bad) at e in cc)
    | inr ((j, w), found) ↦
        let same : String.◌∷◌ c j ≡ k = ap key_of (rw (later, found) at e) in
        subst (λ z. is_comment (z <> ("=" <> u)) ≡ false) same (rw (joined c j u) n)
  ]
]

not_empty : (k u : String) → ¬ ((k <> ("=" <> u)) ≡ "")
not_empty k u e =
    let h = (append-eq-nil_iff.0 e).1 in
    let g : "=" ≡ "" = (append-eq-nil_iff.0 h).0 in absurd (omega (arith, ap len g))

assigned-ne-empty : (k u : String) → ((k <> ("=" <> u)) =s "") ≡ false
assigned-ne-empty k u = ground (arith, not_empty k u)

-- The value that an assignment has after the rewriting.
abbrev pub replaced : List (String × String) → String × String → String × String
replaced rs (k, v) = elim (replacement k rs) [ none ↦ (k, v) | some u ↦ (k, u) ]

abbrev pub replaced_in :
    List (String × String) → Option (String × String) → Option (String × String)
replaced_in rs none = none
replaced_in rs (some p) = some (replaced rs p)

pub setting-split_eq :
    (line : String) (p : String × String)
    → setting line ≡ some p
    → (split_eq line ≡ some p) × (is_comment line ≡ false)
unfolding setting
setting-split_eq line p e = ground arith

setting_of :
    (line : String) (p : String × String)
    → (line =s "") ≡ false
    → is_comment line ≡ false
    → split_eq line ≡ some p
    → setting line ≡ some p
unfolding setting
setting_of line p full plain split = rw (full, plain) split

setting-rewrite_line :
    (rs : List (String × String)) (line : String)
    → setting (rewrite_line rs line) ≡ replaced_in rs (setting line)
unfolding rewrite_line
setting-rewrite_line rs line = elim (Option-cases (setting line)) [
  | inl e ↦ rw (rewrite_line, e) e
  | inr ((k, v), e) ↦ elim (Option-cases (replacement k rs)) [
    | inl kept ↦ rw (rewrite_line, e, kept, replaced) e
    | inr (u, changed) ↦
        let (split, comment) = setting-split_eq line (k, v) e in
        let again = split_eq-again line k v u split in
        let plain = is_comment-again line k v u split comment in
        let full = assigned-ne-empty k u in
        rw (rewrite_line, e, changed, replaced)
          (setting_of (k <> ("=" <> u)) (k, u) full plain again)
  ]
]

abbrev add : Option (String × String) → List (String × String) → List (String × String)
add none l = l
add (some p) l = p ∷ l

add-replaced_in :
    (rs : List (String × String)) (o : Option (String × String)) (l : List (String × String))
    → add (replaced_in rs o) (map (replaced rs) l) ≡ map (replaced rs) (add o l)
add-replaced_in rs none l = refl
add-replaced_in rs (some p) l = refl

-- The assignments of a file, in order.
unfoldable pub settings : List String → List (String × String)
settings [] = []
settings (line ∷ lines) = add (setting line) (settings lines)

-- Read back, the settings that `bundle-install` writes are those of the file that it read, in the same
-- order, with the values of the replaced keys replaced and all others kept.
pub settings-rewrite_line :
    (rs : List (String × String)) (lines : List String)
    → settings (map (rewrite_line rs) lines) ≡ map (replaced rs) (settings lines)
unfolding settings
settings-rewrite_line rs [] = refl
settings-rewrite_line rs (line ∷ lines) =
    ap (λ o. add o (settings (map (rewrite_line rs) lines))) (setting-rewrite_line rs line)
    ∙ ap (add (replaced_in rs (setting line))) (settings-rewrite_line rs lines)
    ∙ add-replaced_in rs (setting line) (settings lines)
