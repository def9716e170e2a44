-- ===== src/Cli/Install/Written.antt =====
-- The file of settings that `bundle-install` writes, read again.
use Prim.Native.Char.{Char, char, code}
use Prim.Native.String.{◌++◌ as ◌<>◌}
use shared_concurrency_subst.Common.{
  ◌≡◌, refl, sym, ap, ◌∙◌, subst, String, Bool, true, ◌&&◌, List, [], ◌∷◌, some, arith, ◌==◌, inl,
  inr, map, In, String_discrete, Bool-cases, Option-cases,
}
use shared_concurrency_subst.Effects.{gives}
use shared_concurrency_subst.Cli.Commands.{Texts}
use shared_concurrency_subst.Cli.Host.{Host, effect}
use shared_concurrency_subst.Cli.Install.{
  InstallArgs, split_eq, setting, replacement, replacements, rewrite_line, unlines, out_text,
  write_settings,
}
use shared_concurrency_subst.Cli.Install.Settings.{
  key_of, assigned, joined, settings, replaced, settings-rewrite_line, setting-split_eq,
}

-- A text without a boundary of lines.
unfoldable pub plain : (Char → Bool) → String → Bool
plain inside String.[] = true
plain inside (String.◌∷◌ c s) = inside c && plain inside s

-- `str.splitlines`, where `inside` tells the characters that are no boundary of lines: "\n" ends a line.
pub record IsSplitting (splitlines : String → List String) (inside : Char → Bool) : Type 0 where
  pub nothing : splitlines "" ≡ []
  pub at_break :
      (line rest : String)
      → plain inside line ≡ true
      → splitlines (line <> ("\n" <> rest)) ≡ line ∷ splitlines rest
  pub lines_plain : (text line : String) → In line (splitlines text) → plain inside line ≡ true
  pub equals_inside : inside (char 61 tt) ≡ true

module _ (splitlines : String → List String) (inside : Char → Bool)
    (law : IsSplitting splitlines inside) where
  plain_key :
      (line k v : String)
      → split_eq line ≡ some (k, v)
      → plain inside line ≡ true
      → plain inside k ≡ true
  unfolding split_eq plain
  plain_key String.[] k v e p = cc
  plain_key (String.◌∷◌ c s) k v e p = elim (Bool-cases (code c == b'=')) [
    | inl here ↦
        let empty : "" ≡ k = ap key_of (rw here at e) in
        subst (λ z. plain inside z ≡ true) empty refl
    | inr later ↦ elim (Option-cases (split_eq s)) [
      | inl bad ↦ absurd (let f = rw (later, bad) at e in cc)
      | inr ((j, w), found) ↦
          let same : String.◌∷◌ c j ≡ k = ap key_of (rw (later, found) at e) in
          let first : inside c ≡ true = ground arith in
          let others : plain inside s ≡ true = ground arith in
          subst (λ z. plain inside z ≡ true) same (rw (first, plain_key s j w found others) refl)
    ]
  ]

  plain_assigned :
      (k v : String)
      → plain inside k ≡ true
      → plain inside v ≡ true
      → plain inside (k <> ("=" <> v)) ≡ true
  unfolding plain
  plain_assigned String.[] v p q = rw (assigned v, law.equals_inside) q
  plain_assigned (String.◌∷◌ c k) v p q =
      let first : inside c ≡ true = ground arith in
      let others : plain inside k ≡ true = ground arith in
      rw (joined c k v, first) (plain_assigned k v others q)

  rewrite_line-plain :
      (rs : List (String × String)) (line : String)
      → ((k v : String) → replacement k rs ≡ some v → plain inside v ≡ true)
      → plain inside line ≡ true
      → plain inside (rewrite_line rs line) ≡ true
  unfolding rewrite_line
  rewrite_line-plain rs line values p = elim (Option-cases (setting line)) [
    | inl e ↦ rw (rewrite_line, e) p
    | inr ((k, v), e) ↦ elim (Option-cases (replacement k rs)) [
      | inl kept ↦ rw (rewrite_line, e, kept) p
      | inr (u, changed) ↦
          rw (rewrite_line, e, changed)
            (plain_assigned k u (plain_key line k v (setting-split_eq line (k, v) e).0 p)
              (values k u changed))
    ]
  ]

  replacements-plain :
      (a : InstallArgs)
      → plain inside a.state_dir ≡ true
      → plain inside a.mount_dir ≡ true
      → plain inside a.target_dir ≡ true
      → (k v : String) → replacement k (replacements a) ≡ some v
      → plain inside v ≡ true
  unfolding replacement
  replacements-plain a state mount target k v e = ground (arith, state, mount, target, e)

  module _ {H : Type 0} (os : Host H) (x : Texts) where
    splitlines-unlines :
        (ls : List String)
        → ((l : String) → In l ls → plain inside l ≡ true)
        → splitlines (unlines os x splitlines ls) ≡ ls
    splitlines-unlines [] p = law.nothing
    splitlines-unlines (l ∷ ls) p =
        law.at_break l (unlines os x splitlines ls) (p l (inl refl))
        ∙ ap (λ m. l ∷ m) (splitlines-unlines ls (λ k i. p k (inr i)))

    settings-out_text :
        (ls : List String)
        → ((l : String) → In l ls → plain inside l ≡ true)
        → settings (splitlines (out_text os x splitlines ls)) ≡ settings ls
    unfolding settings setting plain String_discrete
    settings-out_text [] p = ap settings (law.at_break "" "" refl ∙ ap (λ m. "" ∷ m) law.nothing)
    settings-out_text (l ∷ ls) p = ap settings (splitlines-unlines (l ∷ ls) p)

    map-plain :
        (rs : List (String × String)) (ls : List String)
        → ((k v : String) → replacement k rs ≡ some v → plain inside v ≡ true)
        → ((l : String) → In l ls → plain inside l ≡ true)
        → (l : String) → In l (map (rewrite_line rs) ls)
        → plain inside l ≡ true
    map-plain rs [] values p l i = elim i [ ]
    map-plain rs (a ∷ ls) values p l (inl e) =
        subst (λ z. plain inside z ≡ true) (sym e) (rewrite_line-plain rs a values (p a (inl refl)))
    map-plain rs (a ∷ ls) values p l (inr i) = map-plain rs ls values (λ k j. p k (inr j)) l i

    -- `bundle-install` reads the file of settings and writes one text to it. If the directories that it
    -- was given hold no boundary of lines, the settings in that text are those of the old text, in the
    -- same order, with the values of the replaced keys replaced and all others kept.
    pub write_settings-settings :
        (a : InstallArgs) (path text : String) (h : H)
        → os.read_text path h ≡ gives text
        → plain inside a.state_dir ≡ true
        → plain inside a.mount_dir ≡ true
        → plain inside a.target_dir ≡ true
        → (new : String) × (write_settings os x splitlines a path h
            ≡ effect os (os.write_text path new) h)
          × (settings (splitlines new)
              ≡ map (replaced (replacements a)) (settings (splitlines text)))
    unfolding write_settings
    write_settings-settings a path text h reads state mount target =
        let values = replacements-plain a state mount target in
        let lines = map (rewrite_line (replacements a)) (splitlines text) in
        (
          out_text os x splitlines lines,
          rw reads refl,
          settings-out_text lines
                (map-plain (replacements a) (splitlines text) values (law.lines_plain text))
              ∙ settings-rewrite_line (replacements a) (splitlines text),
        )
