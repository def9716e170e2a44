-- ===== src/Common/Rows.antt =====
-- Tables as lists of rows: selection, update, membership.
use Prim.Native.Nat.{ℕ, suc}
use mathlib.Core.Path.{◌≡◌, refl}
use mathlib.Core.Logic.{◌⊎◌, inl, inr}
use mathlib.Core.Bool.{Bool, true, false, ◌||◌}
use mathlib.Core.Option.{Option, none, some}
use mathlib.Core.List.{List, [], ◌∷◌, ◌++◌}
use native.Mathlib.Omega.{arith}
use shared_concurrency_subst.Common.Tests.{if◌then◌else◌, Bool-cases}

module _ {ℓ} {A : Type ℓ} where
  abbrev pub length : List A → ℕ
  length [] = 0
  length (x ∷ xs) = suc (length xs)

  -- The rows that meet a condition, in order.
  unfoldable pub select : (A → Bool) → List A → List A
  select p [] = []
  select p (x ∷ xs) = if p x then x ∷ select p xs else select p xs

  -- `SELECT … LIMIT 1`.
  unfoldable pub first : (A → Bool) → List A → Option A
  first p [] = none
  first p (x ∷ xs) = if p x then some x else first p xs

  -- Is there a row that meets the condition?
  unfoldable pub any : (A → Bool) → List A → Bool
  any p [] = false
  any p (x ∷ xs) = if p x then true else any p xs

  -- `UPDATE … SET f WHERE p`.
  unfoldable pub update : (A → Bool) → (A → A) → List A → List A
  update p f [] = []
  update p f (x ∷ xs) = (if p x then f x else x) ∷ update p f xs

-- Membership by recursion, which computes to sums.
module _ {A : Type 0} where
  abbrev pub In : A → List A → Type 0
  In a [] = ⊥
  In a (x ∷ xs) = (a ≡ x) ⊎ In a xs

  pub In-append : (a : A) (xs ys : List A) → In a (xs ++ ys) → In a xs ⊎ In a ys
  In-append a [] ys m = inr m
  In-append a (x ∷ xs) ys (inl e) = inl (inl e)
  In-append a (x ∷ xs) ys (inr m) = elim (In-append a xs ys m) [
    | inl l ↦ inl (inr l)
    | inr r ↦ inr r
  ]

  pub In-append_left : (a : A) (xs ys : List A) → In a xs → In a (xs ++ ys)
  In-append_left a (x ∷ xs) ys (inl e) = inl e
  In-append_left a (x ∷ xs) ys (inr m) = inr (In-append_left a xs ys m)
  In-append_left a [] ys m = elim m [ ]

  pub In-append_right : (a : A) (xs ys : List A) → In a ys → In a (xs ++ ys)
  In-append_right a [] ys m = m
  In-append_right a (x ∷ xs) ys m = inr (In-append_right a xs ys m)

  module _ (p : A → Bool) where
    pub In-select : (a : A) (xs : List A) → In a (select p xs) → In a xs × (p a ≡ true)
    unfolding select
    In-select a [] m = elim m [ ]
    In-select a (x ∷ xs) m = ground (arith, In-select a xs)

    pub select-In : (a : A) (xs : List A) → In a xs → p a ≡ true → In a (select p xs)
    unfolding select
    select-In a [] m h = elim m [ ]
    select-In a (x ∷ xs) m h = ground (arith, select-In a xs)

    pub first-In : (a : A) (xs : List A) → first p xs ≡ some a → In a xs × (p a ≡ true)
    unfolding first
    first-In a [] e = cc
    first-In a (x ∷ xs) e = ground (arith, first-In a xs)

    pub first-none : (a : A) (xs : List A) → first p xs ≡ none → In a xs → p a ≡ false
    unfolding first
    first-none a [] e m = elim m [ ]
    first-none a (x ∷ xs) e m = ground (arith, first-none a xs)

    pub any-In : (xs : List A) → any p xs ≡ true → (a : A) × In a xs × (p a ≡ true)
    unfolding any
    any-In [] e = cc
    any-In (x ∷ xs) e = elim (Bool-cases (p x)) [
      | inl hit ↦ (x, inl refl, hit)
      | inr miss ↦ let (a, m, h) = any-In xs (ground arith) in (a, inr m, h)
    ]

    pub any-false : (a : A) (xs : List A) → any p xs ≡ false → In a xs → p a ≡ false
    unfolding any
    any-false a [] e m = elim m [ ]
    any-false a (x ∷ xs) e m = ground (arith, any-false a xs)

    pub any-eq-false : (xs : List A) → ((a : A) → In a xs → p a ≡ false) → any p xs ≡ false
    unfolding any
    any-eq-false [] h = refl
    any-eq-false (x ∷ xs) h = ground (arith, h x (inl refl), any-eq-false xs (λ a m. h a (inr m)))

    -- A row of an updated table is an old row that the condition leaves, or the image of one.
    pub In-update :
        (f : A → A) (b : A) (xs : List A)
        → In b (update p f xs)
        → (a : A) × In a xs × (b ≡ (if p a then f a else a))
    unfolding update
    In-update f b [] m = elim m [ ]
    In-update f b (x ∷ xs) (inl e) = (x, inl refl, e)
    In-update f b (x ∷ xs) (inr m) = let (a, k, e) = In-update f b xs m in (a, inr k, e)

    pub update-In :
        (f : A → A) (a : A) (xs : List A) → In a xs → In (if p a then f a else a) (update p f xs)
    unfolding update
    update-In f a [] m = elim m [ ]
    update-In f a (x ∷ xs) (inl e) = inl (ground arith)
    update-In f a (x ∷ xs) (inr m) = inr (update-In f a xs m)

    -- A condition that no row meets.
    pub update-none :
        (f : A → A) (xs : List A) → ((a : A) → In a xs → p a ≡ false) → update p f xs ≡ xs
    unfolding update
    update-none f [] h = refl
    update-none f (x ∷ xs) h = ground (arith, h x (inl refl), update-none f xs (λ a m. h a (inr m)))

    -- A selection that drops the last row only.
    pub select-last :
        (b : A) (xs : List A)
        → ((a : A) → In a xs → p a ≡ true)
        → p b ≡ false
        → select p (xs ++ b ∷ []) ≡ xs
    unfolding select
    select-last b [] h e = ground arith
    select-last b (x ∷ xs) h e =
        ground (arith, h x (inl refl), select-last b xs (λ a m. h a (inr m)) e)

    pub any-append : (xs ys : List A) → any p (xs ++ ys) ≡ (any p xs || any p ys)
    unfolding any
    any-append [] ys = refl
    any-append (x ∷ xs) ys = ground (arith, any-append xs ys)
