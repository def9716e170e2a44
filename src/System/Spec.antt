-- ===== src/System/Spec.antt =====
-- What the broker promises, without leases, counts, keys and the queue: who holds which path how.
use shared_concurrency_subst.Common.{◌≡◌, sym, ap, ◌∙◌, ◌⊎◌, inl, inr, String, List, In}
use shared_concurrency_subst.Store.Data.{Mode, read, write}

pub record Held : Type 0 where
  pub path : String
  pub mode : Mode
  pub owner : String

abbrev pub written : Held → Held
written h = record h { mode = write }

-- What may happen to the locks that are held. The lists stand for sets: only membership is asked for.
pub data Move : List Held → List Held → Type 0 where
  -- Locks are given back or run out.
  shrinks : {old new : List Held} → ((a : Held) → In a new → In a old) → Move old new
  -- A lock is granted beside none on its path, or beside readers to a reader; others may run out.
  grants :
      {old new : List Held} (h : Held)
      → ((a : Held) → In a new → (a ≡ h) ⊎ In a old)
      → ((a : Held) → In a new → a.path ≡ h.path → (a ≡ h) ⊎ ((a.mode ≡ read) × (h.mode ≡ read)))
      → Move old new
  -- A reader becomes a writer, if nobody else holds a lock on the path.
  upgrades :
      {old new : List Held} (h : Held)
      → In h old
      → ((a : Held) → In a old → a.path ≡ h.path → a.owner ≡ h.owner)
      → ((a : Held) → In a new → (a ≡ written h) ⊎ In a old)
      → Move old new

pub data Moves : List Held → List Held → Type 0 where
  none_made : {x : List Held} → Moves x x
  one_more : {x y z : List Held} → Moves x y → Move y z → Moves x z

-- On one path of which one lock is a write lock there is one owner.
abbrev pub Compatible : List Held → Type 0
Compatible x = (a b : Held) → In a x → In b x → a.path ≡ b.path → a.mode ≡ write → a.owner ≡ b.owner

grants-Compatible :
    (old new : List Held) (h : Held)
    → ((a : Held) → In a new → (a ≡ h) ⊎ In a old)
    → ((a : Held) → In a new → a.path ≡ h.path → (a ≡ h) ⊎ ((a.mode ≡ read) × (h.mode ≡ read)))
    → Compatible old
    → Compatible new
grants-Compatible old new h sub alone c a b i j p w = elim (sub a i) [
  | inl e ↦ elim (alone b j (sym p ∙ ap (λ x. x.path) e)) [
    | inl f ↦ ap (λ x. x.owner) e ∙ sym (ap (λ x. x.owner) f)
    | inr (_, r) ↦ cc
  ]
  | inr k ↦ elim (sub b j) [
    | inl f ↦ elim (alone a i (p ∙ ap (λ x. x.path) f)) [
      | inl e ↦ ap (λ x. x.owner) e ∙ sym (ap (λ x. x.owner) f)
      | inr (r, _) ↦ cc
    ]
    | inr l ↦ c a b k l p w
  ]
]

upgrades-Compatible :
    (old new : List Held) (h : Held)
    → In h old
    → ((a : Held) → In a old → a.path ≡ h.path → a.owner ≡ h.owner)
    → ((a : Held) → In a new → (a ≡ written h) ⊎ In a old)
    → Compatible old
    → Compatible new
upgrades-Compatible old new h m alone sub c a b i j p w = elim (sub a i) [
  | inl e ↦ elim (sub b j) [
    | inl f ↦ ap (λ x. x.owner) e ∙ sym (ap (λ x. x.owner) f)
    | inr l ↦ ap (λ x. x.owner) e ∙ sym (alone b l (sym p ∙ ap (λ x. x.path) e))
  ]
  | inr k ↦ elim (sub b j) [
    | inl f ↦ alone a k (p ∙ ap (λ x. x.path) f) ∙ sym (ap (λ x. x.owner) f)
    | inr l ↦ c a b k l p w
  ]
]

pub Move-Compatible : (old new : List Held) → Move old new → Compatible old → Compatible new
Move-Compatible old new (shrinks sub) c = λ a b i j p w. c a b (sub a i) (sub b j) p w
Move-Compatible old new (grants h sub alone) c = grants-Compatible old new h sub alone c
Move-Compatible old new (upgrades h m alone sub) c = upgrades-Compatible old new h m alone sub c

-- Whatever is reached by moves from compatible locks is compatible.
pub Moves-Compatible : (x y : List Held) → Moves x y → Compatible x → Compatible y
Moves-Compatible x y none_made c = c
Moves-Compatible x y (one_more {y = z} ms m) c = Move-Compatible z y m (Moves-Compatible x z ms c)
