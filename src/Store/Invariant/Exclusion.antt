-- ===== src/Store/Invariant/Exclusion.antt =====
-- A write lock excludes the locks of every other owner on its path.
use shared_concurrency_subst.Common.{
  ◌≡◌, refl, sym, ◌∙◌, Bool, List, [], ◌∷◌, ◌++◌, inl, inr, arith, Bool-cases, ◌=s◌, =s→≡, select,
  update, In, In-select, In-append, In-update,
}
use shared_concurrency_subst.Store.Data.{read, write, LockInfo}
use shared_concurrency_subst.Store.Invariant.Ids.{Distinct, Distinct-eq}

module _ {Stamp : Type 0} where
  abbrev pub Exclusive : List (LockInfo Stamp) → Type 0
  Exclusive ls =
      (a b : LockInfo Stamp)
      → In a ls
      → In b ls
      → a.path ≡ b.path
      → a.mode ≡ write
      → a.owner ≡ b.owner

  -- Every row of the first table has a row of the second with its path, mode and owner.
  abbrev pub Covers : List (LockInfo Stamp) → List (LockInfo Stamp) → Type 0
  Covers ls ms =
      (b : LockInfo Stamp)
      → In b ls
      → (a : LockInfo Stamp) × In a ms × (b.path ≡ a.path) × (b.mode ≡ a.mode) × (b.owner ≡ a.owner)

  pub Covers-Exclusive :
      (ls ms : List (LockInfo Stamp)) → Covers ls ms → Exclusive ms → Exclusive ls
  Covers-Exclusive ls ms c x a b i j p w =
      let (a', i', ap', am', ao') = c a i in
      let (b', j', bp', bm', bo') = c b j in ao' ∙ x a' b' i' j' (cc) (cc) ∙ sym bo'

  pub select-Covers :
      (p : LockInfo Stamp → Bool) (ls : List (LockInfo Stamp)) → Covers (select p ls) ls
  select-Covers p ls b i = (b, (In-select p b ls i).0, refl, refl, refl)

  -- An update that leaves path, mode and owner.
  pub update-Covers :
      (p : LockInfo Stamp → Bool) (f : LockInfo Stamp → LockInfo Stamp)
      → ((a : LockInfo Stamp)
          → ((f a).path ≡ a.path) × ((f a).mode ≡ a.mode) × ((f a).owner ≡ a.owner))
      → (ls : List (LockInfo Stamp)) → Covers (update p f ls) ls
  update-Covers p f same ls b i =
      let (a, j, e) = In-update p f b ls i in
      (a, j, ground (arith, same a), ground (arith, same a), ground (arith, same a))

  -- A new lock that meets no other lock, or only read locks.
  pub append-Exclusive :
      (ls : List (LockInfo Stamp)) (n : LockInfo Stamp)
      → Exclusive ls
      → ((a : LockInfo Stamp) → In a ls → a.path ≡ n.path → (a.mode ≡ read) × (n.mode ≡ read))
      → Exclusive (ls ++ n ∷ [])
  append-Exclusive ls n x free a b i j p w = elim (In-append a ls (n ∷ []) i) [
    | inl a_old ↦ elim (In-append b ls (n ∷ []) j) [
      | inl b_old ↦ x a b a_old b_old p w
      | inr (inl b_new) ↦ absurd (let h = free a a_old (cc) in cc)
      | inr (inr never) ↦ absurd never
    ]
    | inr (inl a_new) ↦ elim (In-append b ls (n ∷ []) j) [
      | inl b_old ↦ absurd (let h = free b b_old (cc) in cc)
      | inr (inl b_new) ↦ cc
      | inr (inr never) ↦ absurd never
    ]
    | inr (inr never) ↦ absurd never
  ]

  -- An owner that has its path to itself may write.
  pub upgrade-Exclusive :
      (f : LockInfo Stamp → LockInfo Stamp) (ls : List (LockInfo Stamp)) (r : LockInfo Stamp)
      → ((a : LockInfo Stamp) → ((f a).path ≡ a.path) × ((f a).owner ≡ a.owner))
      → Distinct ls
      → In r ls
      → ((a : LockInfo Stamp) → In a ls → a.path ≡ r.path → a.owner ≡ r.owner)
      → Exclusive ls
      → Exclusive (update (λ x. x.lock_id =s r.lock_id) f ls)
  upgrade-Exclusive f ls r same d m alone x a b i j p w =
      let (a', i', ea) = In-update _ f a ls i in
      let (b', j', eb) = In-update _ f b ls j in
      let a_path : a.path ≡ a'.path = ground (arith, same a') in
      let b_path : b.path ≡ b'.path = ground (arith, same b') in
      let a_owner : a.owner ≡ a'.owner = ground (arith, same a') in
      let b_owner : b.owner ≡ b'.owner = ground (arith, same b') in
      elim (Bool-cases (a'.lock_id =s r.lock_id)) [
        | inl hit ↦
            let e : a' ≡ r = Distinct-eq ls a' r d i' m (=s→≡ _ _ hit) in
            let o = alone b' j' (cc) in cc
        | inr miss ↦ let w' : a'.mode ≡ write = ground arith in let o = x a' b' i' j' (cc) w' in cc
      ]
