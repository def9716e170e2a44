-- ===== src/Store/Invariant/Ids.antt =====
-- The primary keys of `locks` and the AUTOINCREMENT keys of `queue`.
use shared_concurrency_subst.Common.{
  ℕ, suc, ◌≤◌, ◌<◌, ◌≡◌, refl, ◌≢◌, Bool, List, [], ◌∷◌, ◌++◌, inl, inr, arith, select, update, In,
  In-select, In-append, In-update,
}
use shared_concurrency_subst.Store.Data.{LockInfo, QueueInfo}

module _ {Stamp : Type 0} where
  -- No two rows of `locks` have one key.
  abbrev pub Distinct : List (LockInfo Stamp) → Type 0
  Distinct [] = Unit {0}
  Distinct (r ∷ rs) = ((a : LockInfo Stamp) → In a rs → a.lock_id ≢ r.lock_id) × Distinct rs

  pub Distinct-eq :
      (ls : List (LockInfo Stamp)) (a b : LockInfo Stamp)
      → Distinct ls
      → In a ls
      → In b ls
      → a.lock_id ≡ b.lock_id
      → a ≡ b
  Distinct-eq [] a b d i j e = elim i [ ]
  Distinct-eq (r ∷ rs) a b d (inl p) (inl q) e = cc
  Distinct-eq (r ∷ rs) a b d (inl p) (inr j) e = absurd (d.0 b j (cc))
  Distinct-eq (r ∷ rs) a b d (inr i) (inl q) e = absurd (d.0 a i (cc))
  Distinct-eq (r ∷ rs) a b d (inr i) (inr j) e = Distinct-eq rs a b d.1 i j e

  pub Distinct-select :
      (p : LockInfo Stamp → Bool) (ls : List (LockInfo Stamp))
      → Distinct ls
      → Distinct (select p ls)
  unfolding select
  Distinct-select p [] d = tt
  Distinct-select p (r ∷ rs) d =
      let rest = Distinct-select p rs d.1 in
      let apart = λ (a : LockInfo Stamp) (i : In a (select p rs)). d.0 a (In-select p a rs i).0 in
      ground (arith, rest, apart)

  pub Distinct-update :
      (p : LockInfo Stamp → Bool) (f : LockInfo Stamp → LockInfo Stamp)
      → ((a : LockInfo Stamp) → (f a).lock_id ≡ a.lock_id)
      → (ls : List (LockInfo Stamp)) → Distinct ls
      → Distinct (update p f ls)
  unfolding update
  Distinct-update p f same [] d = tt
  Distinct-update p f same (r ∷ rs) d = (
    λ b i e. let (a, j, q) = In-update p f b rs i in d.0 a j (ground (arith, same a, same r)),
    Distinct-update p f same rs d.1,
  )

  pub Distinct-append :
      (ls : List (LockInfo Stamp)) (n : LockInfo Stamp)
      → Distinct ls
      → ((a : LockInfo Stamp) → In a ls → a.lock_id ≢ n.lock_id)
      → Distinct (ls ++ n ∷ [])
  Distinct-append [] n d fresh = (λ a i. elim i [ ], tt)
  Distinct-append (r ∷ rs) n d fresh = (
    λ a i e. elim (In-append a rs (n ∷ []) i) [
      | inl old ↦ d.0 a old e
      | inr (inl new) ↦ fresh r (inl refl) (cc)
      | inr (inr none) ↦ absurd none
    ],
    Distinct-append rs n d.1 (λ a i. fresh a (inr i)),
  )

  -- The keys of `queue` rise along the table and stay in (lo, hi].
  abbrev pub Rising : ℕ → ℕ → List (QueueInfo Stamp) → Type 0
  Rising lo hi [] = lo ≤ hi
  Rising lo hi (q ∷ qs) = (lo < q.req_id) × Rising q.req_id hi qs

  pub Rising-mono :
      (lo lo' hi : ℕ) (qs : List (QueueInfo Stamp)) → lo' ≤ lo → Rising lo hi qs → Rising lo' hi qs
  Rising-mono lo lo' hi [] h r = omega arith
  Rising-mono lo lo' hi (q ∷ qs) h r = (omega arith, r.1)

  pub Rising-select :
      (p : QueueInfo Stamp → Bool) (lo hi : ℕ) (qs : List (QueueInfo Stamp))
      → Rising lo hi qs
      → Rising lo hi (select p qs)
  unfolding select
  Rising-select p lo hi [] r = r
  Rising-select p lo hi (q ∷ qs) r =
      let rest = Rising-select p q.req_id hi qs r.1 in
      ground (arith, rest, Rising-mono q.req_id lo hi (select p qs))

  pub Rising-append :
      (lo hi : ℕ) (qs : List (QueueInfo Stamp)) (n : QueueInfo Stamp)
      → n.req_id ≡ suc hi
      → Rising lo hi qs
      → Rising lo (suc hi) (qs ++ n ∷ [])
  Rising-append lo hi [] n e r = (omega arith, omega arith)
  Rising-append lo hi (q ∷ qs) n e r = (r.0, Rising-append q.req_id hi qs n e r.1)

  pub Rising-bounds :
      (lo hi : ℕ) (qs : List (QueueInfo Stamp)) (q : QueueInfo Stamp)
      → Rising lo hi qs
      → In q qs
      → (lo < q.req_id) × (q.req_id ≤ hi)
  Rising-bounds lo hi [] q r i = elim i [ ]
  Rising-bounds lo hi (x ∷ qs) q r (inl e) = ground (arith, Rising-le x.req_id hi qs r.1)
    where
      Rising-le : (l h : ℕ) (rs : List (QueueInfo Stamp)) → Rising l h rs → l ≤ h
      Rising-le l h [] s = s
      Rising-le l h (y ∷ rs) s = omega (arith, Rising-le y.req_id h rs s.1)
  Rising-bounds lo hi (x ∷ qs) q r (inr i) = omega (arith, Rising-bounds x.req_id hi qs q r.1 i)
