-- ===== src/Store/Queries/Grants.antt =====
-- What `_can_grant` decides.
use shared_concurrency_subst.Common.{
  ℕ, ◌≤◌, ◌≡◌, refl, ◌↔◌, String, Bool, true, false, List, [], ◌∷◌, none, some, inl, inr, arith,
  ltb, ◌=s◌, =s→≡, ≡→=s, Option-cases, Bool-cases, select, any-false, any-eq-false, In, In-select,
  select-In,
}
use shared_concurrency_subst.Store.Data.{Mode, read, write, LockInfo, QueueInfo, Tables}
use shared_concurrency_subst.Store.Queries.{
  has_write_lock, has_any_lock, writer_ahead, min_req, earliest_req, is_req, can_grant,
}

module _ {Stamp : Type 0} where
  min_req-none : (q : QueueInfo Stamp) (qs : List (QueueInfo Stamp)) → min_req qs ≡ none → ¬ In q qs
  unfolding min_req
  min_req-none q [] e m = m
  min_req-none q (x ∷ qs) e m = elim (Option-cases (min_req qs)) [
    | inl n ↦ ground (arith)
    | inr (k, s) ↦ ground arith
  ]

  -- The least key is the key of a row, and bounds the others.
  min_req-some :
      (qs : List (QueueInfo Stamp)) (m : ℕ)
      → min_req qs ≡ some m
      → ((q : QueueInfo Stamp) × In q qs × (q.req_id ≡ m))
        × ((q : QueueInfo Stamp) → In q qs → m ≤ q.req_id)
  unfolding min_req
  min_req-some [] m e = absurd (cc)
  min_req-some (x ∷ qs) m e = elim (Option-cases (min_req qs)) [
    | inl n ↦ (
      (x, inl refl, ground arith),
      λ q i. elim i [ inl p ↦ ground arith | inr j ↦ absurd (min_req-none q qs n j) ],
    )
    | inr (k, s) ↦
        let (least, below) = min_req-some qs k s in
        elim (Bool-cases (ltb k x.req_id)) [
          | inl lt ↦ (
            (least.0, inr least.1, ground arith),
            λ q i. elim i [ inl p ↦ ground arith | inr j ↦ ground (arith, below q j) ],
          )
          | inr ge ↦ (
            (x, inl refl, ground arith),
            λ q i. elim i [ inl p ↦ ground arith | inr j ↦ ground (arith, below q j) ],
          )
        ]
  ]

  -- The request is the oldest on its path.
  abbrev pub IsEarliest : Tables Stamp → String → ℕ → Type 0
  IsEarliest s path i =
      ((q : QueueInfo Stamp) × In q s.queue × (q.path ≡ path) × (q.req_id ≡ i))
      × ((q : QueueInfo Stamp) → In q s.queue → q.path ≡ path → i ≤ q.req_id)

  pub earliest_req-IsEarliest :
      (s : Tables Stamp) (path : String) (i : ℕ)
      → is_req (earliest_req s path) i ≡ true
      → IsEarliest s path i
  unfolding earliest_req
  earliest_req-IsEarliest s path i h =
      elim (Option-cases (min_req (select (λ q. q.path =s path) s.queue))) [
        | inl n ↦ absurd (ground arith)
        | inr (m, e) ↦
            let ((q, j, k), below) = min_req-some _ m e in
            let (j', p) = In-select _ q s.queue j in
            (
              (q, j', =s→≡ _ _ p, ground arith),
              λ r l pr. ground (arith, below r (select-In _ r s.queue l (≡→=s _ _ pr))),
            )
      ]

  pub IsEarliest-earliest_req :
      (s : Tables Stamp) (path : String) (i : ℕ)
      → IsEarliest s path i
      → is_req (earliest_req s path) i ≡ true
  unfolding earliest_req
  IsEarliest-earliest_req s path i ((q, j, p, k), below) =
      let mine = select-In (λ (r : QueueInfo Stamp). r.path =s path) q s.queue j (≡→=s _ _ p) in
      elim (Option-cases (min_req (select (λ q. q.path =s path) s.queue))) [
        | inl n ↦ absurd (min_req-none q _ n mine)
        | inr (m, e) ↦
            let ((r, l, kr), least) = min_req-some _ m e in
            let (l', pr) = In-select _ r s.queue l in
            ground (arith, below r l' (=s→≡ _ _ pr), least q mine)
      ]

  -- A path with a row has an oldest row.
  pub oldest :
      (s : Tables Stamp) (path : String) (q : QueueInfo Stamp)
      → In q s.queue
      → q.path ≡ path
      → (x : QueueInfo Stamp) × In x s.queue
        × (x.path ≡ path)
        × ((y : QueueInfo Stamp) → In y s.queue → y.path ≡ path → x.req_id ≤ y.req_id)
  oldest s path q m e =
      let here : QueueInfo Stamp → Bool = λ x. x.path =s path in
      let mine = select-In here q s.queue m (≡→=s _ _ e) in
      elim (Option-cases (min_req (select here s.queue))) [
        | inl n ↦ absurd (min_req-none q _ n mine)
        | inr (k, f) ↦
            let ((x, j, h), below) = min_req-some _ k f in
            let (j', p) = In-select here x s.queue j in
            (
              x,
              j',
              =s→≡ _ _ p,
              λ y l g. ground (arith, below y (select-In here y s.queue l (≡→=s _ _ g))),
            )
      ]

  -- No lock on the path.
  abbrev pub NoLock : Tables Stamp → String → Type 0
  NoLock s path = (a : LockInfo Stamp) → In a s.locks → ¬ (a.path ≡ path)

  -- Only read locks on the path.
  abbrev pub NoWriteLock : Tables Stamp → String → Type 0
  NoWriteLock s path = (a : LockInfo Stamp) → In a s.locks → a.path ≡ path → a.mode ≡ read

  -- No older request for a write on the path.
  abbrev pub NoWriterAhead : Tables Stamp → String → ℕ → Type 0
  NoWriterAhead s path i =
      (q : QueueInfo Stamp) → In q s.queue → q.path ≡ path → q.mode ≡ write → i ≤ q.req_id

  has_any_lock-false :
      (s : Tables Stamp) (path : String) → has_any_lock s path ≡ false → NoLock s path
  unfolding has_any_lock
  has_any_lock-false s path h a i p = ground (arith, any-false _ a s.locks h i)

  NoLock-has_any_lock :
      (s : Tables Stamp) (path : String) → NoLock s path → has_any_lock s path ≡ false
  unfolding has_any_lock
  NoLock-has_any_lock s path h = any-eq-false _ s.locks (λ a i. ground (arith, h a i))

  has_write_lock-false :
      (s : Tables Stamp) (path : String) → has_write_lock s path ≡ false → NoWriteLock s path
  unfolding has_write_lock
  has_write_lock-false s path h a i p = ground (arith, any-false _ a s.locks h i)

  NoWriteLock-has_write_lock :
      (s : Tables Stamp) (path : String) → NoWriteLock s path → has_write_lock s path ≡ false
  unfolding has_write_lock
  NoWriteLock-has_write_lock s path h = any-eq-false _ s.locks (λ a i. ground (arith, h a i))

  writer_ahead-false :
      (s : Tables Stamp) (path : String) (i : ℕ)
      → writer_ahead s path i ≡ false
      → NoWriterAhead s path i
  unfolding writer_ahead
  writer_ahead-false s path i h q j p w = ground (arith, any-false _ q s.queue h j)

  NoWriterAhead-writer_ahead :
      (s : Tables Stamp) (path : String) (i : ℕ)
      → NoWriterAhead s path i
      → writer_ahead s path i ≡ false
  unfolding writer_ahead
  NoWriterAhead-writer_ahead s path i h = any-eq-false _ s.queue (λ q j. ground (arith, h q j))

  -- When a request may be granted, said without the queries.
  abbrev pub Grantable : Tables Stamp → String → Mode → ℕ → Type 0
  Grantable s path write i = IsEarliest s path i × NoLock s path
  Grantable s path read i = NoWriteLock s path × NoWriterAhead s path i

  pub can_grant-Grantable :
      (s : Tables Stamp) (path : String) (mode : Mode) (i : ℕ)
      → can_grant s path mode i ≡ true
      → Grantable s path mode i
  unfolding can_grant
  can_grant-Grantable s path write i h =
      (earliest_req-IsEarliest s path i (ground arith), has_any_lock-false s path (ground arith))
  can_grant-Grantable s path read i h =
      (has_write_lock-false s path (ground arith), writer_ahead-false s path i (ground arith))

  pub Grantable-can_grant :
      (s : Tables Stamp) (path : String) (mode : Mode) (i : ℕ)
      → Grantable s path mode i
      → can_grant s path mode i ≡ true
  unfolding can_grant
  Grantable-can_grant s path write i (first, free) =
      rw (IsEarliest-earliest_req s path i first, NoLock-has_any_lock s path free)
  Grantable-can_grant s path read i (free, ahead) =
      rw (NoWriteLock-has_write_lock s path free, NoWriterAhead-writer_ahead s path i ahead)

  -- `_can_grant` says yes to a write exactly when the request is the oldest queued on its path and
  -- nobody holds a lock there, and to a read exactly when nobody holds a write lock on the path and
  -- no older write request is queued there.
  pub can_grant_iff :
      (s : Tables Stamp) (path : String) (mode : Mode) (i : ℕ)
      → (can_grant s path mode i ≡ true) ↔ Grantable s path mode i
  can_grant_iff s path mode i =
      (can_grant-Grantable s path mode i, Grantable-can_grant s path mode i)
