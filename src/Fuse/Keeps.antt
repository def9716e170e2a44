-- ===== src/Fuse/Keeps.antt =====
-- The methods of a mount keep the tables of its handles aligned.
use shared_concurrency_subst.Common.{
  ℕ, ◌≤◌, ◌≡◌, refl, inl, inr, String, Bool, true, false, List, [], ◌∷◌, ◌++◌, Option, none, some,
  In, Bool-cases, ◌=s◌,
}
use shared_concurrency_subst.Effects.{
  Outcome, done, raises, Raised, system_exit, fuse_os_error, os_error, runtime_error,
  called_process_error, value_error, file_not_found_error, unanswered, M, bind_result, finish,
  try_finally, raised_as,
}
use shared_concurrency_subst.Fuse.World.{LockService, Kernel, Platform, Mount, World}
use shared_concurrency_subst.Fuse.Locks
use shared_concurrency_subst.Fuse.Handles.{keys}

module _ {S K : Type 0} where
  -- Every handle has a lock, a path, a descriptor and an owner, and the next one is new.
  pub record IsAligned (w : World S K) : Type 0 where
    pub of_paths : keys w.handle_paths ≡ keys w.handle_locks
    pub of_fds : keys w.handle_fds ≡ keys w.handle_locks
    pub of_owners : keys w.handle_owners ≡ keys w.handle_locks
    pub below : (k : ℕ) → In k (keys w.handle_locks) → k ≤ w.next_fh

  -- What is outside the tables may change.
  pub outside-IsAligned :
      (w : World S K) (n : ℕ) (s : S) (k : K)
      → IsAligned w
      → IsAligned (record w { tokens = n; service = s; kernel = k })
  outside-IsAligned w n s k v = record {
    of_paths = v.of_paths;
    of_fds = v.of_fds;
    of_owners = v.of_owners;
    below = v.below;
  }

  abbrev pub Keeps : {A : Type 0} → M (World S K) A → Type 0
  Keeps m = (w : World S K) → IsAligned w → IsAligned (m w).1

  pub bind_result-IsAligned :
      {A B : Type 0} (p : Outcome A × World S K) (f : A → M (World S K) B)
      → IsAligned p.1
      → ((a : A) → Keeps (f a))
      → IsAligned (bind_result p f).1
  bind_result-IsAligned (done a, w) f v k = k a w v
  bind_result-IsAligned (raises e, w) f v k = v

  pub try_finally-Keeps :
      {A : Type 0} (f : M (World S K) A) (g : M (World S K) (Unit {0}))
      → Keeps f
      → Keeps g
      → Keeps (try_finally f g)
  try_finally-Keeps f g k l w v = finish-IsAligned (f w).0 (g (f w).1) (l (f w).1 (k w v))
    where
      finish-IsAligned :
          {A : Type 0} (r : Outcome A) (p : Outcome (Unit {0}) × World S K)
          → IsAligned p.1
          → IsAligned (finish r p).1
      finish-IsAligned r (done _, x) u = u
      finish-IsAligned r (raises _, x) u = u

  pub raised_as-world :
      {A : Type 0} (e : Raised) (p : Outcome A × World S K) → (raised_as e p).1 ≡ p.1
  raised_as-world e (done a, w) = refl
  raised_as-world e (raises system_exit, w) = refl
  raised_as-world e (raises unanswered, w) = refl
  raised_as-world e (raises (fuse_os_error x), w) = refl
  raised_as-world e (raises (os_error x), w) = refl
  raised_as-world e (raises runtime_error, w) = refl
  raised_as-world e (raises called_process_error, w) = refl
  raised_as-world e (raises value_error, w) = refl
  raised_as-world e (raises file_not_found_error, w) = refl

module _ {S K : Type 0} (service : LockService S) (os : Kernel K) (c : Platform) (m : Mount) where
  abbrev pub W : Type 0
  W = World S K

  pub release_lock-Keeps :
      (id : String) (owner : Option String) → Keeps (Locks.release_lock service os c m id owner)
  unfolding Locks.release_lock
  release_lock-Keeps id owner w v = outside-IsAligned w _ _ _ v

  pub or_token-Keeps : (o : Option String) → Keeps (Locks.or_token service os c m o)
  unfolding Locks.new_owner_token
  or_token-Keeps none w v = outside-IsAligned w _ _ _ v
  or_token-Keeps (some o) w v = elim (Bool-cases (o =s "")) [
    | inl e ↦ rw e (outside-IsAligned w _ _ _ v)
    | inr e ↦ rw e v
  ]

  pub acquire-Keeps :
      (path mode : String) (o : Option String) → Keeps (Locks.acquire service os c m path mode o)
  unfolding Locks.acquire
  acquire-Keeps path mode o w v =
      bind_result-IsAligned (Locks.or_token service os c m o w) _ (or_token-Keeps o w v)
        (λ t x u. bind_result-IsAligned (_, _) _ (outside-IsAligned x _ _ _ u) (λ id y z. z))

  abbrev pub acquire_as : (key mode owner : String) → M W (String × String)
  acquire_as key mode owner = Locks.acquire service os c m key mode (some owner)

  pub acquire_as-Keeps : (key mode owner : String) → Keeps (acquire_as key mode owner)
  acquire_as-Keeps key mode owner = acquire-Keeps key mode (some owner)

  pub acquire_for_key-Keeps :
      (key mode : String) (reuse : Bool)
      → Keeps (Locks.acquire_for_key service os c m key mode reuse)
  unfolding Locks.acquire_for_key Locks.owner_for_key
  acquire_for_key-Keeps key mode true w v =
      let o = Locks.owner_of service os c m key w.handle_paths w.handle_owners in
      bind_result-IsAligned (Locks.or_token service os c m o w) (acquire_as key mode)
        (or_token-Keeps o w v) (acquire_as-Keeps key mode)
  acquire_for_key-Keeps key mode false w v =
      bind_result-IsAligned (Locks.or_token service os c m none w) (acquire_as key mode)
        (or_token-Keeps none w v) (acquire_as-Keeps key mode)

  pub acquire_all-Keeps :
      (paths : List String) (ids : List (String × String))
      → Keeps (Locks.acquire_all service os c m paths ids)
  unfolding Locks.acquire_all
  acquire_all-Keeps [] ids w v = v
  acquire_all-Keeps (path ∷ paths) ids w v =
      bind_result-IsAligned (Locks.acquire_for_key service os c m path "write" true w)
        (λ id. Locks.acquire_all service os c m paths (ids ++ id ∷ []))
        (acquire_for_key-Keeps path "write" true w v)
        (λ id. acquire_all-Keeps paths (ids ++ id ∷ []))

  pub release_all-Keeps :
      (ids : List (String × String)) → Keeps (Locks.release_all service os c m ids)
  unfolding Locks.release_all
  release_all-Keeps [] w v = v
  release_all-Keeps ((id, owner) ∷ ids) w v =
      bind_result-IsAligned (Locks.release_lock service os c m id (some owner) w)
        (λ t. Locks.release_all service os c m ids) (release_lock-Keeps id (some owner) w v)
        (λ t. release_all-Keeps ids)
