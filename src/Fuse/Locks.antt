-- ===== src/Fuse/Locks.antt =====
-- fuse_fs.py: keys, owner tokens, and the methods that take and return locks.
use Prim.Native.Char.{code}
use Prim.Native.String.{◌++◌ as ◌<>◌, compare}
use Prim.Native.Nat.{Ordering}
use mathlib.Core.List.{reverse}
use shared_concurrency_subst.Common.{
  ℕ, suc, ◌+◌, String, Bool, true, false, List, [], ◌∷◌, ◌++◌, Option, none, some, ◌==◌, ◌=s◌,
  if◌then◌else◌,
}
use shared_concurrency_subst.Effects.{
  Outcome, done, raises, os_error, Reply, gives, fails, M, ◌>>=◌, ◌>>◌, pure, gets, modify,
}
use shared_concurrency_subst.Fuse.World.{
  LockService, Syscall, close, Kernel, Platform, Mount, World, dict_get, dict_set, dict_remove,
}

-- `path.lstrip("/")`
unfoldable pub lstrip : String → String
lstrip String.[] = String.[]
lstrip (String.◌∷◌ c s) = if code c == b'/' then lstrip s else String.◌∷◌ c s

-- `path or "."` after it.
unfoldable pub lock_key : String → String
unfolding lstrip
lock_key path = if lstrip path =s "" then "." else lstrip path

-- `owner or default`
abbrev pub or_default : Option String → String → String
or_default none d = d
or_default (some o) d = if o =s "" then d else o

-- The order of `sorted` on texts.
abbrev pub text_leb : String → String → Bool
text_leb a b = elim (compare a b) [ Ordering.gt ↦ false | _ ↦ true ]

insert : String → List String → List String
insert a [] = a ∷ []
insert a (b ∷ l) = if text_leb a b then a ∷ b ∷ l else b ∷ insert a l

unfoldable pub sorted : List String → List String
unfolding insert
sorted [] = []
sorted (a ∷ l) = insert a (sorted l)

module _ {S K : Type 0} (service : LockService S) (os : Kernel K) (c : Platform) (m : Mount) where
  abbrev W : Type 0
  W = World S K

  unfoldable pub full_path : String → String
  unfolding lstrip
  full_path path = c.join m.root (lstrip path)

  abbrev on_service : {A : Type 0} → (S → Outcome A × S) → M W A
  on_service f w = let r = f w.service in (r.0, record w { service = r.1 })

  -- An OSError keeps its number.
  abbrev pub reply_outcome : {A : Type 0} → Reply A → Outcome A
  reply_outcome (gives a) = done a
  reply_outcome (fails e) = raises (os_error e)

  abbrev pub syscall : Syscall → M W (List ℕ)
  syscall x w = let r = os.call x w.kernel in (reply_outcome r.0, record w { kernel = r.1 })

  abbrev pub open_file : String → ℕ → Option ℕ → M W (Reply ℕ)
  open_file path flags mode w =
      let r = os.open_file path flags mode w.kernel in (done r.0, record w { kernel = r.1 })

  unfoldable pub new_owner_token : M W String
  new_owner_token w =
      (done (m.owner <> (":" <> c.hex w.tokens)), record w { tokens = w.tokens + 1 })

  -- `owner or self._new_owner_token()`
  abbrev pub or_token : Option String → M W String
  or_token none = new_owner_token
  or_token (some o) = if o =s "" then new_owner_token else pure o

  -- `_acquire`
  unfoldable pub acquire : String → String → Option String → M W (String × String)
  unfolding new_owner_token
  acquire path mode owner = do
    o ← or_token owner
    id ← on_service (service.acquire path mode o m.acquire_timeout_ms m.lease_ms m.max_hold_ms)
    pure (id, o)

  -- `_release`
  unfoldable pub release_lock : String → Option String → M W (Unit {0})
  release_lock lock_id owner = on_service (service.release lock_id (or_default owner m.owner))

  -- `_heartbeat`
  unfoldable pub heartbeat_lock : String → Option String → M W (Unit {0})
  heartbeat_lock lock_id owner =
      on_service (service.heartbeat lock_id (or_default owner m.owner) m.lease_ms)

  -- The loop of `_owner_for_key`: the owner of the first handle on the key.
  unfoldable pub owner_of : String → List (ℕ × String) → List (ℕ × String) → Option String
  owner_of key [] owners = none
  owner_of key ((fh, path) ∷ paths) owners =
      if path =s key then dict_get fh owners else owner_of key paths owners

  unfoldable pub owner_for_key : String → M W (Option String)
  unfolding owner_of
  owner_for_key key = gets (λ w. owner_of key w.handle_paths w.handle_owners)

  -- `_acquire_for_key`
  unfoldable pub acquire_for_key : String → String → Bool → M W (String × String)
  unfolding owner_for_key new_owner_token acquire
  acquire_for_key key mode reuse_owner = do
    found ← (if reuse_owner then owner_for_key key else pure none)
    o ← or_token found
    acquire key mode (some o)

  -- The loop of `_acquire_multi`, over the sorted paths.
  unfoldable pub acquire_all : List String → List (String × String) → M W (List (String × String))
  unfolding acquire_for_key
  acquire_all [] ids = pure ids
  acquire_all (path ∷ paths) ids = do
    id ← acquire_for_key path "write" true
    acquire_all paths (ids ++ id ∷ [])

  unfoldable pub acquire_multi : List String → M W (List (String × String))
  unfolding acquire_all sorted
  acquire_multi paths = acquire_all (sorted paths) []

  -- The loop of `_release_multi`, over the reversed list.
  unfoldable pub release_all : List (String × String) → M W (Unit {0})
  unfolding release_lock
  release_all [] = pure tt
  release_all ((id, owner) ∷ ids) = do release_lock id (some owner); release_all ids

  unfoldable pub release_multi : List (String × String) → M W (Unit {0})
  unfolding release_all
  release_multi ids = release_all (reverse ids)

  -- The four `pop`s of `_finalize_handle`.
  unfoldable pub forget : ℕ → W → W
  forget fh w = record w {
    handle_locks = dict_remove fh w.handle_locks;
    handle_paths = dict_remove fh w.handle_paths;
    handle_fds = dict_remove fh w.handle_fds;
    handle_owners = dict_remove fh w.handle_owners;
  }

  abbrev pub close_fd : Option ℕ → M W (Unit {0})
  close_fd none = pure tt
  close_fd (some fd) = do syscall (close fd); pure tt

  -- `if lock_id:`
  abbrev pub if_lock : Option String → (String → M W (Unit {0})) → M W (Unit {0})
  if_lock none f = pure tt
  if_lock (some id) f = if id =s "" then pure tt else f id

  unfoldable pub finalize_handle : ℕ → M W (Unit {0})
  unfolding forget release_lock
  finalize_handle fh = do
    lock_id ← gets (λ w. dict_get fh w.handle_locks)
    fd ← gets (λ w. dict_get fh w.handle_fds)
    owner ← gets (λ w. dict_get fh w.handle_owners)
    modify (forget fh)
    close_fd fd
    if_lock lock_id (λ id. release_lock id owner)

  -- The four entries of a new handle.
  unfoldable pub remember : String → String → String → ℕ → W → W
  remember id key owner fd w =
      let fh = suc w.next_fh in
      record w {
        next_fh = fh;
        handle_locks = dict_set fh id w.handle_locks;
        handle_paths = dict_set fh key w.handle_paths;
        handle_fds = dict_set fh fd w.handle_fds;
        handle_owners = dict_set fh owner w.handle_owners;
      }
