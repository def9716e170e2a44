-- ===== src/Fuse/Handles.antt =====
-- The handles of a mount: the four tables that `open` and `create` fill and the end of a handle empties.
use shared_concurrency_subst.Common.{
  ℕ, ◌≡◌, refl, ◌⊎◌, inl, inr, false, List, [], ◌∷◌, arith, ◌==◌, if◌then◌else◌, In,
}
use shared_concurrency_subst.Fuse.World.{dict_set, dict_remove}

-- The handles of a table.
unfoldable pub keys {ℓ} : {V : Type ℓ} → List (ℕ × V) → List ℕ
keys [] = []
keys ((k, _) ∷ d) = k ∷ keys d

pub key_set : ℕ → List ℕ → List ℕ
key_set k [] = k ∷ []
key_set k (j ∷ l) = if j == k then j ∷ l else j ∷ key_set k l

pub key_remove : ℕ → List ℕ → List ℕ
key_remove k [] = []
key_remove k (j ∷ l) = if j == k then l else j ∷ key_remove k l

module _ {V : Type 0} where
  pub keys-dict_set :
      (k : ℕ) (v : V) (d : List (ℕ × V)) → keys (dict_set k v d) ≡ key_set k (keys d)
  unfolding keys dict_set key_set
  keys-dict_set k v [] = refl
  keys-dict_set k v ((j, x) ∷ d) = ground (arith, keys-dict_set k v d)

  pub keys-dict_remove : (k : ℕ) (d : List (ℕ × V)) → keys (dict_remove k d) ≡ key_remove k (keys d)
  unfolding keys dict_remove key_remove
  keys-dict_remove k [] = refl
  keys-dict_remove k ((j, x) ∷ d) = ground (arith, keys-dict_remove k d)

  -- An entry under a new key goes again.
  pub dict_remove-set :
      (k : ℕ) (v : V) (d : List (ℕ × V)) → ¬ In k (keys d) → dict_remove k (dict_set k v d) ≡ d
  unfolding keys dict_remove dict_set
  dict_remove-set k v [] fresh = ground arith
  dict_remove-set k v ((j, x) ∷ d) fresh =
      let apart : (j == k) ≡ false = ground (arith, λ (e : k ≡ j). fresh (inl e)) in
      let rest = dict_remove-set k v d (λ i. fresh (inr i)) in ground (arith, apart, rest)

pub In-key_set : (i k : ℕ) (l : List ℕ) → In i (key_set k l) → (i ≡ k) ⊎ In i l
unfolding key_set
In-key_set i k [] m = ground arith
In-key_set i k (j ∷ l) m = ground (arith, In-key_set i k l)

pub In-key_remove : (i k : ℕ) (l : List ℕ) → In i (key_remove k l) → In i l
unfolding key_remove
In-key_remove i k [] m = m
In-key_remove i k (j ∷ l) m = ground (arith, In-key_remove i k l)
