-- ===== src/Store/Schema.antt =====
-- lock_store.py: `_ensure_lock_columns`, which brings an old table of locks up to date.
use mathlib.Core.List.{append-nil}
use shared_concurrency_subst.Common.{
  ◌≡◌, refl, String, Bool, true, List, [], ◌∷◌, ◌++◌, ◌=s◌, ≡→=s, if◌then◌else◌, any, any-append,
  Bool-cases, arith, inl, inr, String_discrete,
}

abbrev pub has_column : String → List String → Bool
has_column name columns = any (λ c. c =s name) columns

-- The columns of the table after the two ALTER TABLEs; both tests look at the columns before them.
unfoldable pub ensure_lock_columns : List String → List String
ensure_lock_columns columns =
    (if has_column "max_hold_ms" columns then columns else columns ++ "max_hold_ms" ∷ [])
    ++ (if has_column "hold_count" columns then [] else "hold_count" ∷ [])

has_column-left :
    (name : String) (xs ys : List String)
    → has_column name xs ≡ true
    → has_column name (xs ++ ys) ≡ true
has_column-left name xs ys h = rw h at (any-append (λ c. c =s name) xs ys)

has_column-right :
    (name : String) (xs ys : List String)
    → has_column name ys ≡ true
    → has_column name (xs ++ ys) ≡ true
has_column-right name xs ys h = let e = any-append (λ c. c =s name) xs ys in ground (arith)

abbrev added : String → List String → List String
added name columns = if has_column name columns then columns else columns ++ name ∷ []

added-has_column :
    (name : String) (columns : List String) → has_column name (added name columns) ≡ true
unfolding any
added-has_column name columns = elim (Bool-cases (has_column name columns)) [
  | inl there ↦ rw there there
  | inr missing ↦
      rw missing (has_column-right name columns (name ∷ []) (rw (≡→=s name name refl) refl))
]

added_keeps :
    (name other : String) (columns : List String)
    → has_column other columns ≡ true
    → has_column other (added name columns) ≡ true
added_keeps name other columns h = elim (Bool-cases (has_column name columns)) [
  | inl there ↦ rw there h
  | inr missing ↦ rw missing (has_column-left other columns (name ∷ []) h)
]

hold_count-added :
    (columns : List String) → has_column "hold_count" (ensure_lock_columns columns) ≡ true
unfolding ensure_lock_columns any String_discrete
hold_count-added columns = elim (Bool-cases (has_column "hold_count" columns)) [
  | inl there ↦ rw there (
      has_column-left "hold_count" (added "max_hold_ms" columns) []
        (added_keeps "max_hold_ms" "hold_count" columns there))
  | inr missing ↦
      rw missing
        (has_column-right "hold_count" (added "max_hold_ms" columns) ("hold_count" ∷ []) refl)
]

ensure_lock_columns_complete :
    (columns : List String)
    → has_column "max_hold_ms" columns ≡ true
    → has_column "hold_count" columns ≡ true
    → ensure_lock_columns columns ≡ columns
unfolding ensure_lock_columns
ensure_lock_columns_complete columns max hold = rw (max, hold) (append-nil columns)

ensure_lock_columns_keeps :
    (name : String) (columns : List String)
    → has_column name (added "max_hold_ms" columns) ≡ true
    → has_column name (ensure_lock_columns columns) ≡ true
unfolding ensure_lock_columns
ensure_lock_columns_keeps name columns = has_column-left name (added "max_hold_ms" columns) _

-- The migration adds the columns that are missing: then the table has both and those that it had, and a
-- second migration, of a store that is opened again, changes nothing.
pub ensure_lock_columns_lem :
    (columns : List String)
    → (has_column "max_hold_ms" (ensure_lock_columns columns) ≡ true)
      × (has_column "hold_count" (ensure_lock_columns columns) ≡ true)
      × ((name : String)
          → has_column name columns ≡ true
          → has_column name (ensure_lock_columns columns) ≡ true)
      × (ensure_lock_columns (ensure_lock_columns columns) ≡ ensure_lock_columns columns)
ensure_lock_columns_lem columns =
    let max =
      ensure_lock_columns_keeps "max_hold_ms" columns (added-has_column "max_hold_ms" columns) in
    let hold = hold_count-added columns in
    (
      max,
      hold,
      λ name h. ensure_lock_columns_keeps name columns (added_keeps "max_hold_ms" name columns h),
      ensure_lock_columns_complete (ensure_lock_columns columns) max hold,
    )
