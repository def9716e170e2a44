-- ===== src/Store/Queries.antt =====
-- lock_store.py: the queries over the tables, and `_can_grant`.
pub mod Grants
use shared_concurrency_subst.Common.{
  ℕ, String, Bool, true, false, ◌&&◌, not, List, [], ◌∷◌, Option, none, some, ltb, ◌==◌, ◌=s◌,
  if◌then◌else◌, select, any,
}
use shared_concurrency_subst.Store.Data.{Mode, read, write, QueueInfo, Tables}

abbrev pub is_write : Mode → Bool
is_write write = true
is_write read = false

abbrev pub same_mode : Mode → Mode → Bool
same_mode read read = true
same_mode write write = true
same_mode _ _ = false

-- `earliest != req_id` is its negation.
abbrev pub is_req : Option ℕ → ℕ → Bool
is_req none req_id = false
is_req (some m) req_id = m == req_id

module _ {Stamp : Type 0} where
  unfoldable pub has_write_lock : Tables Stamp → String → Bool
  has_write_lock s path = any (λ r. (r.path =s path) && is_write r.mode) s.locks

  unfoldable pub has_any_lock : Tables Stamp → String → Bool
  has_any_lock s path = any (λ r. r.path =s path) s.locks

  unfoldable pub writer_ahead : Tables Stamp → String → ℕ → Bool
  writer_ahead s path req_id =
      any (λ q. (q.path =s path) && (is_write q.mode && ltb q.req_id req_id)) s.queue

  -- `MIN(req_id)`, NULL on no rows.
  unfoldable pub min_req : List (QueueInfo Stamp) → Option ℕ
  min_req [] = none
  min_req (q ∷ qs) = elim (min_req qs) [
    | none ↦ some q.req_id
    | some m ↦ some (if ltb m q.req_id then m else q.req_id)
  ]

  unfoldable pub earliest_req : Tables Stamp → String → Option ℕ
  unfolding min_req
  earliest_req s path = min_req (select (λ q. q.path =s path) s.queue)

  unfoldable pub can_grant : Tables Stamp → String → Mode → ℕ → Bool
  can_grant s path write req_id =
      if not (is_req (earliest_req s path) req_id) then false else not (has_any_lock s path)
  can_grant s path read req_id =
      if has_write_lock s path then false else not (writer_ahead s path req_id)
