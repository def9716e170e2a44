-- ===== src/Store/Acquire.antt =====
-- lock_store.py: `acquire`. Its part before the loop is `enter`, one round of the loop is `poll`;
-- `with self._cond` makes a round one step, and what other threads do falls between rounds.
use shared_concurrency_subst.Common.{
  ℕ, suc, ◌+◌, ◌-◌, ◌*◌, ◌/◌, String, Bool, ◌&&◌, ◌||◌, not, List, [], ◌∷◌, ◌++◌, Option, none,
  some, leb, ◌==◌, ◌=s◌, if◌then◌else◌, select, first, any, update,
}
use shared_concurrency_subst.Store.Data.{
  Mode, read, write, TimeText, LockInfo, QueueInfo, Tables, Error, value_error, integrity_error,
  Result, ok, err,
}
use shared_concurrency_subst.Store.Queries.{is_write, same_mode, can_grant}
use shared_concurrency_subst.Store.Cleanup.{cleanup_expired}

-- The arguments, the mode checked.
pub record Request : Type 0 where
  pub path : String
  pub mode : Mode
  pub owner : String
  pub timeout_ms : Option ℕ
  pub lease_ms : ℕ
  pub max_hold_ms : Option ℕ

pub data Entered (Stamp : Type 0) : Type 0 where
  returned : LockInfo Stamp → Entered Stamp
  queued : ℕ → Entered Stamp

-- What a round reads from outside: the clock, four times, and `uuid4`.
pub record Readings : Type 0 where
  pub cleanup_now : ℕ
  pub held_now : ℕ
  pub granted_now : ℕ
  pub monotonic : ℕ
  pub new_id : String

-- A call that waits: its arguments, its row of the queue, and `start`.
pub record Pending : Type 0 where
  pub request : Request
  pub req_id : ℕ
  pub start : ℕ

pub data Polled (Stamp : Type 0) : Type 0 where
  granted : LockInfo Stamp → Polled Stamp
  timed_out : Polled Stamp
  waiting : ℕ → Polled Stamp  -- milliseconds until the next round, if nobody notifies
  raised : Error → Polled Stamp

unfoldable pub parse_mode : String → Option Mode
parse_mode mode = if mode =s "read" then some read else if mode =s "write" then some write else none

module _ {Stamp : Type 0} (t : TimeText Stamp) where
  -- `now + timedelta(milliseconds=lease_ms)`
  -- `now + timedelta(...)`, in the range of `datetime`: the OverflowError beyond it is left out.
  abbrev pub lease_end : ℕ → ℕ → Stamp
  lease_end now lease_ms = t.isoformat (now + lease_ms * 1000)

  -- A repeated request: a new lease, and one more hold.
  unfoldable pub hold_again : ℕ → Request → LockInfo Stamp → LockInfo Stamp
  hold_again now q r = record r {
    lease_expires_at = lease_end now q.lease_ms;
    hold_count = r.hold_count + 1;
  }

  -- The only reader becomes the writer.
  unfoldable pub upgrade : ℕ → Request → LockInfo Stamp → LockInfo Stamp
  upgrade now q r = record r {
    mode = write;
    lease_expires_at = lease_end now q.lease_ms;
    hold_count = r.hold_count + 1;
  }

  unfoldable pub has_other_owner : Tables Stamp → String → String → Bool
  has_other_owner s path owner = any (λ r. (r.path =s path) && not (r.owner =s owner)) s.locks

  -- `INSERT INTO queue`; the key is the counter's next value.
  unfoldable pub enqueue : ℕ → Request → Tables Stamp → Entered Stamp × Tables Stamp
  enqueue now q s = (
    queued (suc s.last_req),
    record s {
      queue =
          s.queue
          ++ record {
            req_id = suc s.last_req;
            path = q.path;
            mode = q.mode;
            owner = q.owner;
            requested_at = t.isoformat now;
          }
            ∷ [];
      last_req = suc s.last_req;
    },
  )

  -- `UPDATE locks SET … WHERE lock_id = ?`, and the row that is returned.
  unfoldable pub rewrite_lock :
      (LockInfo Stamp → LockInfo Stamp)
      → LockInfo Stamp
      → Tables Stamp
      → Entered Stamp × Tables Stamp
  rewrite_lock f r s =
      (returned (f r), record s { locks = update (λ x. x.lock_id =s r.lock_id) f s.locks })

  -- A call that finds a lock of the same owner on the path.
  unfoldable pub enter_held :
      ℕ → Request → LockInfo Stamp → Tables Stamp → Entered Stamp × Tables Stamp
  unfolding rewrite_lock hold_again upgrade enqueue
  enter_held now q r s =
      if is_write r.mode || same_mode r.mode q.mode
      then rewrite_lock (hold_again now q) r s
      else if (not (is_write r.mode) && is_write q.mode) && not (has_other_owner s q.path q.owner)
      then rewrite_lock (upgrade now q) r s
      else enqueue now q s

  unfoldable pub enter : ℕ → Request → Tables Stamp → Entered Stamp × Tables Stamp
  unfolding enter_held enqueue
  enter now q s = elim (first (λ r. (r.path =s q.path) && (r.owner =s q.owner)) s.locks) [
    | none ↦ enqueue now q s
    | some r ↦ enter_held now q r s
  ]

  -- The head of `acquire`: an unknown mode is a ValueError.
  unfoldable pub acquire :
      ℕ
      → String
      → String
      → String
      → Option ℕ
      → ℕ
      → Option ℕ
      → Tables Stamp
      → Result (Request × (Entered Stamp × Tables Stamp))
  unfolding parse_mode
  acquire now path mode owner timeout_ms lease_ms max_hold_ms s = elim (parse_mode mode) [
    | none ↦ err value_error
    | some m ↦
        let q : Request = record {
          path = path;
          mode = m;
          owner = owner;
          timeout_ms = timeout_ms;
          lease_ms = lease_ms;
          max_hold_ms = max_hold_ms;
        } in
        ok (q, enter now q s)
  ]

  unfoldable pub new_lock : Readings → Request → LockInfo Stamp
  new_lock r q = record {
    lock_id = r.new_id;
    path = q.path;
    mode = q.mode;
    owner = q.owner;
    acquired_at = t.isoformat r.granted_now;
    lease_expires_at = lease_end r.granted_now q.lease_ms;
    max_hold_ms = q.max_hold_ms;
    hold_count = 1;
  }

  -- `DELETE FROM queue WHERE req_id = ?`
  unfoldable pub dequeue : ℕ → List (QueueInfo Stamp) → List (QueueInfo Stamp)
  dequeue req_id = select (λ q. not (q.req_id == req_id))

  -- `INSERT INTO locks` fails on a key that is taken.
  unfoldable pub grant : Readings → Pending → Tables Stamp → Polled Stamp × Tables Stamp
  unfolding new_lock dequeue
  grant r p s = if any (λ x. x.lock_id =s r.new_id) s.locks then (raised integrity_error, s) else (
    granted (new_lock r p.request),
    record s { locks = s.locks ++ new_lock r p.request ∷ []; queue = dequeue p.req_id s.queue },
  )

  abbrev pub elapsed_ms : Readings → Pending → ℕ
  elapsed_ms r p = (r.monotonic - p.start) / 1000

  -- The end of a round that cannot grant.
  unfoldable pub give_up_or_wait : Readings → Pending → Tables Stamp → Polled Stamp × Tables Stamp
  unfolding dequeue
  give_up_or_wait r p s = elim p.request.timeout_ms [
    | none ↦ (waiting 1000, s)
    | some limit ↦
        if leb limit (elapsed_ms r p)
        then (timed_out, record s { queue = dequeue p.req_id s.queue })
        else (waiting (limit - elapsed_ms r p), s)
  ]

  unfoldable pub poll : Readings → Pending → Tables Stamp → Polled Stamp × Tables Stamp
  unfolding grant give_up_or_wait
  poll r p s =
      let s' = cleanup_expired t r.cleanup_now r.held_now s in
      if can_grant s' p.request.path p.request.mode p.req_id
      then grant r p s'
      else give_up_or_wait r p s'
