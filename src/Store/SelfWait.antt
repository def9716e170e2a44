-- ===== src/Store/SelfWait.antt =====
-- A reader that asks for a write while others read: `acquire` upgrades a lock before its loop only.
use shared_concurrency_subst.Common.{ℕ, suc, ◌≡◌, refl, true, ◌&&◌, some, ◌=s◌, first}
use shared_concurrency_subst.Store.Data.{read, write, TimeText, LockInfo, Tables}
use shared_concurrency_subst.Store.Acquire.{
  Request, queued, Readings, Pending, granted, has_other_owner, enqueue, enter_held, enter, poll,
}
use shared_concurrency_subst.Store.Invariant.Ids.{Distinct}
use shared_concurrency_subst.Store.Queries.Grants.{can_grant-Grantable}
use shared_concurrency_subst.Store.Fairness.{Live, Grantable-MayProceed, granted-can_grant}

module _ {Stamp : Type 0} (t : TimeText Stamp) where
  enter-queued :
      (now : ℕ) (q : Request) (s : Tables Stamp) (r : LockInfo Stamp)
      → first (λ x. (x.path =s q.path) && (x.owner =s q.owner)) s.locks ≡ some r
      → r.mode ≡ read
      → q.mode ≡ write
      → has_other_owner t s q.path q.owner ≡ true
      → (enter t now q s).0 ≡ queued (suc s.last_req)
  unfolding enter enter_held enqueue
  enter-queued now q s r own reads writes shared =
      rw (own, enter, enter_held, reads, writes, shared) refl

  -- A request for a write of an owner who reads the path beside another owner is queued, and from then
  -- on no round grants it while a lock of the owner itself on the path is live, whoever else has gone.
  pub upgrade_waits :
      (now start : ℕ) (q : Request) (s : Tables Stamp) (r : LockInfo Stamp)
      → first (λ x. (x.path =s q.path) && (x.owner =s q.owner)) s.locks ≡ some r
      → r.mode ≡ read
      → q.mode ≡ write
      → has_other_owner t s q.path q.owner ≡ true
      → ((enter t now q s).0 ≡ queued (suc s.last_req))
        × ((later : Tables Stamp) (rd : Readings) (a l : LockInfo Stamp)
            → Distinct later.locks
            → Live t rd later a
            → a.path ≡ q.path
            → a.owner ≡ q.owner
            → ¬ (
                (poll t rd (record { request = q; req_id = suc s.last_req; start = start }) later).0
                ≡ granted l))
  upgrade_waits now start q s r own reads writes shared = (
    enter-queued now q s r own reads writes shared,
    λ later rd a l d live path same g.
        let p : Pending = record { request = q; req_id = suc s.last_req; start = start } in
        let may =
          Grantable-MayProceed t rd later q.path q.mode (suc s.last_req) d
            (can_grant-Grantable _ q.path q.mode _ (granted-can_grant t rd p later l g)) in
        (rw writes at may).1 a live path,
  )
