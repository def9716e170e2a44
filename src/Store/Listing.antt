-- ===== src/Store/Listing.antt =====
-- What `status` lists.
use shared_concurrency_subst.Common.{
  ◌≡◌, ◌↔◌, String, false, some, arith, ◌=s◌, =s→≡, ≡→=s, In, In-select, select-In,
}
use shared_concurrency_subst.Store.Data.{LockInfo, QueueInfo, Tables}
use shared_concurrency_subst.Store.Release.{status}
use shared_concurrency_subst.Store.Invariant.Ids.{Rising, Rising-select}
use shared_concurrency_subst.Store.Invariant.Valid.{IsValid}

module _ {Stamp : Type 0} where
  -- `status` of a path lists exactly the locks and the queued requests of that path, the requests in
  -- the order of their keys.
  pub status_of_path :
      (path : String) (s : Tables Stamp)
      → IsValid s
      → ¬ (path ≡ "")
      → ((a : LockInfo Stamp)
          → In a (status (some path) s).locks ↔ (In a s.locks × (a.path ≡ path)))
        × ((q : QueueInfo Stamp)
            → In q (status (some path) s).queue ↔ (In q s.queue × (q.path ≡ path)))
        × Rising 0 s.last_req (status (some path) s).queue
  unfolding status
  status_of_path path s v n =
      let named : (path =s "") ≡ false = ground arith in
      rw named (
        λ a. (
          λ i. let (j, e) = In-select (λ r. r.path =s path) a s.locks i in (j, =s→≡ _ _ e),
          λ h. select-In (λ r. r.path =s path) a s.locks h.0 (≡→=s _ _ h.1),
        ),
        λ q. (
          λ i. let (j, e) = In-select (λ r. r.path =s path) q s.queue i in (j, =s→≡ _ _ e),
          λ h. select-In (λ r. r.path =s path) q s.queue h.0 (≡→=s _ _ h.1),
        ),
        Rising-select (λ q. q.path =s path) 0 s.last_req s.queue v.rising,
      )
