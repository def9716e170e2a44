-- ===== src/Remote/Roundtrip.antt =====
-- A file that is opened and closed on a mount, down to the broker's tables.
use shared_concurrency_subst.Common.{
  ℕ, suc, ◌≡◌, refl, sym, ap, ◌∙◌, inl, inr, String, true, false, not, List, [], Option, some,
  arith, ◌=s◌, ≡→=s, Bool-cases, String_discrete, select-last, In, In-append_right,
}
use shared_concurrency_subst.Store.Data.{Mode, TimeText, LockInfo, Tables}
use shared_concurrency_subst.Store.Cleanup.{delete_lock}
use shared_concurrency_subst.Store.Cleanup.Survivors.{In-cleanup_expired}
use shared_concurrency_subst.Store.Acquire.{Readings, parse_mode, new_lock}
use shared_concurrency_subst.Store.Release.{find_lock, release_row, release}
use shared_concurrency_subst.Store.Fairness.{cleaned}
use shared_concurrency_subst.Store.Sticky.{In-find_lock}
use shared_concurrency_subst.System.{Broker, Event}
use shared_concurrency_subst.Broker.{Config, Posted, respond, state, reply_result, do_post}
use shared_concurrency_subst.Client.{release_payload, read_reply}
use shared_concurrency_subst.Client.Agreement.{asked, do_post-release}
use shared_concurrency_subst.Effects.{done, gives}
use shared_concurrency_subst.Fuse.World.{LockService, Kernel, close, Platform, Mount, World}
use shared_concurrency_subst.Fuse.Locks.{lstrip, lock_key, full_path}
use shared_concurrency_subst.Fuse.Operations
use shared_concurrency_subst.Fuse.Operations.{open_with}
use shared_concurrency_subst.Fuse.Keeps.{IsAligned}
use shared_concurrency_subst.Fuse.Leaks.{token, token-ne-empty, first_acquire}
use shared_concurrency_subst.Fuse.Closing.{release-open_with}
use shared_concurrency_subst.Remote.{Line, exchange, respond_to, remote_service}
use shared_concurrency_subst.Store.Unused.{Unused}
use shared_concurrency_subst.Remote.Progress.{acquire-Unused}

pub lock_key-ne-empty : (path : String) → ¬ (lock_key path ≡ "")
unfolding lock_key String_discrete
lock_key-ne-empty path e = elim (Bool-cases (lstrip path =s "")) [
  | inl blank ↦ let k : false ≡ true = ≡→=s "." "" (rw blank at e) in cc
  | inr rest ↦ let k : false ≡ true = sym rest ∙ ≡→=s (lstrip path) "" (rw rest at e) in cc
]

module _ {Stamp : Type 0} (t : TimeText Stamp) (c : Config) (readings : ℕ → Readings)
    (others : ℕ → List Event) (rounds : ℕ) where
  abbrev service : LockService (Line Stamp)
  service = remote_service t c readings others (suc rounds)

  -- A release of the client by the owner of the lock.
  pub release-held :
      (id owner : String) (s : Line Stamp) (r : LockInfo Stamp)
      → ¬ (id ≡ "")
      → ¬ (owner ≡ "")
      → find_lock id s.broker.tables ≡ some r
      → r.owner ≡ owner
      → ((service.release id owner s).0 ≡ done tt)
        × ((service.release id owner s).1.broker.tables ≡ release_row r s.broker.tables)
  unfolding remote_service exchange respond_to read_reply reply_result release
  release-held id owner s r i o found mine =
      let own = ≡→=s r.owner owner mine in
      let n = (readings s.tick).granted_now in
      let e : do_post t c n n (readings s.tick).monotonic "/v1/locks/release"
            (release_payload id owner) s.broker
          ≡ (
            respond t 200 (state "released"),
            record s.broker { tables = release_row r s.broker.tables },
          ) =
        do_post-release t c n n (readings s.tick).monotonic id owner s.broker i o
        ∙ rw (found, release, own) refl in
      let answer = ap (λ (y : Posted Stamp × Broker Stamp). y.0) e in
      rw answer (refl, ap (λ (y : Posted Stamp × Broker Stamp). y.1.tables) e)

  module _ {K : Type 0} (os : Kernel K) (p : Platform) (m : Mount) where
    -- A file whose key nobody uses is opened and its handle closed, while no other client acts, the
    -- broker's new key is fresh and not empty, and the kernel opens and closes: the mount's tables of
    -- handles are as before, and the broker keeps the locks that the clean-up leaves, and its queue.
    pub open_with-release :
        (path text : String) (mode : Mode) (flags : ℕ) (perm : Option ℕ) (w : World (Line Stamp) K)
        (fd : ℕ) (x : List ℕ)
        → IsAligned w
        → parse_mode text ≡ some mode
        → Unused t (lock_key path) w.service.broker.tables
        → ((a : LockInfo Stamp)
            → In a w.service.broker.tables.locks
            → ¬ (a.lock_id ≡ (readings (suc w.service.tick)).new_id))
        → ¬ ((readings (suc w.service.tick)).new_id ≡ "")
        → others (suc w.service.tick) ≡ []
        → (os.open_file (full_path service os p m path) flags perm w.kernel).0 ≡ gives fd
        → (os.call (close fd) (open_with service os p m path text flags perm w).1.kernel).0
          ≡ gives x
        → (let w' =
              (Operations.release service os p m
                (suc w.next_fh)
                (open_with service os p m path text flags perm w).1).1 in
            let b = w.service.broker.tables in
            (w'.handle_locks ≡ w.handle_locks)
            × (w'.handle_paths ≡ w.handle_paths)
            × (w'.handle_fds ≡ w.handle_fds)
            × (w'.handle_owners ≡ w.handle_owners)
            × (w'.service.broker.tables.locks ≡ (cleaned t (readings (suc w.service.tick)) b).locks)
            × (w'.service.broker.tables.queue ≡ b.queue))
    unfolding new_lock delete_lock release_row
    open_with-release path text mode flags perm w fd x v good free fresh named quiet gave shut =
        let next = readings (suc w.service.tick) in
        let owner = token service os p m w in
        let b = w.service.broker.tables in
        let key = lock_key-ne-empty path in
        let owned = token-ne-empty m.owner (p.hex w.tokens) in
        let q =
          asked t c (lock_key path) mode owner m.acquire_timeout_ms m.lease_ms m.max_hold_ms in
        let (got, locks, queue) =
          acquire-Unused t c readings others rounds (lock_key path) text owner mode
            m.acquire_timeout_ms m.lease_ms m.max_hold_ms w.service key owned good free fresh
            quiet in
        let (a1, a2, a3, a4, after) =
          release-open_with service os p m path text flags perm w next.new_id fd x v got named gave
            shut in
        let s = (first_acquire service os p m path text w).1 in
        let l = new_lock t next q in
        let held : In l s.broker.tables.locks =
          rw locks (In-append_right l (cleaned t next b).locks _ (inl refl)) in
        let found = In-find_lock s.broker.tables l s.valid.distinct held in
        let (_, gone) = release-held next.new_id owner s l named owned found refl in
        let tables = ap (λ (y : Line Stamp). y.broker.tables) after ∙ gone in
        let last =
          select-last (λ r. not (r.lock_id =s next.new_id)) l (cleaned t next b).locks
            (λ a i.
              let old = (In-cleanup_expired t next.cleanup_now next.held_now b a i).0 in
              ground (arith, fresh a old))
            (rw (≡→=s next.new_id next.new_id refl) refl) in
        (
          a1,
          a2,
          a3,
          a4,
          ap (λ (y : Tables Stamp). y.locks) tables ∙ ap (delete_lock next.new_id) locks ∙ last,
          ap (λ (y : Tables Stamp). y.queue) tables ∙ queue,
        )
