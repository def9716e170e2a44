-- ===== src/Remote/Lawful.antt =====
-- What a call of the client over the handler and the store gives the mount.
use shared_concurrency_subst.Common.{
  ℕ, ◌≡◌, refl, inl, inr, String, List, Option, ◌=s◌, Bool-cases, String_discrete,
}
use shared_concurrency_subst.Store.Data.{TimeText, permission_error, err}
use shared_concurrency_subst.Store.Acquire.{Readings}
use shared_concurrency_subst.Store.Release.{release}
use shared_concurrency_subst.Store.Strangers.{HeldBy, release-stranger}
use shared_concurrency_subst.System.{Broker, Event}
use shared_concurrency_subst.Broker.{Config, Response, Posted, post_release, reply_result, do_post}
use shared_concurrency_subst.Client.{release_payload, read_reply}
use shared_concurrency_subst.Effects.{Outcome, done, raises, runtime_error}
use shared_concurrency_subst.Fuse.World.{LockService}
use shared_concurrency_subst.Fuse.Leaks.{IsLawfulService}
use shared_concurrency_subst.Remote.{
  Line, respond_to, arrived, no_value, exchange, body_of, remote_service,
}
use shared_concurrency_subst.Remote.Served.{acquire-ServedBy}

module _ {Stamp : Type 0} (t : TimeText Stamp) (c : Config) (readings : ℕ → Readings)
    (others : ℕ → List Event) (patience : ℕ) where
  abbrev pub remote : LockService (Line Stamp)
  remote = remote_service t c readings others patience

  abbrev respond : Posted Stamp → Line Stamp → Outcome (Response Stamp) × Line Stamp
  respond = respond_to t c readings others patience

  abbrev pub Holds : Line Stamp → String → String → Type 0
  Holds s id owner = HeldBy s.broker.tables id owner

  -- The client makes a RuntimeError of the reply, and the broker is as before.
  Refuses : Broker Stamp → Posted Stamp × Broker Stamp → Type 0
  Refuses b x =
      ((s : Line Stamp)
        → no_value t c readings others patience
            (body_of t c readings others patience (respond x.0 s).0)
          ≡ raises runtime_error)
      × ((s : Line Stamp) → (respond x.0 s).1 ≡ s)
      × (x.1 ≡ b)

  release-Refuses :
      (r : Readings) (id stranger : String) (b : Broker Stamp)
      → release id stranger b.tables ≡ err permission_error
      → Refuses b (
          do_post t c r.granted_now r.granted_now r.monotonic "/v1/locks/release"
            (release_payload id stranger)
            b)
  unfolding Refuses respond_to read_reply do_post post_release release_payload reply_result
      String_discrete
  release-Refuses r id stranger b e = elim (Bool-cases (id =s "")) [
    | inl no_id ↦ rw (no_id, post_release) (λ s. refl, λ s. refl, refl)
    | inr i ↦ elim (Bool-cases (stranger =s "")) [
      | inl no_owner ↦ rw (i, post_release, no_owner) (λ s. refl, λ s. refl, refl)
      | inr o ↦ rw (i, post_release, o, e) (λ s. refl, λ s. refl, refl)
    ]
  ]

  remote-refused :
      (s : Line Stamp) (id owner stranger : String)
      → Holds s id owner
      → ¬ (owner ≡ stranger)
      → ((remote.release id stranger s).0 ≡ raises runtime_error)
        × Holds (remote.release id stranger s).1 id owner
  unfolding remote_service exchange Refuses
  remote-refused s id owner stranger h other =
      let (said, line, same) =
        release-Refuses (readings s.tick) id stranger s.broker
          (release-stranger s.broker.tables id owner stranger s.valid.distinct h other) in
      let x =
        arrived t c readings others patience "/v1/locks/release" (release_payload id stranger) s in
      (said x, rw (line x, same) h)

  remote-Holds :
      (path text owner : String) (timeout : Option ℕ) (lease : ℕ) (cap : Option ℕ) (s : Line Stamp)
      (id : String)
      → (remote.acquire path text owner timeout lease cap s).0 ≡ done id
      → Holds (remote.acquire path text owner timeout lease cap s).1 id owner
  remote-Holds path text owner timeout lease cap s id k =
      let (mode, good, served) =
        acquire-ServedBy t c readings others patience path text owner timeout lease cap s id k in
      let (l, now, serves, key) = served in (l, serves.held, key, serves.owned)

  -- The client over the handler and the store, with other clients at the same broker, meets the
  -- assumptions that the mount makes of a lock service.
  pub remote_service-IsLawfulService : IsLawfulService remote Holds
  remote_service-IsLawfulService = record { acquired = remote-Holds; refused = remote-refused }
