-- ===== src/Cli/Calm.antt =====
-- The helpers of cli.py that never end the program: whatever they raise, `except Exception` catches.
use shared_concurrency_subst.Common.{
  ◌≡◌, refl, ap, inl, inr, String, Bool, true, false, any, Bool-cases, if◌then◌else◌,
}
use shared_concurrency_subst.Effects.{
  eio, ebadf, eacces, enotconn, enoent, other, Outcome, done, raises, Raised, system_exit,
  unanswered, fuse_os_error, os_error, runtime_error, called_process_error, value_error,
  file_not_found_error, Reply, gives, fails, M, bind_result, caught, pure,
}
use shared_concurrency_subst.Cli.Host.{Host, reply_outcome, ran}
use shared_concurrency_subst.Cli.Mounts.{
  unmount_with, unmount_path, umount_or_sudo, exists_or_stale, unmount_listed,
}

abbrev pub IsCalm : {A : Type 0} → Outcome A → Type 0
IsCalm o = ¬ (o ≡ raises system_exit)

pub bind_result-IsCalm :
    {W A B : Type 0} (r : Outcome A × W) (f : A → M W B)
    → IsCalm r.0
    → ((a : A) (w : W) → IsCalm (f a w).0)
    → IsCalm (bind_result r f).0
bind_result-IsCalm (done a, w) f c d = d a w
bind_result-IsCalm (raises e, w) f c d = λ q. c (cc)

-- What ignores every `Exception` ends well.
pub caught-ignored :
    {W : Type 0} (r : Outcome (Unit {0}) × W) → IsCalm r.0 → (caught r (λ e. pure tt)).0 ≡ done tt
caught-ignored (done tt, w) c = refl
caught-ignored (raises system_exit, w) c = absurd (c refl)
caught-ignored (raises (fuse_os_error n), w) c = refl
caught-ignored (raises (os_error n), w) c = refl
caught-ignored (raises runtime_error, w) c = refl
caught-ignored (raises unanswered, w) c = refl
caught-ignored (raises called_process_error, w) c = refl
caught-ignored (raises value_error, w) c = refl
caught-ignored (raises file_not_found_error, w) c = refl

-- An `Exception` runs the handler.
pub caught-raised :
    {W A : Type 0} (e : Raised) (w : W) (f : Raised → M W A)
    → ¬ (e ≡ system_exit)
    → caught (raises e, w) f ≡ f e w
caught-raised system_exit w f c = absurd (c refl)
caught-raised (fuse_os_error n) w f c = refl
caught-raised (os_error n) w f c = refl
caught-raised runtime_error w f c = refl
caught-raised unanswered w f c = refl
caught-raised called_process_error w f c = refl
caught-raised value_error w f c = refl
caught-raised file_not_found_error w f c = refl

-- What ignores every `Exception` keeps what was done before.
pub caught-state :
    {W : Type 0} (r : Outcome (Unit {0}) × W)
    → IsCalm r.0
    → caught r (λ e. pure tt) ≡ (done tt, r.1)
caught-state (done u, w) c = refl
caught-state (raises e, w) c = caught-raised e w (λ x. pure tt) (λ q. c (ap (λ x. raises x) q))

module _ {H : Type 0} (os : Host H) where
  pub reply_outcome-IsCalm : {A : Type 0} (r : Reply A) → IsCalm (reply_outcome os r)
  reply_outcome-IsCalm (gives a) = λ q. cc
  reply_outcome-IsCalm (fails e) = λ q. cc

  ran-IsCalm : (b : Bool) → IsCalm (ran os b)
  ran-IsCalm true = λ q. cc
  ran-IsCalm false = λ q. cc

  umount_or_sudo-IsCalm : (path : String) (r : Bool × H) → IsCalm (umount_or_sudo os path r).0
  umount_or_sudo-IsCalm path (true, h) = λ q. cc
  umount_or_sudo-IsCalm path (false, h) = elim (Bool-cases (os.which "sudo" h)) [
    | inl there ↦ rw there (ran-IsCalm _)
    | inr missing ↦ rw missing (λ q. cc)
  ]

  unmount_with-IsCalm : (path : String) (h : H) → IsCalm (unmount_with os path h).0
  unfolding unmount_with
  unmount_with-IsCalm path h = elim (Bool-cases (os.which "fusermount3" h)) [
    | inl there ↦ rw there (ran-IsCalm _)
    | inr a ↦ elim (Bool-cases (os.which "fusermount" h)) [
      | inl there ↦ rw (a, there) (ran-IsCalm _)
      | inr b ↦ rw (a, b) (umount_or_sudo-IsCalm path _)
    ]
  ]

  exists_or_stale-IsCalm : (r : Reply Bool) → IsCalm (exists_or_stale os r)
  exists_or_stale-IsCalm (gives b) = λ q. cc
  exists_or_stale-IsCalm (fails enotconn) = λ q. cc
  exists_or_stale-IsCalm (fails eio) = λ q. cc
  exists_or_stale-IsCalm (fails ebadf) = λ q. cc
  exists_or_stale-IsCalm (fails eacces) = λ q. cc
  exists_or_stale-IsCalm (fails enoent) = λ q. cc
  exists_or_stale-IsCalm (fails (other n)) = λ q. cc

  unmount_if-IsCalm :
      (path : String) (b : Bool) (h : H)
      → IsCalm ((if b then unmount_with os path else pure tt) h).0
  unmount_if-IsCalm path true h = unmount_with-IsCalm path h
  unmount_if-IsCalm path false h = λ q. cc

  unmount_listed-IsCalm : (path : String) (h : H) → IsCalm (unmount_listed os path h).0
  unmount_listed-IsCalm path h =
      bind_result-IsCalm (reply_outcome os (os.mounts h), h) _ (reply_outcome-IsCalm (os.mounts h))
        (λ lines w. unmount_if-IsCalm path (any (λ line. os.is_in path line) lines) w)

  unmount_found-IsCalm :
      (path : String) (b : Bool) (h : H)
      → IsCalm ((if b then unmount_listed os path else pure tt) h).0
  unmount_found-IsCalm path true h = unmount_listed-IsCalm path h
  unmount_found-IsCalm path false h = λ q. cc

  pub unmount_path-IsCalm : (path : String) (h : H) → IsCalm (unmount_path os path h).0
  unfolding unmount_path
  unmount_path-IsCalm path h =
      bind_result-IsCalm (exists_or_stale os (os.path_exists path h), h) _
        (exists_or_stale-IsCalm (os.path_exists path h))
        (λ found w. unmount_found-IsCalm path found w)
