-- ===== src/Cli/Guards.antt =====
-- The helpers of mounts, directories and processes when they succeed, and when they refuse.
use shared_concurrency_subst.Common.{
  ℕ, ◌≡◌, refl, ◌⊎◌, inl, inr, String, Bool, true, false, List, [], ◌∷◌, Option, none, some, arith,
  ◌=s◌, =s→≡, any, any-In, In, Bool-cases, Option-cases,
}
use shared_concurrency_subst.Effects.{
  eio, ebadf, eacces, enotconn, enoent, other, M, bind_result, Outcome, done, raises, Reply, gives,
  fails,
}
use shared_concurrency_subst.Cli.Host.{Host}
use shared_concurrency_subst.Cli.Mounts.{
  safe_clear_dir, clear_resolved, ensure_empty_dir, check_empty, refuse_entries, entries,
  ensure_mount_dir, unmount_path, stop_pid_file, forget_pid, stop_read, stop_pid,
}

pub bind_result-done :
    {W A B : Type 0} (p : Outcome A × W) (f : A → M W B) (b : B)
    → (bind_result p f).0 ≡ done b
    → (a : A) × (bind_result p f ≡ f a p.1)
bind_result-done (done a, w) f b e = (a, refl)
bind_result-done (raises x, w) f b e = cc

-- Looking for a file never fails, and a file that is deleted is not there.
pub record IsTidy {H : Type 0} (os : Host H) : Type 0 where
  pub found : String → H → Bool
  pub looks : (path : String) (h : H) → os.path_exists path h ≡ gives (found path h)
  pub gone : (path : String) (h : H) → os.path_exists path (os.unlink path h) ≡ gives false

pub then-done :
    {W A : Type 0} (r : Outcome (Unit {0}) × W) (k : M W A)
    → r.0 ≡ done tt
    → bind_result r (λ _. k) ≡ k r.1
then-done (done tt, w) k e = refl
then-done (raises x, w) k e = cc

module _ {H : Type 0} (os : Host H) where
  clear_resolved-guard :
      (path root : String) (h : H)
      → ((clear_resolved os path root h).1 ≡ h) ⊎ (In root (os.parents path) × ¬ (path ≡ root))
  clear_resolved-guard path root h = elim (Bool-cases (path =s root)) [
    | inl same ↦ inl (rw same refl)
    | inr apart ↦ elim (Bool-cases (any (λ p. p =s root) (os.parents path))) [
      | inl below ↦
          let (p, m, e) = any-In (λ x. x =s root) (os.parents path) below in
          let same : p ≡ root = =s→≡ p root e in inr (rw same at m, ground arith)
      | inr outside ↦ inl (rw (apart, outside) refl)
    ]
  ]

  -- `_safe_clear_dir` leaves the host alone unless both paths resolve, the first strictly below the
  -- second.
  pub safe_clear_dir_guarded :
      (path root : String) (h : H)
      → ¬ ((safe_clear_dir os path root h).1 ≡ h)
      → (p : String) × (r : String) × (os.resolve path h ≡ some p)
        × (os.resolve root h ≡ some r)
        × In r (os.parents p)
        × ¬ (p ≡ r)
  unfolding safe_clear_dir
  safe_clear_dir_guarded path root h changed = elim (Option-cases (os.resolve path h)) [
    | inl bad ↦ absurd (changed (rw (safe_clear_dir, bad) refl))
    | inr (p, e) ↦ elim (Option-cases (os.resolve root h)) [
      | inl bad ↦ absurd (changed (rw (safe_clear_dir, e, bad) refl))
      | inr (r, f) ↦ elim (clear_resolved-guard p r h) [
        | inl same ↦ absurd (changed (rw (safe_clear_dir, e, f) same))
        | inr (below, apart) ↦ (p, r, e, f, below, apart)
      ]
    ]
  ]

  refuse_entries-done :
      (l : List String) (h : H)
      → (refuse_entries os l h).0 ≡ done tt
      → (l ≡ []) × ((refuse_entries os l h).1 ≡ h)
  refuse_entries-done [] h e = (refl, refl)
  refuse_entries-done (_ ∷ _) h e = cc

  check_listed-done :
      (path : String) (w : H) (r : Reply (List String))
      → os.list_dir path w ≡ r
      → (bind_result (entries os path w) (refuse_entries os)).0 ≡ done tt
      → os.list_dir path (bind_result (entries os path w) (refuse_entries os)).1 ≡ gives []
  check_listed-done path w (gives []) listed e = rw listed listed
  check_listed-done path w (gives (x ∷ l)) listed e = absurd (let k = rw listed at e in cc)
  check_listed-done path w (fails x) listed e = absurd (let k = rw listed at e in cc)

  check_empty-done :
      (path : String) (w : H) (r : Reply (List String))
      → os.list_dir path w ≡ r
      → (check_empty os path r w).0 ≡ done tt
      → os.list_dir path (check_empty os path r w).1 ≡ gives []
  check_empty-done path w (gives []) listed e = listed
  check_empty-done path w (gives (x ∷ l)) listed e = cc
  check_empty-done path w (fails enotconn) listed e =
      let (a, same) = bind_result-done (unmount_path os path w) _ tt e in
      rw same (
        check_listed-done path (unmount_path os path w).1
          (os.list_dir path (unmount_path os path w).1) refl (rw same at e))
  check_empty-done path w (fails eio) listed e = cc
  check_empty-done path w (fails ebadf) listed e = cc
  check_empty-done path w (fails eacces) listed e = cc
  check_empty-done path w (fails enoent) listed e = cc
  check_empty-done path w (fails (other n)) listed e = cc

  -- A directory that `_ensure_empty_dir` accepts is empty then.
  pub ensure_empty_dir_done :
      (path : String) (h : H)
      → (ensure_empty_dir os path h).0 ≡ done tt
      → os.list_dir path (ensure_empty_dir os path h).1 ≡ gives []
  unfolding ensure_empty_dir
  ensure_empty_dir_done path h e =
      let (a, same) = bind_result-done (ensure_mount_dir os path h) _ tt e in
      let w = (ensure_mount_dir os path h).1 in
      rw same (check_empty-done path w (os.list_dir path w) refl (rw same at e))

  forget_pid-forced :
      (file : String) (p : Outcome (Unit {0}) × H)
      → (k : H) × (forget_pid os file true p ≡ (done tt, os.unlink file k))
  forget_pid-forced file (done _, k) = (k, refl)
  forget_pid-forced file (raises _, k) = (k, refl)

  stop_read-forced :
      (file : String) (pid : Option ℕ) (h : H)
      → (k : H) × (stop_read os file true pid h ≡ (done tt, os.unlink file k))
  stop_read-forced file none h = (h, refl)
  stop_read-forced file (some pid) h = forget_pid-forced file (stop_pid os pid true h)

  -- With `force`, `_stop_pid_file` does not raise once it knows whether the pid file is there, whatever
  -- the file holds and whether or not the signals arrive; and the file is gone then, if `unlink` works.
  pub stop_pid_file_forced :
      (file : String) (h : H) (found : Bool)
      → ((k : H) → os.path_exists file (os.unlink file k) ≡ gives false)
      → os.path_exists file h ≡ gives found
      → ((stop_pid_file os file true h).0 ≡ done tt)
        × (os.path_exists file (stop_pid_file os file true h).1 ≡ gives false)
  unfolding stop_pid_file
  stop_pid_file_forced file h false gone e = rw (stop_pid_file, e) (refl, e)
  stop_pid_file_forced file h true gone e =
      let (k, same) = stop_read-forced file (os.read_pid file h) h in
      rw (stop_pid_file, e, same) (refl, gone k)

  pub forced-done : IsTidy os → (file : String) (h : H) → (stop_pid_file os file true h).0 ≡ done tt
  forced-done t file h =
      (stop_pid_file_forced file h (t.found file h) (t.gone file) (t.looks file h)).0
