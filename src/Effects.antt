-- ===== src/Effects.antt =====
-- Exceptions and state: what a method gives, and the statements that sequence methods.
use shared_concurrency_subst.Common.{ℕ}

pub data Errno : Type 0 where
  eio ebadf eacces enotconn enoent : Errno
  other : ℕ → Errno

pub data Raised : Type 0 where
  fuse_os_error os_error : Errno → Raised
  runtime_error called_process_error value_error file_not_found_error : Raised
  system_exit : Raised  -- of the argument parser: no `Exception`
  -- No exception: a call of the lock service that waits without a limit has not come back.
  unanswered : Raised

pub data Outcome {ℓ} (A : Type ℓ) : Type ℓ where
  done : A → Outcome A
  raises : Raised → Outcome A

pub data Reply {ℓ} (A : Type ℓ) : Type ℓ where
  gives : A → Reply A
  fails : Errno → Reply A

-- A method over a state: it may raise, and keeps what it changed before.
abbrev pub M : Type 0 → Type 0 → Type 0
M W A = W → Outcome A × W

module _ {W : Type 0} where
  abbrev pub bind_result : {A B : Type 0} → Outcome A × W → (A → M W B) → Outcome B × W
  bind_result (done a, w) f = f a w
  bind_result (raises e, w) f = (raises e, w)

  infixl 5 ◌>>=◌ ◌>>◌
  abbrev pub ◌>>=◌ : {A B : Type 0} → M W A → (A → M W B) → M W B
  ◌>>=◌ m f w = bind_result (m w) f

  abbrev pub ◌>>◌ : {A B : Type 0} → M W A → M W B → M W B
  ◌>>◌ m k w = bind_result (m w) (λ _. k)

  abbrev pub pure : {A : Type 0} → A → M W A
  pure a w = (done a, w)

  abbrev pub raise : {A : Type 0} → Raised → M W A
  raise e w = (raises e, w)

  abbrev pub gets : {A : Type 0} → (W → A) → M W A
  gets f w = (done (f w), w)

  abbrev pub modify : (W → W) → M W (Unit {0})
  modify f w = (done tt, f w)

  -- `try: m finally: f`; an exception of `f` wins.
  abbrev pub finish : {A : Type 0} → Outcome A → Outcome (Unit {0}) × W → Outcome A × W
  finish r (done _, w) = (r, w)
  finish r (raises e, w) = (raises e, w)

  abbrev pub try_finally : {A : Type 0} → M W A → M W (Unit {0}) → M W A
  try_finally m f w = finish (m w).0 (f (m w).1)

  abbrev pub raised_as : {A : Type 0} → Raised → Outcome A × W → Outcome A × W
  raised_as e (done a, w) = (done a, w)
  raised_as e (raises system_exit, w) = (raises system_exit, w)
  raised_as e (raises unanswered, w) = (raises unanswered, w)
  raised_as e (raises _, w) = (raises e, w)

  -- `try: m except Exception: raise e`
  abbrev pub or_raise : {A : Type 0} → M W A → Raised → M W A
  or_raise m e w = raised_as e (m w)

  abbrev pub caught : {A : Type 0} → Outcome A × W → (Raised → M W A) → Outcome A × W
  caught (done a, w) f = (done a, w)
  caught (raises system_exit, w) f = (raises system_exit, w)
  caught (raises e, w) f = f e w

  -- `try: m except Exception as e: f`
  abbrev pub catch : {A : Type 0} → M W A → (Raised → M W A) → M W A
  catch m f w = caught (m w) f
