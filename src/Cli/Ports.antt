-- ===== src/Cli/Ports.antt =====
-- cli.py: the choice of a free port.
use shared_concurrency_subst.Common.{
  ℕ, zero, suc, ◌+◌, ◌≤◌, ◌<◌, ◌==◌, ◌≡◌, ◌↔◌, ◌⊎◌, inl, inr, Bool, true, false, Option, none, some,
  arith, if◌then◌else◌, Bool-cases,
}

-- `_pick_free_port`: `free` tells whether `bind` succeeds; none is a RuntimeError.
unfoldable pub pick_free_port : (ℕ → Bool) → (start_port max_tries : ℕ) → Option ℕ
pick_free_port free port zero = none
pick_free_port free port (suc tries) =
    let rest = pick_free_port free (suc port) tries in if free port then some port else rest

-- The first free port of a range.
pub record IsFirstFree (free : ℕ → Bool) (start tries port : ℕ) : Type 0 where
  pub from : start ≤ port
  pub below : port < start + tries
  pub is_free : free port ≡ true
  pub before : (p : ℕ) → start ≤ p → p < port → free p ≡ false

eq_or_above : (m n : ℕ) → m ≤ n → (m ≡ n) ⊎ (suc m ≤ n)
eq_or_above m n h = elim (Bool-cases (m == n)) [
  | inl e ↦ inl (ground arith)
  | inr e ↦ inr (ground arith)
]

to_first :
    (free : ℕ → Bool) (start tries port : ℕ)
    → pick_free_port free start tries ≡ some port
    → IsFirstFree free start tries port
unfolding pick_free_port
to_first free start zero port e = cc
to_first free start (suc tries) port e = elim (Bool-cases (free start)) [
  | inl open_port ↦
      let same : start ≡ port = ground arith in
      record {
        from = omega (arith, same);
        below = omega (arith, same);
        is_free = rw same at open_port;
        before = λ p a b. absurd (omega (arith, same));
      }
  | inr taken ↦
      let h = to_first free (suc start) tries port (ground arith) in
      record {
        from = omega (arith, h.from);
        below = omega (arith, h.below);
        is_free = h.is_free;
        before = λ p a b. elim (eq_or_above start p a) [
          | inl same ↦ rw same at taken
          | inr above ↦ h.before p above b
        ];
      }
]

from_first :
    (free : ℕ → Bool) (start tries port : ℕ)
    → IsFirstFree free start tries port
    → pick_free_port free start tries ≡ some port
unfolding pick_free_port
from_first free start zero port h = absurd (omega (arith, h.from, h.below))
from_first free start (suc tries) port h = elim (Bool-cases (free start)) [
  | inl open_port ↦ elim (eq_or_above start port h.from) [
    | inl same ↦ ground (arith, same)
    | inr above ↦ absurd (let k = h.before start (omega arith) above in cc)
  ]
  | inr taken ↦ elim (eq_or_above start port h.from) [
    | inl same ↦ absurd (let k : free start ≡ true = rw same h.is_free in cc)
    | inr above ↦
        let rest = from_first free (suc start) tries port (record {
          from = above;
          below = omega (arith, h.below);
          is_free = h.is_free;
          before = λ p a b. h.before p (omega arith) b;
        }) in
        ground (arith, rest)
  ]
]

-- `_pick_free_port` gives a port exactly when it is the first free one of the range.
pub pick_free_port_iff :
    (free : ℕ → Bool) (start tries port : ℕ)
    → (pick_free_port free start tries ≡ some port) ↔ IsFirstFree free start tries port
pick_free_port_iff free start tries port =
    (to_first free start tries port, from_first free start tries port)
