-- ===== src/RunSession/Opening.antt =====
-- `open_device` returns the first answer that is not retried.
use qdplay.Prelude.{
  ℕ, zero, suc, ◌+◌, ◌≡◌, ◌≤◌, ◌<◌, ◌⊎◌, inl, inr, refl, subst, true, false, ◌==◌, arith,
  Bool-cases,
}
use qdplay.Posix.{Outcome, failed, ebusy}
use qdplay.RunSession.{open_attempts, is_retried, open_from, open_device}

-- Every attempt from `first` on and before `k` is retried.
abbrev pub Busy : (ℕ → Outcome ℕ) → ℕ → ℕ → Type 0
Busy opens first k = (i : ℕ) → first ≤ i → i < k → is_retried (opens i) ≡ true

-- The result is the first attempt that is not retried, or EBUSY if all are.
abbrev pub IsOpened : (ℕ → Outcome ℕ) → ℕ → ℕ → Outcome ℕ → Type 0
IsOpened opens first n r =
    ((k : ℕ) × (k < n) × Busy opens first k × (is_retried (opens k) ≡ false) × (r ≡ opens k))
    ⊎ (Busy opens first n × (r ≡ failed ebusy))

Busy-suc :
    (opens : ℕ → Outcome ℕ) (first k : ℕ)
    → is_retried (opens first) ≡ true
    → Busy opens (suc first) k
    → Busy opens first k
Busy-suc opens first k now later i from below = elim (Bool-cases (first == i)) [
  | inl same ↦ subst (λ j. is_retried (opens j) ≡ true) (ground arith) now
  | inr other ↦ later i (ground arith) below
]

IsOpened-suc :
    (opens : ℕ → Outcome ℕ) (first n n' : ℕ) (r : Outcome ℕ)
    → n ≡ n'
    → is_retried (opens first) ≡ true
    → IsOpened opens (suc first) n r
    → IsOpened opens first n' r
IsOpened-suc opens first n n' r same busy (inl (k, below, before, settled, e)) =
    inl (k, omega (arith, same), Busy-suc opens first k busy before, settled, e)
IsOpened-suc opens first n n' r same busy (inr (all, e)) =
    inr (Busy-suc opens first n' busy (λ i from below. all i from (omega (arith, same))), e)

open_from-IsOpened :
    (left first : ℕ) (opens : ℕ → Outcome ℕ)
    → IsOpened opens first (left + first) (open_from left first opens)
unfolding open_from
open_from-IsOpened zero first opens = inr ((λ i from below. absurd (omega arith)), refl)
open_from-IsOpened (suc left) first opens = elim (Bool-cases (is_retried (opens first))) [
  | inr settled ↦
      rw (settled, open_from)
        (inl (first, omega arith, (λ i from below. absurd (omega arith)), settled, refl))
  | inl busy ↦
      rw (busy, open_from)
        (IsOpened-suc opens first (left + suc first) (suc left + first)
          (open_from left (suc first) opens) (omega arith) busy
          (open_from-IsOpened left (suc first) opens))
]

-- `open_device` returns what the first attempt returned that did not find the driver busy or absent,
-- among thirty, or EBUSY if all of them found that.
pub open_device-IsOpened :
    (opens : ℕ → Outcome ℕ) → IsOpened opens 0 open_attempts (open_device opens)
open_device-IsOpened opens = open_from-IsOpened open_attempts 0 opens
