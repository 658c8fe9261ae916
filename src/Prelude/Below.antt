-- ===== src/Prelude/Below.antt =====
-- A test of the numbers below a bound.
use reapermcp.Prelude.{ℕ, Bool, true, ◌≡◌, suc, ◌<◌, ◌&&◌, arith, ◌≢◌, zero, ℕ_discrete, and_parts}

unfoldable pub below : ℕ → (ℕ → Bool) → Bool
below zero t = true
below (suc n) t = t n && below n t

pub below_lem : (n : ℕ) (t : ℕ → Bool) → below n t ≡ true → (k : ℕ) → k < n → t k ≡ true
unfolding below
below_lem zero t h k lt = absurd (omega (arith, lt))
below_lem (suc n) t h k lt = elim (ℕ_discrete k n) [
  | yes e ↦ rw e (and_parts (t n) _ h).0
  | no ne ↦ below_lem n t (and_parts (t n) _ h).1 k (below_last k n lt ne)
]
  where
    below_last : (k n : ℕ) → k < suc n → k ≢ n → k < n
    below_last k n lt ne = omega (arith, lt, ne)
