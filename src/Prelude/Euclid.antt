-- ===== src/Prelude/Euclid.antt =====
-- Rust's Euclidean division by the two numbers that the pitch code divides by.
use reapermcp.Prelude.Int.{
  div_euclid, ℤ, rem_euclid, ◌*ℤ◌, pos, ◌+ℤ◌, pos_part, int_laws, negsuc, *ℤ_parts, neg_part,
}
use reapermcp.Prelude.{ℕ, ◌≡◌, ◌<◌, arith, ap}

pub split_7 :
    (z : ℤ)
    → (z ≡ div_euclid z (pos 7) *ℤ pos 7 +ℤ rem_euclid z (pos 7))
      × (rem_euclid z (pos 7) ≡ pos (pos_part (rem_euclid z (pos 7))))
      × (pos_part (rem_euclid z (pos 7)) < 7)
unfolding div_euclid rem_euclid ◌*ℤ◌
split_7 (pos n) = ground arith
split_7 (negsuc n) = ground arith

pub split_12 :
    (z : ℤ)
    → (z ≡ div_euclid z (pos 12) *ℤ pos 12 +ℤ rem_euclid z (pos 12))
      × (rem_euclid z (pos 12) ≡ pos (pos_part (rem_euclid z (pos 12))))
      × (pos_part (rem_euclid z (pos 12)) < 12)
unfolding div_euclid rem_euclid ◌*ℤ◌
split_12 (pos n) = ground arith
split_12 (negsuc n) = ground arith

-- The quotient and the remainder are the only ones.
pub split_7_unique :
    (q z : ℤ) (r : ℕ)
    → z ≡ q *ℤ pos 7 +ℤ pos r
    → r < 7
    → (div_euclid z (pos 7) ≡ q) × (rem_euclid z (pos 7) ≡ pos r)
split_7_unique q z r h lt = omega (
  int_laws,
  *ℤ_parts,
  (split_7 z).2,
  ap pos_part h,
  ap neg_part h,
  ap pos_part (split_7 z).0,
  ap neg_part (split_7 z).0,
  ap pos_part (split_7 z).1,
  ap neg_part (split_7 z).1,
)

pub split_12_unique :
    (q z : ℤ) (r : ℕ)
    → z ≡ q *ℤ pos 12 +ℤ pos r
    → r < 12
    → (div_euclid z (pos 12) ≡ q) × (rem_euclid z (pos 12) ≡ pos r)
split_12_unique q z r h lt = omega (
  int_laws,
  *ℤ_parts,
  (split_12 z).2,
  ap pos_part h,
  ap neg_part h,
  ap pos_part (split_12 z).0,
  ap neg_part (split_12 z).0,
  ap pos_part (split_12 z).1,
  ap neg_part (split_12 z).1,
)
