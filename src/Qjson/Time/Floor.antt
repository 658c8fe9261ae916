-- ===== src/Qjson/Time/Floor.antt =====
-- The era divisions of crates/qjson/src/time.rs round down, on both sides of zero.
use reapermcp.Qjson.Time.{floor_div}
use reapermcp.Prelude.{ℕ, ◌≡◌, ◌<◌, arith, ap}
use reapermcp.Prelude.Int.{
  ℤ, pos_part, ◌/ℤ◌, ◌-ℤ◌, ◌*ℤ◌, pos, ◌+ℤ◌, int_laws, *ℤ_parts, negsuc, neg_part,
}

-- What a division leaves.
abbrev pub rest : ℕ → ℕ → ℤ → ℕ
rest less by z = pos_part (z -ℤ floor_div less by z *ℤ pos by)

pub floor_400 :
    (z : ℤ) → (z -ℤ floor_div 399 400 z *ℤ pos 400 ≡ pos (rest 399 400 z)) × (rest 399 400 z < 400)
unfolding floor_div ◌/ℤ◌ ◌-ℤ◌ ◌*ℤ◌
floor_400 (pos n) = ground arith
floor_400 (negsuc n) = ground arith

pub floor_146097 :
    (z : ℤ)
    → (z -ℤ floor_div 146096 146097 z *ℤ pos 146097 ≡ pos (rest 146096 146097 z))
      × (rest 146096 146097 z < 146097)
unfolding floor_div ◌/ℤ◌ ◌-ℤ◌ ◌*ℤ◌
floor_146097 (pos n) = ground arith
floor_146097 (negsuc n) = ground arith

-- A quotient with a remainder in range is the era, and the remainder is what is left.
pub floor_400_unique :
    (e : ℤ) (r : ℕ) (z : ℤ)
    → z ≡ e *ℤ pos 400 +ℤ pos r
    → r < 400
    → (floor_div 399 400 z ≡ e) × (z -ℤ floor_div 399 400 z *ℤ pos 400 ≡ pos r)
floor_400_unique e r z h lt = omega (
  int_laws,
  *ℤ_parts,
  (floor_400 z).1,
  ap pos_part h,
  ap neg_part h,
  ap pos_part (floor_400 z).0,
  ap neg_part (floor_400 z).0,
)

pub floor_146097_unique :
    (e : ℤ) (r : ℕ) (z : ℤ)
    → z ≡ e *ℤ pos 146097 +ℤ pos r
    → r < 146097
    → (floor_div 146096 146097 z ≡ e) × (z -ℤ floor_div 146096 146097 z *ℤ pos 146097 ≡ pos r)
floor_146097_unique e r z h lt = omega (
  int_laws,
  *ℤ_parts,
  (floor_146097 z).1,
  ap pos_part h,
  ap neg_part h,
  ap pos_part (floor_146097 z).0,
  ap neg_part (floor_146097 z).0,
)
