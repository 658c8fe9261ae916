-- ===== src/Prelude/Machine.antt =====
-- The signed machine integers of a build without overflow checks, as the release profile is: what
-- does not fit wraps around. Sums and products that wrap on the way wrap to the same value at the
-- end, so that one cast stands for a row of them.
use reapermcp.Prelude.Int.{ℤ, pos, negsuc, rem_euclid, ◌+ℤ◌, ◌-ℤ◌, ◌%ℤ◌, ◌≤ℤ◌}
use reapermcp.Prelude.{◌^◌, arith, ◌≡◌}

unfoldable pub to_i64 : ℤ → ℤ
to_i64 z = rem_euclid (z +ℤ pos (2 ^ 63)) (pos (2 ^ 64)) -ℤ pos (2 ^ 63)

unfoldable pub to_i32 : ℤ → ℤ
to_i32 z = rem_euclid (z +ℤ pos (2 ^ 31)) (pos (2 ^ 32)) -ℤ pos (2 ^ 31)

abbrev pub IsI64 : ℤ → Type 0
IsI64 z = (negsuc 9223372036854775807 ≤ℤ z) × (z ≤ℤ pos 9223372036854775807)

abbrev pub IsI32 : ℤ → Type 0
IsI32 z = (negsuc 2147483647 ≤ℤ z) × (z ≤ℤ pos 2147483647)

pub to_i64-id : (z : ℤ) → IsI64 z → to_i64 z ≡ z
unfolding to_i64 rem_euclid ◌%ℤ◌ ◌+ℤ◌ ◌-ℤ◌
to_i64-id (pos n) h = ground (arith, h)
to_i64-id (negsuc n) h = ground (arith, h)

pub to_i32-id : (z : ℤ) → IsI32 z → to_i32 z ≡ z
unfolding to_i32 rem_euclid ◌%ℤ◌ ◌+ℤ◌ ◌-ℤ◌
to_i32-id (pos n) h = ground (arith, h)
to_i32-id (negsuc n) h = ground (arith, h)
