-- ===== src/Music/Tests.antt =====
-- Runs of crates/music-domain on concrete values.
use reapermcp.Music.BeatTime.Compare.{cmp-eq_iff}
use reapermcp.Music.BeatTime.Grid.{normalise-grid}
use reapermcp.Music.BeatTime.Remainder.{IsDivision, rem_time-value}
use reapermcp.Music.BeatTime.Inverse.{sub-add}
use reapermcp.Music.BeatTime.Gcd.{gcd}
use reapermcp.Music.BeatTime.Sums.{IsSum, add-value}
use reapermcp.Music.BeatTime.Canonical.{IsCanonical}
use reapermcp.Prelude.{◌≡◌, refl, ℕ, arith, Ordering, suc, ◌↔◌, ◌≤◌}
use reapermcp.Prelude.Order.{lt_wf}
use reapermcp.Music.BeatTime.{
  BeatTime, add, from_i128, normalise, settle, reduce, gcd_i128, gcd_loop, to_i128, sub, cmp,
  div_floor, grid_den, rem_time, whole, clamp_i64, max_quarters, floor_div_i128,
}
use reapermcp.Prelude.Int.{ℤ, pos, rem_euclid, ◌*ℤ◌, ◌+ℤ◌, ◌-ℤ◌, neg, negsuc, *ℤ_parts, ◌%ℤ◌, ◌/ℤ◌}

-- The f64 arithmetic is not reached by these.
abbrev no_grid : ℤ → ℤ → ℤ
no_grid n d = pos 0

abbrev half : BeatTime
half = record { num = pos 1; den = pos 2 }

abbrev third : BeatTime
third = record { num = pos 1; den = pos 3 }

abbrev five_sixths : BeatTime
five_sixths = record { num = pos 5; den = pos 6 }

abbrev seven_halves : BeatTime
seven_halves = record { num = pos 7; den = pos 2 }

abbrev two_thirds : BeatTime
two_thirds = record { num = pos 2; den = pos 3 }

abbrev one_sixth : BeatTime
one_sixth = record { num = pos 1; den = pos 6 }

canonical :
    (n k : ℕ)
    → gcd (pos n) (pos (suc k)) ≡ 1
    → n ≤ 1000
    → k ≤ 1000
    → IsCanonical (record { num = pos n; den = pos (suc k) })
canonical n k c h l = record {
  den_pos = (k, refl);
  coprime = c;
  num_fits = omega (arith, h);
  den_fits = omega (arith, l);
  within = omega (arith, h, *ℤ_parts max_quarters (suc k));
}

half-IsCanonical : IsCanonical half
unfolding gcd_i128 gcd_loop lt_wf ◌%ℤ◌
half-IsCanonical = canonical 1 1 refl (omega arith) (omega arith)

third-IsCanonical : IsCanonical third
unfolding gcd_i128 gcd_loop lt_wf ◌%ℤ◌
third-IsCanonical = canonical 1 2 refl (omega arith) (omega arith)

five_sixths-IsCanonical : IsCanonical five_sixths
unfolding gcd_i128 gcd_loop lt_wf ◌%ℤ◌
five_sixths-IsCanonical = canonical 5 5 refl (omega arith) (omega arith)

seven_halves-IsCanonical : IsCanonical seven_halves
unfolding gcd_i128 gcd_loop lt_wf ◌%ℤ◌
seven_halves-IsCanonical = canonical 7 1 refl (omega arith) (omega arith)

two_thirds-IsCanonical : IsCanonical two_thirds
unfolding gcd_i128 gcd_loop lt_wf ◌%ℤ◌
two_thirds-IsCanonical = canonical 2 2 refl (omega arith) (omega arith)

one_sixth-IsCanonical : IsCanonical one_sixth
unfolding gcd_i128 gcd_loop lt_wf ◌%ℤ◌
one_sixth-IsCanonical = canonical 1 5 refl (omega arith) (omega arith)

halves-IsSum : IsSum half third five_sixths
unfolding ◌*ℤ◌ ◌+ℤ◌
halves-IsSum = refl

add-value_example : add no_grid half third ≡ five_sixths
add-value_example =
    add-value no_grid half third five_sixths half-IsCanonical third-IsCanonical
      five_sixths-IsCanonical halves-IsSum

sub-add_example : sub no_grid (add no_grid half third) third ≡ half
sub-add_example =
    sub-add no_grid half third five_sixths half-IsCanonical third-IsCanonical
      five_sixths-IsCanonical halves-IsSum

cmp-eq_iff_example : (cmp half third ≡ Ordering.eq) ↔ (half ≡ third)
cmp-eq_iff_example = cmp-eq_iff half third half-IsCanonical third-IsCanonical

sevenths-IsDivision : IsDivision seven_halves two_thirds (pos 5) one_sixth
unfolding cmp ◌*ℤ◌ ◌-ℤ◌
sevenths-IsDivision = record {
  divisor_pos = (1, refl);
  quotient_fits = (omega arith, omega arith);
  nonneg = omega arith;
  below = refl;
  value = refl;
}

rem_time-value_example :
    (div_floor seven_halves two_thirds ≡ pos 5)
    × (rem_time no_grid seven_halves two_thirds ≡ one_sixth)
rem_time-value_example =
    rem_time-value no_grid seven_halves two_thirds one_sixth (pos 5) seven_halves-IsCanonical
      two_thirds-IsCanonical one_sixth-IsCanonical sevenths-IsDivision

normalise-grid_example :
    normalise (λ n d. half) (pos 2881) grid_den ≡ normalise (λ n d. third) (pos 2881) grid_den
normalise-grid_example = normalise-grid (λ n d. half) (λ n d. third) (pos 2881)

-- The remainder by a negative number is not in the range that is documented.
rem_time_negative_run : rem_time no_grid (whole (pos 1)) (whole (negsuc 1)) ≡ whole (negsuc 0)
unfolding rem_time div_floor clamp_i64 floor_div_i128 from_i128 normalise settle reduce gcd_i128
    gcd_loop to_i128 rem_euclid ◌*ℤ◌ ◌+ℤ◌ ◌-ℤ◌ neg ◌/ℤ◌ lt_wf
rem_time_negative_run = refl

-- The bound leaves i128: the sum of two small positions is the largest one.
add_overflow_run :
    add no_grid
      (record { num = pos 1; den = pos 274877906944 })
      (record { num = pos 1; den = pos 1000000000039 })
    ≡ whole max_quarters
unfolding add from_i128 normalise settle reduce gcd_i128 gcd_loop to_i128 rem_euclid ◌*ℤ◌ ◌+ℤ◌ ◌-ℤ◌
    neg lt_wf
add_overflow_run = refl
