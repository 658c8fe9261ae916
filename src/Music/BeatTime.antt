-- ===== src/Music/BeatTime.antt =====
-- `BeatTime` of crates/music-domain/src/time.rs: rational numbers of quarter notes. An i64 or i128 is
-- an integer; the wrap-around of i128 is written out where a result can leave its range. The
-- arithmetic on f64 by which an unrepresentable number is put on the grid is a parameter.
pub mod Gcd
pub mod Reduce
pub mod Canonical
pub mod Value
pub mod Sums
pub mod Inverse
pub mod Compare
pub mod Floor
pub mod Remainder
pub mod Grid
use mathlib.Core.WellFounded.{Acc}
use reapermcp.Prelude.Order.{lt_wf}
use reapermcp.Prelude.{
  ℕ, ◌≡◌, if◌then◌else◌, ◌%◌, suc, ◌^◌, ◌+◌, arith, ◌<◌, not, ◌||◌, ◌&&◌, Ordering, Option, Bool,
  refl, zero, compare, none, some,
}
use reapermcp.Prelude.Int.{
  ℤ, ◌%ℤ◌, pos, rem_euclid, ◌/ℤ◌, ◌+ℤ◌, pos_part, eqb_ℤ, ltb_ℤ, ◌*ℤ◌, ◌-ℤ◌, neg_part, negsuc, neg,
  leb_ℤ,
}

abbrev pub grid_den : ℤ
grid_den = pos 1920

-- `i64::MAX`, and `MAX_QUARTERS`
abbrev pub limit : ℤ
limit = pos 9223372036854775807

abbrev pub max_quarters : ℤ
max_quarters = pos 4803839602528529

-- The value of an i128 operation without overflow checks, as the release profile builds it.
unfoldable pub to_i128 : ℤ → ℤ
to_i128 z = rem_euclid (z +ℤ pos (2 ^ 127)) (pos (2 ^ 128)) -ℤ pos (2 ^ 127)

abbrev pub abs : ℤ → ℕ
abs z = pos_part z + neg_part z

pub abs-% : (a : ℤ) (b : ℤ) → abs (a %ℤ b) ≡ abs a % abs b
unfolding ◌%ℤ◌
abs-% (pos a) b = ground arith
abs-% (negsuc a) b = ground arith

pub smaller : (a b : ℤ) {n : ℕ} → abs b ≡ suc n → abs (a %ℤ b) < suc n
smaller a b {n} e = rw (abs-% a b, e) (omega arith)

-- The loop of `gcd_i128`; `n` is the size of `b`.
unfoldable pub gcd_loop : (a b : ℤ) (n : ℕ) → Acc ◌<◌ n → abs b ≡ n → ℤ
gcd_loop a b zero w e = a
gcd_loop a b (suc n) (Acc.intro _ below) e =
    gcd_loop b (a %ℤ b) (abs (a %ℤ b)) (below _ (smaller a b e)) refl

unfoldable pub gcd_i128 : ℤ → ℤ → ℤ
gcd_i128 a b = pos (abs (gcd_loop a b (abs b) (lt_wf.apply (abs b)) refl))

unfoldable pub floor_div_i128 : ℤ → ℤ → ℤ
floor_div_i128 a b =
    let q = a /ℤ b in
    let r = a %ℤ b in
    if eqb_ℤ b (pos 0)
    then pos 0
    else if not (eqb_ℤ r (pos 0))
        && (if ltb_ℤ r (pos 0) then not (ltb_ℤ b (pos 0)) else ltb_ℤ b (pos 0))
    then q -ℤ pos 1
    else q

pub record BeatTime : Type 0 where
  pub num : ℤ
  pub den : ℤ

abbrev pub whole : ℤ → BeatTime
whole q = record { num = q; den = pos 1 }

-- `num /= g; den /= g;` if `g > 1`
unfoldable pub reduce : ℤ → ℤ → ℤ × ℤ
reduce num den =
    let g = gcd_i128 num den in if ltb_ℤ (pos 1) g then (num /ℤ g, den /ℤ g) else (num, den)

-- The end of `from_i128`; `snap` is what it falls back to.
unfoldable pub settle : (ℤ → ℤ → BeatTime) → ℤ × ℤ → BeatTime
settle snap (num, den) =
    if ltb_ℤ (to_i128 (max_quarters *ℤ den)) num
    then whole max_quarters
    else if ltb_ℤ num (to_i128 (neg max_quarters *ℤ den))
    then whole (neg max_quarters)
    else if leb_ℤ (pos (abs num)) limit && leb_ℤ den limit
    then record { num = num; den = den }
    else snap num den

unfoldable pub normalise : (ℤ → ℤ → BeatTime) → ℤ → ℤ → BeatTime
normalise snap num den =
    if eqb_ℤ den (pos 0) || eqb_ℤ num (pos 0)
    then whole (pos 0)
    else if ltb_ℤ den (pos 0)
    then settle snap (reduce (neg num) (neg den))
    else settle snap (reduce num den)

-- `from_i128(scaled as i64, GRID_DEN)` of `from_f64`. It needs no fallback of its own.
abbrev pub on_grid : ℤ → BeatTime
on_grid scaled = normalise (λ n d. whole (pos 0)) scaled grid_den

-- The order of the code is that of the products.
unfoldable pub cmp : BeatTime → BeatTime → Ordering
cmp x y =
    let a = x.num *ℤ y.den in
    let b = y.num *ℤ x.den in compare (pos_part a + neg_part b) (pos_part b + neg_part a)

unfoldable pub min_time : BeatTime → BeatTime → BeatTime
unfolding cmp
min_time x y = elim (cmp x y) [ Ordering.gt ↦ y | _ ↦ x ]

pub max_time : BeatTime → BeatTime → BeatTime
unfolding cmp
max_time x y = elim (cmp x y) [ Ordering.lt ↦ y | _ ↦ x ]

-- `q.clamp(i64::MIN, i64::MAX)`
unfoldable pub clamp_i64 : ℤ → ℤ
clamp_i64 q =
    if ltb_ℤ q (negsuc 9223372036854775807)
    then negsuc 9223372036854775807
    else if ltb_ℤ limit q
    then limit
    else q

unfoldable pub div_floor : BeatTime → BeatTime → ℤ
div_floor x m =
    if eqb_ℤ m.num (pos 0)
    then pos 0
    else clamp_i64 (floor_div_i128 (x.num *ℤ m.den) (x.den *ℤ m.num))

-- The f64 arithmetic: `grid num den` is `scaled as i64` for the quotient of `num` by `den`.
module _ (grid : ℤ → ℤ → ℤ) where
  -- Sums and products that leave i128 on the way wrap around to the same values.
  unfoldable pub from_i128 : ℤ → ℤ → BeatTime
  from_i128 num den = normalise (λ n d. on_grid (grid n d)) (to_i128 num) (to_i128 den)

  unfoldable pub try_new : ℤ → ℤ → Option BeatTime
  try_new num den = if eqb_ℤ den (pos 0) then none else some (from_i128 num den)

  pub from_quarters : ℤ → BeatTime
  from_quarters q = from_i128 q (pos 1)

  unfoldable pub add : BeatTime → BeatTime → BeatTime
  add x y = from_i128 (x.num *ℤ y.den +ℤ y.num *ℤ x.den) (x.den *ℤ y.den)

  unfoldable pub sub : BeatTime → BeatTime → BeatTime
  sub x y = from_i128 (x.num *ℤ y.den -ℤ y.num *ℤ x.den) (x.den *ℤ y.den)

  pub neg_time : BeatTime → BeatTime
  neg_time x = from_i128 (neg x.num) x.den

  unfoldable pub mul : BeatTime → ℤ → BeatTime
  mul x n = from_i128 (x.num *ℤ n) x.den

  pub abs_time : BeatTime → BeatTime
  abs_time x = if ltb_ℤ x.num (pos 0) then from_i128 (neg x.num) x.den else x

  pub scale : BeatTime → ℤ → ℤ → BeatTime
  scale x num den = if eqb_ℤ den (pos 0) then x else from_i128 (x.num *ℤ num) (x.den *ℤ den)

  unfoldable pub rem_time : BeatTime → BeatTime → BeatTime
  rem_time x m =
      let q = div_floor x m in
      if eqb_ℤ m.num (pos 0)
      then x
      else from_i128 (x.num *ℤ m.den -ℤ q *ℤ m.num *ℤ x.den) (x.den *ℤ m.den)

  pub divides_evenly_by : BeatTime → BeatTime → Bool
  divides_evenly_by x m =
      if eqb_ℤ m.num (pos 0) then eqb_ℤ x.num (pos 0) else eqb_ℤ (rem_time x m).num (pos 0)
