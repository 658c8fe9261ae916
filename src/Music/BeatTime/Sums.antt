-- ===== src/Music/BeatTime/Sums.antt =====
-- Sums and differences of `BeatTime` in crates/music-domain/src/time.rs are exact.
use native.Mathlib.Nat.{mul-le-mul}
use reapermcp.Music.BeatTime.Canonical.{
  to_i128-id, IsCanonical, normalise-IsCanonical, whole-IsCanonical,
}
use reapermcp.Music.BeatTime.Value.{normalise-value, *ℤ-pos_cancel, zero_mul}
use reapermcp.Music.BeatTime.Reduce.{abs-*ℤ-pos}
use reapermcp.Prelude.{ℕ, ◌≤◌, ◌*◌, ◌≡◌, ◌^◌, ◌-◌, arith, suc, subst, ◌≢◌, sym, ap, ◌∙◌}
use reapermcp.Prelude.Int.{ℤ, neg, pos, ◌*ℤ◌, ◌≤ℤ◌, ◌+ℤ◌, pos_part, ◌-ℤ◌, int_laws}
use reapermcp.Music.BeatTime.{BeatTime, from_i128, abs, limit, to_i128, grid_den, add, sub}

-- `z` is the sum of `x` and `y`, as rational numbers.
abbrev pub IsSum : BeatTime → BeatTime → BeatTime → Type 0
IsSum x y z = z.num *ℤ (x.den *ℤ y.den) ≡ (x.num *ℤ y.den +ℤ y.num *ℤ x.den) *ℤ z.den

abbrev pub IsDifference : BeatTime → BeatTime → BeatTime → Type 0
IsDifference x y z = z.num *ℤ (x.den *ℤ y.den) ≡ (x.num *ℤ y.den -ℤ y.num *ℤ x.den) *ℤ z.den

product_bound : (a j : ℕ) → a ≤ 9223372036854775807 → j ≤ 9223372036854775807 → a * j ≤ 2 ^ 126 - 1
product_bound a j h k = omega (arith, mul-le-mul h k)

-- A product of two values of i64 leaves room for one more of its size in i128.
abbrev pub IsProduct : ℤ → Type 0
IsProduct z = pos (abs z) ≤ℤ pos (2 ^ 126 - 1)

pub num-den-IsProduct :
    (a d : ℤ) (k : ℕ) → d ≡ pos (suc k) → pos (abs a) ≤ℤ limit → d ≤ℤ limit → IsProduct (a *ℤ d)
num-den-IsProduct a d k e h l = rw e (
    omega (
      arith,
      abs-*ℤ-pos a (suc k),
      product_bound (abs a) (suc k) (omega (arith, h)) (omega (arith, subst (λ d. d ≤ℤ limit) e l)),
    ))

pub products_fit :
    (x y : BeatTime)
    → IsCanonical x
    → IsCanonical y
    → IsProduct (x.num *ℤ y.den) × IsProduct (y.num *ℤ x.den) × IsProduct (x.den *ℤ y.den)
products_fit x y hx hy =
    let (j, xd) = hx.den_pos in
    let (k, yd) = hy.den_pos in
    (
      num-den-IsProduct x.num y.den k yd hx.num_fits hy.den_fits,
      num-den-IsProduct y.num x.den j xd hy.num_fits hx.den_fits,
      num-den-IsProduct x.den y.den k yd
          (rw xd (omega (arith, subst (λ d. d ≤ℤ limit) xd hx.den_fits))) hy.den_fits,
    )

pub fits_i128 :
    (a b : ℤ)
    → IsProduct a
    → IsProduct b
    → (to_i128 a ≡ a) × (to_i128 (a +ℤ b) ≡ a +ℤ b) × (to_i128 (a -ℤ b) ≡ a -ℤ b)
unfolding neg
fits_i128 a b h k = (
  to_i128-id a (omega (arith, h)) (omega (arith, h)),
  to_i128-id (a +ℤ b) (omega (int_laws, h, k)) (omega (int_laws, h, k)),
  to_i128-id (a -ℤ b) (omega (int_laws, h, k)) (omega (int_laws, h, k)),
)

pub den-nonzero : (x y : BeatTime) → IsCanonical x → IsCanonical y → x.den *ℤ y.den ≢ pos 0
den-nonzero x y hx hy e =
    let (j, xd) = hx.den_pos in
    let (k, yd) = hy.den_pos in
    let zero =
      *ℤ-pos_cancel x.den (pos 0) k (sym (ap (◌*ℤ◌ x.den) yd) ∙ e ∙ sym (zero_mul (suc k))) in
    absurd (omega (arith, ap pos_part (sym xd ∙ zero)))

module _ (grid : ℤ → ℤ → ℤ) where
  pub from_i128-IsCanonical : (n d : ℤ) → IsCanonical (from_i128 grid n d)
  unfolding from_i128
  from_i128-IsCanonical n d = normalise-IsCanonical _ (to_i128 n) (to_i128 d) (λ a b.
      normalise-IsCanonical _ (grid a b) grid_den (λ u v. whole-IsCanonical (pos 0) (omega arith)))

  -- A sum that has a canonical representation is that number.
  pub add-value :
      (x y z : BeatTime)
      → IsCanonical x
      → IsCanonical y
      → IsCanonical z
      → IsSum x y z
      → add grid x y ≡ z
  unfolding add from_i128
  add-value x y z hx hy hz v =
      let (xy, yx, dd) = products_fit x y hx hy in
      rw
        (
          (fits_i128 (x.num *ℤ y.den) (y.num *ℤ x.den) xy yx).1,
          (fits_i128 (x.den *ℤ y.den) (x.den *ℤ y.den) dd dd).0,
        )
        (normalise-value _ z _ _ hz (den-nonzero x y hx hy) v)

  pub sub-value :
      (x y z : BeatTime)
      → IsCanonical x
      → IsCanonical y
      → IsCanonical z
      → IsDifference x y z
      → sub grid x y ≡ z
  unfolding sub from_i128
  sub-value x y z hx hy hz v =
      let (xy, yx, dd) = products_fit x y hx hy in
      rw
        (
          (fits_i128 (x.num *ℤ y.den) (y.num *ℤ x.den) xy yx).2,
          (fits_i128 (x.den *ℤ y.den) (x.den *ℤ y.den) dd dd).0,
        )
        (normalise-value _ z _ _ hz (den-nonzero x y hx hy) v)
