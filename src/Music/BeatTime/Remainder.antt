-- ===== src/Music/BeatTime/Remainder.antt =====
-- `div_floor` and `rem_euclid` of crates/music-domain/src/time.rs divide with a remainder.
use reapermcp.Music.BeatTime.Sums.{products_fit, fits_i128, den-nonzero, num-den-IsProduct}
use reapermcp.Music.BeatTime.Inverse.{+ℤ-*ℤ-pos}
use reapermcp.Music.BeatTime.Canonical.{IsCanonical, to_i128-id}
use reapermcp.Music.BeatTime.Floor.{IsFloor, floor_div_i128-value}
use reapermcp.Music.BeatTime.Value.{mul_cancel, normalise-value}
use reapermcp.Music.BeatTime.Reduce.{*ℤ-pos-pos, mul_neg_part}
use reapermcp.Music.BeatTime.Compare.{◌<ℤ◌, <ℤ-*ℤ_iff, cmp-lt_iff}
use reapermcp.Prelude.{
  ◌≡◌, ℕ, suc, refl, arith, ◌∙◌, sym, ap, ◌*◌, subst, Ordering, ◌+◌, false, ◌^◌, ◌-◌,
}
use reapermcp.Prelude.Int.{
  ℤ, negsuc, ◌*ℤ◌, ◌≤ℤ◌, le-ltb_ℤ, pos, ◌-ℤ◌, neg_part, *ℤ-pos, ◌+ℤ◌, int_laws, *ℤ_parts, pos_part,
  eqb_ℤ, neg,
}
use reapermcp.Music.BeatTime.{
  BeatTime, clamp_i64, limit, div_floor, rem_time, from_i128, cmp, abs, to_i128,
}
use native.Mathlib.Nat.{mul_comm, mul_assoc, zero-mul, suc-mul}

-- `r` is what `x` has beyond `q` times `m`, as rational numbers.
abbrev pub IsRest : BeatTime → BeatTime → ℤ → BeatTime → Type 0
IsRest x m q r = r.num *ℤ (x.den *ℤ m.den) ≡ (x.num *ℤ m.den -ℤ q *ℤ m.num *ℤ x.den) *ℤ r.den

abbrev pub IsI64 : ℤ → Type 0
IsI64 z = (negsuc 9223372036854775807 ≤ℤ z) × (z ≤ℤ limit)

clamp_i64-id : (z : ℤ) → IsI64 z → clamp_i64 z ≡ z
unfolding clamp_i64
clamp_i64-id z (lo, hi) = rw (le-ltb_ℤ z (negsuc 9223372036854775807) lo, le-ltb_ℤ limit z hi) refl

-- The integer quotient of the products, from a remainder that is at least zero and below `m`.
rest_nonneg : (r t : ℤ) (n l : ℕ) → pos 0 ≤ℤ r → r *ℤ pos n ≡ t *ℤ pos (suc l) → pos 0 ≤ℤ t
rest_nonneg r t n l h v =
    let none_below = mul_cancel (neg_part t) 0 l (
      sym (mul_neg_part t (suc l))
      ∙ ap neg_part (sym v)
      ∙ mul_neg_part r n
      ∙ ap (λ z. z * n) (neg_zero r h)
      ∙ zero-mul n
      ∙ sym (zero-mul (suc l))) in
    omega (arith, none_below)
  where
    neg_zero : (r : ℤ) → pos 0 ≤ℤ r → neg_part r ≡ 0
    neg_zero (pos n) h = refl
    neg_zero (negsuc n) h = absurd (omega (arith, h))

rest_below :
    (r t : ℤ) (j k l p : ℕ)
    → r *ℤ pos (suc k) <ℤ pos (suc p) *ℤ pos (suc l)
    → r *ℤ (pos (suc j) *ℤ pos (suc k)) ≡ t *ℤ pos (suc l)
    → t <ℤ pos (suc j) *ℤ pos (suc p)
rest_below r t j k l p h v = (<ℤ-*ℤ_iff t (pos (suc j) *ℤ pos (suc p)) l).1 (
    subst (λ z. z <ℤ pos (suc j) *ℤ pos (suc p) *ℤ pos (suc l)) left
      (subst (λ z. r *ℤ pos (suc k) *ℤ pos (suc j) <ℤ z) right
        ((<ℤ-*ℤ_iff (r *ℤ pos (suc k)) (pos (suc p) *ℤ pos (suc l)) j).0 h)))
  where
    left : r *ℤ pos (suc k) *ℤ pos (suc j) ≡ t *ℤ pos (suc l)
    left =
        *ℤ-pos-pos r (suc k) (suc j)
        ∙ ap (λ z. r *ℤ pos z) (mul_comm (suc k) (suc j))
        ∙ ap (◌*ℤ◌ r) (sym (*ℤ-pos (suc j) (suc k)))
        ∙ v

    right : pos (suc p) *ℤ pos (suc l) *ℤ pos (suc j) ≡ pos (suc j) *ℤ pos (suc p) *ℤ pos (suc l)
    right =
        ap (λ z. z *ℤ pos (suc j)) (*ℤ-pos (suc p) (suc l))
        ∙ *ℤ-pos (suc p * suc l) (suc j)
        ∙ ap pos (mul_comm (suc p * suc l) (suc j) ∙ sym (mul_assoc (suc j) (suc p) (suc l)))
        ∙ sym (*ℤ-pos (suc j * suc p) (suc l))
        ∙ ap (λ z. z *ℤ pos (suc l)) (sym (*ℤ-pos (suc j) (suc p)))

-- What is left over, as the code computes it, and the quotient it leaves it over for.
rest-IsFloor :
    (a b t q : ℤ) (k : ℕ) → b ≡ pos k → t ≡ a -ℤ q *ℤ b → pos 0 ≤ℤ t → t <ℤ b → IsFloor q a b
rest-IsFloor a b t q k e d lo hi =
    rw e (rw (+ℤ-*ℤ-pos q (pos 1) k) (bracket a t (q *ℤ pos k) k (rw e at d) lo (rw e at hi)))
  where
    bracket :
        (a t c : ℤ) (k : ℕ)
        → t ≡ a -ℤ c
        → pos 0 ≤ℤ t
        → t <ℤ pos k
        → (c ≤ℤ a) × (a <ℤ c +ℤ pos 1 *ℤ pos k)
    bracket a t c k d lo hi =
        omega (int_laws, *ℤ_parts (pos 1) k, ap pos_part d, ap neg_part d, lo, hi)

product_pos : (j p : ℕ) → (k : ℕ) × (pos (suc j) *ℤ pos (suc p) ≡ pos (suc k))
product_pos j p =
    (j * suc p + p, *ℤ-pos (suc j) (suc p) ∙ ap pos (omega (arith, suc-mul j (suc p))))

regroup : (q : ℤ) (p j : ℕ) → q *ℤ pos p *ℤ pos j ≡ q *ℤ (pos j *ℤ pos p)
regroup q p j =
    *ℤ-pos-pos q p j ∙ ap (λ z. q *ℤ pos z) (mul_comm p j) ∙ ap (◌*ℤ◌ q) (sym (*ℤ-pos j p))

-- The remainder as the code computes it, over the common denominator.
abbrev rest : BeatTime → BeatTime → ℤ → ℤ
rest x m q = x.num *ℤ m.den -ℤ q *ℤ m.num *ℤ x.den

-- `r` is from zero to below a positive `m`, and is what `x` has beyond `q` times `m`.
pub record IsDivision (x m : BeatTime) (q : ℤ) (r : BeatTime) : Type 0 where
  pub divisor_pos : (p : ℕ) × (m.num ≡ pos (suc p))
  pub quotient_fits : IsI64 q
  pub nonneg : pos 0 ≤ℤ r.num
  pub below : cmp r m ≡ Ordering.lt
  pub value : IsRest x m q r

rest_facts :
    (x m r : BeatTime) (q : ℤ)
    → IsCanonical x
    → IsCanonical m
    → IsCanonical r
    → IsDivision x m q r
    → (pos 0 ≤ℤ rest x m q)
      × (rest x m q <ℤ x.den *ℤ m.num)
      × IsFloor q (x.num *ℤ m.den) (x.den *ℤ m.num)
rest_facts x m r q hx hm hr h =
    let (j, xd) = hx.den_pos in
    let (k, md) = hm.den_pos in
    let (l, rd) = hr.den_pos in
    let (p, mn) = h.divisor_pos in
    let t = x.num *ℤ pos (suc k) -ℤ q *ℤ pos (suc p) *ℤ pos (suc j) in
    let w = rw (md, mn, xd, rd) at h.value in
    let lo =
      rest_nonneg r.num t (suc j * suc k) l h.nonneg
        (ap (◌*ℤ◌ r.num) (sym (*ℤ-pos (suc j) (suc k))) ∙ w) in
    let hi = rest_below r.num t j k l p (rw (md, mn, rd) at ((cmp-lt_iff r m).0 h.below)) w in
    rw (md, mn, xd)
      (
        lo,
        hi,
        rest-IsFloor (x.num *ℤ pos (suc k)) (pos (suc j) *ℤ pos (suc p)) t q (suc j * suc p)
            (*ℤ-pos (suc j) (suc p))
            (ap (λ z. x.num *ℤ pos (suc k) -ℤ z) (regroup q (suc p) (suc j))) lo hi,
      )

nonzero_test : (z : ℤ) (p : ℕ) → z ≡ pos (suc p) → eqb_ℤ z (pos 0) ≡ false
nonzero_test z p e = rw e (ground arith)

-- `div_floor` finds the quotient of a division with remainder by a positive number.
pub div_floor-value :
    (x m r : BeatTime) (q : ℤ)
    → IsCanonical x
    → IsCanonical m
    → IsCanonical r
    → IsDivision x m q r
    → div_floor x m ≡ q
unfolding div_floor
div_floor-value x m r q hx hm hr h =
    let (j, xd) = hx.den_pos in
    let (p, mn) = h.divisor_pos in
    let (k, e) = product_pos j p in
    let (_, _, fl) = rest_facts x m r q hx hm hr h in
    rw (nonzero_test m.num p mn) (
      rw (floor_div_i128-value q (x.num *ℤ m.den) (x.den *ℤ m.num) k (rw (xd, mn) e) fl)
        (clamp_i64-id q h.quotient_fits))

rest_i128 : (t b : ℤ) → pos 0 ≤ℤ t → t <ℤ b → pos (abs b) ≤ℤ pos (2 ^ 126 - 1) → to_i128 t ≡ t
unfolding neg
rest_i128 t b lo hi h = to_i128-id t (omega (arith, lo)) (omega (arith, hi, h))

module _ (grid : ℤ → ℤ → ℤ) where
  -- For a division with remainder of canonical numbers, by a positive one and with a quotient in
  -- i64, `div_floor` finds the quotient and `rem_euclid` the remainder.
  pub rem_time-value :
      (x m r : BeatTime) (q : ℤ)
      → IsCanonical x
      → IsCanonical m
      → IsCanonical r
      → IsDivision x m q r
      → (div_floor x m ≡ q) × (rem_time grid x m ≡ r)
  unfolding rem_time from_i128
  rem_time-value x m r q hx hm hr h =
      let (p, mn) = h.divisor_pos in
      let dv = div_floor-value x m r q hx hm hr h in
      let (lo, hi, _) = rest_facts x m r q hx hm hr h in
      let (_, _, dd) = products_fit x m hx hm in
      let (j, xd) = hx.den_pos in
      let den_num =
        num-den-IsProduct x.den m.num p mn
          (rw xd (omega (arith, subst (λ d. d ≤ℤ limit) xd hx.den_fits)))
          (omega (arith, hm.num_fits)) in
      (
        dv,
        rw (nonzero_test m.num p mn, dv)
            (rw
              (
                rest_i128 (rest x m q) (x.den *ℤ m.num) lo hi den_num,
                (fits_i128 (x.den *ℤ m.den) (x.den *ℤ m.den) dd dd).0,
              )
              (normalise-value _ r _ _ hr (den-nonzero x m hx hm) h.value)),
      )
