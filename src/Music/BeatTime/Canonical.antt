-- ===== src/Music/BeatTime/Canonical.antt =====
-- The values that `from_i128` of crates/music-domain/src/time.rs makes are canonical.
use reapermcp.Music.BeatTime.Reduce.{*ℤ-one, reduce-IsReduction}
use native.Mathlib.Nat.{eq-one_of_dvd-one}
use reapermcp.Music.BeatTime.Gcd.{gcd, gcd-dvd}
use reapermcp.Prelude.{
  ℕ, ◌≡◌, suc, ◌^◌, ◌-◌, arith, Bool-cases, refl, inl, inr, ◌&&◌, false, true, and_parts, ◌||◌,
  zero, subst, ap, ◌∙◌,
}
use reapermcp.Prelude.Int.{
  ℤ, rem_euclid, pos, ◌%ℤ◌, ◌+ℤ◌, ◌≤ℤ◌, ◌-ℤ◌, neg, ◌*ℤ◌, negsuc, *ℤ_parts, ltb_ℤ, leb_ℤ, eqb_ℤ,
  leb_ℤ-le, ltb_ℤ-le,
}
use reapermcp.Music.BeatTime.{
  BeatTime, to_i128, abs, max_quarters, limit, whole, settle, normalise, reduce,
}

-- Lowest terms, a positive denominator, and the bounds of i64 and `MAX_QUARTERS`.
pub record IsCanonical (x : BeatTime) : Type 0 where
  pub den_pos : (k : ℕ) × (x.den ≡ pos (suc k))
  pub coprime : gcd x.num x.den ≡ 1
  pub num_fits : pos (abs x.num) ≤ℤ limit
  pub den_fits : x.den ≤ℤ limit
  pub within : pos (abs x.num) ≤ℤ max_quarters *ℤ x.den

pub to_i128-id : (z : ℤ) → neg (pos (2 ^ 127)) ≤ℤ z → z ≤ℤ pos (2 ^ 127 - 1) → to_i128 z ≡ z
unfolding to_i128 rem_euclid ◌%ℤ◌ ◌+ℤ◌ ◌-ℤ◌ neg
to_i128-id (pos n) lo hi = ground arith
to_i128-id (negsuc n) lo hi = ground arith

pub whole-IsCanonical : (z : ℤ) → pos (abs z) ≤ℤ max_quarters → IsCanonical (whole z)
whole-IsCanonical z h = record {
  den_pos = (0, refl);
  coprime = eq-one_of_dvd-one (gcd-dvd z (pos 1)).1;
  num_fits = omega (arith, h);
  den_fits = omega arith;
  within = rw *ℤ-one h;
}

-- Below a denominator of i64 the bound does not leave i128.
pub bound_fits :
    (k : ℕ)
    → pos (suc k) ≤ℤ limit
    → (to_i128 (max_quarters *ℤ pos (suc k)) ≡ max_quarters *ℤ pos (suc k))
      × (to_i128 (neg max_quarters *ℤ pos (suc k)) ≡ neg max_quarters *ℤ pos (suc k))
unfolding neg
bound_fits k h =
    let (up, un) = *ℤ_parts max_quarters (suc k) in
    let (lp, ln) = *ℤ_parts (neg max_quarters) (suc k) in
    (
      to_i128-id _ (omega (arith, h, up, un)) (omega (arith, h, up, un)),
      to_i128-id _ (omega (arith, h, lp, ln)) (omega (arith, h, lp, ln)),
    )

neg_max : pos (abs (neg max_quarters)) ≤ℤ max_quarters
unfolding neg
neg_max = omega arith

-- What the two tests of the bound say of the size.
pub between_bounds :
    (z : ℤ) (k : ℕ)
    → z ≤ℤ max_quarters *ℤ pos (suc k)
    → neg max_quarters *ℤ pos (suc k) ≤ℤ z
    → pos (abs z) ≤ℤ max_quarters *ℤ pos (suc k)
unfolding neg
between_bounds (pos n) k hi lo = omega (arith, hi)
between_bounds (negsuc n) k hi lo =
    omega (arith, hi, lo, *ℤ_parts max_quarters (suc k), *ℤ_parts (neg max_quarters) (suc k))

settled :
    (num den : ℤ) (k : ℕ)
    → den ≡ pos (suc k)
    → gcd num den ≡ 1
    → ltb_ℤ (to_i128 (max_quarters *ℤ den)) num ≡ false
    → ltb_ℤ num (to_i128 (neg max_quarters *ℤ den)) ≡ false
    → (leb_ℤ (pos (abs num)) limit && leb_ℤ den limit) ≡ true
    → IsCanonical (record { num = num; den = den })
unfolding neg
settled num den k e c up low fit =
    let (f, g) = and_parts _ _ fit in
    let den_fits = leb_ℤ-le den limit g in
    let (hi, lo) = bound_fits k (subst (λ d. d ≤ℤ limit) e den_fits) in
    record {
      den_pos = (k, e);
      coprime = c;
      num_fits = leb_ℤ-le (pos (abs num)) limit f;
      den_fits = den_fits;
      within = rw e (
          between_bounds num k
            (subst (λ b. num ≤ℤ b) (ap (λ d. to_i128 (max_quarters *ℤ d)) e ∙ hi)
              (ltb_ℤ-le (to_i128 (max_quarters *ℤ den)) num up))
            (subst (λ b. b ≤ℤ num) (ap (λ d. to_i128 (neg max_quarters *ℤ d)) e ∙ lo)
              (ltb_ℤ-le num (to_i128 (neg max_quarters *ℤ den)) low)));
    }

-- What a fraction in lowest terms is settled to.
pub settle-IsCanonical :
    (snap : ℤ → ℤ → BeatTime) (r : ℤ × ℤ)
    → ((n d : ℤ) → IsCanonical (snap n d))
    → ((k : ℕ) × (r.1 ≡ pos (suc k)))
    → gcd r.0 r.1 ≡ 1
    → IsCanonical (settle snap r)
unfolding settle
settle-IsCanonical snap (num, den) hs (k, e) c =
    elim (Bool-cases (ltb_ℤ (to_i128 (max_quarters *ℤ den)) num)) [
      | inl a ↦ rw a (whole-IsCanonical max_quarters (omega arith))
      | inr a ↦ elim (Bool-cases (ltb_ℤ num (to_i128 (neg max_quarters *ℤ den)))) [
        | inl b ↦ rw (a, b) (whole-IsCanonical (neg max_quarters) neg_max)
        | inr b ↦ elim (Bool-cases (leb_ℤ (pos (abs num)) limit && leb_ℤ den limit)) [
          | inl f ↦ rw (a, b, f) (settled num den k e c a b f)
          | inr f ↦ rw (a, b, f) (hs num den)
        ]
      ]
    ]

pub negative : (d : ℤ) → ltb_ℤ d (pos 0) ≡ true → (k : ℕ) × (neg d ≡ pos (suc k))
unfolding neg
negative (pos n) h = absurd (ground (arith, h))
negative (negsuc n) h = (n, ground arith)

pub positive :
    (d n : ℤ)
    → (eqb_ℤ d (pos 0) || eqb_ℤ n (pos 0)) ≡ false
    → ltb_ℤ d (pos 0) ≡ false
    → (k : ℕ) × (d ≡ pos (suc k))
positive (pos zero) n z h = absurd (ground (arith, z))
positive (pos (suc k)) n z h = (k, refl)
positive (negsuc k) n z h = absurd (ground (arith, h))

pub normalise-IsCanonical :
    (snap : ℤ → ℤ → BeatTime) (num den : ℤ)
    → ((n d : ℤ) → IsCanonical (snap n d))
    → IsCanonical (normalise snap num den)
unfolding normalise
normalise-IsCanonical snap num den hs = elim (Bool-cases (eqb_ℤ den (pos 0) || eqb_ℤ num (pos 0))) [
  | inl z ↦ rw z (whole-IsCanonical (pos 0) (omega arith))
  | inr z ↦ elim (Bool-cases (ltb_ℤ den (pos 0))) [
    | inl n ↦ rw (z, n) (reduced_settle (neg num) (neg den) (negative den n))
    | inr n ↦ rw (z, n) (reduced_settle num den (positive den num z n))
  ]
]
  where
    reduced_settle :
        (n d : ℤ) → ((k : ℕ) × (d ≡ pos (suc k))) → IsCanonical (settle snap (reduce n d))
    reduced_settle n d (k, e) =
        let r = reduce-IsReduction n d k e in
        settle-IsCanonical snap (reduce n d) hs r.den_pos r.coprime
