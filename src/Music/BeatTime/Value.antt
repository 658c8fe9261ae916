-- ===== src/Music/BeatTime/Value.antt =====
-- `from_i128` of crates/music-domain/src/time.rs keeps the value of a fraction that it can represent.
use reapermcp.Music.BeatTime.Canonical.{IsCanonical, bound_fits, whole-IsCanonical}
use reapermcp.Music.BeatTime.{
  abs, settle, BeatTime, reduce, whole, limit, max_quarters, to_i128, normalise,
}
use reapermcp.Music.BeatTime.Reduce.{
  abs-*ℤ-pos, mul_pos_part, mul_neg_part, *ℤ-pos-pos, reduce-IsReduction,
}
use reapermcp.Music.BeatTime.Gcd.{gcd, gcd_iff}
use reapermcp.Prelude.Int.{
  ℤ, ◌*ℤ◌, pos, eq_of_parts, pos_part, neg_part, *ℤ-pos, neg, le-leb_ℤ, ◌≤ℤ◌, ltb_ℤ, *ℤ_parts,
  le-ltb_ℤ, negsuc, eqb_ℤ, eqb_ℤ-eq,
}
use reapermcp.Prelude.{
  ℕ, ◌*◌, suc, ◌≡◌, subst, sym, ◌∙◌, ap, refl, arith, ◌<◌, zero, false, ◌≢◌, Bool-cases, inl, inr,
  true,
}
use native.Mathlib.Nat.{
  dvd_antisymm, dvd-mul_left, one-mul, eq_of_mul-eq-mul_right, dvd_refl, dvd-mul_right_of_dvd,
  add-zero, mul_comm, zero-mul,
}
use Prim.Native.Nat.{◌∣◌}

-- A positive factor can be cancelled.
pub mul_cancel : (x y k : ℕ) → x * suc k ≡ y * suc k → x ≡ y
mul_cancel x y k h = eq_of_mul-eq-mul_right (suc k) (omega arith) x y h

pub *ℤ-pos_cancel : (a b : ℤ) (k : ℕ) → a *ℤ pos (suc k) ≡ b *ℤ pos (suc k) → a ≡ b
*ℤ-pos_cancel a b k h = eq_of_parts a b (
    rw
      (
        mul_cancel (pos_part a) (pos_part b) k
            (sym (mul_pos_part a _) ∙ ap pos_part h ∙ mul_pos_part b _),
        mul_cancel (neg_part a) (neg_part b) k
            (sym (mul_neg_part a _) ∙ ap neg_part h ∙ mul_neg_part b _),
      )
      refl)

-- Of two equal fractions the denominator of one in lowest terms divides the other's.
den-dvd : (a c : ℤ) (j k : ℕ) → gcd a (pos j) ≡ 1 → a *ℤ pos k ≡ c *ℤ pos j → j ∣ k
den-dvd a c j k one h =
    let left =
      subst (λ x. j ∣ x) (sym (abs-*ℤ-pos c j) ∙ ap abs (sym h) ∙ abs-*ℤ-pos a k)
        (dvd-mul_left j (abs c)) in
    rw one-mul at (
      rw one at (
        (gcd_iff j k a (pos j)).0
          (left, dvd-mul_right_of_dvd j (subst (λ x. j ∣ x) (sym (add-zero j)) (dvd_refl j)) k)))

-- Equal fractions in lowest terms are the same.
pub lowest_unique :
    (a c : ℤ) (j k : ℕ)
    → gcd a (pos (suc j)) ≡ 1
    → gcd c (pos (suc k)) ≡ 1
    → a *ℤ pos (suc k) ≡ c *ℤ pos (suc j)
    → (a ≡ c) × (suc j ≡ suc k)
lowest_unique a c j k ga gc h =
    let same =
      dvd_antisymm (den-dvd a c (suc j) (suc k) ga h) (den-dvd c a (suc k) (suc j) gc (sym h)) in
    (*ℤ-pos_cancel a c k (h ∙ ap (λ d. c *ℤ pos d) same), same)

-- A canonical number is within the bounds as the code computes them.
bounds_pass :
    (num : ℤ) (k : ℕ)
    → pos (suc k) ≤ℤ limit
    → pos (abs num) ≤ℤ max_quarters *ℤ pos (suc k)
    → (ltb_ℤ (to_i128 (max_quarters *ℤ pos (suc k))) num ≡ false)
      × (ltb_ℤ num (to_i128 (neg max_quarters *ℤ pos (suc k))) ≡ false)
unfolding neg
bounds_pass num k fit h =
    let (hi, lo) = bound_fits k fit in
    let (up, un) = *ℤ_parts max_quarters (suc k) in
    let (lp, ln) = *ℤ_parts (neg max_quarters) (suc k) in
    (
      le-ltb_ℤ (to_i128 (max_quarters *ℤ pos (suc k))) num (rw hi (omega (arith, h, up, un))),
      le-ltb_ℤ num (to_i128 (neg max_quarters *ℤ pos (suc k)))
          (rw lo (omega (arith, h, up, un, lp, ln))),
    )

settle-canonical :
    (snap : ℤ → ℤ → BeatTime) (num : ℤ) (k : ℕ)
    → IsCanonical (record { num = num; den = pos (suc k) })
    → settle snap (num, pos (suc k)) ≡ record { num = num; den = pos (suc k) }
unfolding settle
settle-canonical snap num k h =
    let (a, b) = bounds_pass num k h.den_fits h.within in
    rw (a, b, le-leb_ℤ (pos (abs num)) limit h.num_fits, le-leb_ℤ (pos (suc k)) limit h.den_fits)
      refl

pair_eq : {a a' b b' : ℤ} → a ≡ a' → b ≡ b' → ◌≡◌ {A = ℤ × ℤ} (a, b) (a', b')
pair_eq p q = λ i. (p i, q i)

-- The same factor in both parts does not change a fraction.
crossed :
    (a n c : ℤ) (j k m g : ℕ)
    → 0 < g
    → c *ℤ pos g ≡ n
    → pos (suc m) *ℤ pos g ≡ pos (suc k)
    → a *ℤ pos (suc k) ≡ n *ℤ pos (suc j)
    → c *ℤ pos (suc j) ≡ a *ℤ pos (suc m)
crossed a n c j k m zero gp fn fd v = absurd (omega (arith, gp))
crossed a n c j k m (suc g) gp fn fd v = *ℤ-pos_cancel _ _ g (
    *ℤ-pos-pos c (suc j) (suc g)
    ∙ ap (λ t. c *ℤ pos t) (mul_comm (suc j) (suc g))
    ∙ sym (*ℤ-pos-pos c (suc g) (suc j))
    ∙ ap (λ t. t *ℤ pos (suc j)) fn
    ∙ sym v
    ∙ ap (◌*ℤ◌ a) (sym fd ∙ *ℤ-pos (suc m) (suc g))
    ∙ sym (*ℤ-pos-pos a (suc m) (suc g)))

-- The fraction in lowest terms is the canonical number of the same value.
reduce-value :
    (x : BeatTime) (n : ℤ) (k : ℕ)
    → IsCanonical x
    → x.num *ℤ pos (suc k) ≡ n *ℤ x.den
    → reduce n (pos (suc k)) ≡ (x.num, x.den)
reduce-value x n k h v =
    let (p, q) = reduce n (pos (suc k)) in
    let r = reduce-IsReduction n (pos (suc k)) k refl in
    let (m, rd) = r.den_pos in
    let (g, g_pos, fn, fd) = r.factor in
    let (j, xd) = h.den_pos in
    let (same_num, same_den) =
      lowest_unique p x.num m j (subst (λ d. gcd p d ≡ 1) rd r.coprime)
        (subst (λ d. gcd x.num d ≡ 1) xd h.coprime)
        (crossed x.num n p j k m g g_pos fn (subst (λ d. d *ℤ pos g ≡ pos (suc k)) rd fd)
          (subst (λ d. x.num *ℤ pos (suc k) ≡ n *ℤ d) xd v)) in
    pair_eq same_num (rd ∙ ap pos same_den ∙ sym xd)

pub time_eq : (x y : BeatTime) → x.num ≡ y.num → x.den ≡ y.den → x ≡ y
time_eq x y p q = λ i. record { num = p i; den = q i }

-- `normalise` behind the change of sign.
settle-value :
    (snap : ℤ → ℤ → BeatTime) (x : BeatTime) (n : ℤ) (k : ℕ)
    → IsCanonical x
    → x.num *ℤ pos (suc k) ≡ n *ℤ x.den
    → settle snap (reduce n (pos (suc k))) ≡ x
settle-value snap x n k h v =
    let (j, xd) = h.den_pos in
    let same = time_eq x (record { num = x.num; den = pos (suc j) }) refl xd in
    rw (reduce-value x n k h v)
      (rw xd (settle-canonical snap x.num j (subst IsCanonical same h)) ∙ sym same)

pub zero_mul : (k : ℕ) → pos 0 *ℤ pos k ≡ pos 0
zero_mul k = *ℤ-pos 0 k ∙ ap pos (zero-mul k)

zero-value :
    (x : BeatTime) (k : ℕ)
    → IsCanonical x
    → x.num *ℤ pos (suc k) ≡ pos 0 *ℤ x.den
    → whole (pos 0) ≡ x
zero-value x k h v =
    let (j, xd) = h.den_pos in
    let zero_num =
      *ℤ-pos_cancel x.num (pos 0) k (v ∙ rw xd (zero_mul (suc j)) ∙ sym (zero_mul (suc k))) in
    let (p, q) =
      lowest_unique (pos 0) x.num 0 j (whole-IsCanonical (pos 0) (omega arith)).coprime
        (subst (λ d. gcd x.num d ≡ 1) xd h.coprime)
        (zero_mul (suc j) ∙ sym (zero_mul 1) ∙ ap (λ z. z *ℤ pos 1) (sym zero_num)) in
    time_eq (whole (pos 0)) x p (ap pos q ∙ sym xd)

neg_right : (a : ℤ) (k : ℕ) → a *ℤ pos (suc k) ≡ neg (a *ℤ negsuc k)
unfolding ◌*ℤ◌ neg
neg_right (pos n) k = grind arith
neg_right (negsuc n) k = grind arith

neg_left : (a : ℤ) (k : ℕ) → neg (a *ℤ pos k) ≡ neg a *ℤ pos k
unfolding ◌*ℤ◌ neg
neg_left (pos n) k = grind arith
neg_left (negsuc n) k = grind arith

positive_den :
    (x : BeatTime) (n : ℤ) (k : ℕ)
    → IsCanonical x
    → x.num *ℤ negsuc k ≡ n *ℤ x.den
    → x.num *ℤ pos (suc k) ≡ neg n *ℤ x.den
positive_den x n k h v =
    let (j, xd) = h.den_pos in
    neg_right x.num k
    ∙ ap neg v
    ∙ ap (λ d. neg (n *ℤ d)) xd
    ∙ neg_left n (suc j)
    ∙ ap (◌*ℤ◌ (neg n)) (sym xd)

positive_tests :
    (k : ℕ) → (eqb_ℤ (pos (suc k)) (pos 0) ≡ false) × (ltb_ℤ (pos (suc k)) (pos 0) ≡ false)
positive_tests k = (ground arith, ground arith)

negative_tests :
    (k : ℕ)
    → (eqb_ℤ (negsuc k) (pos 0) ≡ false)
      × (ltb_ℤ (negsuc k) (pos 0) ≡ true)
      × (neg (negsuc k) ≡ pos (suc k))
unfolding neg
negative_tests k = (ground arith, ground arith, ground arith)

-- `from_i128` finds the canonical number of the same value, if there is one, whatever it would
-- fall back to.
pub normalise-value :
    (snap : ℤ → ℤ → BeatTime) (x : BeatTime) (n d : ℤ)
    → IsCanonical x
    → d ≢ pos 0
    → x.num *ℤ d ≡ n *ℤ x.den
    → normalise snap n d ≡ x
unfolding normalise neg
normalise-value snap x n (pos zero) h nz v = absurd (nz refl)
normalise-value snap x n (pos (suc k)) h nz v =
    let (nonzero, nonneg) = positive_tests k in
    elim (Bool-cases (eqb_ℤ n (pos 0))) [
      | inl z ↦ rw (nonzero, z) (zero-value x k h (v ∙ ap (λ t. t *ℤ x.den) (eqb_ℤ-eq n (pos 0) z)))
      | inr z ↦ rw (nonzero, z, nonneg) (settle-value snap x n k h v)
    ]
normalise-value snap x n (negsuc k) h nz v =
    let (nonzero, less, flip) = negative_tests k in
    let v' = positive_den x n k h v in
    elim (Bool-cases (eqb_ℤ n (pos 0))) [
      | inl z ↦
          rw (nonzero, z) (zero-value x k h (v' ∙ ap (λ t. neg t *ℤ x.den) (eqb_ℤ-eq n (pos 0) z)))
      | inr z ↦ rw (nonzero, z, less, flip) (settle-value snap x (neg n) k h v')
    ]
