-- ===== src/Music/BeatTime/Compare.antt =====
-- The order of `BeatTime` in crates/music-domain/src/time.rs.
use reapermcp.Music.BeatTime.Gcd.{gcd}
use reapermcp.Music.BeatTime.Reduce.{*ℤ-pos-pos, mul_pos_part, mul_neg_part}
use reapermcp.Music.BeatTime.Value.{lowest_unique, time_eq}
use reapermcp.Music.BeatTime.Canonical.{IsCanonical}
use reapermcp.Prelude.Int.{ℤ, pos_part, ◌*ℤ◌, pos, neg_part, eq_of_parts}
use reapermcp.Music.BeatTime.{cmp, BeatTime}
use reapermcp.Prelude.{
  ℕ, compare, ◌↔◌, ◌≡◌, ◌+◌, Ordering, suc, arith, ◌*◌, ◌<◌, subst, dec_lt, refl, ap, sym, ◌∙◌,
}
use native.Mathlib.Nat.{add-mul, mul_comm, mul-lt-mul_of_pos_right, mul-le-mul_right}

compare-eq : (a b : ℕ) → compare a b ≡ Ordering.eq → a ≡ b
compare-eq a b h = ground (arith, h)

compare_self : (a : ℕ) → compare a a ≡ Ordering.eq
compare_self a = ground arith

compare-lt_iff : (a b : ℕ) → (compare a b ≡ Ordering.lt) ↔ (a < b)
compare-lt_iff a b = ground arith

-- Two canonical numbers that compare as equal are the same.
pub cmp-eq_iff :
    (x y : BeatTime) → IsCanonical x → IsCanonical y → (cmp x y ≡ Ordering.eq) ↔ (x ≡ y)
unfolding cmp
cmp-eq_iff x y hx hy = (λ h. same (eq_of_parts _ _ (compare-eq _ _ h)), λ e. rw e (compare_self _))
  where
    same : x.num *ℤ y.den ≡ y.num *ℤ x.den → x ≡ y
    same h =
        let (j, xd) = hx.den_pos in
        let (k, yd) = hy.den_pos in
        let (p, q) =
          lowest_unique x.num y.num j k (subst (λ d. gcd x.num d ≡ 1) xd hx.coprime)
            (subst (λ d. gcd y.num d ≡ 1) yd hy.coprime)
            (ap (◌*ℤ◌ x.num) (sym yd) ∙ h ∙ ap (◌*ℤ◌ y.num) xd) in
        time_eq x y p (xd ∙ ap pos q ∙ sym yd)

infix 50 ◌<ℤ◌
abbrev pub ◌<ℤ◌ : ℤ → ℤ → Type 0
a <ℤ b = pos_part a + neg_part b < pos_part b + neg_part a

scaled :
    (a b : ℤ) (k : ℕ)
    → ((pos_part a + neg_part b) * k ≡ pos_part (a *ℤ pos k) + neg_part (b *ℤ pos k))
scaled a b k = rw (add-mul, mul_pos_part, mul_neg_part) refl

pub <ℤ-*ℤ_iff : (a b : ℤ) (k : ℕ) → (a <ℤ b) ↔ (a *ℤ pos (suc k) <ℤ b *ℤ pos (suc k))
<ℤ-*ℤ_iff a b k = (
  λ h. omega (
    arith,
    scaled a b (suc k),
    scaled b a (suc k),
    mul-lt-mul_of_pos_right {k = suc k} h (omega arith),
  ),
  λ h. elim (dec_lt (pos_part a + neg_part b) (pos_part b + neg_part a)) [
    | yes lt ↦ lt
    | no ge ↦ absurd (
        omega (
          arith,
          h,
          scaled a b (suc k),
          scaled b a (suc k),
          mul-le-mul_right {m = pos_part b + neg_part a} {n = pos_part a + neg_part b} (suc k)
              (omega (arith, ge)),
        ))
  ],
)

cross_trans :
    (x y z : ℤ) (j k l : ℕ)
    → x *ℤ pos (suc k) <ℤ y *ℤ pos (suc j)
    → y *ℤ pos (suc l) <ℤ z *ℤ pos (suc k)
    → x *ℤ pos (suc l) <ℤ z *ℤ pos (suc j)
cross_trans x y z j k l h h' =
    let first = (<ℤ-*ℤ_iff (x *ℤ pos (suc k)) (y *ℤ pos (suc j)) l).0 h in
    let second = (<ℤ-*ℤ_iff (y *ℤ pos (suc l)) (z *ℤ pos (suc k)) j).0 h' in
    (<ℤ-*ℤ_iff (x *ℤ pos (suc l)) (z *ℤ pos (suc j)) k).1 (
      rw (swap x l k, swap z j k)
        (<ℤ_trans (x *ℤ pos (suc k) *ℤ pos (suc l)) (y *ℤ pos (suc j) *ℤ pos (suc l))
          (z *ℤ pos (suc k) *ℤ pos (suc j)) first (rw (swap y l j) at second)))
  where
    swap : (a : ℤ) (m n : ℕ) → a *ℤ pos (suc m) *ℤ pos (suc n) ≡ a *ℤ pos (suc n) *ℤ pos (suc m)
    swap a m n =
        *ℤ-pos-pos a (suc m) (suc n)
        ∙ ap (λ t. a *ℤ pos t) (mul_comm (suc m) (suc n))
        ∙ sym (*ℤ-pos-pos a (suc n) (suc m))

    <ℤ_trans : (a b c : ℤ) → a <ℤ b → b <ℤ c → a <ℤ c
    <ℤ_trans a b c h h' = omega (arith, h, h')

pub cmp-lt_iff : (x y : BeatTime) → (cmp x y ≡ Ordering.lt) ↔ (x.num *ℤ y.den <ℤ y.num *ℤ x.den)
unfolding cmp
cmp-lt_iff x y = compare-lt_iff _ _

-- The order is transitive.
pub cmp-lt_trans :
    (x y z : BeatTime)
    → IsCanonical x
    → IsCanonical y
    → IsCanonical z
    → cmp x y ≡ Ordering.lt
    → cmp y z ≡ Ordering.lt
    → cmp x z ≡ Ordering.lt
cmp-lt_trans x y z hx hy hz h h' =
    let (j, xd) = hx.den_pos in
    let (k, yd) = hy.den_pos in
    let (l, zd) = hz.den_pos in
    (cmp-lt_iff x z).1 (
      rw (xd, zd)
        (cross_trans x.num y.num z.num j k l (rw (xd, yd) at ((cmp-lt_iff x y).0 h))
          (rw (yd, zd) at ((cmp-lt_iff y z).0 h'))))
