-- ===== src/Music/BeatTime/Gcd.antt =====
-- `gcd_i128` of crates/music-domain/src/time.rs computes the greatest common divisor.
use reapermcp.Prelude.Order.{lt_wf}
use reapermcp.Prelude.Int.{ℤ, pos_part, ◌%ℤ◌}
use reapermcp.Music.BeatTime.{gcd_loop, gcd_i128, abs, smaller, abs-%}
use reapermcp.Prelude.{ℕ, ◌<◌, ◌*◌, ◌↔◌, ◌%◌, ◌≡◌, subst, ◌/◌, sym, ◌+◌, refl, suc, zero}
use native.Mathlib.Nat.{
  dvd_refl, dvd-zero, dvd-add_iff_right, dvd-mul_right_of_dvd, pos_of_dvd_of_pos, mul-one, add-mul,
  div-add-mod, mul_right_comm, dvd_of_mul-dvd-mul_right, eq-one_of_dvd-one, one-mul,
  mul-dvd-mul_right,
}
use Prim.Native.Nat.{◌∣◌}
use mathlib.Core.WellFounded.{Acc}

-- A multiple of the divisor more or less does not matter.
dvd-mod-mul_iff : (k t a b : ℕ) → k ∣ b * t → (k ∣ a % b * t) ↔ (k ∣ a * t)
dvd-mod-mul_iff k t a b h =
    subst (λ x. (k ∣ a % b * t) ↔ (k ∣ x)) split
      (dvd-add_iff_right k (dvd-mul_right_of_dvd k h (a / b)))
  where
    split : b * t * (a / b) + a % b * t ≡ a * t
    split = rw (mul_right_comm b t (a / b), ← add-mul, div-add-mod) refl

-- What divides both sizes (times a constant) is what divides the result (times the constant).
gcd_loop_iff :
    (k t : ℕ) (a b : ℤ) (n : ℕ) (w : Acc ◌<◌ n) (e : abs b ≡ n)
    → ((k ∣ abs a * t) × (k ∣ abs b * t)) ↔ (k ∣ abs (gcd_loop a b n w e) * t)
unfolding gcd_loop
gcd_loop_iff k t a b zero w e =
    (λ h. h.0, λ h. (h, subst (λ x. k ∣ x * t) (sym e) (dvd-mul_right_of_dvd k (dvd-zero k) t)))
gcd_loop_iff k t a b (suc n) (Acc.intro _ below) e =
    let (down, up) = gcd_loop_iff k t b (a %ℤ b) (abs (a %ℤ b)) (below _ (smaller a b e)) refl in
    (
      λ h. down (
        h.1,
        subst (λ x. k ∣ x * t) (sym (abs-% a b)) ((dvd-mod-mul_iff k t (abs a) (abs b) h.1).1 h.0),
      ),
      λ h. (
        (dvd-mod-mul_iff k t (abs a) (abs b) (up h).0).0
            (subst (λ x. k ∣ x * t) (abs-% a b) (up h).1),
        (up h).0,
      ),
    )

-- The greatest common divisor as a number.
abbrev pub gcd : ℤ → ℤ → ℕ
gcd a b = pos_part (gcd_i128 a b)

pub gcd_iff : (k t : ℕ) (a b : ℤ) → ((k ∣ abs a * t) × (k ∣ abs b * t)) ↔ (k ∣ gcd a b * t)
unfolding gcd_i128
gcd_iff k t a b = gcd_loop_iff k t a b (abs b) (lt_wf.apply (abs b)) refl

pub gcd-dvd : (a b : ℤ) → (gcd a b ∣ abs a) × (gcd a b ∣ abs b)
gcd-dvd a b =
    let (left, right) = (gcd_iff (gcd a b) 1 a b).1 (dvd-mul_right_of_dvd _ (dvd_refl _) 1) in
    (rw mul-one at left, rw mul-one at right)

pub gcd-pos : (a b : ℤ) → 0 < abs b → 0 < gcd a b
gcd-pos a b h = pos_of_dvd_of_pos (gcd-dvd a b).1 h

-- Divided by it, the two have no common divisor.
pub gcd-reduced :
    (a b a' b' : ℤ)
    → 0 < abs b
    → abs a' * gcd a b ≡ abs a
    → abs b' * gcd a b ≡ abs b
    → gcd a' b' ≡ 1
gcd-reduced a b a' b' h ea eb =
    let g = gcd a b in
    let r = gcd a' b' in
    let (ra, rb) = gcd-dvd a' b' in
    let both = (gcd_iff (r * g) 1 a b).0 (
      subst (λ x. r * g ∣ x * 1) ea (dvd-mul_right_of_dvd _ (mul-dvd-mul_right r ra g) 1),
      subst (λ x. r * g ∣ x * 1) eb (dvd-mul_right_of_dvd _ (mul-dvd-mul_right r rb g) 1),
    ) in
    eq-one_of_dvd-one (
      dvd_of_mul-dvd-mul_right {k = g} r {n = 1} (gcd-pos a b h)
        (rw (one-mul) (rw mul-one at both)))
