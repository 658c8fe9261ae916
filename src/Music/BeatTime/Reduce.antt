-- ===== src/Music/BeatTime/Reduce.antt =====
-- The reduction in `from_i128` of crates/music-domain/src/time.rs.
use reapermcp.Music.BeatTime.Gcd.{gcd, gcd-dvd, gcd-pos, gcd-reduced}
use reapermcp.Prelude.{
  ℕ, ◌≡◌, suc, ◌/◌, ◌*◌, ◌<◌, arith, refl, sym, ap, subst, false, Bool-cases, ◌∙◌, zero, inl, inr,
}
use reapermcp.Music.BeatTime.{reduce, abs, gcd_i128}
use reapermcp.Prelude.Int.{
  ◌/ℤ◌, ℤ, pos_part, ◌*ℤ◌, pos, neg_part, negsuc, eq_of_parts, *ℤ_parts, int_laws, ltb_ℤ,
}
use native.Mathlib.Nat.{div-mul_cancel, zero-div, add-zero, zero-add, zero-mul, mul_assoc, add-mul}
use Prim.Native.Nat.{◌∣◌}

pub mul_pos_part : (a : ℤ) (k : ℕ) → pos_part (a *ℤ pos k) ≡ pos_part a * k
mul_pos_part a k = (*ℤ_parts a k).0

pub mul_neg_part : (a : ℤ) (k : ℕ) → neg_part (a *ℤ pos k) ≡ neg_part a * k
mul_neg_part a k = (*ℤ_parts a k).1

div_pos_part : (z : ℤ) (g : ℕ) → pos_part (z /ℤ pos g) ≡ pos_part z / g
unfolding ◌/ℤ◌
div_pos_part (pos a) g = refl
div_pos_part (negsuc a) g = rw zero-div (ground arith)

div_neg_part : (z : ℤ) (g : ℕ) → neg_part (z /ℤ pos g) ≡ neg_part z / g
unfolding ◌/ℤ◌
div_neg_part (pos a) g = sym (zero-div g)
div_neg_part (negsuc a) g = ground arith

-- A division that leaves nothing is undone by the product.
pub /ℤ-*ℤ_cancel : (z : ℤ) (g : ℕ) → g ∣ abs z → z /ℤ pos g *ℤ pos g ≡ z
/ℤ-*ℤ_cancel (pos a) g h = eq_of_parts _ _ (
    rw (mul_pos_part, mul_neg_part, div_pos_part, div_neg_part)
      (rw (div-mul_cancel g (rw add-zero at h), zero-div, zero-mul) refl))
/ℤ-*ℤ_cancel (negsuc a) g h = eq_of_parts _ _ (
    rw (mul_pos_part, mul_neg_part, div_pos_part, div_neg_part)
      (rw (div-mul_cancel g (rw zero-add at h), zero-div, zero-mul) refl))

pub *ℤ-pos-pos : (a : ℤ) (j k : ℕ) → a *ℤ pos j *ℤ pos k ≡ a *ℤ pos (j * k)
*ℤ-pos-pos a j k = eq_of_parts _ _ (simp (mul_pos_part, mul_neg_part, mul_assoc))

pub abs-*ℤ-pos : (z : ℤ) (k : ℕ) → abs (z *ℤ pos k) ≡ abs z * k
abs-*ℤ-pos z k = rw (mul_pos_part, mul_neg_part, add-mul) refl

pub positive_factor : (z : ℤ) (g k : ℕ) → z *ℤ pos g ≡ pos (suc k) → (m : ℕ) × (z ≡ pos (suc m))
positive_factor (pos zero) g k h = absurd (omega (arith, *ℤ_parts (pos zero) g, ap pos_part h))
positive_factor (pos (suc m)) g k h = (m, refl)
positive_factor (negsuc m) g k h = absurd (omega (arith, *ℤ_parts (negsuc m) g, ap pos_part h))

-- What a fraction is reduced to.
pub record IsReduction (num den : ℤ) (r : ℤ × ℤ) : Type 0 where
  pub den_pos : (k : ℕ) × (r.1 ≡ pos (suc k))
  pub factor : (g : ℕ) × (0 < g) × (r.0 *ℤ pos g ≡ num) × (r.1 *ℤ pos g ≡ den)
  pub coprime : gcd r.0 r.1 ≡ 1

divided :
    (num den : ℤ) (k : ℕ)
    → den ≡ pos (suc k)
    → IsReduction num den (num /ℤ pos (gcd num den), den /ℤ pos (gcd num den))
divided num den k e =
    let g = gcd num den in
    let (dn, dd) = gcd-dvd num den in
    let n = /ℤ-*ℤ_cancel num g dn in
    let d = /ℤ-*ℤ_cancel den g dd in
    let nonzero = subst (λ x. 0 < abs x) (sym e) (omega arith) in
    record {
      den_pos = positive_factor (den /ℤ pos g) g k (d ∙ e);
      factor = (g, gcd-pos num den nonzero, n, d);
      coprime =
          gcd-reduced num den _ _ nonzero (sym (abs-*ℤ-pos _ g) ∙ ap abs n)
            (sym (abs-*ℤ-pos _ g) ∙ ap abs d);
    }

pub *ℤ-one : (z : ℤ) → z *ℤ pos 1 ≡ z
*ℤ-one z = omega (int_laws, *ℤ_parts)

undivided :
    (num den : ℤ) (k : ℕ)
    → den ≡ pos (suc k)
    → ltb_ℤ (pos 1) (pos (gcd num den)) ≡ false
    → IsReduction num den (num, den)
undivided num den k e small = record {
  den_pos = (k, e);
  factor = (1, omega arith, *ℤ-one num, *ℤ-one den);
  coprime =
      one (gcd num den) (gcd-pos num den (subst (λ x. 0 < abs x) (sym e) (omega arith))) small;
}
  where
    one : (g : ℕ) → 0 < g → ltb_ℤ (pos 1) (pos g) ≡ false → g ≡ 1
    one g h small = ground (arith, h, small)

-- `from_i128` reduces a fraction with a positive denominator to lowest terms.
pub reduce-IsReduction :
    (num den : ℤ) (k : ℕ) → den ≡ pos (suc k) → IsReduction num den (reduce num den)
unfolding reduce gcd_i128
reduce-IsReduction num den k e = elim (Bool-cases (ltb_ℤ (pos 1) (gcd_i128 num den))) [
  | inl h ↦ rw h (divided num den k e)
  | inr h ↦ rw h (undivided num den k e h)
]
