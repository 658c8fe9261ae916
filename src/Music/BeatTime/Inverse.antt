-- ===== src/Music/BeatTime/Inverse.antt =====
-- Addition and subtraction of `BeatTime` in crates/music-domain/src/time.rs undo each other.
use reapermcp.Music.BeatTime.Reduce.{*ℤ-pos-pos}
use reapermcp.Music.BeatTime.Sums.{IsSum, IsDifference, add-value, sub-value}
use reapermcp.Music.BeatTime.Canonical.{IsCanonical}
use reapermcp.Music.BeatTime.{BeatTime, sub, add}
use reapermcp.Prelude.Int.{
  ℤ, ◌+ℤ◌, ◌-ℤ◌, ◌*ℤ◌, pos, +ℤ_parts, -ℤ_parts, int_laws, eq_of_parts, *ℤ-pos, *ℤ_parts,
}
use reapermcp.Prelude.{ℕ, ◌≡◌, ◌*◌, ap, suc}
use native.Mathlib.Nat.{add-mul, mul_comm}

times : (p q l : ℕ) → p ≡ q → p * l ≡ q * l
times p q l e = ap (λ t. t * l) e

pub +ℤ-*ℤ-pos : (a b : ℤ) (l : ℕ) → (a +ℤ b) *ℤ pos l ≡ a *ℤ pos l +ℤ b *ℤ pos l
+ℤ-*ℤ-pos a b l =
    let h = rw (add-mul, add-mul, add-mul, add-mul) at (times _ _ l (+ℤ_parts a b)) in
    eq_of_parts _ _ (omega (int_laws, *ℤ_parts a l, *ℤ_parts b l, *ℤ_parts (a +ℤ b) l, h))

pub -ℤ-*ℤ-pos : (a b : ℤ) (l : ℕ) → (a -ℤ b) *ℤ pos l ≡ a *ℤ pos l -ℤ b *ℤ pos l
-ℤ-*ℤ-pos a b l =
    let h = rw (add-mul, add-mul, add-mul, add-mul) at (times _ _ l (-ℤ_parts a b)) in
    eq_of_parts _ _ (omega (int_laws, *ℤ_parts a l, *ℤ_parts b l, *ℤ_parts (a -ℤ b) l, h))

sum_difference :
    (x y z : ℤ) (j k l : ℕ)
    → z *ℤ (pos j *ℤ pos k) ≡ (x *ℤ pos k +ℤ y *ℤ pos j) *ℤ pos l
    → x *ℤ (pos l *ℤ pos k) ≡ (z *ℤ pos k -ℤ y *ℤ pos l) *ℤ pos j
sum_difference x y z j k l h =
    let v = rw (*ℤ-pos, +ℤ-*ℤ-pos, *ℤ-pos-pos, *ℤ-pos-pos) at h in
    rw (*ℤ-pos, -ℤ-*ℤ-pos, *ℤ-pos-pos, *ℤ-pos-pos, mul_comm l k, mul_comm k j, mul_comm l j)
      (move (z *ℤ pos (j * k)) (x *ℤ pos (k * l)) (y *ℤ pos (j * l)) v)
  where
    move : (a b c : ℤ) → a ≡ b +ℤ c → b ≡ a -ℤ c
    move a b c h = rw h (omega int_laws)

pub IsSum-IsDifference :
    (x y z : BeatTime)
    → IsCanonical x
    → IsCanonical y
    → IsCanonical z
    → IsSum x y z
    → IsDifference z y x
IsSum-IsDifference x y z hx hy hz v =
    let (j, xd) = hx.den_pos in
    let (k, yd) = hy.den_pos in
    let (l, zd) = hz.den_pos in
    rw (xd, yd, zd)
      (sum_difference x.num y.num z.num (suc j) (suc k) (suc l) (rw (xd, yd, zd) at v))

module _ (grid : ℤ → ℤ → ℤ) where
  -- Subtracting what was added gives the number back, if the sum has a canonical representation.
  pub sub-add :
      (x y z : BeatTime)
      → IsCanonical x
      → IsCanonical y
      → IsCanonical z
      → IsSum x y z
      → sub grid (add grid x y) y ≡ x
  sub-add x y z hx hy hz v =
      rw (add-value grid x y z hx hy hz v)
        (sub-value grid z y x hz hy hx (IsSum-IsDifference x y z hx hy hz v))
