-- ===== src/Music/BeatTime/Floor.antt =====
-- `floor_div_i128` of crates/music-domain/src/time.rs rounds down.
use reapermcp.Music.BeatTime.Inverse.{+ℤ-*ℤ-pos}
use reapermcp.Music.BeatTime.Compare.{◌<ℤ◌, <ℤ-*ℤ_iff}
use reapermcp.Prelude.{
  ℕ, ◌<◌, ◌≡◌, ◌/◌, if◌then◌else◌, arith, suc, ◌%◌, ◌==◌, false, ◌*◌, Bool-cases, inl, ==_iff, inr,
  refl,
}
use reapermcp.Prelude.Int.{
  ℤ, ◌/ℤ◌, ◌*ℤ◌, ◌%ℤ◌, ◌≤ℤ◌, ◌-ℤ◌, pos, negsuc, ◌+ℤ◌, neg, int_laws, *ℤ_parts, pos_part, neg_part,
  neg_parts,
}
use reapermcp.Music.BeatTime.{floor_div_i128}
use native.Mathlib.Nat.{div-add-mod', mod-lt, zero-mul, suc-mul}

floor_pos : (n B : ℕ) → 0 < B → floor_div_i128 (pos n) (pos B) ≡ pos (n / B)
unfolding floor_div_i128 ◌/ℤ◌ ◌%ℤ◌ ◌-ℤ◌
floor_pos n B h = ground arith

floor_neg :
    (n B : ℕ)
    → 0 < B
    → floor_div_i128 (negsuc n) (pos B)
      ≡ (if suc n % B == 0 then neg (pos (suc n / B)) else negsuc (suc n / B))
unfolding floor_div_i128 ◌/ℤ◌ ◌%ℤ◌ ◌-ℤ◌ neg
floor_neg n B h = ground arith

-- `q` is the integer part of `a / b`, for a positive `b`.
abbrev pub IsFloor : ℤ → ℤ → ℤ → Type 0
IsFloor q a b = (q *ℤ b ≤ℤ a) × (a <ℤ (q +ℤ pos 1) *ℤ b)

floor_div_i128-IsFloor : (a : ℤ) (B : ℕ) → 0 < B → IsFloor (floor_div_i128 a (pos B)) a (pos B)
floor_div_i128-IsFloor (pos n) B h =
    rw (floor_pos n B h, +ℤ-*ℤ-pos (pos (n / B)) (pos 1) B)
      (omega (int_laws, *ℤ_parts (pos (n / B)) B, *ℤ_parts (pos 1) B, div-add-mod' n B, mod-lt n h))
floor_div_i128-IsFloor (negsuc n) B h = elim (Bool-cases (suc n % B == 0)) [
  | inl z ↦
      let even = (==_iff (suc n % B) 0).0 z in
      rw (floor_neg n B h, z, +ℤ-*ℤ-pos (neg (pos (suc n / B))) (pos 1) B)
        (omega (
          int_laws,
          *ℤ_parts (neg (pos (suc n / B))) B,
          *ℤ_parts (pos 1) B,
          div-add-mod' (suc n) B,
          mod-lt (suc n) h,
          even,
          down (suc n / B) B,
        ))
  | inr z ↦
      let odd = pos_of (suc n % B) z in
      rw (floor_neg n B h, z, +ℤ-*ℤ-pos (negsuc (suc n / B)) (pos 1) B)
        (omega (
          int_laws,
          *ℤ_parts (negsuc (suc n / B)) B,
          *ℤ_parts (pos 1) B,
          div-add-mod' (suc n) B,
          mod-lt (suc n) h,
          odd,
          suc-mul (suc n / B) B,
        ))
]
  where
    pos_of : (r : ℕ) → (r == 0) ≡ false → 0 < r
    pos_of r h = ground (arith, h)

    down : (d B : ℕ) → (pos_part (neg (pos d)) * B ≡ 0) × (neg_part (neg (pos d)) * B ≡ d * B)
    down d B = rw ((neg_parts (pos d)).0, (neg_parts (pos d)).1) (zero-mul B, refl)

-- There is one integer part.
IsFloor-unique : (q r a : ℤ) (k : ℕ) → IsFloor q a (pos (suc k)) → IsFloor r a (pos (suc k)) → q ≡ r
IsFloor-unique q r a k (ql, qh) (rl, rh) =
    let below = (<ℤ-*ℤ_iff q (r +ℤ pos 1) k).1 (omega (arith, ql, rh)) in
    let above = (<ℤ-*ℤ_iff r (q +ℤ pos 1) k).1 (omega (arith, rl, qh)) in
    omega (int_laws, below, above)

-- `floor_div_i128` finds it.
pub floor_div_i128-value :
    (q a b : ℤ) (k : ℕ) → b ≡ pos (suc k) → IsFloor q a b → floor_div_i128 a b ≡ q
floor_div_i128-value q a b k e h =
    rw e (IsFloor-unique _ q a k (floor_div_i128-IsFloor a (suc k) (omega arith)) (rw e at h))
