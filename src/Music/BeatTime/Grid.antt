-- ===== src/Music/BeatTime/Grid.antt =====
-- `from_i128` and `from_f64` of crates/music-domain/src/time.rs call each other. The second call of
-- `from_i128` is on the grid, where it does not fall back again.
use reapermcp.Music.BeatTime.Canonical.{bound_fits, between_bounds}
use reapermcp.Music.BeatTime.Reduce.{reduce-IsReduction}
use reapermcp.Prelude.{
  ℕ, ◌<◌, suc, ◌≤◌, ◌≡◌, Bool-cases, arith, false, inl, ap, inr, refl, ◌&&◌, true,
}
use reapermcp.Music.BeatTime.{
  settle, normalise, BeatTime, grid_den, to_i128, max_quarters, abs, reduce, limit,
}
use reapermcp.Prelude.Int.{
  neg, ℤ, pos, ◌*ℤ◌, ltb_ℤ, *ℤ_parts, eqb_ℤ, leb_ℤ, pos_part, ltb_ℤ-le, le-leb_ℤ,
}
use native.Mathlib.Nat.{mul-le-mul_left, mul-one}

-- A numerator that the bounds let through fits in i64, over a denominator of the grid.
passed_fits :
    (num : ℤ) (k : ℕ)
    → suc k ≤ 1920
    → ltb_ℤ (to_i128 (max_quarters *ℤ pos (suc k))) num ≡ false
    → ltb_ℤ num (to_i128 (neg max_quarters *ℤ pos (suc k))) ≡ false
    → (leb_ℤ (pos (abs num)) limit && leb_ℤ (pos (suc k)) limit) ≡ true
unfolding neg
passed_fits num k h a b =
    let (hi, lo) = bound_fits k (omega (arith, h)) in
    let up = ltb_ℤ-le (max_quarters *ℤ pos (suc k)) num (rw hi at a) in
    let low = ltb_ℤ-le num (neg max_quarters *ℤ pos (suc k)) (rw lo at b) in
    rw
      (
        le-leb_ℤ (pos (abs num)) limit
            (omega (arith, h, between_bounds num k up low, *ℤ_parts max_quarters (suc k))),
        le-leb_ℤ (pos (suc k)) limit (omega (arith, h)),
      )
      refl

settle-same :
    (snap snap' : ℤ → ℤ → BeatTime) (num : ℤ) (k : ℕ)
    → suc k ≤ 1920
    → settle snap (num, pos (suc k)) ≡ settle snap' (num, pos (suc k))
unfolding settle
settle-same snap snap' num k h =
    elim (Bool-cases (ltb_ℤ (to_i128 (max_quarters *ℤ pos (suc k))) num)) [
      | inl a ↦ rw a refl
      | inr a ↦ elim (Bool-cases (ltb_ℤ num (to_i128 (neg max_quarters *ℤ pos (suc k))))) [
        | inl b ↦ rw (a, b) refl
        | inr b ↦ rw (a, b, passed_fits num k h a b) refl
      ]
    ]

grid_factor : (m g : ℕ) → 0 < g → pos (suc m) *ℤ pos g ≡ grid_den → suc m ≤ 1920
grid_factor m g h e = omega (
  arith,
  mul-le-mul_left {m = 1} {n = g} (suc m) h,
  mul-one (suc m),
  *ℤ_parts (pos (suc m)) g,
  ap pos_part e,
)

-- On the grid `from_i128` never uses what it would fall back to: whatever that is, the result is the
-- same.
pub normalise-grid :
    (snap snap' : ℤ → ℤ → BeatTime) (scaled : ℤ)
    → normalise snap scaled grid_den ≡ normalise snap' scaled grid_den
unfolding normalise
normalise-grid snap snap' scaled =
    let r = reduce-IsReduction scaled grid_den 1919 refl in
    let (m, rd) = r.den_pos in
    let (g, g_pos, _, fd) = r.factor in
    let small = grid_factor m g g_pos (rw rd at fd) in
    elim (Bool-cases (eqb_ℤ scaled (pos 0))) [
      | inl z ↦ rw z refl
      | inr z ↦ rw (z, rd_pair (reduce scaled grid_den) m rd) (settle-same snap snap' _ m small)
    ]
  where
    rd_pair : (r : ℤ × ℤ) (m : ℕ) → r.1 ≡ pos (suc m) → ◌≡◌ {A = ℤ × ℤ} r (r.0, pos (suc m))
    rd_pair r m e = λ i. (r.0, e i)
