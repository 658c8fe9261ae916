-- ===== src/Music/Pitch/Between/Apply.antt =====
-- `SignedInterval::apply` undoes `Interval::between` in crates/music-domain/src/interval.rs.
-- An accidental whose negation fits in i8 too.
use reapermcp.Music.Pitch.Transpose.{transpose_down-arrives, transpose-arrives}
use reapermcp.Music.Pitch.Between.Excess.{
  excess-pitches, letter_gap, letter_gap_bounds, diatonic_steps-measured, semitones-measured,
}
use reapermcp.Prelude.{arith, ◌≡◌, Bool-cases, inl, ap, ◌∙◌, inr}
use reapermcp.Music.Interval.{semitones}
use reapermcp.Music.Pitch.Between.{
  apply, signed_semitones, between, signed_diatonic_steps, measured, descends,
}
use reapermcp.Music.Pitch.{SpelledPitch, IsI8, diatonic_step, midi, IsNear}
use reapermcp.Prelude.Int.{ℤ, negsuc, neg, ◌≤ℤ◌, ◌-ℤ◌, pos, int_laws, neg_parts, ◌+ℤ◌}

abbrev pub IsBalanced : ℤ → Type 0
IsBalanced z = (negsuc 126 ≤ℤ z) × (z ≤ℤ pos 127)

IsI8-IsBalanced : (z : ℤ) → IsBalanced z → IsI8 z
IsI8-IsBalanced z h = omega (arith, h)

-- The measured interval of two pitches has their distance.
measured-pitches :
    (p q : SpelledPitch)
    → IsBalanced p.accidental
    → IsBalanced q.accidental
    → semitones (measured (diatonic_step q -ℤ diatonic_step p) (midi q -ℤ midi p))
      ≡ midi q -ℤ midi p
measured-pitches p q hp hq =
    let e = excess-pitches p q in
    let (lo, hi) =
      bounds (letter_gap p.letter q.letter) p.accidental q.accidental
        (letter_gap_bounds p.letter q.letter) hp hq in
    semitones-measured _ _ (rw e lo) (rw e hi)
  where
    bounds :
        (g u v : ℤ)
        → (negsuc 0 ≤ℤ g) × (g ≤ℤ pos 1)
        → IsBalanced u
        → IsBalanced v
        → (negsuc 254 ≤ℤ g +ℤ (v -ℤ u)) × (g +ℤ (v -ℤ u) ≤ℤ pos 255)
    bounds g u v hg hu hv = omega (int_laws, hg, hu, hv)

neg_difference : (x y : ℤ) → neg (x -ℤ y) ≡ y -ℤ x
neg_difference x y = omega (int_laws, neg_parts (x -ℤ y))

-- Applying the interval between two pitches to the first gives the second, spelling included, if
-- their accidentals are balanced and both octaves are near, between minus and plus ten million.
pub apply-between :
    (a b : SpelledPitch)
    → IsBalanced a.accidental
    → IsBalanced b.accidental
    → IsNear a.octave
    → IsNear b.octave
    → apply (between a b) a ≡ b
unfolding apply between
apply-between a b ha hb near_a near_b = elim (Bool-cases (descends a b)) [
  | inl h ↦
      rw (h, neg_difference (midi b) (midi a), neg_difference (diatonic_step b) (diatonic_step a))
        (transpose_down-arrives a b _ (diatonic_steps-measured _ _) (measured-pitches b a hb ha)
          (IsI8-IsBalanced _ hb))
  | inr h ↦ rw h (
      transpose-arrives a b _ (diatonic_steps-measured _ _) (measured-pitches a b ha hb)
        (IsI8-IsBalanced _ hb))
]

-- The signed distances of the interval between two pitches are theirs.
pub signed-between :
    (a b : SpelledPitch)
    → IsBalanced a.accidental
    → IsBalanced b.accidental
    → (signed_semitones (between a b) ≡ midi b -ℤ midi a)
      × (signed_diatonic_steps (between a b) ≡ diatonic_step b -ℤ diatonic_step a)
unfolding signed_semitones signed_diatonic_steps between
signed-between a b ha hb = elim (Bool-cases (descends a b)) [
  | inl h ↦
      rw (h, neg_difference (midi b) (midi a), neg_difference (diatonic_step b) (diatonic_step a))
        (
          ap neg (measured-pitches b a hb ha) ∙ neg_difference _ _,
          ap neg (diatonic_steps-measured _ _) ∙ neg_difference _ _,
        )
  | inr h ↦ rw h (measured-pitches a b ha hb, diatonic_steps-measured _ _)
]
