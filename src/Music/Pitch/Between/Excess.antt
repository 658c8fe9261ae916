-- ===== src/Music/Pitch/Between/Excess.antt =====
-- What the quality of a measured interval has to make up for in crates/music-domain/src/interval.rs.
-- What the quality has to make up for.
use reapermcp.Prelude.Euclid.{split_7, split_7_unique}
use reapermcp.Music.Pitch.Between.{measured}
use reapermcp.Prelude.{Bool, ◌≡◌, ◌&&◌, true, arith, refl, ap, ◌∙◌, sym}
use reapermcp.Music.Pitch.{diatonic_step, midi, SpelledPitch}
use reapermcp.Music.Letter.Every.{every, every_pair}
use reapermcp.Music.Letter.{Letter, diatonic_index, natural_pc}
use reapermcp.Music.Interval.{diatonic_steps, semitones, base_semitones, adjust-quality_from_diff}
use reapermcp.Prelude.Int.{
  ℤ, negsuc, div_euclid, ◌-ℤ◌, pos, leb_ℤ, ◌≤ℤ◌, ◌*ℤ◌, rem_euclid, ◌+ℤ◌, *ℤ_comm, int_laws,
  *ℤ_parts, pos_part, neg_part,
}

abbrev pub excess : ℤ → ℤ → ℤ
excess steps semis =
    semis
    -ℤ pos 12 *ℤ div_euclid steps (pos 7)
    -ℤ base_semitones (rem_euclid steps (pos 7) +ℤ pos 1)

pub diatonic_steps-measured : (steps semis : ℤ) → diatonic_steps (measured steps semis) ≡ steps
unfolding diatonic_steps measured
diatonic_steps-measured steps semis =
    shape steps (div_euclid steps (pos 7)) (rem_euclid steps (pos 7)) (split_7 steps).0
  where
    shape : (s q r : ℤ) → s ≡ q *ℤ pos 7 +ℤ r → r +ℤ pos 1 -ℤ pos 1 +ℤ pos 7 *ℤ q ≡ s
    shape s q r h = rw (h, *ℤ_comm (pos 7) q) (omega int_laws)

pub semitones-measured :
    (steps semis : ℤ)
    → negsuc 254 ≤ℤ excess steps semis
    → excess steps semis ≤ℤ pos 255
    → semitones (measured steps semis) ≡ semis
unfolding semitones measured
semitones-measured steps semis lo hi = rw (adjust-quality_from_diff _ _ lo hi) (
    shape semis (pos 12 *ℤ div_euclid steps (pos 7))
      (base_semitones (rem_euclid steps (pos 7) +ℤ pos 1)))
  where
    shape : (s o x : ℤ) → x +ℤ (s -ℤ o -ℤ x) +ℤ o ≡ s
    shape s o x = omega int_laws

-- The excess between two letters, the second above the first within an octave.
pub letter_gap : Letter → Letter → ℤ
letter_gap l m =
    let raw = diatonic_index m -ℤ diatonic_index l in
    natural_pc m
    -ℤ natural_pc l
    -ℤ pos 12 *ℤ div_euclid raw (pos 7)
    -ℤ base_semitones (rem_euclid raw (pos 7) +ℤ pos 1)

unfoldable within : Letter → Letter → Bool
within l m = leb_ℤ (negsuc 0) (letter_gap l m) && leb_ℤ (letter_gap l m) (pos 1)

all-within : every (λ l. every (within l)) ≡ true
unfolding every within letter_gap natural_pc diatonic_index base_semitones div_euclid rem_euclid
    ◌*ℤ◌
all-within = refl

pub letter_gap_bounds : (l m : Letter) → (negsuc 0 ≤ℤ letter_gap l m) × (letter_gap l m ≤ℤ pos 1)
unfolding within
letter_gap_bounds l m = bounds (letter_gap l m) (every_pair within all-within l m)
  where
    bounds :
        (z : ℤ) → (leb_ℤ (negsuc 0) z && leb_ℤ z (pos 1)) ≡ true → (negsuc 0 ≤ℤ z) × (z ≤ℤ pos 1)
    bounds (pos n) h = ground (arith, h)
    bounds (negsuc n) h = ground (arith, h)

-- Whole octaves do not change the remainder.
split_shift :
    (k d : ℤ)
    → (div_euclid (k *ℤ pos 7 +ℤ d) (pos 7) ≡ k +ℤ div_euclid d (pos 7))
      × (rem_euclid (k *ℤ pos 7 +ℤ d) (pos 7) ≡ rem_euclid d (pos 7))
split_shift k d =
    let (whole, nonneg, lt) = split_7 d in
    let (dv, rm) =
      split_7_unique (k +ℤ div_euclid d (pos 7)) (k *ℤ pos 7 +ℤ d) (pos_part (rem_euclid d (pos 7)))
        (shape k d (div_euclid d (pos 7)) _ (rw (← nonneg) whole)) lt in
    (dv, rm ∙ sym nonneg)
  where
    shape : (k d q r : ℤ) → d ≡ q *ℤ pos 7 +ℤ r → k *ℤ pos 7 +ℤ d ≡ (k +ℤ q) *ℤ pos 7 +ℤ r
    shape k d q r h = omega (int_laws, *ℤ_parts, ap pos_part h, ap neg_part h)

pub excess-pitches :
    (p q : SpelledPitch)
    → excess (diatonic_step q -ℤ diatonic_step p) (midi q -ℤ midi p)
      ≡ letter_gap p.letter q.letter +ℤ (q.accidental -ℤ p.accidental)
unfolding diatonic_step midi letter_gap
excess-pitches p q =
    let d = diatonic_index q.letter -ℤ diatonic_index p.letter in
    let (dv, rm) = split_shift (q.octave -ℤ p.octave) d in
    rw (steps q.octave p.octave (diatonic_index q.letter) (diatonic_index p.letter)) (
      rw
        (
          dv,
          rm,
          *ℤ_comm (pos 12) (q.octave -ℤ p.octave +ℤ div_euclid d (pos 7)),
          *ℤ_comm (pos 12) (div_euclid d (pos 7)),
        )
        (shape q.octave p.octave (natural_pc q.letter) (natural_pc p.letter) q.accidental
          p.accidental (div_euclid d (pos 7)) (base_semitones (rem_euclid d (pos 7) +ℤ pos 1))))
  where
    steps : (x y i j : ℤ) → x *ℤ pos 7 +ℤ i -ℤ (y *ℤ pos 7 +ℤ j) ≡ (x -ℤ y) *ℤ pos 7 +ℤ (i -ℤ j)
    steps x y i j = omega (int_laws, *ℤ_parts)

    shape :
        (x y m n u v k s : ℤ)
        → (x +ℤ pos 1) *ℤ pos 12
            +ℤ m
            +ℤ u
            -ℤ ((y +ℤ pos 1) *ℤ pos 12 +ℤ n +ℤ v)
            -ℤ (x -ℤ y +ℤ k) *ℤ pos 12
            -ℤ s
          ≡ m -ℤ n -ℤ k *ℤ pos 12 -ℤ s +ℤ (u -ℤ v)
    shape x y m n u v k s = omega (int_laws, *ℤ_parts)
