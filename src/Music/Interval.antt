-- ===== src/Music/Interval.antt =====
-- `Interval` of crates/music-domain/src/interval.rs. An i32 is an integer here, and a u8 a number.
pub mod Derived
pub mod Inverted
pub mod Defaults
use reapermcp.Prelude.Int.{
  ℤ, neg, pos, eqb_ℤ, ◌+ℤ◌, ◌-ℤ◌, pos_part, ◌%ℤ◌, negsuc, ◌*ℤ◌, ltb_ℤ, ◌≤ℤ◌, ◌/ℤ◌,
}
use reapermcp.Prelude.{
  ℕ, ◌≡◌, List, Bool, get_or, false, ◌==◌, Option, min, if◌then◌else◌, ◌∷◌, ◌||◌, true, [], none,
  not, Bool-cases, some, inl, arith, inr,
}

pub data IntervalQuality : Type 0 where
  minor perfect major : IntervalQuality
  diminished augmented : ℕ → IntervalQuality

pub record Interval : Type 0 where
  pub number : ℤ
  pub quality : IntervalQuality
  pub octaves : ℤ

abbrev base_table : List ℤ
base_table = pos 0 ∷ pos 0 ∷ pos 2 ∷ pos 4 ∷ pos 5 ∷ pos 7 ∷ pos 9 ∷ pos 11 ∷ []

-- `BASE_SEMITONES[number as usize]`; the index is out of bounds below 0 and above 7.
unfoldable pub base_semitones : ℤ → ℤ
base_semitones number = get_or base_table (pos_part number) (pos 0)

unfoldable pub is_perfect_number : ℤ → Bool
is_perfect_number n = eqb_ℤ n (pos 1) || eqb_ℤ n (pos 4) || eqb_ℤ n (pos 5)

unfoldable pub fits_perfect_number : IntervalQuality → Bool
fits_perfect_number minor = false
fits_perfect_number major = false
fits_perfect_number _ = true

unfoldable pub fits_imperfect_number : IntervalQuality → Bool
fits_imperfect_number perfect = false
fits_imperfect_number _ = true

-- `ok` in `Interval::new`: whether a quality can stand on a number of 1 to 7.
unfoldable pub fits : ℤ → IntervalQuality → Bool
fits number quality =
    if is_perfect_number number then fits_perfect_number quality else fits_imperfect_number quality

unfoldable pub is_zero_degree : IntervalQuality → Bool
is_zero_degree (diminished n) = n == 0
is_zero_degree (augmented n) = n == 0
is_zero_degree _ = false

-- `Interval::new`
unfoldable pub new_interval : ℤ → IntervalQuality → Option Interval
new_interval number quality =
    let less = number -ℤ pos 1 in
    let simple = less %ℤ pos 7 +ℤ pos 1 in
    if ltb_ℤ number (pos 1)
    then none
    else if is_zero_degree quality
    then none
    else if not (fits simple quality)
    then none
    else some (record { number = simple; quality = quality; octaves = less /ℤ pos 7 })

-- The size of a quality against the perfect or major one.
unfoldable pub adjust : ℤ → IntervalQuality → ℤ
adjust number perfect = pos 0
adjust number major = pos 0
adjust number minor = negsuc 0
adjust number (augmented n) = pos n
adjust number (diminished n) =
    if is_perfect_number number then neg (pos n) else neg (pos n) -ℤ pos 1

unfoldable pub semitones : Interval → ℤ
unfolding adjust
semitones iv = base_semitones iv.number +ℤ adjust iv.number iv.quality +ℤ pos 12 *ℤ iv.octaves

unfoldable pub diatonic_steps : Interval → ℤ
diatonic_steps iv = iv.number -ℤ pos 1 +ℤ pos 7 *ℤ iv.octaves

-- `n.min(u8::MAX as i32) as u8` for `n` that is not negative
abbrev clamp_u8 : ℤ → ℕ
clamp_u8 z = min (pos_part z) 255

pub quality_from_diff : ℤ → ℤ → IntervalQuality
quality_from_diff number diff =
    if is_perfect_number number
    then (if eqb_ℤ diff (pos 0)
        then perfect
        else if ltb_ℤ (pos 0) diff
        then augmented (clamp_u8 diff)
        else diminished (clamp_u8 (neg diff)))
    else if eqb_ℤ diff (pos 0)
    then major
    else if eqb_ℤ diff (negsuc 0)
    then minor
    else if ltb_ℤ (pos 0) diff
    then augmented (clamp_u8 diff)
    else diminished (clamp_u8 (neg diff -ℤ pos 1))

-- The quality that is found for a difference has that size, unless the u8 is too small for it.
pub adjust-quality_from_diff :
    (number diff : ℤ)
    → negsuc 254 ≤ℤ diff
    → diff ≤ℤ pos 255
    → adjust number (quality_from_diff number diff) ≡ diff
unfolding adjust quality_from_diff neg ◌-ℤ◌
adjust-quality_from_diff number diff lo hi = elim (Bool-cases (is_perfect_number number)) [
  | inl p ↦ rw (p, quality_from_diff) (ground (arith, p))
  | inr p ↦ rw (p, quality_from_diff) (ground (arith, p))
]
