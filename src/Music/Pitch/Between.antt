-- ===== src/Music/Pitch/Between.antt =====
-- `Interval::between` and `SignedInterval::apply` of crates/music-domain/src/interval.rs.
pub mod Excess
pub mod Apply
use reapermcp.Music.Pitch.Transpose.{transpose_down-arrives, transpose-arrives}
use reapermcp.Music.Letter.Every.{every, every_pair}
use reapermcp.Music.Letter.{Letter, diatonic_index, natural_pc}
use reapermcp.Prelude.Euclid.{split_7, split_7_unique}
use reapermcp.Prelude.{
  not, Bool, if◌then◌else◌, ◌||◌, ◌&&◌, true, false, ◌≡◌, ap, arith, refl, ◌∙◌, sym, Bool-cases,
  inl, inr,
}
use reapermcp.Music.Pitch.{SpelledPitch, diatonic_step, midi, transpose_down, transpose, IsI8}
use reapermcp.Prelude.Int.{
  ℤ, div_euclid, ◌-ℤ◌, pos, neg, rem_euclid, ltb_ℤ, ◌*ℤ◌, ◌+ℤ◌, eqb_ℤ, negsuc, *ℤ_comm, ◌≤ℤ◌,
  int_laws, *ℤ_parts, leb_ℤ, pos_part, neg_part, neg_parts,
}
use reapermcp.Music.Interval.{
  Interval, diatonic_steps, semitones, base_semitones, quality_from_diff, adjust-quality_from_diff,
}

pub record SignedInterval : Type 0 where
  pub interval : Interval
  pub descending : Bool

-- The end of `between`, on distances of which the sign is off.
pub measured : ℤ → ℤ → Interval
measured steps semis =
    let octaves = div_euclid steps (pos 7) in
    let number = rem_euclid steps (pos 7) +ℤ pos 1 in
    let diff = semis -ℤ pos 12 *ℤ octaves -ℤ base_semitones number in
    record { number = number; quality = quality_from_diff number diff; octaves = octaves }

-- Whether the second pitch is below the first.
abbrev pub descends : SpelledPitch → SpelledPitch → Bool
descends a b =
    let steps = diatonic_step b -ℤ diatonic_step a in
    ltb_ℤ steps (pos 0) || eqb_ℤ steps (pos 0) && ltb_ℤ (midi b -ℤ midi a) (pos 0)

pub between : SpelledPitch → SpelledPitch → SignedInterval
between a b =
    let steps = diatonic_step b -ℤ diatonic_step a in
    let semis = midi b -ℤ midi a in
    if descends a b
    then record { interval = measured (neg steps) (neg semis); descending = true }
    else record { interval = measured steps semis; descending = false }

pub apply : SignedInterval → SpelledPitch → SpelledPitch
apply s p = if s.descending then transpose_down p s.interval else transpose p s.interval

pub signed_semitones : SignedInterval → ℤ
signed_semitones s = if s.descending then neg (semitones s.interval) else semitones s.interval

pub signed_diatonic_steps : SignedInterval → ℤ
signed_diatonic_steps s =
    if s.descending then neg (diatonic_steps s.interval) else diatonic_steps s.interval

pub reversed : SignedInterval → SignedInterval
reversed s = record { interval = s.interval; descending = not s.descending }
