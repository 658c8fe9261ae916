-- ===== src/Music/Pitch/Tests.antt =====
-- Runs of the pitches and intervals of crates/music-domain on concrete values.
use reapermcp.Music.Pitch.Spelling.Respell.{IsCommon, enharmonic_respell_iff}
use reapermcp.Music.Pitch.Between.Apply.{apply-between}
use reapermcp.Music.Pitch.Transpose.{transpose_down-transpose, up_alteration}
use reapermcp.Music.Interval.Derived.{compound_number}
use reapermcp.Prelude.{◌≡◌, some, false, ◌↔◌, arith, ◌∷◌, List, refl}
use reapermcp.Prelude.Int.{pos, negsuc, ◌+ℤ◌, rem_euclid, ◌-ℤ◌, ◌/ℤ◌, div_euclid, ◌%ℤ◌, ◌*ℤ◌}
use reapermcp.Music.Letter.{Letter, step, natural_pc, from_diatonic_index, diatonic_index}
use reapermcp.Music.Interval.Inverted.{IsInterval, new_interval-IsInterval}
use reapermcp.Music.Pitch.Spelling.Sounds.{
  IsConsistent, spelling_pc, midi-from_midi, ContextIsConsistent,
}
use reapermcp.Music.Pitch.Spelling.{SpellingContext, enharmonic_respell, from_midi}
use reapermcp.Music.Pitch.Between.{apply, between}
use reapermcp.Music.Interval.{
  Interval, fits, semitones, new_interval, diatonic_steps, is_perfect_number, augmented,
  fits_perfect_number, minor, fits_imperfect_number, adjust, base_semitones, is_zero_degree,
}
use reapermcp.Music.Pitch.{SpelledPitch, midi, transpose, transpose_down, reach, to_i8, IsI8}

abbrev c4 : SpelledPitch
c4 = record { letter = Letter.c; accidental = pos 0; octave = pos 4 }

abbrev f_sharp_4 : SpelledPitch
f_sharp_4 = record { letter = Letter.f; accidental = pos 1; octave = pos 4 }

abbrev b_flat_3 : SpelledPitch
b_flat_3 = record { letter = Letter.b; accidental = negsuc 0; octave = pos 3 }

abbrev g_flat_4 : SpelledPitch
g_flat_4 = record { letter = Letter.g; accidental = negsuc 0; octave = pos 4 }

abbrev augmented_fourth : Interval
augmented_fourth = record { number = pos 4; quality = augmented 1; octaves = pos 0 }

fourth-fits : IsI8 (up_alteration c4 augmented_fourth)
unfolding midi semitones diatonic_steps step natural_pc from_diatonic_index diatonic_index
    div_euclid rem_euclid adjust base_semitones ◌+ℤ◌ ◌-ℤ◌ ◌*ℤ◌
fourth-fits = (omega arith, omega arith)

fourth-IsInterval : IsInterval augmented_fourth
unfolding fits is_perfect_number fits_perfect_number
fourth-IsInterval = record { number_range = (3, refl, omega arith); quality_fits = refl }

transpose_run : transpose c4 augmented_fourth ≡ f_sharp_4
unfolding transpose reach to_i8 midi semitones diatonic_steps step natural_pc from_diatonic_index
    diatonic_index div_euclid rem_euclid adjust base_semitones ◌+ℤ◌ ◌-ℤ◌ ◌*ℤ◌
transpose_run = refl

transpose_down-transpose_example :
    transpose_down (transpose c4 augmented_fourth) augmented_fourth ≡ c4
transpose_down-transpose_example =
    transpose_down-transpose c4 augmented_fourth fourth-IsInterval (omega arith, omega arith)
      (omega arith, omega arith) (omega arith, omega arith) fourth-fits

apply-between_example : apply (between f_sharp_4 b_flat_3) f_sharp_4 ≡ b_flat_3
apply-between_example =
    apply-between f_sharp_4 b_flat_3 (omega arith, omega arith) (omega arith, omega arith)
      (omega arith, omega arith) (omega arith, omega arith)

-- F# major, without the spelling of its last degree.
abbrev sharps : SpellingContext
sharps = record {
  tonic_pc = some (pos 6);
  prefer_flats = false;
  scale_pcs = pos 6 ∷ pos 8 ∷ pos 5 ∷ List.[];
  scale_spelling = (Letter.f, pos 1) ∷ (Letter.g, pos 1) ∷ (Letter.e, pos 1) ∷ List.[];
}

sharps-IsConsistent : ContextIsConsistent (some sharps)
unfolding IsConsistent spelling_pc natural_pc rem_euclid
sharps-IsConsistent = (refl, (refl, (refl, record {})))

midi-from_midi_example : midi (from_midi (pos 65) (some sharps)) ≡ pos 65
midi-from_midi_example =
    midi-from_midi (pos 65) (some sharps) (omega arith) (omega arith) sharps-IsConsistent

enharmonic_respell_iff_example :
    (enharmonic_respell f_sharp_4 Letter.g ≡ some g_flat_4)
    ↔ ((Letter.g ≡ Letter.g) × (midi g_flat_4 ≡ midi f_sharp_4) × IsCommon (negsuc 0))
enharmonic_respell_iff_example =
    enharmonic_respell_iff f_sharp_4 Letter.g g_flat_4 (omega arith, omega arith)
      (omega arith, omega arith)

abbrev tenth : Interval
tenth = record { number = pos 3; quality = minor; octaves = pos 1 }

tenth_run : new_interval (pos 10) minor ≡ some tenth
unfolding new_interval is_zero_degree fits is_perfect_number fits_imperfect_number ◌+ℤ◌ ◌-ℤ◌ ◌/ℤ◌
    ◌%ℤ◌
tenth_run = refl

new_interval-IsInterval_example : IsInterval tenth × (compound_number tenth ≡ pos 10)
new_interval-IsInterval_example = new_interval-IsInterval (pos 10) minor tenth tenth_run
