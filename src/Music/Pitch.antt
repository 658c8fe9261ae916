-- ===== src/Music/Pitch.antt =====
-- `SpelledPitch` of crates/music-domain/src/pitch.rs. An i32 is an integer here, which is exact for
-- octaves that are near; the i8 of an accidental is an integer too, with the cast to i8 written out.
pub mod Bounds
pub mod Transpose
pub mod Between
pub mod Spelling
pub mod Tests
use reapermcp.Music.Interval.{Interval, diatonic_steps, semitones}
use reapermcp.Music.Letter.{
  Letter, diatonic_index_range, step, diatonic_index_inj, natural_pc, diatonic_index,
}
use reapermcp.Prelude.Int.{
  ℤ, rem_euclid, ◌+ℤ◌, negsuc, pos, ◌*ℤ◌, leb_ℤ, ◌%ℤ◌, ◌-ℤ◌, ◌≤ℤ◌, neg, int_laws, *ℤ_parts,
  pos_part, neg_part,
}
use reapermcp.Prelude.{ℕ, ◌≡◌, Bool, arith, ◌&&◌, ◌<◌, ◌∙◌, ap, sym, ap₂}

-- `z as i8`
pub to_i8 : ℤ → ℤ
to_i8 z = rem_euclid (z +ℤ pos 128) (pos 256) -ℤ pos 128

-- The range of i8.
abbrev pub IsI8 : ℤ → Type 0
IsI8 z = (negsuc 127 ≤ℤ z) × (z ≤ℤ pos 127)

-- Octaves between which no i32 of the operations on pitches and intervals leaves its range: the
-- largest are differences of two MIDI pitches (Music/Pitch/Bounds.antt).
abbrev pub IsNear : ℤ → Type 0
IsNear octave = (negsuc 9999999 ≤ℤ octave) × (octave ≤ℤ pos 10000000)

pub record SpelledPitch : Type 0 where
  pub letter : Letter
  pub accidental : ℤ
  pub octave : ℤ

pub midi : SpelledPitch → ℤ
midi p = (p.octave +ℤ pos 1) *ℤ pos 12 +ℤ natural_pc p.letter +ℤ p.accidental

pub pitch_class : SpelledPitch → ℤ
pitch_class p = rem_euclid (midi p) (pos 12)

pub diatonic_step : SpelledPitch → ℤ
diatonic_step p = p.octave *ℤ pos 7 +ℤ diatonic_index p.letter

-- The last lines of `transpose` and `transpose_down`: the accidental is what is missing.
pub reach : Letter → ℤ → ℤ → SpelledPitch
reach letter octave target =
    let natural = (octave +ℤ pos 1) *ℤ pos 12 +ℤ natural_pc letter in
    record { letter = letter; accidental = to_i8 (target -ℤ natural); octave = octave }

pub transpose : SpelledPitch → Interval → SpelledPitch
transpose p iv =
    let (letter, octave_delta) = step p.letter (diatonic_steps iv) in
    reach letter (p.octave +ℤ octave_delta) (midi p +ℤ semitones iv)

pub transpose_down : SpelledPitch → Interval → SpelledPitch
transpose_down p iv =
    let (letter, octave_delta) = step p.letter (neg (diatonic_steps iv)) in
    reach letter (p.octave +ℤ octave_delta) (midi p -ℤ semitones iv)

-- `(0..=127).contains(&self.midi())`
pub is_valid_midi : SpelledPitch → Bool
is_valid_midi p = leb_ℤ (pos 0) (midi p) && leb_ℤ (midi p) (pos 127)

pub to_i8-IsI8 : (z : ℤ) → IsI8 z → to_i8 z ≡ z
unfolding to_i8 rem_euclid ◌%ℤ◌ ◌+ℤ◌ ◌-ℤ◌
to_i8-IsI8 (pos n) h = ground arith
to_i8-IsI8 (negsuc n) h = ground arith

-- A pitch that is reached has the letter and octave it was given, and sounds as it was meant to if
-- the accidental fits.
pub reach_lem :
    (l : Letter) (o target : ℤ)
    → IsI8 (target -ℤ ((o +ℤ pos 1) *ℤ pos 12 +ℤ natural_pc l))
    → midi (reach l o target) ≡ target
unfolding midi reach
reach_lem l o target h = rw (to_i8-IsI8 _ h) (omega int_laws)

same_line :
    (o o' : ℤ) (i i' : ℕ)
    → o *ℤ pos 7 +ℤ pos i ≡ o' *ℤ pos 7 +ℤ pos i'
    → i < 7
    → i' < 7
    → (o ≡ o') × (i ≡ i')
same_line o o' i i' h lt lt' = omega (int_laws, *ℤ_parts, ap pos_part h, ap neg_part h)

pub pitch_eq :
    (p q : SpelledPitch)
    → p.letter ≡ q.letter
    → p.octave ≡ q.octave
    → p.accidental ≡ q.accidental
    → p ≡ q
pitch_eq p q l o a = ground arith

cancel : (x y a b : ℤ) → x ≡ y → x +ℤ a ≡ y +ℤ b → a ≡ b
cancel x y a b h k = omega (int_laws, ap pos_part h, ap neg_part h, ap pos_part k, ap neg_part k)

-- Two pitches on the same line of the staff have the same letter and octave.
pub same_place :
    (p q : SpelledPitch)
    → diatonic_step p ≡ diatonic_step q
    → (p.letter ≡ q.letter) × (p.octave ≡ q.octave)
unfolding diatonic_step
same_place p q d =
    let (i, pi, pl) = diatonic_index_range p.letter in
    let (j, qj, ql) = diatonic_index_range q.letter in
    let (o, e) = same_line p.octave q.octave i j (rw (← pi) (rw (← qj) d)) pl ql in
    (diatonic_index_inj p.letter q.letter (pi ∙ ap pos e ∙ sym qj), o)

-- Two pitches on the same line of the staff that sound the same are the same.
pub pitch_ext : (p q : SpelledPitch) → diatonic_step p ≡ diatonic_step q → midi p ≡ midi q → p ≡ q
unfolding midi
pitch_ext p q d m =
    let (l, o) = same_place p q d in
    pitch_eq p q l o (
      cancel ((p.octave +ℤ pos 1) *ℤ pos 12 +ℤ natural_pc p.letter)
        ((q.octave +ℤ pos 1) *ℤ pos 12 +ℤ natural_pc q.letter) p.accidental q.accidental
        (ap₂ (λ x k. (x +ℤ pos 1) *ℤ pos 12 +ℤ natural_pc k) o l) m)
