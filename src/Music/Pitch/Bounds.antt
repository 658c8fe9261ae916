-- ===== src/Music/Pitch/Bounds.antt =====
-- The i32 of the pitches of crates/music-domain/src/pitch.rs and interval.rs, at octaves that are near.
use reapermcp.Music.Pitch.{SpelledPitch, IsNear, IsI8, midi, diatonic_step}
use reapermcp.Music.Letter.{Letter, natural_pc, diatonic_index_range, c, d, e, f, g, a, b}
use reapermcp.Prelude.Machine.{to_i32, to_i32-id}
use reapermcp.Prelude.Int.{ℤ, pos, negsuc, ◌≤ℤ◌, ◌-ℤ◌, int_laws, *ℤ_parts}
use reapermcp.Prelude.{ℕ, ◌≡◌, ◌<◌, arith, refl}

natural_pc_range : (l : Letter) → (n : ℕ) × (natural_pc l ≡ pos n) × (n < 12)
unfolding natural_pc
natural_pc_range c = (0, refl, omega arith)
natural_pc_range d = (2, refl, omega arith)
natural_pc_range e = (4, refl, omega arith)
natural_pc_range f = (5, refl, omega arith)
natural_pc_range g = (7, refl, omega arith)
natural_pc_range a = (9, refl, omega arith)
natural_pc_range b = (11, refl, omega arith)

-- A pitch at a near octave sounds within 2 ^ 27 of zero.
midi_bounds :
    (p : SpelledPitch)
    → IsNear p.octave
    → IsI8 p.accidental
    → (negsuc 134217727 ≤ℤ midi p) × (midi p ≤ℤ pos 134217727)
unfolding midi
midi_bounds p h k =
    let (n, at, lt) = natural_pc_range p.letter in
    rw at (omega (int_laws, *ℤ_parts, h, k, lt), omega (int_laws, *ℤ_parts, h, k, lt))

diatonic_step_bounds :
    (p : SpelledPitch)
    → IsNear p.octave
    → (negsuc 134217727 ≤ℤ diatonic_step p) × (diatonic_step p ≤ℤ pos 134217727)
unfolding diatonic_step
diatonic_step_bounds p h =
    let (n, at, lt) = diatonic_index_range p.letter in
    rw at (omega (int_laws, *ℤ_parts, h, lt), omega (int_laws, *ℤ_parts, h, lt))

small_difference :
    (x y : ℤ)
    → (negsuc 134217727 ≤ℤ x) × (x ≤ℤ pos 134217727)
    → (negsuc 134217727 ≤ℤ y) × (y ≤ℤ pos 134217727)
    → to_i32 (y -ℤ x) ≡ y -ℤ x
small_difference x y h k = to_i32-id (y -ℤ x) (omega (int_laws, h, k), omega (int_laws, h, k))

-- The MIDI pitch, the line of the staff and their differences are the i32 of the source.
differences-to_i32 :
    (p q : SpelledPitch)
    → IsNear p.octave
    → IsNear q.octave
    → IsI8 p.accidental
    → IsI8 q.accidental
    → (to_i32 (midi q) ≡ midi q)
      × (to_i32 (midi q -ℤ midi p) ≡ midi q -ℤ midi p)
      × (to_i32 (diatonic_step q) ≡ diatonic_step q)
      × (to_i32 (diatonic_step q -ℤ diatonic_step p) ≡ diatonic_step q -ℤ diatonic_step p)
differences-to_i32 p q hp hq kp kq =
    let (lo, hi) = midi_bounds q hq kq in
    let (lo', hi') = diatonic_step_bounds q hq in
    (
      to_i32-id (midi q) (omega (arith, lo), omega (arith, hi)),
      small_difference (midi p) (midi q) (midi_bounds p hp kp) (lo, hi),
      to_i32-id (diatonic_step q) (omega (arith, lo'), omega (arith, hi')),
      small_difference (diatonic_step p) (diatonic_step q) (diatonic_step_bounds p hp) (lo', hi'),
    )
