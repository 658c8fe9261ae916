-- ===== src/Music/Pitch/Transpose.antt =====
-- Transposition in crates/music-domain/src/pitch.rs moves by the interval's steps and semitones.
use reapermcp.Music.Interval.Inverted.{IsInterval}
use reapermcp.Music.Interval.{Interval, diatonic_steps, semitones}
use reapermcp.Prelude.Int.{
  ℤ, ◌-ℤ◌, ◌+ℤ◌, pos, int_laws, ◌*ℤ◌, neg, *ℤ_parts, pos_part, neg_parts, neg_part,
}
use reapermcp.Music.Pitch.{
  SpelledPitch, diatonic_step, transpose, transpose_down, midi, reach, IsI8, reach_lem, same_place,
  pitch_ext, IsNear,
}
use reapermcp.Music.Letter.{Letter, step, natural_pc, diatonic_index, diatonic_index-step}
use reapermcp.Prelude.{◌≡◌, ap, ◌∙◌, subst, sym}

-- The alteration that a transposition asks for on its target line.
abbrev pub alteration : Letter → ℤ → ℤ → ℤ
alteration l o target = target -ℤ ((o +ℤ pos 1) *ℤ pos 12 +ℤ natural_pc l)

abbrev pub up_alteration : SpelledPitch → Interval → ℤ
up_alteration p iv =
    let (l, delta) = step p.letter (diatonic_steps iv) in
    alteration l (p.octave +ℤ delta) (midi p +ℤ semitones iv)

abbrev pub down_alteration : SpelledPitch → Interval → ℤ
down_alteration p iv =
    let (l, delta) = step p.letter (neg (diatonic_steps iv)) in
    alteration l (p.octave +ℤ delta) (midi p -ℤ semitones iv)

shifted_line :
    (o delta i j steps : ℤ)
    → i +ℤ delta *ℤ pos 7 ≡ j +ℤ steps
    → (o +ℤ delta) *ℤ pos 7 +ℤ i ≡ o *ℤ pos 7 +ℤ j +ℤ steps
shifted_line o delta i j steps h = omega (int_laws, *ℤ_parts, ap pos_part h, ap neg_part h)

diatonic_step-reach :
    (p : SpelledPitch) (steps target : ℤ)
    → diatonic_step (reach (step p.letter steps).0 (p.octave +ℤ (step p.letter steps).1) target)
      ≡ diatonic_step p +ℤ steps
unfolding diatonic_step reach
diatonic_step-reach p steps target =
    shifted_line p.octave (step p.letter steps).1 (diatonic_index (step p.letter steps).0)
      (diatonic_index p.letter) steps (diatonic_index-step p.letter steps)

-- A transposed pitch stands the interval's steps higher on the staff, and sounds its semitones
-- higher if the accidental fits in i8.
pub transpose_lem :
    (p : SpelledPitch) (iv : Interval)
    → IsI8 (up_alteration p iv)
    → (diatonic_step (transpose p iv) ≡ diatonic_step p +ℤ diatonic_steps iv)
      × (midi (transpose p iv) ≡ midi p +ℤ semitones iv)
unfolding transpose
transpose_lem p iv h = (diatonic_step-reach p (diatonic_steps iv) _, reach_lem _ _ _ h)

pub transpose_down_lem :
    (p : SpelledPitch) (iv : Interval)
    → IsI8 (down_alteration p iv)
    → (diatonic_step (transpose_down p iv) ≡ diatonic_step p -ℤ diatonic_steps iv)
      × (midi (transpose_down p iv) ≡ midi p -ℤ semitones iv)
unfolding transpose_down
transpose_down_lem p iv h = (
  diatonic_step-reach p (neg (diatonic_steps iv)) _ ∙ add_neg (diatonic_step p) (diatonic_steps iv),
  reach_lem _ _ _ h,
)
  where
    add_neg : (x y : ℤ) → x +ℤ neg y ≡ x -ℤ y
    add_neg x y = omega (int_laws, neg_parts y)

-- To go to a pitch `q` that stands and sounds as it should, the accidental is that of `q`.
alteration-target :
    (l : Letter) (o : ℤ) (q : SpelledPitch)
    → l ≡ q.letter
    → o ≡ q.octave
    → alteration l o (midi q) ≡ q.accidental
unfolding midi
alteration-target l o q e k =
    rw e (rw k (take_off ((q.octave +ℤ pos 1) *ℤ pos 12 +ℤ natural_pc q.letter) q.accidental))
  where
    take_off : (x y : ℤ) → x +ℤ y -ℤ x ≡ y
    take_off x y = omega int_laws

reach-target :
    (l : Letter) (o target : ℤ) (q : SpelledPitch)
    → diatonic_step (reach l o target) ≡ diatonic_step q
    → target ≡ midi q
    → IsI8 q.accidental
    → reach l o target ≡ q
unfolding reach
reach-target l o target q d t h =
    let (el, eo) = same_place (reach l o target) q d in
    let a = ap (alteration l o) t ∙ alteration-target l o q el eo in
    pitch_ext (reach l o target) q d (reach_lem l o target (subst IsI8 (sym a) h) ∙ t)

-- A transposition whose interval is that between two pitches ends at the second one.
pub transpose-arrives :
    (p q : SpelledPitch) (iv : Interval)
    → diatonic_steps iv ≡ diatonic_step q -ℤ diatonic_step p
    → semitones iv ≡ midi q -ℤ midi p
    → IsI8 q.accidental
    → transpose p iv ≡ q
unfolding transpose
transpose-arrives p q iv ds ss h =
    reach-target _ _ _ q
      (diatonic_step-reach p (diatonic_steps iv) _
        ∙ ap (◌+ℤ◌ (diatonic_step p)) ds
        ∙ up (diatonic_step p) (diatonic_step q))
      (ap (◌+ℤ◌ (midi p)) ss ∙ up (midi p) (midi q)) h
  where
    up : (x y : ℤ) → x +ℤ (y -ℤ x) ≡ y
    up x y = omega int_laws

pub transpose_down-arrives :
    (p q : SpelledPitch) (iv : Interval)
    → diatonic_steps iv ≡ diatonic_step p -ℤ diatonic_step q
    → semitones iv ≡ midi p -ℤ midi q
    → IsI8 q.accidental
    → transpose_down p iv ≡ q
unfolding transpose_down
transpose_down-arrives p q iv ds ss h =
    reach-target _ _ _ q
      (diatonic_step-reach p (neg (diatonic_steps iv)) _
        ∙ ap (λ x. diatonic_step p +ℤ neg x) ds
        ∙ down (diatonic_step p) (diatonic_step q))
      (ap (◌-ℤ◌ (midi p)) ss ∙ back (midi p) (midi q)) h
  where
    down : (x y : ℤ) → x +ℤ neg (x -ℤ y) ≡ y
    down x y = omega (int_laws, neg_parts (x -ℤ y))

    back : (x y : ℤ) → x -ℤ (x -ℤ y) ≡ y
    back x y = omega int_laws

-- Going up by an interval and down by it again gives the pitch back, spelling included, if the
-- interval is one that `Interval::new` makes, the octaves of both are between minus and plus ten
-- million, and the accidental reached fits in i8.
pub transpose_down-transpose :
    (p : SpelledPitch) (iv : Interval)
    → IsInterval iv
    → IsNear p.octave
    → IsNear iv.octaves
    → IsI8 p.accidental
    → IsI8 (up_alteration p iv)
    → transpose_down (transpose p iv) iv ≡ p
transpose_down-transpose p iv valid near_p near_iv h k =
    let (d, m) = transpose_lem p iv k in
    transpose_down-arrives (transpose p iv) p iv (gap _ _ _ d) (gap _ _ _ m) h
  where
    gap : (x y z : ℤ) → x ≡ y +ℤ z → z ≡ x -ℤ y
    gap x y z e = rw e (omega int_laws)
