-- ===== src/Music/Pitch/Spelling/Respell.antt =====
-- `enharmonic_respell` of crates/music-domain/src/pitch.rs.
use reapermcp.Music.Letter.{Letter, natural_pc}
use reapermcp.Prelude.{
  ◌≡◌, arith, true, ◌↔◌, some, if-some, sym, if◌then◌else◌, none, ◌∙◌, inl, refl, inr, subst, ap,
}
use reapermcp.Music.Pitch.{to_i8, to_i8-IsI8, midi, SpelledPitch, pitch_eq, IsNear}
use reapermcp.Music.Pitch.Spelling.{rounded_octave, enharmonic_respell, is_common}
use reapermcp.Prelude.Int.{
  ℤ, negsuc, ◌*ℤ◌, ◌-ℤ◌, ◌≤ℤ◌, pos, neg, ◌+ℤ◌, int_laws, *ℤ_parts, +ℤ_cancel,
}

-- What `is_common` tests.
abbrev pub IsCommon : ℤ → Type 0
IsCommon z = (negsuc 1 ≤ℤ z) × (z ≤ℤ pos 2)

rounded_octave_unique : (d o : ℤ) → IsCommon (d -ℤ o *ℤ pos 12) → rounded_octave d ≡ o
unfolding rounded_octave ◌*ℤ◌ ◌-ℤ◌ neg
rounded_octave_unique (pos n) (pos o) h = ground (arith, h)
rounded_octave_unique (pos n) (negsuc o) h = ground (arith, h)
rounded_octave_unique (negsuc n) (pos o) h = ground (arith, h)
rounded_octave_unique (negsuc n) (negsuc o) h = ground (arith, h)

to_i8-common : (z : ℤ) → IsCommon z → to_i8 z ≡ z
to_i8-common z h = to_i8-IsI8 z (omega (arith, h))

is_common_iff : (z : ℤ) → (is_common z ≡ true) ↔ IsCommon z
is_common_iff (pos n) = ground arith
is_common_iff (negsuc n) = ground arith

-- What it finds for a rounded distance of `o` octaves.
respelled : Letter → ℤ → ℤ → SpelledPitch
respelled target d o = record {
  letter = target;
  accidental = to_i8 (d -ℤ o *ℤ pos 12);
  octave = o -ℤ pos 1;
}

respelled-good :
    (p : SpelledPitch) (target : Letter) (o : ℤ)
    → IsCommon (midi p -ℤ natural_pc target -ℤ o *ℤ pos 12)
    → (midi (respelled target (midi p -ℤ natural_pc target) o) ≡ midi p)
      × IsCommon (to_i8 (midi p -ℤ natural_pc target -ℤ o *ℤ pos 12))
unfolding midi respelled
respelled-good p target o h = rw (to_i8-common _ h) (shape (midi p) (natural_pc target) o, h)
  where
    shape : (m n o : ℤ) → (o -ℤ pos 1 +ℤ pos 1) *ℤ pos 12 +ℤ n +ℤ (m -ℤ n -ℤ o *ℤ pos 12) ≡ m
    shape m n o = omega (int_laws, *ℤ_parts)

-- The distance from the target letter, what is left of it, and the answer if that is common.
abbrev distance : SpelledPitch → Letter → ℤ
distance p target = midi p -ℤ natural_pc target

abbrev left_over : SpelledPitch → Letter → ℤ
left_over p target = distance p target -ℤ rounded_octave (distance p target) *ℤ pos 12

abbrev respelling : SpelledPitch → Letter → SpelledPitch
respelling p target = respelled target (distance p target) (rounded_octave (distance p target))

enharmonic_respell_eq :
    (p : SpelledPitch) (target : Letter)
    → enharmonic_respell p target
      ≡ (if is_common (left_over p target) then some (respelling p target) else none)
unfolding enharmonic_respell respelled
enharmonic_respell_eq p target = rw (back (rounded_octave (distance p target))) refl
  where
    back : (o : ℤ) → o -ℤ pos 1 +ℤ pos 1 ≡ o
    back o = omega int_laws

enharmonic_respell-found :
    (p : SpelledPitch) (target : Letter) (q : SpelledPitch)
    → enharmonic_respell p target ≡ some q
    → (q.letter ≡ target) × (midi q ≡ midi p) × IsCommon q.accidental
unfolding respelled
enharmonic_respell-found p target q h =
    elim (if-some (is_common (left_over p target)) {x = respelling p target}
      (sym (enharmonic_respell_eq p target) ∙ h)) [
        | inl (t, same) ↦
            let (m, common) =
              respelled-good p target (rounded_octave (distance p target))
                ((is_common_iff _).0 t) in
            rw (← same) (refl, m, common)
        | inr missed ↦ absurd (grind (arith, missed))
      ]

left-accidental :
    (p : SpelledPitch) (target : Letter) (q : SpelledPitch)
    → q.letter ≡ target
    → midi q ≡ midi p
    → distance p target -ℤ (q.octave +ℤ pos 1) *ℤ pos 12 ≡ q.accidental
unfolding midi
left-accidental p target q l m =
    rw (← m) (rw (← l) (shape ((q.octave +ℤ pos 1) *ℤ pos 12) (natural_pc q.letter) q.accidental))
  where
    shape : (x n a : ℤ) → x +ℤ n +ℤ a -ℤ n -ℤ x ≡ a
    shape x n a = omega int_laws

enharmonic_respell-only :
    (p : SpelledPitch) (target : Letter) (q : SpelledPitch)
    → (q.letter ≡ target) × (midi q ≡ midi p) × IsCommon q.accidental
    → enharmonic_respell p target ≡ some q
unfolding respelled
enharmonic_respell-only p target q (l, m, h) =
    let left = left-accidental p target q l m in
    let oct =
      rounded_octave_unique (distance p target) (q.octave +ℤ pos 1) (subst IsCommon (sym left) h) in
    let same =
      pitch_eq (respelling p target) q (sym l) (rw oct (+ℤ_cancel q.octave (pos 1)))
        (rw oct (ap to_i8 left ∙ to_i8-common q.accidental h)) in
    enharmonic_respell_eq p target
    ∙ rw ((is_common_iff (left_over p target)).1 (rw oct (subst IsCommon (sym left) h)))
        (ap some same)

-- `enharmonic_respell` finds a pitch exactly if it is the one on the target letter that sounds the
-- same with at most a double accidental, of the pitches between the octaves minus and plus ten
-- million.
pub enharmonic_respell_iff :
    (p : SpelledPitch) (target : Letter) (q : SpelledPitch)
    → IsNear p.octave
    → IsNear q.octave
    → (enharmonic_respell p target ≡ some q)
      ↔ ((q.letter ≡ target) × (midi q ≡ midi p) × IsCommon q.accidental)
enharmonic_respell_iff p target q near_p near_q =
    (enharmonic_respell-found p target q, enharmonic_respell-only p target q)
