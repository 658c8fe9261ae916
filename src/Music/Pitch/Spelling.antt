-- ===== src/Music/Pitch/Spelling.antt =====
-- The spelling of a sounding pitch in crates/music-domain/src/pitch.rs: `from_midi` with its tables,
-- and `enharmonic_respell`. The quotient that `enharmonic_respell` rounds as an f64 is that of an
-- i32 by 12, for which the rounding of floats cannot change the nearest integer; it is an integer
-- division here.
pub mod Sounds
pub mod Respell
use reapermcp.Music.Pitch.{SpelledPitch, midi, to_i8}
use reapermcp.Music.Letter.{Letter, c, natural_pc, d, e, f, g, a, b}
use reapermcp.Prelude.Int.{
  ℤ, pos, negsuc, pos_part, rem_euclid, ◌+ℤ◌, ◌-ℤ◌, div_euclid, eqb_ℤ, ◌*ℤ◌, neg, leb_ℤ,
}
use reapermcp.Prelude.{
  Option, Bool, List, none, get_or, some, ◌∷◌, if◌then◌else◌, ◌+◌, ◌/◌, [], ◌&&◌,
}

-- `tonic_pc` is not read by any of these.
pub record SpellingContext : Type 0 where
  pub tonic_pc : Option ℤ
  pub prefer_flats : Bool
  pub scale_pcs : List ℤ
  pub scale_spelling : List (Letter × ℤ)

pub preference : Bool → SpellingContext
preference flats = record {
  tonic_pc = none;
  prefer_flats = flats;
  scale_pcs = List.[];
  scale_spelling = List.[];
}

abbrev pub natural : ℤ
natural = pos 0

abbrev pub sharp : ℤ
sharp = pos 1

abbrev pub flat : ℤ
flat = negsuc 0

abbrev pub neutral_spelling : List (Letter × ℤ)
neutral_spelling =
    (c, natural)
    ∷ (c, sharp)
    ∷ (d, natural)
    ∷ (e, flat)
    ∷ (e, natural)
    ∷ (f, natural)
    ∷ (f, sharp)
    ∷ (g, natural)
    ∷ (g, sharp)
    ∷ (a, natural)
    ∷ (b, flat)
    ∷ (b, natural)
    ∷ []

abbrev pub sharp_spelling : List (Letter × ℤ)
sharp_spelling =
    (c, natural)
    ∷ (c, sharp)
    ∷ (d, natural)
    ∷ (d, sharp)
    ∷ (e, natural)
    ∷ (f, natural)
    ∷ (f, sharp)
    ∷ (g, natural)
    ∷ (g, sharp)
    ∷ (a, natural)
    ∷ (a, sharp)
    ∷ (b, natural)
    ∷ []

abbrev pub flat_spelling : List (Letter × ℤ)
flat_spelling =
    (c, natural)
    ∷ (d, flat)
    ∷ (d, natural)
    ∷ (e, flat)
    ∷ (e, natural)
    ∷ (f, natural)
    ∷ (g, flat)
    ∷ (g, natural)
    ∷ (a, flat)
    ∷ (a, natural)
    ∷ (b, flat)
    ∷ (b, natural)
    ∷ []

-- `SPELLING[pc as usize]`, an index within the table.
pub in_table : List (Letter × ℤ) → ℤ → Letter × ℤ
in_table table pc = get_or table (pos_part pc) (c, natural)

pub at_octave_for : Letter × ℤ → ℤ → SpelledPitch
at_octave_for (letter, acc) midi =
    let natural_pc = natural_pc letter +ℤ acc in
    let octave = div_euclid (midi -ℤ natural_pc) (pos 12) -ℤ pos 1 in
    record { letter = letter; accidental = acc; octave = octave }

-- The parallel entry of the first pitch class that matches, if it has one.
pub scale_entry : List ℤ → List (Letter × ℤ) → ℤ → Option (Letter × ℤ)
scale_entry [] _ pc = none
scale_entry (p ∷ ps) [] pc = none
scale_entry (p ∷ ps) (s ∷ ss) pc =
    let rest = scale_entry ps ss pc in if eqb_ℤ (rem_euclid p (pos 12)) pc then some s else rest

spelled : Option (Letter × ℤ) → Bool → ℤ → Letter × ℤ
spelled (some s) flats pc = s
spelled none flats pc = in_table (if flats then flat_spelling else sharp_spelling) pc

pub from_midi : ℤ → Option SpellingContext → SpelledPitch
from_midi midi (some ctx) =
    let pc = rem_euclid midi (pos 12) in
    at_octave_for (spelled (scale_entry ctx.scale_pcs ctx.scale_spelling pc) ctx.prefer_flats pc)
      midi
from_midi midi none = at_octave_for (in_table neutral_spelling (rem_euclid midi (pos 12))) midi

-- `(d as f64 / 12.0).round() as i32`: half-way cases go away from zero.
pub rounded_octave : ℤ → ℤ
rounded_octave (pos n) = pos ((n + 6) / 12)
rounded_octave (negsuc n) = neg (pos ((n + 7) / 12))

-- `(-2..=2).contains(&acc)`
abbrev pub is_common : ℤ → Bool
is_common acc = leb_ℤ (negsuc 1) acc && leb_ℤ acc (pos 2)

pub enharmonic_respell : SpelledPitch → Letter → Option SpelledPitch
enharmonic_respell p target =
    let d = midi p -ℤ natural_pc target in
    let octave = rounded_octave d -ℤ pos 1 in
    let acc = d -ℤ (octave +ℤ pos 1) *ℤ pos 12 in
    if is_common acc
    then some (record { letter = target; accidental = to_i8 acc; octave = octave })
    else none
