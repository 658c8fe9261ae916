-- ===== src/Music/Interval/Derived.antt =====
-- The intervals that crates/music-domain/src/interval.rs derives from others.
use reapermcp.Prelude.{
  ℕ, Option, Bool, if◌then◌else◌, ◌+◌, true, ◌&&◌, not, false, ◌||◌, ◌%◌, ◌/◌, List, get_or, ◌∷◌,
  [], some, none,
}
use reapermcp.Music.Interval.{
  Interval, IntervalQuality, minor, major, augmented, diminished, perfect, new_interval,
}
use reapermcp.Prelude.Int.{ℤ, pos, pos_part, ◌+ℤ◌, eqb_ℤ, ◌*ℤ◌, neg_part, ◌-ℤ◌}

raise : ℤ → Option Interval → Option Interval
raise octaves none = none
raise octaves (some iv) =
    some (record { number = iv.number; quality = iv.quality; octaves = iv.octaves +ℤ octaves })

pub with_octaves : ℤ → IntervalQuality → ℤ → Option Interval
with_octaves number quality octaves = raise octaves (new_interval number quality)

unfoldable pub compound_number : Interval → ℤ
compound_number iv = iv.number +ℤ pos 7 *ℤ iv.octaves

unfoldable pub simple : Interval → Interval
simple iv = record { number = iv.number; quality = iv.quality; octaves = pos 0 }

unfoldable pub inverted_quality : IntervalQuality → IntervalQuality
inverted_quality perfect = perfect
inverted_quality major = minor
inverted_quality minor = major
inverted_quality (augmented n) = diminished n
inverted_quality (diminished n) = augmented n

unfoldable pub inverted : Interval → Interval
inverted iv =
    let quality = inverted_quality iv.quality in
    if eqb_ℤ iv.number (pos 1)
    then record { number = pos 1; quality = quality; octaves = pos 1 }
    else record { number = pos 9 -ℤ iv.number; quality = quality; octaves = pos 0 }

-- The constants `P1` to `M7` by their semitones.
abbrev pub default_table : List (ℤ × IntervalQuality)
default_table =
    (pos 1, perfect)
    ∷ (pos 2, minor)
    ∷ (pos 2, major)
    ∷ (pos 3, minor)
    ∷ (pos 3, major)
    ∷ (pos 4, perfect)
    ∷ (pos 4, augmented 1)
    ∷ (pos 5, perfect)
    ∷ (pos 6, minor)
    ∷ (pos 6, major)
    ∷ (pos 7, minor)
    ∷ []

unfoldable pub default_base : ℕ → ℤ × IntervalQuality
default_base simple = get_or default_table simple (pos 7, major)

unfoldable pub from_semitones_default : ℤ → Interval
from_semitones_default semitones =
    let s = pos_part semitones + neg_part semitones in
    let (number, quality) = default_base (s % 12) in
    record { number = number; quality = quality; octaves = pos (s / 12) }

is_perfect : IntervalQuality → Bool
is_perfect perfect = true
is_perfect _ = false

is_minor_or_major : IntervalQuality → Bool
is_minor_or_major minor = true
is_minor_or_major major = true
is_minor_or_major _ = false

pub is_perfect_consonance : Interval → Bool
is_perfect_consonance iv =
    is_perfect iv.quality && (eqb_ℤ iv.number (pos 1) || eqb_ℤ iv.number (pos 5))

pub is_imperfect_consonance : Interval → Bool
is_imperfect_consonance iv =
    is_minor_or_major iv.quality && (eqb_ℤ iv.number (pos 3) || eqb_ℤ iv.number (pos 6))

pub is_dissonant : Interval → Bool
is_dissonant iv = not (is_perfect_consonance iv) && not (is_imperfect_consonance iv)
