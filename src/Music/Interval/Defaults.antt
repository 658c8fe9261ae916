-- ===== src/Music/Interval/Defaults.antt =====
-- `Interval::from_semitones_default` of crates/music-domain/src/interval.rs has the size it is
-- asked for.
use reapermcp.Prelude.Below.{below, below_lem}
use reapermcp.Prelude.Int.{eqb_ℤ, ℤ, ◌+ℤ◌, pos, pos_part, neg_part, ◌*ℤ◌, *ℤ-pos, +ℤ-pos, eqb_ℤ-eq}
use reapermcp.Music.Interval.Derived.{default_base, from_semitones_default}
use reapermcp.Music.Interval.{semitones, base_semitones, adjust, is_perfect_number}
use reapermcp.Prelude.{ℕ, Bool, ◌≡◌, true, ◌+◌, ◌%◌, ◌/◌, arith, ap, refl}

unfoldable sized : ℕ → Bool
sized n =
    eqb_ℤ (base_semitones (default_base n).0 +ℤ adjust (default_base n).0 (default_base n).1)
      (pos n)

all-sized : below 12 sized ≡ true
unfolding below sized default_base base_semitones adjust is_perfect_number ◌+ℤ◌
all-sized = refl

-- The interval that is chosen for a number of semitones, of either sign, has as many.
pub semitones-from_semitones_default :
    (z : ℤ) → semitones (from_semitones_default z) ≡ pos (pos_part z + neg_part z)
unfolding semitones from_semitones_default sized
semitones-from_semitones_default z =
    let s = pos_part z + neg_part z in
    rw
      (eqb_ℤ-eq
        (base_semitones (default_base (s % 12)).0
          +ℤ adjust (default_base (s % 12)).0 (default_base (s % 12)).1)
        (pos (s % 12)) (below_lem 12 sized all-sized (s % 12) (omega arith)))
      (whole s)
  where
    whole : (s : ℕ) → pos (s % 12) +ℤ pos 12 *ℤ pos (s / 12) ≡ pos s
    whole s = rw (*ℤ-pos, +ℤ-pos) (ap pos (omega arith))
