-- ===== src/Music/Interval/Inverted.antt =====
-- What an interval and its inversion in crates/music-domain/src/interval.rs add up to.
use mathlib.Core.Option.{some-injective}
use reapermcp.Music.Interval.Derived.{inverted_quality, inverted, simple, compound_number}
use reapermcp.Prelude.{
  ℕ, Bool, ◌≡◌, ◌<◌, if◌then◌else◌, suc, true, false, arith, zero, refl, Bool-cases, inl, some, inr,
  none, ◌∙◌, not, subst, ◌%◌,
}
use reapermcp.Music.Interval.{
  Interval, is_perfect_number, adjust, IntervalQuality, base_semitones, fits_perfect_number,
  fits_imperfect_number, diminished, augmented, minor, perfect, major, semitones, new_interval,
  fits,
}
use reapermcp.Prelude.Int.{
  ℤ, ◌-ℤ◌, pos, neg, eqb_ℤ, ◌+ℤ◌, negsuc, int_laws, ◌*ℤ◌, ltb_ℤ, ◌%ℤ◌, ◌/ℤ◌,
}

-- What `Interval::new` sees to.
pub record IsInterval (iv : Interval) : Type 0 where
  pub number_range : (n : ℕ) × (iv.number ≡ pos (suc n)) × (n < 7)
  pub quality_fits : fits iv.number iv.quality ≡ true

-- A number from the second on and its inversion.
complement :
    (n : ℕ)
    → n < 6
    → (let z = pos (suc (suc n)) in
        (is_perfect_number (pos 9 -ℤ z) ≡ is_perfect_number z)
        × (eqb_ℤ z (pos 1) ≡ false)
        × (base_semitones z +ℤ base_semitones (pos 9 -ℤ z)
            ≡ (if is_perfect_number z then pos 12 else pos 13)))
unfolding is_perfect_number base_semitones ◌-ℤ◌ ◌+ℤ◌
complement zero h = (refl, refl, refl)
complement (suc zero) h = (refl, refl, refl)
complement (suc (suc zero)) h = (refl, refl, refl)
complement (suc (suc (suc zero))) h = (refl, refl, refl)
complement (suc (suc (suc (suc zero)))) h = (refl, refl, refl)
complement (suc (suc (suc (suc (suc zero))))) h = (refl, refl, refl)
complement (suc (suc (suc (suc (suc (suc n)))))) h = absurd (omega (arith, h))

-- The sizes of a quality and the inverted one, on numbers of the same kind.
adjust-inverted_quality :
    (z w : ℤ) (q : IntervalQuality)
    → is_perfect_number w ≡ is_perfect_number z
    → fits z q ≡ true
    → adjust z q +ℤ adjust w (inverted_quality q)
      ≡ (if is_perfect_number z then pos 0 else negsuc 0)
unfolding adjust inverted_quality fits fits_perfect_number fits_imperfect_number neg ◌-ℤ◌ ◌+ℤ◌
adjust-inverted_quality z w minor e h = grind (arith, e, h)
adjust-inverted_quality z w perfect e h = grind (arith, e, h)
adjust-inverted_quality z w major e h = grind (arith, e, h)
adjust-inverted_quality z w (diminished n) e h = elim (Bool-cases (is_perfect_number z)) [
  | inl p ↦ rw p (ground arith)
  | inr p ↦ rw p (ground arith)
]
adjust-inverted_quality z w (augmented n) e h = elim (Bool-cases (is_perfect_number z)) [
  | inl p ↦ rw (e, p) (ground arith)
  | inr p ↦ rw (e, p) (ground arith)
]

add_up :
    (b1 b2 a1 a2 o1 o2 : ℤ)
    → b1 +ℤ a1 +ℤ o1 +ℤ (b2 +ℤ a2 +ℤ o2) ≡ (b1 +ℤ b2) +ℤ (a1 +ℤ a2) +ℤ (o1 +ℤ o2)
add_up b1 b2 a1 a2 o1 o2 = omega int_laws

both_kinds :
    (p : Bool)
    → (if p then pos 12 else pos 13) +ℤ (if p then pos 0 else negsuc 0) +ℤ (pos 0 +ℤ pos 0) ≡ pos 12
unfolding ◌+ℤ◌
both_kinds true = refl
both_kinds false = refl

unison :
    base_semitones (pos 1)
      +ℤ base_semitones (pos 1)
      +ℤ (if is_perfect_number (pos 1) then pos 0 else negsuc 0)
      +ℤ (pos 0 +ℤ pos 12)
    ≡ pos 12
unfolding base_semitones is_perfect_number ◌+ℤ◌
unison = refl

-- An interval within the octave and its inversion make up an octave: twelve semitones.
pub semitones-inverted :
    (iv : Interval) → IsInterval iv → semitones (simple iv) +ℤ semitones (inverted iv) ≡ pos 12
unfolding semitones inverted simple ◌*ℤ◌
semitones-inverted iv h = octave h.number_range
  where
    octave :
        ((n : ℕ) × (iv.number ≡ pos (suc n)) × (n < 7))
        → semitones (simple iv) +ℤ semitones (inverted iv) ≡ pos 12
    octave (zero, e, lt) = rw e (
        add_up _ _ _ _ _ _
        ∙ rw
            (adjust-inverted_quality (pos 1) (pos 1) iv.quality refl
              (subst (λ z. fits z iv.quality ≡ true) e h.quality_fits))
            unison)
    octave (suc n, e, lt) =
        let (k, ne, bases) = complement n (omega (arith, lt)) in
        rw e (
          rw ne (
            add_up _ _ _ _ _ _
            ∙ rw
                (
                  bases,
                  adjust-inverted_quality (pos (suc (suc n))) _ iv.quality k
                      (subst (λ z. fits z iv.quality ≡ true) e h.quality_fits),
                )
                (both_kinds _)))

-- What is known behind the guards of `Interval::new`.
behind_guards :
    (a b c : Bool) {r iv : Interval}
    → (if a then none else if b then none else if not c then none else some r) ≡ some iv
    → (a ≡ false) × (c ≡ true) × (r ≡ iv)
behind_guards true b c h = absurd (grind (arith, h))
behind_guards false true c h = absurd (grind (arith, h))
behind_guards false false true h = (refl, refl, some-injective _ _ h)
behind_guards false false false h = absurd (grind (arith, h))

from_one : (z : ℤ) → ltb_ℤ z (pos 1) ≡ false → (n : ℕ) × (z ≡ pos (suc n))
from_one (pos zero) h = absurd (ground (arith, h))
from_one (pos (suc n)) h = (n, refl)
from_one (negsuc n) h = absurd (ground (arith, h))

parted :
    (n : ℕ)
    → ((pos (suc n) -ℤ pos 1) %ℤ pos 7 +ℤ pos 1 ≡ pos (suc (n % 7)))
      × (n % 7 < 7)
      × ((pos (suc n) -ℤ pos 1) %ℤ pos 7 +ℤ pos 1 +ℤ pos 7 *ℤ ((pos (suc n) -ℤ pos 1) /ℤ pos 7)
          ≡ pos (suc n))
unfolding ◌+ℤ◌ ◌-ℤ◌ ◌*ℤ◌ ◌%ℤ◌ ◌/ℤ◌
parted n = ground arith

-- `Interval::new` gives a well-formed interval of the number it was given.
pub new_interval-IsInterval :
    (number : ℤ) (q : IntervalQuality) (iv : Interval)
    → new_interval number q ≡ some iv
    → IsInterval iv × (compound_number iv ≡ number)
unfolding new_interval compound_number
new_interval-IsInterval number q iv h =
    let (positive, fit, same) = behind_guards _ _ _ h in
    let (n, e) = from_one number positive in
    let (shape, lt, whole) = parted n in
    rw (← same) (record { number_range = (n % 7, rw e shape, lt); quality_fits = fit }, rw e whole)
