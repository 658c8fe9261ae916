-- ===== src/Qjson/Json/Numbers/Lengths.antt =====
-- What the number parser of crates/qjson/src/json.rs leaves is not longer than its input.
use reapermcp.Qjson.Json.Strings.Lengths.{Answers}
use reapermcp.Qjson.Json.{Json}
use reapermcp.Qjson.Json.Error.{Seg}
use reapermcp.Qjson.Floats.{Floats}
use reapermcp.Qjson.Json.Strings.Fuel.{Leaves}
use reapermcp.Prelude.Decimal.{Bytes}
use reapermcp.Qjson.Json.Numbers.{
  scan_digits, scan_sign, scan_whole, scan_fraction, scan_exponent, scan_number, scan_run,
  scan_power, number_or_error, scanned, parse_number, number_value,
}
use reapermcp.Prelude.{
  ℕ, [], ◌∷◌, Option, length, Bool, ◌≤◌, arith, some, Option-cases, inl, none, inr, subst, List,
}

length-scan_digits : (s : Bytes) → length (scan_digits s).1 ≤ length s
unfolding scan_digits
length-scan_digits [] = omega arith
length-scan_digits (c ∷ s) = ground (arith, length-scan_digits s)

length-scan_sign : (s : Bytes) → length (scan_sign s).1 ≤ length s
unfolding scan_sign
length-scan_sign [] = omega arith
length-scan_sign (c ∷ s) = ground arith

Leaves-scan_whole : (s : Bytes) → Leaves (length s) (scan_whole s)
unfolding scan_whole
Leaves-scan_whole [] = tt
Leaves-scan_whole (c ∷ s) = ground (arith, length-scan_digits (c ∷ s))

Leaves-scan_run : (lead s : Bytes) → Leaves (length s) (scan_run lead s)
unfolding scan_run
Leaves-scan_run lead s = ground (arith, length-scan_digits s)

Leaves-scan_fraction : (s : Bytes) → Leaves (length s) (scan_fraction s)
unfolding scan_fraction
Leaves-scan_fraction [] = omega arith
Leaves-scan_fraction (c ∷ s) = ground (arith, Leaves-scan_run (c ∷ []) s)

Leaves-scan_power : (e : ℕ) (s : Bytes) → Leaves (length s) (scan_power e s)
unfolding scan_power
Leaves-scan_power e [] = tt
Leaves-scan_power e (c ∷ s) =
    ground (arith, Leaves-scan_run (e ∷ c ∷ []) s, Leaves-scan_run (e ∷ []) (c ∷ s))

Leaves-scan_exponent : (s : Bytes) → Leaves (length s) (scan_exponent s)
unfolding scan_exponent
Leaves-scan_exponent [] = omega arith
Leaves-scan_exponent (c ∷ s) = ground (arith, Leaves-scan_power c s)

-- Of a number, what stands behind it.
abbrev pub LeavesNumber : ℕ → Option (Bytes × Bool × Bytes) → Type 0
LeavesNumber n none = Unit
LeavesNumber n (some (text, mark, rest)) = length rest ≤ n

pub LeavesNumber-scan_number : (s : Bytes) → LeavesNumber (length s) (scan_number s)
unfolding scan_number
LeavesNumber-scan_number s = elim (Option-cases (scan_whole (scan_sign s).1)) [
  | inl e ↦ rw e tt
  | inr ((w, s₁), e) ↦ rw e (elim (Option-cases (scan_fraction s₁)) [
    | inl e₁ ↦ rw e₁ tt
    | inr ((fr, s₂), e₁) ↦ rw e₁ (elim (Option-cases (scan_exponent s₂)) [
      | inl e₂ ↦ rw e₂ tt
      | inr ((ex, s₃), e₂) ↦ rw e₂ (
          omega (
            arith,
            length-scan_sign s,
            subst (Leaves (length (scan_sign s).1)) e (Leaves-scan_whole (scan_sign s).1),
            subst (Leaves (length s₁)) e₁ (Leaves-scan_fraction s₁),
            subst (Leaves (length s₂)) e₂ (Leaves-scan_exponent s₂),
          ))
    ])
  ])
]

module _ (fs : Floats) (path : List Seg) where
  Answers-number_or_error :
      (n : ℕ) (rest : Bytes) (o : Option (Json fs.Float))
      → length rest ≤ n
      → Answers n (number_or_error fs path rest o)
  unfolding number_or_error
  Answers-number_or_error n rest none h = tt
  Answers-number_or_error n rest (some v) h = h

  Answers-scanned :
      (n : ℕ) (o : Option (Bytes × Bool × Bytes)) → LeavesNumber n o → Answers n (scanned fs path o)
  unfolding scanned
  Answers-scanned n none h = tt
  Answers-scanned n (some (text, mark, rest)) h =
      Answers-number_or_error n rest (number_value fs text mark) h

  pub Answers-parse_number : (s : Bytes) → Answers (length s) (parse_number fs path s)
  unfolding parse_number
  Answers-parse_number s = Answers-scanned (length s) (scan_number s) (LeavesNumber-scan_number s)
