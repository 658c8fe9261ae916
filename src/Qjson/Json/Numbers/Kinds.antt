-- ===== src/Qjson/Json/Numbers/Kinds.antt =====
-- The number parser of crates/qjson/src/json.rs gives integers and floats only.
use reapermcp.Prelude.Int.{ℤ}
use reapermcp.Prelude.Decimal.{Bytes}
use reapermcp.Prelude.{Option, List, some, Bool, none, true, false, Bool-cases, inl, inr}
use reapermcp.Qjson.Json.{Json, int, float}
use reapermcp.Qjson.Json.Error.{Result, Seg, ok, err, out_of_fuel}
use reapermcp.Qjson.Json.Numbers.{
  finite_value, number_value, number_or_error, scanned, parse_number, scan_number, finite_float,
  parse_i64,
}
use reapermcp.Qjson.Floats.{Floats}

abbrev pub IsNumeric : {F : Type 0} → Json F → Type 0
IsNumeric (int i) = Unit
IsNumeric (float x) = Unit
IsNumeric _ = ⊥

abbrev IsNumericOr : {F : Type 0} → Option (Json F) → Type 0
IsNumericOr none = Unit
IsNumericOr (some v) = IsNumeric v

abbrev pub GivesNumeric : {F : Type 0} → Result (Json F × Bytes) → Type 0
GivesNumeric (ok (v, rest)) = IsNumeric v
GivesNumeric (err e) = Unit
GivesNumeric out_of_fuel = Unit

module _ (fs : Floats) where
  open fs use {Float}

  finite_float-IsNumericOr : (x : Option Float) → IsNumericOr (finite_float fs x)
  unfolding finite_float
  finite_float-IsNumericOr none = tt
  finite_float-IsNumericOr (some x) = elim (Bool-cases (fs.is_finite x)) [
    | inl fine ↦ rw fine tt
    | inr wild ↦ rw wild tt
  ]

  finite_value-IsNumericOr : (text : Bytes) → IsNumericOr (finite_value fs text)
  unfolding finite_value
  finite_value-IsNumericOr text = finite_float-IsNumericOr (fs.parse_f64 text)

  number_value-IsNumericOr : (text : Bytes) (mark : Bool) → IsNumericOr (number_value fs text mark)
  unfolding number_value
  number_value-IsNumericOr text true = finite_value-IsNumericOr text
  number_value-IsNumericOr text false = chosen (parse_i64 text)
    where
      chosen :
          (o : Option ℤ)
          → IsNumericOr (elim o [ some i ↦ some (int i) | none ↦ finite_value fs text ])
      chosen none = finite_value-IsNumericOr text
      chosen (some i) = tt

  number_or_error-GivesNumeric :
      (path : List Seg) (rest : Bytes) (o : Option (Json Float))
      → IsNumericOr o
      → GivesNumeric (number_or_error fs path rest o)
  unfolding number_or_error
  number_or_error-GivesNumeric path rest none h = tt
  number_or_error-GivesNumeric path rest (some v) h = h

  scanned-GivesNumeric :
      (path : List Seg) (o : Option (Bytes × Bool × Bytes)) → GivesNumeric (scanned fs path o)
  unfolding scanned
  scanned-GivesNumeric path none = tt
  scanned-GivesNumeric path (some (text, mark, rest)) =
      number_or_error-GivesNumeric path rest (number_value fs text mark)
        (number_value-IsNumericOr text mark)

  pub parse_number-GivesNumeric :
      (path : List Seg) (s : Bytes) → GivesNumeric (parse_number fs path s)
  unfolding parse_number
  parse_number-GivesNumeric path s = scanned-GivesNumeric path (scan_number s)
