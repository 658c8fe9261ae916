-- ===== src/Qjson/Json/Numbers.antt =====
-- `parse_number` of crates/qjson/src/json.rs. The scanned text is ASCII, so its check for valid
-- UTF-8 passes and is left out.
pub mod Kinds
pub mod Shape
pub mod Lengths
pub mod Ints
use reapermcp.Qjson.Json.{Json, float, int}
use reapermcp.Prelude.Int.{ℤ, neg, pos}
use reapermcp.Prelude.Decimal.{Bytes}
use reapermcp.Prelude.Options.{◌>>=◌}
use reapermcp.Prelude.{
  ℕ, Option, List, Bool, ◌∷◌, none, if◌then◌else◌, some, leb, false, [], ◌==◌, ◌++◌, true, ◌*◌,
  ◌&&◌, ◌||◌, not, ◌+◌, ◌^◌, ◌-◌, ltb,
}
use reapermcp.Qjson.Json.Error.{Result, Seg, err, error, syntax, ok}
use reapermcp.Qjson.Floats.{Floats}

abbrev pub is_digit : ℕ → Bool
is_digit c = leb b'0' c && leb c b'9'

abbrev pub starts_digit : Bytes → Bool
starts_digit [] = false
starts_digit (c ∷ s) = is_digit c

-- `while matches!(self.peek(), Some(b'0'..=b'9'))`: the digits and what follows them.
pub scan_digits : Bytes → Bytes × Bytes
scan_digits [] = ([], [])
scan_digits (c ∷ s) =
    let (ds, rest) = scan_digits s in if is_digit c then (c ∷ ds, rest) else ([], c ∷ s)

pub scan_sign : Bytes → Bytes × Bytes
scan_sign [] = ([], [])
scan_sign (c ∷ s) = if c == b'-' then (c ∷ [], s) else ([], c ∷ s)

-- `0` alone, or a digit run that begins with another digit.
pub scan_whole : Bytes → Option (Bytes × Bytes)
scan_whole [] = none
scan_whole (c ∷ s) =
    if c == b'0'
    then (if starts_digit s then none else some (c ∷ [], s))
    else if is_digit c
    then some (scan_digits (c ∷ s))
    else none

-- At least one digit, behind `lead`.
scan_run : Bytes → Bytes → Option (Bytes × Bytes)
scan_run lead s =
    let (ds, rest) = scan_digits s in if starts_digit s then some (lead ++ ds, rest) else none

pub scan_fraction : Bytes → Option (Bytes × Bytes)
scan_fraction [] = some ([], [])
scan_fraction (c ∷ s) = if c == b'.' then scan_run (c ∷ []) s else some ([], c ∷ s)

scan_power : ℕ → Bytes → Option (Bytes × Bytes)
scan_power e [] = none
scan_power e (c ∷ s) =
    if c == b'+' || c == b'-' then scan_run (e ∷ c ∷ []) s else scan_run (e ∷ []) (c ∷ s)

pub scan_exponent : Bytes → Option (Bytes × Bytes)
scan_exponent [] = some ([], [])
scan_exponent (c ∷ s) = if c == b'e' || c == b'E' then scan_power c s else some ([], c ∷ s)

abbrev pub is_empty : Bytes → Bool
is_empty [] = true
is_empty (c ∷ s) = false

-- The text of the number, whether it is a float, and what follows it.
pub scan_number : Bytes → Option (Bytes × Bool × Bytes)
scan_number s = do
  let sign = scan_sign s
  whole ← scan_whole sign.1
  fraction ← scan_fraction whole.1
  exponent ← scan_exponent fraction.1
  some (
    sign.0 ++ (whole.0 ++ (fraction.0 ++ exponent.0)),
    not (is_empty fraction.0 && is_empty exponent.0),
    exponent.1,
  )

pub digits_value : ℕ → Bytes → ℕ
digits_value v [] = v
digits_value v (c ∷ s) = digits_value (v * 10 + (c - b'0')) s

-- `text.parse::<i64>().ok()` on a sign and digits.
pub parse_i64 : Bytes → Option ℤ
parse_i64 [] = none
parse_i64 (c ∷ s) =
    if c == b'-'
    then (if leb (digits_value 0 s) (2 ^ 63) then some (neg (pos (digits_value 0 s))) else none)
    else if ltb (digits_value 0 (c ∷ s)) (2 ^ 63)
    then some (pos (digits_value 0 (c ∷ s)))
    else none

module _ (fs : Floats) where
  open fs use {Float, is_finite, parse_f64}

  -- A float that is finite.
  finite_float : Option Float → Option (Json Float)
  finite_float none = none
  finite_float (some f) = if is_finite f then some (float f) else none

  finite_value : Bytes → Option (Json Float)
  unfolding finite_float
  finite_value text = finite_float (parse_f64 text)

  -- With a mark, or beyond i64, the text is a float.
  pub number_value : Bytes → Bool → Option (Json Float)
  unfolding finite_value
  number_value text is_float =
      if is_float
      then finite_value text
      else elim (parse_i64 text) [ some i ↦ some (int i) | none ↦ finite_value text ]

  number_or_error : List Seg → Bytes → Option (Json Float) → Result (Json Float × Bytes)
  number_or_error path rest none = err (error path syntax)
  number_or_error path rest (some v) = ok (v, rest)

  -- The value of a scanned text, and what follows it.
  scanned : List Seg → Option (Bytes × Bool × Bytes) → Result (Json Float × Bytes)
  scanned path none = err (error path syntax)
  scanned path (some (text, is_float, rest)) =
      number_or_error path rest (number_value text is_float)

  pub parse_number : List Seg → Bytes → Result (Json Float × Bytes)
  parse_number path s = scanned path (scan_number s)
