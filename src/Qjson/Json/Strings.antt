-- ===== src/Qjson/Json/Strings.antt =====
-- `parse_string`, `parse_escape` and `parse_hex4` of crates/qjson/src/json.rs. A position is the
-- list of the bytes from it on.
pub mod Fuel
pub mod Lengths
pub mod RoundTrip
use reapermcp.Qjson.Utf8.{Text, is_scalar, encode_char, from_utf8}
use reapermcp.Prelude.Decimal.{Bytes}
use reapermcp.Prelude.{
  ℕ, List, Option, Bool, if◌then◌else◌, some, leb, none, ◌&&◌, suc, ltb, ◌∷◌, length, ◌-◌, ◌*◌,
  ◌==◌, ◌++◌, [], ◌+◌, zero, ◌^◌,
}
use reapermcp.Qjson.Json.Error.{Result, Seg, err, error, syntax, ok}

hex_value : ℕ → Option ℕ
hex_value b =
    if leb b'0' b && leb b b'9'
    then some (b - b'0')
    else if leb b'a' b && leb b b'f'
    then some (b - b'a' + 10)
    else if leb b'A' b && leb b b'F'
    then some (b - b'A' + 10)
    else none

hex_digits : ℕ → ℕ → Bytes → Option (ℕ × Bytes)
hex_digits zero v s = some (v, s)
hex_digits (suc n) v [] = none
hex_digits (suc n) v (b ∷ s) = elim (hex_value b) [
  | none ↦ none
  | some d ↦ hex_digits n (v * 16 + d) s
]

pub parse_hex4 : Bytes → Option (ℕ × Bytes)
parse_hex4 s = if ltb (length s) 4 then none else hex_digits 4 0 s

abbrev is_high : ℕ → Bool
is_high c = leb 0xd800 c && ltb c 0xdc00

abbrev is_low : ℕ → Bool
is_low c = leb 0xdc00 c && ltb c 0xe000

-- The low surrogate behind `first`, and the scalar that the pair stands for.
low_surrogate : ℕ → Bytes → Option (ℕ × Bytes)
low_surrogate first (a ∷ u ∷ s) =
    if a == b'\\' && u == b'u'
    then elim (parse_hex4 s) [
      | none ↦ none
      | some (second, rest) ↦
          if is_low second
          then some (0x10000 + (first - 0xd800) * 2 ^ 10 + (second - 0xdc00), rest)
          else none
    ]
    else none
low_surrogate first _ = none

after_first : ℕ → Bytes → Option (ℕ × Bytes)
after_first first rest =
    if is_high first
    then low_surrogate first rest
    else if is_low first
    then none
    else some (first, rest)

-- The scalar of a `\u` escape.
pub unicode_escape : Bytes → Option (ℕ × Bytes)
unicode_escape s = elim (parse_hex4 s) [ none ↦ none | some (first, rest) ↦ after_first first rest ]

-- The bytes that an escape stands for, and what follows it.
pub parse_escape : Bytes → Option (Bytes × Bytes)
parse_escape [] = none
parse_escape (e ∷ s) =
    if e == b'"'
    then some (b'"' ∷ [], s)
    else if e == b'\\'
    then some (b'\\' ∷ [], s)
    else if e == b'/'
    then some (b'/' ∷ [], s)
    else if e == b'b'
    then some (0x08 ∷ [], s)
    else if e == b'f'
    then some (0x0c ∷ [], s)
    else if e == b'n'
    then some (0x0a ∷ [], s)
    else if e == b'r'
    then some (0x0d ∷ [], s)
    else if e == b't'
    then some (0x09 ∷ [], s)
    else if e == b'u'
    then elim (unicode_escape s) [
      | none ↦ none
      | some (scalar, rest) ↦ if is_scalar scalar then some (encode_char scalar, rest) else none
    ]
    else none

-- The loop of `parse_string`: `buf` holds what is decoded, and `run` the plain bytes since. Each
-- round takes a byte at least.
pub string_loop : ℕ → Bytes → Bytes → Bytes → Option (Bytes × Bytes)
string_loop fuel buf run [] = none
string_loop zero buf run (b ∷ s) = none
string_loop (suc fuel) buf run (b ∷ s) =
    let plain = string_loop fuel buf (run ++ b ∷ []) s in
    if b == b'"'
    then some (buf ++ run, s)
    else if b == b'\\'
    then elim (parse_escape s) [
      | none ↦ none
      | some (decoded, rest) ↦ string_loop fuel (buf ++ run ++ decoded) [] rest
    ]
    else if leb b 0x1f
    then none
    else plain

text_or_error : List Seg → Bytes → Option Text → Result (Text × Bytes)
text_or_error path rest none = err (error path syntax)
text_or_error path rest (some text) = ok (text, rest)

-- The collected bytes are checked to be UTF-8.
finish_string : List Seg → Option (Bytes × Bytes) → Result (Text × Bytes)
finish_string path none = err (error path syntax)
finish_string path (some (buf, rest)) = text_or_error path rest (from_utf8 buf)

-- The opening quote stands in front of `s`.
pub parse_string : List Seg → Bytes → Result (Text × Bytes)
parse_string path s = finish_string path (string_loop (length s) [] [] s)
