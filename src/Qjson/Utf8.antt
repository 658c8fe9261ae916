-- ===== src/Qjson/Utf8.antt =====
-- What crates/qjson/src/json.rs uses of Rust's UTF-8: `char::encode_utf8`, `str::as_bytes`,
-- `String::from_utf8` and `char::from_u32`. A string is the list of its Unicode scalar values.
use reapermcp.Prelude.{
  Option, List, ℕ, Bool, ◌+◌, if◌then◌else◌, ◌∷◌, none, some, length, ◌≡◌, ltb, ◌%◌, ◌++◌, leb,
  ◌==◌, ◌-◌, ◌&&◌, suc, true, ◌||◌, [], ◌*◌, arith, ◌/◌, zero, ◌≤◌, length-append, refl,
}
use mathlib.Core.Option
use reapermcp.Prelude.Decimal.{Bytes}

abbrev pub Text : Type 0
Text = List ℕ

-- `char::from_u32(c).is_some()`
abbrev pub is_scalar : ℕ → Bool
is_scalar c = ltb c 0xd800 || (leb 0xe000 c && ltb c 0x110000)

abbrev pub tail_byte : ℕ → ℕ
tail_byte n = 0x80 + n % 64

unfoldable pub encode_char : ℕ → Bytes
encode_char c =
    if ltb c 0x80
    then c ∷ []
    else if ltb c 0x800
    then (0xc0 + c / 64) ∷ tail_byte c ∷ []
    else if ltb c 0x10000
    then (0xe0 + c / 4096) ∷ tail_byte (c / 64) ∷ tail_byte c ∷ []
    else (0xf0 + c / 262144) ∷ tail_byte (c / 4096) ∷ tail_byte (c / 64) ∷ tail_byte c ∷ []

unfoldable pub encode : Text → Bytes
encode [] = []
encode (c ∷ cs) = encode_char c ++ encode cs

abbrev between : ℕ → ℕ → ℕ → Bool
between lo hi b = leb lo b && leb b hi

abbrev is_tail : ℕ → Bool
is_tail b = between 0x80 0xbf b

-- The second byte, where the first one narrows it: no overlong forms, no surrogates, nothing
-- above U+10FFFF.
abbrev second_of_three : ℕ → ℕ → Bool
second_of_three a b =
    if a == 0xe0 then between 0xa0 0xbf b else if a == 0xed then between 0x80 0x9f b else is_tail b

abbrev second_of_four : ℕ → ℕ → Bool
second_of_four a b =
    if a == 0xf0 then between 0x90 0xbf b else if a == 0xf4 then between 0x80 0x8f b else is_tail b

decode_two : ℕ → Bytes → Option (ℕ × Bytes)
decode_two a (b ∷ s) = if is_tail b then some ((a - 0xc0) * 64 + (b - 0x80), s) else none
decode_two a _ = none

decode_three : ℕ → Bytes → Option (ℕ × Bytes)
decode_three a (b ∷ c ∷ s) =
    if second_of_three a b && is_tail c
    then some ((a - 0xe0) * 4096 + (b - 0x80) * 64 + (c - 0x80), s)
    else none
decode_three a _ = none

decode_four : ℕ → Bytes → Option (ℕ × Bytes)
decode_four a (b ∷ c ∷ d ∷ s) =
    if second_of_four a b && (is_tail c && is_tail d)
    then some ((a - 0xf0) * 262144 + (b - 0x80) * 4096 + (c - 0x80) * 64 + (d - 0x80), s)
    else none
decode_four a _ = none

-- The first character and the bytes behind it.
pub decode_char : Bytes → Option (ℕ × Bytes)
unfolding decode_two decode_three decode_four
decode_char [] = none
decode_char (a ∷ s) =
    if ltb a 0x80
    then some (a, s)
    else if between 0xc2 0xdf a
    then decode_two a s
    else if between 0xe0 0xef a
    then decode_three a s
    else if between 0xf0 0xf4 a
    then decode_four a s
    else none

-- Each character takes a byte at least, so the number of bytes is fuel enough.
decode_fuel : ℕ → Bytes → Option Text
decode_fuel n [] = some []
decode_fuel zero (a ∷ s) = none
decode_fuel (suc n) (a ∷ s) = elim (decode_char (a ∷ s)) [
  | none ↦ none
  | some (c, r) ↦ Option.map (λ cs. c ∷ cs) (decode_fuel n r)
]

-- `String::from_utf8`
pub from_utf8 : Bytes → Option Text
from_utf8 s = decode_fuel (length s) s

abbrev pub AllScalars : Text → Type 0
AllScalars [] = Unit
AllScalars (c ∷ cs) = (is_scalar c ≡ true) × AllScalars cs

-- A scalar value is read off the front of its encoding.
pub decode_char-encode_char :
    (c : ℕ) (s : Bytes) → is_scalar c ≡ true → decode_char (encode_char c ++ s) ≡ some (c, s)
unfolding decode_char encode_char
decode_char-encode_char c s h = ground arith

length-encode_char : (c : ℕ) → 1 ≤ length (encode_char c)
unfolding encode_char
length-encode_char c = ground arith

decode_char-nil : decode_char [] ≡ none
unfolding decode_char
decode_char-nil = refl

decode_fuel-cons :
    (n : ℕ) (s : Bytes) {c : ℕ} {r : Bytes}
    → decode_char s ≡ some (c, r)
    → decode_fuel (suc n) s ≡ Option.map (λ cs. c ∷ cs) (decode_fuel n r)
unfolding decode_fuel
decode_fuel-cons n [] h = cc (decode_char-nil)
decode_fuel-cons n (a ∷ s) h = rw (h, decode_fuel)

decode_fuel-encode :
    (n : ℕ) (cs : Text)
    → length (encode cs) ≤ n
    → AllScalars cs
    → decode_fuel n (encode cs) ≡ some cs
unfolding encode
decode_fuel-encode zero [] h a = unfold decode_fuel in refl
decode_fuel-encode (suc n) [] h a = unfold decode_fuel in refl
decode_fuel-encode zero (c ∷ cs) h a =
    absurd (omega (arith, length-encode_char c, length-append (encode_char c) (encode cs)))
decode_fuel-encode (suc n) (c ∷ cs) h (hc, hs) =
    rw (decode_fuel-cons n _ (decode_char-encode_char c (encode cs) hc)) (
      rw (
        decode_fuel-encode n cs
          (omega (arith, length-encode_char c, length-append (encode_char c) (encode cs))) hs))

-- Every string of Unicode scalars is read back from its bytes.
pub from_utf8-encode : (cs : Text) → AllScalars cs → from_utf8 (encode cs) ≡ some cs
unfolding from_utf8
from_utf8-encode cs h = decode_fuel-encode (length (encode cs)) cs (omega arith) h
