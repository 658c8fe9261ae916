-- ===== src/Qjson/Json/Strings/RoundTrip.antt =====
-- A string written by crates/qjson/src/json.rs is read back.
use reapermcp.Qjson.Json.Error.{Seg, ok}
use reapermcp.Qjson.Json.Strings.Fuel.{string_loop-fuel}
use reapermcp.Prelude.{
  ℕ, Option, Bool, ◌∷◌, ◌≡◌, ◌++◌, length, not, true, some, append-nil, arith, ◌≤◌, ◌==◌, refl, [],
  ◌||◌, append_assoc, leb, ◌<◌, ◌/◌, ◌*◌, ◌+◌, ◌^◌, ◌%◌, false, ==_iff, ltb, ltb→lt, if◌then◌else◌,
  sym, ◌∙◌, length-append, List,
}
use reapermcp.Prelude.Decimal.{Bytes}
use reapermcp.Qjson.Json.Strings.{
  parse_escape, string_loop, hex_value, hex_digits, parse_hex4, unicode_escape, after_first,
  parse_string, finish_string, text_or_error,
}
use reapermcp.Qjson.Json.Write.{escape_char, hex_digit, escape}
use reapermcp.Qjson.Utf8.{encode_char, encode, Text, AllScalars, from_utf8-encode}

-- The loop with the fuel that `parse_string` gives it.
abbrev loop : Bytes → Bytes → Bytes → Option (Bytes × Bytes)
loop buf run s = string_loop (length s) buf run s

abbrev is_plain : ℕ → Bool
is_plain b = not (b == b'"' || (b == b'\\' || leb b 0x1f))

abbrev AllPlain : Bytes → Type 0
AllPlain [] = Unit
AllPlain (b ∷ s) = (is_plain b ≡ true) × AllPlain s

loop_quote : (buf run s : Bytes) → loop buf run (b'"' ∷ s) ≡ some (buf ++ run, s)
unfolding string_loop
loop_quote buf run s = refl

loop_plain : (bs buf run s : Bytes) → AllPlain bs → loop buf run (bs ++ s) ≡ loop buf (run ++ bs) s
unfolding string_loop
loop_plain [] buf run s h = rw append-nil
loop_plain (b ∷ bs) buf run s (hb, hs) =
    ground (arith, loop_plain bs buf (run ++ b ∷ []) s hs, append_assoc run (b ∷ []) bs)

loop_escape :
    (buf run s decoded rest : Bytes)
    → parse_escape s ≡ some (decoded, rest)
    → length rest ≤ length s
    → loop buf run (b'\\' ∷ s) ≡ loop (buf ++ run ++ decoded) [] rest
unfolding string_loop
loop_escape buf run s decoded rest e h =
    rw e (string_loop-fuel (length s) (length rest) (buf ++ run ++ decoded) [] rest h (omega arith))

-- What the loop does with the text of a character: it is decoded at once, or collected.
data Reads (c : ℕ) (t : Bytes) : Type 0 where
  plain : AllPlain t → t ≡ encode_char c → Reads c t
  escaped :
      (s : Bytes)
      → t ≡ b'\\' ∷ s
      → ((r : Bytes) → parse_escape (s ++ r) ≡ some (encode_char c, r))
      → Reads c t

hex_value-hex_digit : (x : ℕ) → x < 16 → hex_value (hex_digit x) ≡ some x
unfolding hex_value
hex_value-hex_digit x h = ground arith

parse_hex4-digits :
    (w x y z : ℕ) (s : Bytes)
    → w < 16
    → x < 16
    → y < 16
    → z < 16
    → parse_hex4 (hex_digit w ∷ hex_digit x ∷ hex_digit y ∷ hex_digit z ∷ s)
      ≡ some (((w * 16 + x) * 16 + y) * 16 + z, s)
unfolding parse_hex4 hex_digits
parse_hex4-digits w x y z s hw hx hy hz = ground (
  arith,
  hex_value-hex_digit w hw,
  hex_value-hex_digit x hx,
  hex_value-hex_digit y hy,
  hex_value-hex_digit z hz,
)

control-escape :
    (c : ℕ) (r : Bytes)
    → c < 0x20
    → parse_escape (
        b'u'
        ∷ hex_digit (c / 2 ^ 12 % 16)
        ∷ hex_digit (c / 2 ^ 8 % 16)
        ∷ hex_digit (c / 2 ^ 4 % 16)
        ∷ hex_digit (c % 16)
        ∷ r)
      ≡ some (encode_char c, r)
unfolding parse_escape unicode_escape after_first encode_char
control-escape c r h =
    rw
      (parse_hex4-digits (c / 2 ^ 12 % 16) (c / 2 ^ 8 % 16) (c / 2 ^ 4 % 16) (c % 16) r
        (omega arith) (omega arith) (omega arith) (omega arith))
      (ground arith)

Reads-if :
    (b : Bool) {c : ℕ} {x y : Bytes}
    → (b ≡ true → Reads c x)
    → (b ≡ false → Reads c y)
    → Reads c (if b then x else y)
Reads-if true hx hy = hx refl
Reads-if false hx hy = hy refl

-- A character `k` with an escape of its own.
short_escape :
    (c k e : ℕ)
    → ((r : Bytes) → parse_escape (e ∷ r) ≡ some (encode_char k, r))
    → (c == k) ≡ true
    → Reads c (b'\\' ∷ e ∷ [])
short_escape c k e h eq = escaped (e ∷ []) refl (λ r. rw ((==_iff c k).0 eq) (h r))

encode_char-AllPlain :
    (c : ℕ)
    → (c == b'"') ≡ false
    → (c == b'\\') ≡ false
    → ltb c 0x20 ≡ false
    → AllPlain (encode_char c)
unfolding encode_char
encode_char-AllPlain c h k l = ground arith

escape_char-Reads : (c : ℕ) → Reads c (escape_char c)
unfolding escape_char parse_escape encode_char
escape_char-Reads c = Reads-if (c == b'"') (short_escape c b'"' b'"' (λ r. refl)) λ quote.
    Reads-if (c == b'\\') (short_escape c b'\\' b'\\' (λ r. refl)) λ slash.
      Reads-if (c == 0x0a) (short_escape c 0x0a b'n' (λ r. refl)) λ _.
        Reads-if (c == 0x0d) (short_escape c 0x0d b'r' (λ r. refl)) λ _.
          Reads-if (c == 0x09) (short_escape c 0x09 b't' (λ r. refl)) λ _.
            Reads-if (c == 0x08) (short_escape c 0x08 b'b' (λ r. refl)) λ _.
              Reads-if (c == 0x0c) (short_escape c 0x0c b'f' (λ r. refl)) λ _.
                Reads-if (ltb c 0x20)
                  (λ low. escaped _ refl (λ r. control-escape c r (ltb→lt c 0x20 low)))
                  (λ high. plain (encode_char-AllPlain c quote slash high) refl)

-- The loop takes a character's text, and has its bytes.
loop_char :
    (c : ℕ) (t buf run s : Bytes)
    → Reads c t
    → (buf' : Bytes) × (run' : Bytes) × (loop buf run (t ++ s) ≡ loop buf' run' s)
      × (buf' ++ run' ≡ (buf ++ run) ++ encode_char c)
loop_char c t buf run s (plain h e) =
    (buf, run ++ t, loop_plain t buf run s h, rw (← e) (sym (append_assoc buf run t)))
loop_char c t buf run s (escaped t' e h) = (
  buf ++ run ++ encode_char c,
  [],
  rw e (
      loop_escape buf run (t' ++ s) (encode_char c) s (h s)
        (omega (arith, length-append {0} t' s))),
  append-nil _,
)

-- What was decoded and collected so far, with the bytes of the characters read since.
loop-escape :
    (s : Text) (buf run r : Bytes)
    → loop buf run (escape s ++ b'"' ∷ r) ≡ some ((buf ++ run) ++ encode s, r)
unfolding escape encode
loop-escape [] buf run r = rw append-nil (loop_quote buf run r)
loop-escape (c ∷ s) buf run r =
    let tail = escape s ++ b'"' ∷ r in
    let (buf', run', step, same) = loop_char c (escape_char c) buf run tail (escape_char-Reads c) in
    rw (append_assoc (escape_char c) (escape s) (b'"' ∷ r))
      (step ∙ loop-escape s buf' run' r ∙ rw same (rw append_assoc))

-- A written string of Unicode scalars is read back, whatever follows it.
pub parse_string-escape :
    (path : List Seg) (s : Text) (r : Bytes)
    → AllScalars s
    → parse_string path (escape s ++ b'"' ∷ r) ≡ ok (s, r)
unfolding parse_string finish_string text_or_error
parse_string-escape path s r h =
    rw (loop-escape s [] [] r, parse_string) (rw (from_utf8-encode s h))
