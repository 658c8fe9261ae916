-- ===== src/Qjson/Time/Iso8601/Ascii.antt =====
-- Texts of ASCII bytes, such as the timestamps of crates/qjson/src/time.rs: their UTF-8 coding is
-- the text itself.
use reapermcp.Prelude.Decimal.{Bytes, emit, show, pad, pad_signed}
use reapermcp.Prelude.Int.{ℤ, pos, negsuc, leb_ℤ, pos_part}
use reapermcp.Qjson.Time.Iso8601.{iso8601_from_unix, year_text}
use reapermcp.Qjson.Utf8.{encode, encode_char}
use reapermcp.Prelude.{
  ℕ, zero, suc, ◌+◌, ◌-◌, ◌/◌, ◌%◌, ◌<◌, ◌≡◌, [], ◌∷◌, ◌++◌, arith, refl, length, replicate, ◌&&◌,
  Bool-cases, inl, inr,
}

-- All bytes are below 128.
abbrev pub IsAscii : Bytes → Type 0
IsAscii [] = Unit
IsAscii (c ∷ s) = (c < 128) × IsAscii s

pub encode-IsAscii : (s : Bytes) → IsAscii s → encode s ≡ s
unfolding encode encode_char
encode-IsAscii [] h = refl
encode-IsAscii (c ∷ s) (h, t) = ground (arith, h, encode-IsAscii s t)

append-IsAscii : (s t : Bytes) → IsAscii s → IsAscii t → IsAscii (s ++ t)
append-IsAscii [] t h k = k
append-IsAscii (c ∷ s) t (h, r) k = (h, append-IsAscii s t r k)

emit-IsAscii : (f n : ℕ) (out : Bytes) → IsAscii out → IsAscii (emit f n out)
unfolding emit
emit-IsAscii zero n out h = h
emit-IsAscii (suc f) n out h =
    ground (arith, h, emit-IsAscii f (n / 10) ((b'0' + n % 10) ∷ out) (omega arith, h))

replicate-IsAscii : (n : ℕ) → IsAscii (replicate n b'0')
replicate-IsAscii zero = tt
replicate-IsAscii (suc n) = (omega arith, replicate-IsAscii n)

pad-IsAscii : (w n : ℕ) → IsAscii (pad w n)
unfolding pad show
pad-IsAscii w n =
    append-IsAscii (replicate (w - length (show n)) b'0') _ (replicate-IsAscii _)
      (emit-IsAscii (suc n) n [] tt)

pad_signed-IsAscii : (w : ℕ) (z : ℤ) → IsAscii (pad_signed w z)
unfolding pad_signed
pad_signed-IsAscii w (pos n) = (omega arith, pad-IsAscii (w - 1) n)
pad_signed-IsAscii w (negsuc n) = (omega arith, pad-IsAscii (w - 1) (suc n))

year_text-IsAscii : (y : ℤ) → IsAscii (year_text y)
unfolding year_text
year_text-IsAscii y = elim (Bool-cases (leb_ℤ (pos 0) y && leb_ℤ y (pos 9999))) [
  | inl e ↦ rw e (pad-IsAscii 4 (pos_part y))
  | inr e ↦ rw e (pad_signed-IsAscii 5 y)
]

-- Two digits and what follows them.
field-IsAscii : (n c : ℕ) (s : Bytes) → c < 128 → IsAscii s → IsAscii (pad 2 n ++ c ∷ s)
field-IsAscii n c s h k = append-IsAscii (pad 2 n) (c ∷ s) (pad-IsAscii 2 n) (h, k)

pub iso8601_from_unix-IsAscii : (secs : ℤ) → IsAscii (iso8601_from_unix secs)
unfolding iso8601_from_unix
iso8601_from_unix-IsAscii secs = append-IsAscii (year_text _) _ (year_text-IsAscii _) (
  omega arith,
  field-IsAscii _ _ _ (omega arith) (
      field-IsAscii _ _ _ (omega arith) (
        field-IsAscii _ _ _ (omega arith)
          (field-IsAscii _ _ _ (omega arith) (field-IsAscii _ _ [] (omega arith) tt)))),
)
