-- ===== src/Qjson/Time/Iso8601/Signed.antt =====
-- Years that crates/qjson/src/time.rs writes with a sign.
use reapermcp.Qjson.Time.Iso8601.RoundTrip.{year_of}
use reapermcp.Prelude.Decimal.{pad_signed, Bytes, pad}
use reapermcp.Prelude.{
  ℕ, ◌≡◌, ◌⊎◌, false, none, ◌∷◌, Bool-cases, leb, arith, length, suc, inl, refl, take, inr,
}
use reapermcp.Qjson.Time.Iso8601.{
  parse_uint, parse_iso8601, year_text, iso8601_from_unix, parse_digits, is_digit,
}
use reapermcp.Prelude.Int.{ℤ, ◌≤ℤ◌, negsuc, pos}

parse_uint-none : (c : ℕ) (s : Bytes) → is_digit c ≡ false → parse_uint (c ∷ s) ≡ none
unfolding parse_uint parse_digits
parse_uint-none c s h = rw h

parse_iso8601-none : (c : ℕ) (s : Bytes) → is_digit c ≡ false → parse_iso8601 (c ∷ s) ≡ none
unfolding parse_iso8601
parse_iso8601-none c s h = elim (Bool-cases (leb 19 (length (c ∷ s)))) [
  | inl e ↦ rw e (rw (parse_uint-none c (take 3 s) h))
  | inr e ↦ rw e
]

signed_year :
    (y : ℤ)
    → (y ≤ℤ negsuc 0) ⊎ (pos 10000 ≤ℤ y)
    → (c : ℕ) × (s : Bytes) × (year_text y ≡ c ∷ s) × (is_digit c ≡ false)
unfolding year_text pad_signed
signed_year (pos n) h = (b'+', pad 4 n, ground arith, refl)
signed_year (negsuc n) h = (b'-', pad 4 (suc n), ground arith, refl)

-- The timestamp of a moment before year 0 or after year 9999 is refused by the parser.
pub parse_iso8601-signed_year :
    (secs : ℤ)
    → (year_of secs ≤ℤ negsuc 0) ⊎ (pos 10000 ≤ℤ year_of secs)
    → parse_iso8601 (iso8601_from_unix secs) ≡ none
unfolding iso8601_from_unix
parse_iso8601-signed_year secs h =
    let (c, s, e, sign) = signed_year (year_of secs) h in rw e (parse_iso8601-none c _ sign)
