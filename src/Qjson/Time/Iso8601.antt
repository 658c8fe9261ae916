-- ===== src/Qjson/Time/Iso8601.antt =====
-- The timestamps of crates/qjson/src/time.rs: `iso8601_from_unix`, `parse_iso8601` and the helpers
-- of the parser. A text is the list of its bytes.
pub mod RoundTrip
pub mod Signed
pub mod Ascii
use reapermcp.Qjson.Time.{secs_per_day, civil_from_days, days_in_month, days_from_civil}
use reapermcp.Prelude.Options.{◌>>=◌}
use reapermcp.Prelude.{
  ℕ, Option, Bool, leb, ◌^◌, some, none, take, get_or, if◌then◌else◌, ◌∷◌, length, ltb, ◌&&◌, ◌*◌,
  ◌-◌, ◌==◌, [], true, drop, ◌+◌, ◌||◌, false, not, ◌++◌, ◌/◌, ◌%◌,
}
use reapermcp.Prelude.Int.{
  ℤ, div_euclid, pos_part, pos, rem_euclid, neg_part, neg, leb_ℤ, ◌*ℤ◌, ◌+ℤ◌, ◌-ℤ◌,
}
use reapermcp.Prelude.Decimal.{Bytes, pad, pad_signed}

-- The two forms of the year.
unfoldable pub year_text : ℤ → Bytes
year_text y = if leb_ℤ (pos 0) y && leb_ℤ y (pos 9999) then pad 4 (pos_part y) else pad_signed 5 y

unfoldable pub iso8601_from_unix : ℤ → Bytes
iso8601_from_unix secs =
    let days = div_euclid secs secs_per_day in
    let rem = pos_part (rem_euclid secs secs_per_day) in
    let (y, m, d) = civil_from_days days in
    let clock =
      pad 2 (rem / 3600)
      ++ b':' ∷ (pad 2 (rem % 3600 / 60) ++ b':' ∷ (pad 2 (rem % 60) ++ b'Z' ∷ [])) in
    year_text y ++ b'-' ∷ (pad 2 m ++ b'-' ∷ (pad 2 d ++ b'T' ∷ clock))

abbrev pub is_digit : ℕ → Bool
is_digit c = leb b'0' c && leb c b'9'

abbrev pub u64_limit : ℕ
u64_limit = 2 ^ 64

abbrev pub i64_limit : ℕ
i64_limit = 2 ^ 63

-- `v.checked_mul(10)?.checked_add(…)?` on u64
unfoldable pub parse_digits : ℕ → Bytes → Option ℕ
parse_digits v [] = some v
parse_digits v (c ∷ s) =
    let next = parse_digits (v * 10 + (c - b'0')) s in
    if not (is_digit c)
    then none
    else if leb u64_limit (v * 10)
    then none
    else if leb u64_limit (v * 10 + (c - b'0'))
    then none
    else next

unfoldable pub parse_uint : Bytes → Option ℕ
unfolding parse_digits
parse_uint [] = none
parse_uint (c ∷ s) = parse_digits 0 (c ∷ s)

-- `&b[from..to]`, within the length
abbrev pub slice : ℕ → ℕ → Bytes → Bytes
slice from to b = take (to - from) (drop from b)

-- `b[i] == c`, within the length
abbrev pub byte_is : Bytes → ℕ → ℕ → Bool
byte_is b i c = get_or b i 256 == c

infixl 5 ◌>>◌
abbrev pub ◌>>◌ {ℓ} : {B : Type ℓ} → Option (Unit {0}) → Option B → Option B
m >> k = m >>= λ _. k

abbrev pub require : Bool → Option (Unit {0})
require true = some tt
require false = none

offset_of : Bytes → Option (ℕ × ℕ)
unfolding parse_uint
offset_of rest =
    if length rest == 2
    then (do hh ← parse_uint rest; some (hh, 0))
    else if length rest == 4
    then (do hh ← parse_uint (slice 0 2 rest); mm ← parse_uint (slice 2 4 rest); some (hh, mm))
    else if length rest == 5 && byte_is rest 2 b':'
    then (do hh ← parse_uint (slice 0 2 rest); mm ← parse_uint (slice 3 5 rest); some (hh, mm))
    else none

-- Seconds east of UTC.
unfoldable pub parse_offset : Bytes → Option ℤ
unfolding offset_of
parse_offset [] = some (pos 0)
parse_offset (c ∷ rest) =
    if length rest == 0 && (c == b'Z' || c == b'z')
    then some (pos 0)
    else if c == b'+' || c == b'-'
    then (do
      (hh, mm) ← offset_of rest
      require (leb hh 23 && leb mm 59)
      some (if c == b'+' then pos (hh * 3600 + mm * 60) else neg (pos (hh * 3600 + mm * 60))))
    else none

unfoldable pub skip_digits : Bytes → Bytes
skip_digits [] = []
skip_digits (c ∷ s) = let rest = skip_digits s in if is_digit c then rest else c ∷ s

-- The optional fraction in front of the zone.
unfoldable pub skip_fraction : Bytes → Option Bytes
skip_fraction [] = some []
skip_fraction (c ∷ s) =
    if c == b'.' || c == b','
    then (if length (skip_digits s) == length s then none else some (skip_digits s))
    else some (c ∷ s)

-- The checked operations on i64.
unfoldable pub checked : ℤ → Option ℤ
checked z = if ltb (pos_part z) i64_limit && leb (neg_part z) i64_limit then some z else none

unfoldable pub parse_iso8601 : Bytes → Option ℤ
parse_iso8601 b = do
  require (leb 19 (length b))
  year ← parse_uint (slice 0 4 b)
  require (byte_is b 4 b'-')
  month ← parse_uint (slice 5 7 b)
  require (byte_is b 7 b'-')
  day ← parse_uint (slice 8 10 b)
  require (byte_is b 10 b'T' || byte_is b 10 b't' || byte_is b 10 b' ')
  hour ← parse_uint (slice 11 13 b)
  require (byte_is b 13 b':')
  minute ← parse_uint (slice 14 16 b)
  require (byte_is b 16 b':')
  second ← parse_uint (slice 17 19 b)
  require (leb 1 month && leb month 12)
  require (leb 1 day && leb day (days_in_month (pos year) month))
  require (leb hour 23 && leb minute 59 && leb second 60)
  zone ← skip_fraction (drop 19 b)
  offset ← parse_offset zone
  midnight ← checked (days_from_civil (pos year) month day *ℤ secs_per_day)
  moment ← checked (midnight +ℤ pos (hour * 3600 + minute * 60 + second))
  checked (moment -ℤ offset)
