-- ===== src/Qjson/Time/Iso8601/RoundTrip.antt =====
-- Reading back the timestamps that crates/qjson/src/time.rs writes.
use reapermcp.Qjson.Time.Civil.{
  IsDate, days_from_civil_bounds, civil_from_days-IsDate, days_from_civil-civil_from_days,
}
use reapermcp.Qjson.Time.{secs_per_day, days_from_civil, days_in_month, civil_from_days}
use reapermcp.Prelude.{
  ℕ, ◌++◌, ◌∷◌, [], ◌≡◌, ◌<◌, arith, some, ◌≤◌, ◌*◌, ◌+◌, leb, ◌^◌, ◌&&◌, true, refl, ◌/◌, ◌%◌,
  subst, ap, ◌∙◌,
}
use reapermcp.Prelude.Int.{
  ℤ, div_euclid, rem_euclid, ◌*ℤ◌, ◌+ℤ◌, pos, pos_part, negsuc, ◌-ℤ◌, ◌≤ℤ◌, int_laws, *ℤ_parts,
  nonneg-pos, neg_part,
}
use reapermcp.Prelude.Decimal.{Bytes, two_digits, four_digits, pad_two, pad_four}
use reapermcp.Qjson.Time.Iso8601.{
  parse_uint, parse_iso8601, skip_fraction, parse_offset, checked, iso8601_from_unix, year_text,
}

parse_two : (n : ℕ) → n < 100 → parse_uint (two_digits n) ≡ some n
unfolding parse_uint
parse_two n h = ground arith

parse_four : (n : ℕ) → n < 10000 → parse_uint (four_digits n) ≡ some n
unfolding parse_uint
parse_four n h = ground arith

-- The text for the six fields of a moment.
abbrev stamp : ℕ → ℕ → ℕ → ℕ → ℕ → ℕ → Bytes
stamp y m d hh mm ss =
    four_digits y
    ++ b'-'
      ∷ (two_digits m
          ++ b'-'
            ∷ (two_digits d
                ++ b'T'
                  ∷ (two_digits hh
                      ++ b':' ∷ (two_digits mm ++ b':' ∷ (two_digits ss ++ b'Z' ∷ [])))))

day_split :
    (secs : ℤ)
    → (secs ≡ div_euclid secs secs_per_day *ℤ secs_per_day +ℤ rem_euclid secs secs_per_day)
      × (rem_euclid secs secs_per_day ≡ pos (pos_part (rem_euclid secs secs_per_day)))
      × (pos_part (rem_euclid secs secs_per_day) < 86400)
unfolding div_euclid rem_euclid ◌*ℤ◌
day_split (pos n) = ground arith
day_split (negsuc n) = ground arith

read_zone : skip_fraction (b'Z' ∷ []) ≡ some (b'Z' ∷ [])
unfolding skip_fraction
read_zone = refl

read_utc : parse_offset (b'Z' ∷ []) ≡ some (pos 0)
unfolding parse_offset
read_utc = refl

checked-eq_some : (z : ℤ) → negsuc (2 ^ 60) ≤ℤ z → z ≤ℤ pos (2 ^ 60) → checked z ≡ some z
unfolding checked
checked-eq_some z lo hi = ground arith

require-range : (lo n hi : ℕ) → lo ≤ n → n ≤ hi → (leb lo n && leb n hi) ≡ true
require-range lo n hi h k = ground arith

require-clock :
    (hh mm ss : ℕ) → hh ≤ 23 → mm ≤ 59 → ss ≤ 59 → (leb hh 23 && leb mm 59 && leb ss 60) ≡ true
require-clock hh mm ss h1 h2 h3 = ground arith

days_in_month-le : (y : ℤ) (m : ℕ) → days_in_month y m ≤ 31
unfolding days_in_month
days_in_month-le y m = ground arith

parse_stamp :
    (y m d hh mm ss : ℕ)
    → y < 10000
    → IsDate (pos y) m d
    → hh ≤ 23
    → mm ≤ 59
    → ss ≤ 59
    → parse_iso8601 (stamp y m d hh mm ss)
      ≡ some
          (days_from_civil (pos y) m d *ℤ secs_per_day +ℤ pos (hh * 3600 + mm * 60 + ss) -ℤ pos 0)
unfolding parse_iso8601
parse_stamp y m d hh mm ss hy v h1 h2 h3 =
    let days = days_from_civil (pos y) m d in
    let midnight = days *ℤ secs_per_day in
    let moment = midnight +ℤ pos (hh * 3600 + mm * 60 + ss) in
    let (lo, hi) = days_from_civil_bounds y m d hy v in
    simp (
      parse_two m (omega arith),
      parse_two d (omega (arith, days_in_month-le (pos y) m)),
      parse_two hh (omega arith),
      parse_two mm (omega arith),
      parse_two ss (omega arith),
      parse_four y hy,
      read_zone,
      read_utc,
      require-range 1 m 12 v.month_lo v.month_hi,
      require-range 1 d (days_in_month (pos y) m) v.day_lo v.day_hi,
      require-clock hh mm ss h1 h2 h3,
      checked-eq_some midnight (omega (int_laws, *ℤ_parts days 86400))
          (omega (int_laws, *ℤ_parts days 86400)),
      checked-eq_some moment (omega (int_laws, *ℤ_parts days 86400))
          (omega (int_laws, *ℤ_parts days 86400)),
      checked-eq_some (moment -ℤ pos 0) (omega (int_laws, *ℤ_parts days 86400))
          (omega (int_laws, *ℤ_parts days 86400)),
    )

year_text-four : (y : ℕ) → y ≤ 9999 → year_text (pos y) ≡ four_digits y
unfolding year_text
year_text-four y h = ground (arith, pad_four y)

-- A written timestamp is the text of its six fields.
iso8601-stamp :
    (secs : ℤ) (y m d : ℕ)
    → civil_from_days (div_euclid secs secs_per_day) ≡ (pos y, m, d)
    → y ≤ 9999
    → m < 100
    → d < 100
    → let rem = pos_part (rem_euclid secs secs_per_day) in
      iso8601_from_unix secs ≡ stamp y m d (rem / 3600) (rem % 3600 / 60) (rem % 60)
unfolding iso8601_from_unix
iso8601-stamp secs y m d e hy hm hd =
    let rem = pos_part (rem_euclid secs secs_per_day) in
    let (_, _, lt) = day_split secs in
    rw e (
      simp (
        year_text-four y hy,
        pad_two m hm,
        pad_two d hd,
        pad_two (rem / 3600) (omega arith),
        pad_two (rem % 3600 / 60) (omega arith),
        pad_two (rem % 60) (omega arith),
      ))

-- The seconds of the day make up the moment.
seconds-eq :
    (secs : ℤ)
    → let rem = pos_part (rem_euclid secs secs_per_day) in
      div_euclid secs secs_per_day *ℤ secs_per_day
        +ℤ pos (rem / 3600 * 3600 + rem % 3600 / 60 * 60 + rem % 60)
        -ℤ pos 0
      ≡ secs
seconds-eq secs =
    let rem = pos_part (rem_euclid secs secs_per_day) in
    let (split, nonneg, lt) = day_split secs in
    let whole : rem / 3600 * 3600 + rem % 3600 / 60 * 60 + rem % 60 ≡ rem = omega arith in
    rw (whole, ← nonneg, ← split) (omega int_laws)

-- The year that a timestamp is written with.
abbrev pub year_of : ℤ → ℤ
year_of secs = (civil_from_days (div_euclid secs secs_per_day)).0

-- A moment of the years 0 to 9999 is read back from the timestamp written for it.
pub parse_iso8601-iso8601_from_unix :
    (secs : ℤ)
    → pos 0 ≤ℤ year_of secs
    → year_of secs ≤ℤ pos 9999
    → parse_iso8601 (iso8601_from_unix secs) ≡ some secs
parse_iso8601-iso8601_from_unix secs lo hi =
    let days = div_euclid secs secs_per_day in
    let rem = pos_part (rem_euclid secs secs_per_day) in
    let (split, nonneg, lt) = day_split secs in
    let (z, m, d) = civil_from_days days in
    let y = pos_part z in
    let year_eq : z ≡ pos y = nonneg-pos z lo in
    let v = subst (λ (t : ℤ). IsDate t m d) year_eq (civil_from_days-IsDate days) in
    let y_hi : y ≤ 9999 = omega (arith, ap neg_part year_eq) in
    let m_hi : m < 100 = omega (arith, v.month_hi) in
    let d_hi : d < 100 = omega (arith, v.day_hi, days_in_month-le (pos y) m) in
    let days_eq =
      subst (λ (t : ℤ). days_from_civil t m d ≡ days) year_eq
        (days_from_civil-civil_from_days days) in
    rw (iso8601-stamp secs y m d (ap (λ (t : ℤ). (t, m, d)) year_eq) y_hi m_hi d_hi) (
      parse_stamp y m d (rem / 3600) (rem % 3600 / 60) (rem % 60) (omega arith) v (omega arith)
        (omega arith) (omega arith)
      ∙ ap some (rw days_eq (seconds-eq secs)))
