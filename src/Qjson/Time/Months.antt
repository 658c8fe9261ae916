-- ===== src/Qjson/Time/Months.antt =====
-- Months and days inside an era, for the inverse laws of crates/qjson/src/time.rs.
use reapermcp.Prelude.Int.{◌+ℤ◌, ◌*ℤ◌, ◌%ℤ◌, ℤ, pos, *ℤ_parts, +ℤ_parts, pos_part, neg_part, negsuc}
use reapermcp.Qjson.Time.{is_leap_year, days_in_month}
use reapermcp.Prelude.{ℕ, if◌then◌else◌, ◌<◌, ◌≤◌, leb, ◌+◌, arith, ◌≡◌, suc, true, ap}
use reapermcp.Qjson.Time.Eras.{year_start, year_of_era, month_length, year_of_era_lo, leap}
use reapermcp.Qjson.Time.Closed.{
  day_of_year, month_of_march, day_of_month, month_of_day, year_day, month_of_day-le,
}

-- The calendar year of day `doe`, counted from the start of the era: January and February belong
-- to the next one.
abbrev pub carry : ℕ → ℕ
carry m = if leb m 2 then 1 else 0

pub carry-le : (m : ℕ) → carry m ≤ 1
carry-le m = ground arith

abbrev pub month_at : ℕ → ℕ
month_at doe = month_of_march (month_of_day (year_day doe))

abbrev pub day_at : ℕ → ℕ
day_at doe = day_of_month (year_day doe)

abbrev pub year_at : ℕ → ℕ
year_at doe = year_of_era doe + carry (month_at doe)

-- The day of the era is that of the date found for it.
pub day_at-inverse :
    (doe : ℕ)
    → doe < 146097
    → year_start (year_of_era doe) + day_of_year (month_at doe) (day_at doe) ≡ doe
day_at-inverse doe h = ground (arith, year_of_era_lo doe h, month_of_day-le doe h)

pub month_at_range : (doe : ℕ) → doe < 146097 → (1 ≤ month_at doe) × (month_at doe ≤ 12)
month_at_range doe h = ground (arith, month_of_day-le doe h)

-- A day of the year that is found is a day of its month.
day_of_month_range :
    (doy y : ℕ)
    → doy ≤ 365
    → (doy ≡ 365 → leap (suc y) ≡ true)
    → let m = month_of_march (month_of_day doy) in day_of_month doy ≤ month_length (y + carry m) m
day_of_month_range doy y h l = ground arith

-- A date is found again from its day of the year.
pub day_of_year-inverse :
    (y m d : ℕ)
    → 1 ≤ m
    → m ≤ 12
    → 1 ≤ d
    → d ≤ month_length (y + carry m) m
    → (day_of_year m d ≤ 365)
      × (day_of_year m d ≡ 365 → leap (suc y) ≡ true)
      × (month_of_march (month_of_day (day_of_year m d)) ≡ m)
      × (day_of_month (day_of_year m d) ≡ d)
day_of_year-inverse y m d h1 h2 h3 h4 = ground arith

pub day_at_range :
    (doe : ℕ)
    → doe < 146097
    → (1 ≤ day_at doe) × (day_at doe ≤ month_length (year_at doe) (month_at doe))
day_at_range doe h =
    (omega arith, day_of_month_range (year_day doe) (year_of_era doe) (omega arith) (ground arith))

is_leap_year-pos : (n : ℕ) → is_leap_year (pos n) ≡ leap n
unfolding is_leap_year ◌%ℤ◌
is_leap_year-pos n = ground arith

-- The leap rule and the length of a month depend on the year of the era only.
pub is_leap_year-era : (e : ℤ) (r : ℕ) (y : ℤ) → y ≡ pos r +ℤ e *ℤ pos 400 → is_leap_year y ≡ leap r
unfolding is_leap_year ◌%ℤ◌
is_leap_year-era e r (pos n) h =
    ground (arith, *ℤ_parts e 400, +ℤ_parts (pos r) (e *ℤ pos 400), ap pos_part h, ap neg_part h)
is_leap_year-era e r (negsuc n) h =
    ground (arith, *ℤ_parts e 400, +ℤ_parts (pos r) (e *ℤ pos 400), ap pos_part h, ap neg_part h)

pub days_in_month-era :
    (e : ℤ) (r : ℕ) (y : ℤ) (m : ℕ)
    → y ≡ pos r +ℤ e *ℤ pos 400
    → 1 ≤ m
    → m ≤ 12
    → days_in_month y m ≡ month_length r m
unfolding days_in_month
days_in_month-era e r y m h lo hi = ground (arith, is_leap_year-era e r y h)
