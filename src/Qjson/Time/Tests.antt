-- ===== src/Qjson/Time/Tests.antt =====
-- The theorems on the calendar and the timestamps of crates/qjson/src/time.rs at concrete inputs.
use reapermcp.Qjson.Time.Iso8601.Signed.{parse_iso8601-signed_year}
use reapermcp.Qjson.Time.Civil.{IsDate, civil_from_days-days_from_civil}
use reapermcp.Qjson.Time.Iso8601.{parse_iso8601, iso8601_from_unix}
use reapermcp.Qjson.Time.Iso8601.RoundTrip.{year_of, parse_iso8601-iso8601_from_unix}
use reapermcp.Prelude.Int.{pos, ◌%ℤ◌, div_euclid, ◌+ℤ◌, ◌-ℤ◌, ◌*ℤ◌, ◌/ℤ◌}
use reapermcp.Qjson.Time.{
  civil_from_days, days_in_month, is_leap_year, days_from_civil, civil_of_era, floor_div, era_year,
  era_year_day, calendar_month,
}
use reapermcp.Prelude.{◌≡◌, some, none, refl, arith, inr}

leap_day : IsDate (pos 2000) 2 29
unfolding days_in_month is_leap_year ◌%ℤ◌
leap_day = record {
  month_lo = omega arith;
  month_hi = omega arith;
  day_lo = omega arith;
  day_hi = grind arith;
}

civil_from_days-days_from_civil_example :
    civil_from_days (days_from_civil (pos 2000) 2 29) ≡ (pos 2000, 2, 29)
civil_from_days-days_from_civil_example =
    civil_from_days-days_from_civil (pos 2000) 2 29 (omega arith) (omega arith) leap_day

year_2000 : year_of (pos 951782400) ≡ pos 2000
unfolding civil_from_days civil_of_era floor_div era_year era_year_day calendar_month div_euclid
    ◌+ℤ◌ ◌-ℤ◌ ◌*ℤ◌ ◌/ℤ◌ ◌%ℤ◌
year_2000 = refl

parse_iso8601-iso8601_from_unix_example :
    parse_iso8601 (iso8601_from_unix (pos 951782400)) ≡ some (pos 951782400)
parse_iso8601-iso8601_from_unix_example =
    parse_iso8601-iso8601_from_unix (pos 951782400) (rw year_2000 (omega arith))
      (rw year_2000 (omega arith))

year_12000 : year_of (pos 316516204800) ≡ pos 12000
unfolding civil_from_days civil_of_era floor_div era_year era_year_day calendar_month div_euclid
    ◌+ℤ◌ ◌-ℤ◌ ◌*ℤ◌ ◌/ℤ◌ ◌%ℤ◌
year_12000 = refl

parse_iso8601-signed_year_example : parse_iso8601 (iso8601_from_unix (pos 316516204800)) ≡ none
parse_iso8601-signed_year_example =
    parse_iso8601-signed_year (pos 316516204800) (inr (rw year_12000 (omega arith)))
