-- ===== src/Qjson/Time.antt =====
-- The calendar arithmetic of crates/qjson/src/time.rs.
pub mod Tests
pub mod Eras
pub mod Floor
pub mod Closed
pub mod Months
pub mod Civil
pub mod Iso8601
use reapermcp.Prelude.{
  ℕ, zero, suc, ◌+◌, ◌-◌, ◌*◌, ◌%◌, ◌≡◌, refl, Bool, true, false, not, ◌&&◌, ◌||◌, ltb, leb, ◌==◌,
  if◌then◌else◌,
}
use reapermcp.Prelude.Int.{
  ℤ, pos, negsuc, pos_part, ◌+ℤ◌, ◌-ℤ◌, ◌*ℤ◌, ◌/ℤ◌, rem_euclid, div_euclid, ltb_ℤ, leb_ℤ, eqb_ℤ,
  ◌%ℤ◌,
}

-- `i64::from(b)`
abbrev pub of_bool : Bool → ℤ
of_bool true = pos 1
of_bool false = pos 0

abbrev pub secs_per_day : ℤ
secs_per_day = pos 86400

-- `y % k` is only compared with zero, where the truncated and the Euclidean remainder agree.
unfoldable pub is_leap_year : ℤ → Bool
is_leap_year y =
    (eqb_ℤ (y %ℤ pos 4) (pos 0) && not (eqb_ℤ (y %ℤ pos 100) (pos 0)))
    || eqb_ℤ (y %ℤ pos 400) (pos 0)

unfoldable pub days_in_month : ℤ → ℕ → ℕ
days_in_month y m =
    if m == 1 || m == 3 || m == 5 || m == 7 || m == 8 || m == 10 || m == 12
    then 31
    else if m == 4 || m == 6 || m == 9 || m == 11
    then 30
    else if m == 2
    then (if is_leap_year y then 29 else 28)
    else 0

-- The era, `if z >= 0 { z } else { z - (by - 1) } / by`.
unfoldable pub floor_div : ℕ → ℕ → ℤ → ℤ
floor_div less by z = (if leb_ℤ (pos 0) z then z else z -ℤ pos less) /ℤ pos by

-- The lines `mp`, `doy` and `doe` of `days_from_civil`.
unfoldable pub day_of_era : ℤ → ℤ → ℤ → ℤ
day_of_era yoe m d =
    let mp = if ltb_ℤ (pos 2) m then m -ℤ pos 3 else m +ℤ pos 9 in
    let doy = (pos 153 *ℤ mp +ℤ pos 2) /ℤ pos 5 +ℤ d -ℤ pos 1 in
    yoe *ℤ pos 365 +ℤ yoe /ℤ pos 4 -ℤ yoe /ℤ pos 100 +ℤ doy

unfoldable pub days_from_civil : ℤ → ℕ → ℕ → ℤ
days_from_civil year month day =
    let y = year -ℤ of_bool (leb month 2) in
    let era = floor_div 399 400 y in
    let yoe = y -ℤ era *ℤ pos 400 in
    let doe = day_of_era yoe (pos month) (pos day) in era *ℤ pos 146097 +ℤ doe -ℤ pos 719468

-- The line `yoe` of `civil_from_days`.
unfoldable pub era_year : ℤ → ℤ
era_year doe = (doe -ℤ doe /ℤ pos 1460 +ℤ doe /ℤ pos 36524 -ℤ doe /ℤ pos 146096) /ℤ pos 365

-- The line `doy` of `civil_from_days`.
unfoldable pub era_year_day : ℤ → ℤ → ℤ
era_year_day doe yoe = doe -ℤ (pos 365 *ℤ yoe +ℤ yoe /ℤ pos 4 -ℤ yoe /ℤ pos 100)

-- The line `m` of `civil_from_days`.
unfoldable pub calendar_month : ℤ → ℤ
calendar_month mp = if ltb_ℤ mp (pos 10) then mp +ℤ pos 3 else mp -ℤ pos 9

-- The lines of `civil_from_days` below `doe`. The casts `m as u32` and `d as u32` are made of
-- values that are not negative.
unfoldable pub civil_of_era : ℤ → ℤ → ℤ × ℕ × ℕ
civil_of_era era doe =
    let yoe = era_year doe in
    let y = yoe +ℤ era *ℤ pos 400 in
    let doy = era_year_day doe yoe in
    let mp = (pos 5 *ℤ doy +ℤ pos 2) /ℤ pos 153 in
    let d = doy -ℤ (pos 153 *ℤ mp +ℤ pos 2) /ℤ pos 5 +ℤ pos 1 in
    let m = calendar_month mp in (y +ℤ of_bool (leb_ℤ m (pos 2)), pos_part m, pos_part d)

unfoldable pub civil_from_days : ℤ → ℤ × ℕ × ℕ
civil_from_days days =
    let z = days +ℤ pos 719468 in
    let era = floor_div 146096 146097 z in civil_of_era era (z -ℤ era *ℤ pos 146097)

epoch : days_from_civil (pos 1970) 1 1 ≡ pos 0
unfolding days_from_civil floor_div day_of_era ◌+ℤ◌ ◌-ℤ◌ ◌*ℤ◌ ◌/ℤ◌
epoch = refl

before_epoch : civil_from_days (negsuc 0) ≡ (pos 1969, 12, 31)
unfolding civil_from_days civil_of_era floor_div era_year era_year_day calendar_month ◌+ℤ◌ ◌-ℤ◌ ◌*ℤ◌
    ◌/ℤ◌
before_epoch = refl
