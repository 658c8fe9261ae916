-- ===== src/Qjson/Time/Closed.antt =====
-- The two calendar functions of crates/qjson/src/time.rs inside an era, over the natural numbers.
use reapermcp.Qjson.Time.{day_of_era, civil_of_era, of_bool, calendar_month, era_year, era_year_day}
use native.Mathlib.Nat.{add-zero}
use reapermcp.Prelude.{ℕ, ◌≤◌, if◌then◌else◌, ◌*◌, ◌-◌, ltb, ◌+◌, ◌≡◌, ◌/◌, arith, ◌<◌, leb, ap}
use reapermcp.Prelude.Int.{◌+ℤ◌, ◌-ℤ◌, pos, ltb_ℤ, *ℤ-pos, /ℤ-pos, +ℤ-pos, -ℤ-pos, ℤ, ◌*ℤ◌}
use reapermcp.Qjson.Time.Eras.{year_start, year_of_era, year_of_era_lo}

-- The month counted from March, and the day of the year that begins there.
abbrev pub march_month : ℕ → ℕ
march_month m = if ltb 2 m then m - 3 else m + 9

abbrev pub day_of_year : ℕ → ℕ → ℕ
day_of_year m d = (153 * march_month m + 2) / 5 + d - 1

march_month-eq :
    (m : ℕ)
    → 1 ≤ m
    → m ≤ 12
    → (if ltb_ℤ (pos 2) (pos m) then pos m -ℤ pos 3 else pos m +ℤ pos 9) ≡ pos (march_month m)
unfolding ◌+ℤ◌ ◌-ℤ◌
march_month-eq m lo hi = ground arith

pub day_of_era-pos :
    (yoe m d : ℕ)
    → 1 ≤ m
    → m ≤ 12
    → 1 ≤ d
    → day_of_era (pos yoe) (pos m) (pos d) ≡ pos (year_start yoe + day_of_year m d)
unfolding day_of_era
day_of_era-pos yoe m d lo hi h = rw (march_month-eq m lo hi) (
    simp (
      *ℤ-pos,
      /ℤ-pos,
      +ℤ-pos,
      -ℤ-pos ((153 * march_month m + 2) / 5 + d) 1 (omega arith),
      -ℤ-pos (yoe * 365 + yoe / 4) (yoe / 100) (omega arith),
    ))

-- The day of the year on which day `doe` of the era falls, and its month counted from March.
abbrev pub year_day : ℕ → ℕ
year_day doe = doe - year_start (year_of_era doe)

abbrev pub month_of_day : ℕ → ℕ
month_of_day doy = (5 * doy + 2) / 153

abbrev pub month_of_march : ℕ → ℕ
month_of_march mp = if ltb mp 10 then mp + 3 else mp - 9

abbrev pub day_of_month : ℕ → ℕ
day_of_month doy = doy - (153 * month_of_day doy + 2) / 5 + 1

calendar_month-pos : (mp : ℕ) → mp ≤ 11 → calendar_month (pos mp) ≡ pos (month_of_march mp)
unfolding calendar_month ◌+ℤ◌ ◌-ℤ◌
calendar_month-pos mp hi = ground arith

era_year-pos : (doe : ℕ) → era_year (pos doe) ≡ pos (year_of_era doe)
unfolding era_year
era_year-pos doe = simp (
  /ℤ-pos,
  +ℤ-pos,
  -ℤ-pos doe (doe / 1460) (omega arith),
  -ℤ-pos (doe - doe / 1460 + doe / 36524) (doe / 146096) (omega arith),
)

era_year_day-pos :
    (doe : ℕ) → doe < 146097 → era_year_day (pos doe) (pos (year_of_era doe)) ≡ pos (year_day doe)
unfolding era_year_day
era_year_day-pos doe h =
    let y = year_of_era doe in
    simp
      (
        /ℤ-pos,
        +ℤ-pos,
        *ℤ-pos,
        -ℤ-pos (365 * y + y / 4) (y / 100) (omega arith),
        -ℤ-pos doe (365 * y + y / 4 - y / 100) (omega (arith, year_of_era_lo doe h)),
      )
      (ap pos (omega arith))

-- The triple that `civil_from_days` returns, from the day of the era.
abbrev pub civil_at : ℤ → ℕ → ℤ × ℕ × ℕ
civil_at era doe =
    let m = month_of_march (month_of_day (year_day doe)) in
    (pos (year_of_era doe) +ℤ era *ℤ pos 400 +ℤ of_bool (leb m 2), m, day_of_month (year_day doe))

pub month_of_day-le : (doe : ℕ) → doe < 146097 → month_of_day (year_day doe) ≤ 11
month_of_day-le doe h = omega arith

pub civil_of_era-pos :
    (era : ℤ) (doe : ℕ) → doe < 146097 → civil_of_era era (pos doe) ≡ civil_at era doe
unfolding civil_of_era
civil_of_era-pos era doe h =
    let doy = year_day doe in
    simp
      (
        era_year-pos doe,
        era_year_day-pos doe h,
        *ℤ-pos,
        /ℤ-pos,
        +ℤ-pos,
        -ℤ-pos doy ((153 * month_of_day doy + 2) / 5) (omega arith),
        calendar_month-pos (month_of_day doy) (month_of_day-le doe h),
      )
      (simp add-zero)
