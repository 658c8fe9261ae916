-- ===== src/Qjson/Time/Eras.antt =====
-- The day count inside one era of 400 years (146097 days), over the natural numbers, for the
-- inverse laws of crates/qjson/src/time.rs.
use reapermcp.Prelude.{
  ℕ, suc, ◌+◌, ◌-◌, ◌*◌, ◌/◌, ◌≤◌, ◌<◌, arith, Bool, if◌then◌else◌, ◌≡◌, ◌%◌, ◌==◌, ◌&&◌, true, not,
  ◌||◌, ltb,
}

-- Days before year `yoe` of an era whose years begin in March.
abbrev pub year_start : ℕ → ℕ
year_start yoe = yoe * 365 + yoe / 4 - yoe / 100

-- The year of the era that day `doe` falls in.
abbrev pub year_of_era : ℕ → ℕ
year_of_era doe = (doe - doe / 1460 + doe / 36524 - doe / 146096) / 365

-- The year of the era is found from its first day and from its last.
pub year_of_era_lo : (doe : ℕ) → doe < 146097 → year_start (year_of_era doe) ≤ doe
year_of_era_lo doe h = omega arith

pub year_of_era_hi : (doe : ℕ) → doe < 146096 → doe < year_start (suc (year_of_era doe))
year_of_era_hi doe h = omega arith

pub month_start_lo : (doy : ℕ) → (153 * ((5 * doy + 2) / 153) + 2) / 5 ≤ doy
month_start_lo doy = omega arith

-- The leap rule and the length of a month, on a year counted from the start of an era.
abbrev pub leap : ℕ → Bool
leap r = (r % 4 == 0 && not (r % 100 == 0)) || r % 400 == 0

abbrev pub month_length : ℕ → ℕ → ℕ
month_length r m =
    if m == 2
    then (if leap r then 29 else 28)
    else if m == 4 || m == 6 || m == 9 || m == 11
    then 30
    else 31

pub year_length :
    (y : ℕ)
    → y < 400
    → year_start (suc y) ≡ year_start y + (if leap (suc y) && ltb y 399 then 366 else 365)
year_length y h = ground arith

-- A day of year `y` is found in year `y`.
pub year_of_era-start :
    (y doy : ℕ)
    → y < 400
    → doy ≤ 365
    → (doy ≡ 365 → leap (suc y) ≡ true)
    → year_of_era (year_start y + doy) ≡ y
year_of_era-start y doy h lo l = ground arith
