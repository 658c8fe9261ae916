-- ===== src/Qjson/Time/Civil.antt =====
-- `days_from_civil` and `civil_from_days` of crates/qjson/src/time.rs are inverse to one another.
use reapermcp.Qjson.Time.Floor.{
  floor_146097_unique, floor_400_unique, rest, floor_146097, floor_400,
}
use reapermcp.Qjson.Time.Closed.{
  civil_at, day_of_year, civil_of_era-pos, day_of_era-pos, month_of_march, month_of_day,
  day_of_month, year_day,
}
use reapermcp.Qjson.Time.Eras.{year_start, year_of_era, year_of_era-start}
use reapermcp.Qjson.Time.Months.{
  carry, month_at, day_at, month_at_range, day_at-inverse, year_at, day_at_range, days_in_month-era,
  day_of_year-inverse, carry-le,
}
use reapermcp.Prelude.{
  refl, ℕ, ◌≤◌, ◌≡◌, ◌+◌, ◌<◌, Bool, ap, if◌then◌else◌, leb, true, false, arith, ◌∙◌, sym,
}
use reapermcp.Prelude.Int.{
  ℤ, ◌*ℤ◌, pos, ◌-ℤ◌, ◌+ℤ◌, int_laws, pos_part, neg_part, negsuc, ◌≤ℤ◌, *ℤ_parts,
}
use reapermcp.Qjson.Time.{days_in_month, days_from_civil, civil_from_days, of_bool, floor_div}

-- A date of the proleptic Gregorian calendar.
pub record IsDate (y : ℤ) (m d : ℕ) : Type 0 where
  pub month_lo : 1 ≤ m
  pub month_hi : m ≤ 12
  pub day_lo : 1 ≤ d
  pub day_hi : d ≤ days_in_month y m

-- The days before an era.
abbrev before_era : ℤ → ℤ
before_era e = e *ℤ pos 146097 -ℤ pos 719468

-- A date in era `e`, whose March-based year is `yoe` in it.
days_from_civil-era :
    (e : ℤ) (yoe m d : ℕ) (y : ℤ)
    → y ≡ pos (yoe + carry m) +ℤ e *ℤ pos 400
    → yoe < 400
    → 1 ≤ m
    → m ≤ 12
    → 1 ≤ d
    → days_from_civil y m d
      ≡ e *ℤ pos 146097 +ℤ pos (year_start yoe + day_of_year m d) -ℤ pos 719468
unfolding days_from_civil
days_from_civil-era e yoe m d y h lt lo hi hd =
    let u = floor_400_unique e yoe (y -ℤ of_bool (leb m 2)) (shifted (leb m 2) h) lt in
    rw (u.0) (rw (rw u.0 at u.1) (rw (day_of_era-pos yoe m d lo hi hd)))
  where
    shifted :
        (b : Bool)
        → y ≡ pos (yoe + (if b then 1 else 0)) +ℤ e *ℤ pos 400
        → y -ℤ of_bool b ≡ e *ℤ pos 400 +ℤ pos yoe
    shifted true p = omega (int_laws, ap pos_part p, ap neg_part p)
    shifted false p = omega (int_laws, ap pos_part p, ap neg_part p)

-- A day count in era `e`.
civil_from_days-era :
    (e : ℤ) (doe : ℕ) (z : ℤ)
    → z ≡ e *ℤ pos 146097 +ℤ pos doe -ℤ pos 719468
    → doe < 146097
    → civil_from_days z ≡ civil_at e doe
unfolding civil_from_days
civil_from_days-era e doe z h lt =
    let u =
      floor_146097_unique e doe (z +ℤ pos 719468) (omega (int_laws, ap pos_part h, ap neg_part h))
        lt in
    rw (u.0) (rw (rw u.0 at u.1) (civil_of_era-pos e doe lt))

era_split :
    (z : ℤ) → (e : ℤ) × (doe : ℕ) × (z ≡ e *ℤ pos 146097 +ℤ pos doe -ℤ pos 719468) × (doe < 146097)
era_split z =
    let (eq, lt) = floor_146097 (z +ℤ pos 719468) in
    (
      floor_div 146096 146097 (z +ℤ pos 719468),
      rest 146096 146097 (z +ℤ pos 719468),
      omega (int_laws, ap pos_part eq, ap neg_part eq),
      lt,
    )

carry-of_bool :
    (b : Bool) (y : ℕ) (e : ℤ)
    → pos y +ℤ e *ℤ pos 400 +ℤ of_bool b ≡ pos (y + (if b then 1 else 0)) +ℤ e *ℤ pos 400
carry-of_bool true y e = omega int_laws
carry-of_bool false y e = omega int_laws

civil_at-year : (e : ℤ) (doe : ℕ) → (civil_at e doe).0 ≡ pos (year_at doe) +ℤ e *ℤ pos 400
civil_at-year e doe = carry-of_bool (leb (month_at doe) 2) (year_of_era doe) e

-- The day count of the date that a day count stands for is that day count, for every integer.
pub days_from_civil-civil_from_days :
    (z : ℤ) → let (y, m, d) = civil_from_days z in days_from_civil y m d ≡ z
days_from_civil-civil_from_days z =
    let (e, doe, h, lt) = era_split z in
    rw (civil_from_days-era e doe z h lt) (
      days_from_civil-era e (year_of_era doe) (month_at doe) (day_at doe) _ (civil_at-year e doe)
        (omega arith) (month_at_range doe lt).0 (month_at_range doe lt).1 (day_at_range doe lt).0
      ∙ rw (day_at-inverse doe lt) (sym h))

-- The date that a day count stands for is a date of the calendar.
pub civil_from_days-IsDate : (z : ℤ) → let (y, m, d) = civil_from_days z in IsDate y m d
civil_from_days-IsDate z =
    let (e, doe, h, lt) = era_split z in
    let (lo, hi) = month_at_range doe lt in
    rw (civil_from_days-era e doe z h lt) (record {
      month_lo = lo;
      month_hi = hi;
      day_lo = (day_at_range doe lt).0;
      day_hi =
          rw (days_in_month-era e (year_at doe) _ (month_at doe) (civil_at-year e doe) lo hi)
            (day_at_range doe lt).1;
    })

-- Every year lies in an era.
year_split :
    (y : ℤ) (b : Bool)
    → (e : ℤ) × (yoe : ℕ) × (y ≡ pos (yoe + (if b then 1 else 0)) +ℤ e *ℤ pos 400) × (yoe < 400)
year_split y b =
    let (eq, lt) = floor_400 (y -ℤ of_bool b) in
    (
      floor_div 399 400 (y -ℤ of_bool b),
      rest 399 400 (y -ℤ of_bool b),
      (omega (int_laws, ap pos_part eq, ap neg_part eq) ∙ carry-of_bool b _ _),
      lt,
    )

-- What is found for day `doe` of the era, from its year and the day of that year.
civil_at-eq :
    (e : ℤ) (doe yoe doy m d : ℕ)
    → year_of_era doe ≡ yoe
    → doe ≡ year_start yoe + doy
    → month_of_march (month_of_day doy) ≡ m
    → day_of_month doy ≡ d
    → civil_at e doe ≡ (pos yoe +ℤ e *ℤ pos 400 +ℤ of_bool (leb m 2), m, d)
civil_at-eq e doe yoe doy m d y s hm hd =
    let day : year_day doe ≡ doy = omega arith in rw (day, y, hm, hd)

-- The date found for the day count of a date is that date, for years between minus and plus 10 ^ 15,
-- within which no i64 of the two functions leaves its range.
pub civil_from_days-days_from_civil :
    (y : ℤ) (m d : ℕ)
    → negsuc 999999999999999 ≤ℤ y
    → y ≤ℤ pos 1000000000000000
    → IsDate y m d
    → civil_from_days (days_from_civil y m d) ≡ (y, m, d)
civil_from_days-days_from_civil y m d lo hi v =
    let (e, yoe, h, lt) = year_split y (leb m 2) in
    let day_hi = rw (days_in_month-era e (yoe + carry m) y m h v.month_lo v.month_hi) at v.day_hi in
    let (bound, leaps, month_eq, day_eq) =
      day_of_year-inverse yoe m d v.month_lo v.month_hi v.day_lo day_hi in
    let doy = day_of_year m d in
    let year_eq = year_of_era-start yoe doy lt bound leaps in
    rw (days_from_civil-era e yoe m d y h lt v.month_lo v.month_hi v.day_lo) (
      rw (civil_from_days-era e (year_start yoe + doy) _ refl (omega arith)) (
        civil_at-eq e _ yoe doy m d year_eq refl month_eq day_eq
        ∙ ap (λ (x : ℤ). (x, m, d)) (carry-of_bool (leb m 2) yoe e ∙ sym h)))

-- The day counts of the years 0 to 9999 are far from the bounds of i64.
pub days_from_civil_bounds :
    (y m d : ℕ)
    → y < 10000
    → IsDate (pos y) m d
    → (negsuc 9999999 ≤ℤ days_from_civil (pos y) m d) × (days_from_civil (pos y) m d ≤ℤ pos 9999999)
days_from_civil_bounds y m d h v =
    let (e, yoe, eq, lt) = year_split (pos y) (leb m 2) in
    let day_hi =
      rw (days_in_month-era e (yoe + carry m) (pos y) m eq v.month_lo v.month_hi) at v.day_hi in
    let (bound, leaps, _, _) = day_of_year-inverse yoe m d v.month_lo v.month_hi v.day_lo day_hi in
    rw (days_from_civil-era e yoe m d (pos y) eq lt v.month_lo v.month_hi v.day_lo)
      (omega (int_laws, *ℤ_parts, carry-le m, ap pos_part eq, ap neg_part eq))
