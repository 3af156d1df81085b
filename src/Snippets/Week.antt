-- ===== src/Snippets/Week.antt =====
-- core/snippet_manager.cpp: the ISO number of a week.
use vxcore.Prelude.{
  inr, leb→le, inl, Bool-cases, ◌≤◌, ◌||◌, not, ltb, ◌/◌, ◌&&◌, arith, ◌==◌, ◌-◌, ◌%◌, leb, ◌≡◌,
  ◌+◌, if◌then◌else◌, Bool, ◌<◌, ℕ,
}

-- The fields of struct tm that the snippets read; `year` is the calendar year, `tm_year + 1900`.
pub record Tm : Type 0 where
  pub mday : ℕ
  pub mon : ℕ
  pub year : ℕ
  pub yday : ℕ
  pub wday : ℕ
  pub hour : ℕ
  pub min : ℕ
  pub sec : ℕ

unfoldable pub is_leap : ℕ → Bool
is_leap year = ((year % 4 == 0) && not (year % 100 == 0)) || (year % 400 == 0)

unfoldable pub days_in : ℕ → ℕ
days_in year = if is_leap year then 366 else 365

-- A weekday counted from Monday as 1, where 0 stands for Sunday.
unfoldable pub from_monday : ℕ → ℕ
from_monday day = if day == 0 then 7 else day

-- The days of the year before and of this year, the day of the year and the weekday, both from 1 on.
-- `((wday_iso - (yday - 1)) % 7 + 7) % 7` is read where `yday` is below `wday_iso`.
unfoldable pub iso_week : ℕ → ℕ → ℕ → ℕ → ℕ
iso_week before days yday wday_iso =
    let w = (yday + 10 - wday_iso) / 7 in
    let wday_jan1 = from_monday ((wday_iso - (yday - 1)) % 7) in
    let wday_dec31 = from_monday (wday_jan1 - 1) in
    let wday_last = from_monday ((wday_iso + (days - yday)) % 7) in
    if w == 0
    then (before + 10 - wday_dec31) / 7
    else if w == 53
    then (if leb wday_last 3 then 1 else w)
    else w

unfoldable pub iso_week_number : Tm → ℕ
iso_week_number tm =
    iso_week (days_in (tm.year - 1)) (days_in tm.year) (tm.yday + 1) (from_monday tm.wday)

-- ISO 8601: a week belongs to the year of its Thursday, and is numbered by how many Thursdays that year
-- had up to then. `before` and `days` are the days of the year before and of this year.
abbrev pub week_of_thursday : ℕ → ℕ → ℕ → ℕ → ℕ
week_of_thursday before days yday wday =
    if leb (yday + 4) wday
    then (before + yday + 4 - wday - 1) / 7 + 1
    else if ltb (days + wday) (yday + 4)
    then 1
    else (yday + 4 - wday - 1) / 7 + 1

days_in-IsYear : (year : ℕ) → (365 ≤ days_in year) × (days_in year ≤ 366)
unfolding days_in
days_in-IsYear year = ground arith

from_monday_bounds : (day : ℕ) → day < 7 → (1 ≤ from_monday day) × (from_monday day ≤ 7)
unfolding from_monday
from_monday_bounds day h = ground arith

module _ (before days yday wday : ℕ) (b1 : 365 ≤ before) (b2 : before ≤ 366) (d1 : 365 ≤ days)
    (d2 : days ≤ 366) (y1 : 1 ≤ yday) (y2 : yday ≤ days) (w1 : 1 ≤ wday) (w2 : wday ≤ 7) where
  early_thursday :
      yday + 4 ≤ wday → iso_week before days yday wday ≡ week_of_thursday before days yday wday
  unfolding iso_week from_monday
  early_thursday h = ground (arith, h)

  late_thursday :
      wday < yday + 4 → iso_week before days yday wday ≡ week_of_thursday before days yday wday
  unfolding iso_week from_monday
  late_thursday h = ground (arith, h)

-- IsoWeekNumber on a day of the calendar is the number of its week by ISO 8601.
pub iso_week_number_lem :
    (tm : Tm)
    → tm.yday < days_in tm.year
    → tm.wday < 7
    → iso_week_number tm
      ≡ week_of_thursday
          (days_in (tm.year - 1))
          (days_in tm.year)
          (tm.yday + 1)
          (from_monday tm.wday)
unfolding iso_week_number
iso_week_number_lem tm h k =
    let before = days_in (tm.year - 1) in
    let days = days_in tm.year in
    let yday = tm.yday + 1 in
    let wday = from_monday tm.wday in
    let (b1, b2) = days_in-IsYear (tm.year - 1) in
    let (d1, d2) = days_in-IsYear tm.year in
    let (w1, w2) = from_monday_bounds tm.wday k in
    let y1 : 1 ≤ yday = omega arith in
    let y2 : yday ≤ days = omega (arith, h) in
    elim (Bool-cases (leb (yday + 4) wday)) [
      | inl e ↦ early_thursday before days yday wday b1 b2 d1 d2 y1 y2 w1 w2 (leb→le _ _ e)
      | inr e ↦ late_thursday before days yday wday b1 b2 d1 d2 y1 y2 w1 w2 (ground (arith, e))
    ]
