-- ===== src/Calendar.antt =====
-- Calendar days as JavaScript's `Date` keeps them (proleptic Gregorian, month from 0), with the
-- arithmetic that back/src/modules/cashier/cashier.service.impl.ts and
-- back/src/modules/expenses/expenses.config.ts use. A day past the month's end runs over into the
-- next month, as the constructor and the setters of `Date` do.
use orbix_hub.Base.{
  ℕ, ◌+◌, ◌-◌, ◌/◌, ◌%◌, ◌≤◌, ◌<◌, Bool, ◌&&◌, ◌||◌, not, ltb, leb, ◌==◌, if◌then◌else◌, arith,
}

pub record Day : Type 0 where
  pub year : ℕ
  pub month : ℕ  -- 0 is January
  pub day : ℕ  -- from 1

unfoldable pub is_leap : ℕ → Bool
is_leap y = (y % 4 == 0 && not (y % 100 == 0)) || y % 400 == 0

-- `new Date(year, month + 1, 0).getDate()`: the last day of a month (0 to 11).
unfoldable pub days_in_month : (year month : ℕ) → ℕ
unfolding is_leap
days_in_month y m =
    if m == 1
    then if is_leap y then 29 else 28
    else if m == 3 || m == 5 || m == 8 || m == 10
    then 30
    else 31

pub record IsDay (d : Day) : Type 0 where
  pub month_lt : d.month < 12
  pub day_pos : 1 ≤ d.day
  pub day_le : d.day ≤ days_in_month d.year d.month

-- The month after, counted from January of the same year.
abbrev pub month_after : Day → ℕ
month_after d = d.month + 1

-- A month counted from January of a year, as a year and a month.
abbrev pub year_of : (year months : ℕ) → ℕ
year_of year months = year + months / 12

abbrev pub month_of : ℕ → ℕ
month_of months = months % 12

-- `new Date(year, months, day)`, for a day that runs over by less than a month.
unfoldable pub make_day : (year months day : ℕ) → Day
make_day year months day =
    let y = year_of year months in
    let m = month_of months in
    if leb day (days_in_month y m) then record { year = y; month = m; day = day } else record {
      year = year_of y (m + 1);
      month = month_of (m + 1);
      day = day - days_in_month y m;
    }

-- `next.setMonth(next.getMonth() + 1)`
unfoldable pub add_month : Day → Day
unfolding make_day
add_month d = make_day d.year (d.month + 1) d.day

-- Order of days.
unfoldable pub before : Day → Day → Bool
before a b =
    ltb a.year b.year
    || (a.year == b.year && (ltb a.month b.month || (a.month == b.month && ltb a.day b.day)))

pub days_in_month_bounds : (y m : ℕ) → (28 ≤ days_in_month y m) × (days_in_month y m ≤ 31)
unfolding days_in_month
days_in_month_bounds y m = ground arith

-- Setting a day that exists in the month neither runs over nor changes the month.
pub make_day-IsDay : (year months day : ℕ) → 1 ≤ day → day ≤ 31 → IsDay (make_day year months day)
unfolding make_day
make_day-IsDay year months day pos le = record {
  month_lt = ground arith;
  day_pos = ground arith;
  day_le = ground (
    arith,
    days_in_month_bounds (year_of year months) (month_of months),
    days_in_month_bounds (year_of (year_of year months) (month_of months + 1))
        (month_of (month_of months + 1)),
  );
}
