-- ===== src/Time/Order.antt =====
-- src/time.rs: valid dates and their order, for `time_from_ymdhms_utc`.
use webpki.Prelude.{ℕ, zero, suc, ◌+◌, ◌-◌, ◌*◌, ◌≤◌, ◌<◌, ◌≡◌, refl, arith, ◌⊎◌, inl, inr}
use webpki.Result.{Result, ok}
use webpki.Time.{
  Time, days_before_year_ad, checked_sub, days_before_year_since_unix_epoch, time_from_ymdhms_utc,
}
use webpki.Time.Calendar.{
  days_in_year, days_of_years, month_start, month_length, days_before_year_ad-count,
  days_before_month_in_year-ok, month_start-le, year_start-le, month_end-le-year,
}

pub record CivilTime : Type 0 where
  pub year : ℕ
  pub month : ℕ
  pub day : ℕ
  pub hours : ℕ
  pub minutes : ℕ
  pub seconds : ℕ

-- A moment of the Gregorian calendar from 1970 to 9999.
pub record IsValid (c : CivilTime) : Type 0 where
  pub year_low : 1970 ≤ c.year
  pub year_high : c.year ≤ 9999
  pub month_low : 1 ≤ c.month
  pub month_high : c.month ≤ 12
  pub day_low : 1 ≤ c.day
  pub day_high : c.day ≤ month_length c.year c.month
  pub hours_high : c.hours ≤ 23
  pub minutes_high : c.minutes ≤ 59
  pub seconds_high : c.seconds ≤ 59

abbrev pub time_of : CivilTime → Result Time
time_of c = time_from_ymdhms_utc c.year c.month c.day c.hours c.minutes c.seconds

-- The order of dates: by the first field that differs.
pub data Before (a b : CivilTime) : Type 0 where
  earlier_year : a.year < b.year → Before a b
  earlier_month : a.year ≡ b.year → a.month < b.month → Before a b
  earlier_day : a.year ≡ b.year → a.month ≡ b.month → a.day < b.day → Before a b
  earlier_second :
      a.year ≡ b.year
      → a.month ≡ b.month
      → a.day ≡ b.day
      → a.hours * 3600 + a.minutes * 60 + a.seconds < b.hours * 3600 + b.minutes * 60 + b.seconds
      → Before a b

-- the days before 1 January 1970, and before a date
abbrev pub days_since_epoch : CivilTime → ℕ
days_since_epoch c =
    days_of_years (c.year - 1) - days_of_years 1969 + month_start c.year c.month + (c.day - 1)

year-ok :
    (y : ℕ)
    → 1970 ≤ y
    → days_before_year_since_unix_epoch y ≡ ok (days_of_years (y - 1) - days_of_years 1969)
year-ok zero h = absurd (omega arith)
year-ok (suc n) h =
    let pred : suc n - 1 ≡ n = omega arith in
    rw (pred, ← days_before_year_ad-count n, ← days_before_year_ad-count 1969)
      (unfold days_before_year_since_unix_epoch checked_sub days_before_year_ad in ground arith)

years-ad : (y : ℕ) → 1 ≤ y → days_of_years (y - 1) ≡ days_before_year_ad y
years-ad zero h = absurd (omega arith)
years-ad (suc n) h =
    let pred : suc n - 1 ≡ n = omega arith in rw (pred, days_before_year_ad-count n)

epoch : days_of_years 1969 ≡ 719162
epoch = rw (← days_before_year_ad-count 1969) (unfold days_before_year_ad in refl)

year_bounds :
    (y : ℕ)
    → 1970 ≤ y
    → y ≤ 9999
    → (719162 ≤ days_before_year_ad y) × (days_before_year_ad y ≤ 3651694)
unfolding days_before_year_ad
year_bounds y h k = (omega arith, omega arith)

-- On a valid date from 1970 to 9999 the result is the number of seconds of the days of the years
-- since 1970, of the months of the year and of the month before it, each counted one by one by the
-- calendar, and of the day itself.
pub time_of-IsValid :
    (c : CivilTime)
    → IsValid c
    → time_of c ≡ ok (days_since_epoch c * 86400 + (c.hours * 3600 + c.minutes * 60 + c.seconds))
time_of-IsValid c v =
    let years = year-ok c.year v.year_low in
    let months = days_before_month_in_year-ok c.year c.month v.month_low v.month_high in
    unfold time_from_ymdhms_utc checked_sub in rw (years, months) (ground arith)

day_number : CivilTime → ℕ
day_number c = days_before_year_ad c.year + month_start c.year c.month + c.day

abbrev second_of_day : CivilTime → ℕ
second_of_day c = c.hours * 3600 + c.minutes * 60 + c.seconds

year_first :
    (a b : CivilTime) → IsValid a → IsValid b → a.year < b.year → day_number a < day_number b
unfolding day_number
year_first a b va vb h =
    let later : a.year + suc (b.year - a.year - 1) ≡ b.year = omega arith in
    let starts : days_before_year_ad a.year + days_in_year a.year ≤ days_before_year_ad b.year =
      rw later at (year_start-le a.year (b.year - a.year - 1) (omega arith)) in
    omega (arith, starts, month_end-le-year a.year a.month)

month_first :
    (a b : CivilTime)
    → IsValid a
    → IsValid b
    → a.year ≡ b.year
    → a.month < b.month
    → day_number a < day_number b
unfolding day_number
month_first a b va vb e h =
    let later : a.month + suc (b.month - a.month - 1) ≡ b.month = omega arith in
    let starts : month_start a.year a.month + month_length a.year a.month
        ≤ month_start a.year b.month =
      rw later at
        (month_start-le a.year a.month (b.month - a.month - 1) (omega arith) (omega arith)) in
    rw (← e) (omega (arith, starts))

-- The day number orders dates, and the second the moments of one day.
day_number-lt :
    (a b : CivilTime)
    → IsValid a
    → IsValid b
    → Before a b
    → (day_number a < day_number b)
      ⊎ ((day_number a ≡ day_number b) × (second_of_day a < second_of_day b))
day_number-lt a b va vb (earlier_year h) = inl (year_first a b va vb h)
day_number-lt a b va vb (earlier_month e h) = inl (month_first a b va vb e h)
day_number-lt a b va vb (earlier_day e f h) = inl (unfold day_number in rw (e, f) (omega arith))
day_number-lt a b va vb (earlier_second e f g h) = inr ((unfold day_number in rw (e, f, g)), h)

day_number_lem : (c : CivilTime) → IsValid c → day_number c ≡ days_since_epoch c + 719163
unfolding day_number
day_number_lem c v = omega (arith, years-ad c.year, epoch, year_bounds c.year)

-- Of two valid dates from 1970 to 9999 the one that is earlier, by the first field that differs, has
-- the smaller time.
pub time_of-lt :
    (a b : CivilTime) (s t : Time)
    → IsValid a
    → IsValid b
    → Before a b
    → time_of a ≡ ok s
    → time_of b ≡ ok t
    → s < t
time_of-lt a b s t va vb before ea eb = ground (
  arith,
  time_of-IsValid a va,
  time_of-IsValid b vb,
  day_number_lem a va,
  day_number_lem b vb,
  day_number-lt a b va vb before,
)

day_number-le : (c : CivilTime) → IsValid c → day_number c ≤ 3652059
unfolding day_number
day_number-le c v =
    let end : c.year + suc (9999 - c.year) ≡ 10000 = omega arith in
    let last : days_before_year_ad c.year + days_in_year c.year ≤ days_before_year_ad 10000 =
      rw end at (year_start-le c.year (9999 - c.year) (omega arith)) in
    let total : days_before_year_ad 10000 ≡ 3652059 = unfold days_before_year_ad in refl in
    omega (arith, month_end-le-year c.year c.month, last, total)

-- Every valid date from 1970 to 9999 has a time, and it is below 253402300800, so that it fits in a
-- `u64`.
pub time_of_range :
    (c : CivilTime) → IsValid c → (t : Time) × (time_of c ≡ ok t) × (t < 253402300800)
time_of_range c v = (
  days_since_epoch c * 86400 + second_of_day c,
  time_of-IsValid c v,
  omega (arith, day_number_lem c v, day_number-le c v),
)
