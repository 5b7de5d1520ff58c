-- ===== src/Time/Calendar.antt =====
-- src/time.rs: the Gregorian calendar counted year by year and month by month, for the closed
-- formulas.
use webpki.Prelude.{
  ℕ, zero, suc, ◌+◌, ◌-◌, ◌%◌, ◌≤◌, ◌≡◌, refl, arith, inl, inr, Bool-cases, Bool, not, ◌&&◌, ◌||◌,
  ◌==◌, if◌then◌else◌,
}
use webpki.Result.{ok}
use webpki.Time.{days_in_feb, days_in_month, days_before_year_ad, days_before_month_in_year}

-- A leap year every fourth, but for the hundredth, but for the four hundredth.
abbrev pub is_leap : ℕ → Bool
is_leap year = (year % 4 == 0) && (not (year % 100 == 0) || year % 400 == 0)

pub days_in_year : ℕ → ℕ
days_in_year year = if is_leap year then 366 else 365

-- The days of the years 1 to `n`.
pub days_of_years : ℕ → ℕ
unfolding days_in_year
days_of_years zero = 0
days_of_years (suc n) = days_of_years n + days_in_year (suc n)

pub days_before_year_ad-suc :
    (y : ℕ) → 1 ≤ y → days_before_year_ad (suc y) ≡ days_before_year_ad y + days_in_year y
unfolding days_before_year_ad days_in_year
days_before_year_ad-suc y h = ground arith

-- For every year the closed formula gives the days of all the years before it, counted year by year
-- with 366 days in a leap year of the Gregorian calendar and 365 in any other.
pub days_before_year_ad-count : (n : ℕ) → days_before_year_ad (suc n) ≡ days_of_years n
unfolding days_of_years
days_before_year_ad-count zero = unfold days_before_year_ad in refl
days_before_year_ad-count (suc n) =
    omega (arith, days_before_year_ad-suc (suc n), days_before_year_ad-count n)

-- A month's first day is behind the whole month before it.
pub days_before_month-suc :
    (y m b d : ℕ)
    → 1 ≤ m
    → m ≤ 11
    → days_before_month_in_year y m ≡ ok b
    → days_in_month y m ≡ ok d
    → days_before_month_in_year y (suc m) ≡ ok (b + d)
unfolding days_before_month_in_year days_in_month
days_before_month-suc y m b d h k = ground arith

unfoldable pub month_length : ℕ → ℕ → ℕ
month_length y m =
    if m == 2
    then (if is_leap y then 29 else 28)
    else if m == 4 || m == 6 || m == 9 || m == 11
    then 30
    else 31

-- The days of the months before a month, added up.
pub month_start : ℕ → ℕ → ℕ
month_start y zero = 0
month_start y (suc zero) = 0
month_start y (suc (suc m)) = month_start y (suc m) + month_length y (suc m)

pub days_in_month-ok : (y m : ℕ) → 1 ≤ m → m ≤ 12 → days_in_month y m ≡ ok (month_length y m)
unfolding month_length days_in_month days_in_feb
days_in_month-ok y m h k = ground arith

pub month_start-suc : (y m : ℕ) → 1 ≤ m → month_start y (suc m) ≡ month_start y m + month_length y m
unfolding month_start
month_start-suc y zero h = absurd (omega arith)
month_start-suc y (suc m) h = refl

first_month : (y : ℕ) → days_before_month_in_year y 1 ≡ ok 0
unfolding days_before_month_in_year
first_month y = refl

pub days_before_month_in_year-ok :
    (y m : ℕ) → 1 ≤ m → m ≤ 12 → days_before_month_in_year y m ≡ ok (month_start y m)
unfolding month_start
days_before_month_in_year-ok y zero h k = absurd (omega arith)
days_before_month_in_year-ok y (suc zero) h k = first_month y
days_before_month_in_year-ok y (suc (suc m)) h k =
    days_before_month-suc y (suc m) (month_start y (suc m)) (month_length y (suc m)) (omega arith)
      (omega arith) (days_before_month_in_year-ok y (suc m) (omega arith) (omega arith))
      (days_in_month-ok y (suc m) (omega arith) (omega arith))

pub month_length-pos : (y m : ℕ) → 1 ≤ m → m ≤ 12 → 28 ≤ month_length y m
unfolding month_length
month_length-pos y m h k = ground arith

pub month_length-le : (y m : ℕ) → month_length y m ≤ 31
unfolding month_length
month_length-le y m = ground arith

-- December ends with the year.
pub year_end : (y : ℕ) → month_start y 12 + month_length y 12 ≡ days_in_year y
unfolding month_start month_length days_in_year
year_end y = ground arith

-- A later month begins behind the whole of an earlier one.
pub month_start-le :
    (y m k : ℕ)
    → 1 ≤ m
    → m + suc k ≤ 12
    → month_start y m + month_length y m ≤ month_start y (m + suc k)
month_start-le y m zero h b =
    let next : m + 1 ≡ suc m = omega arith in rw next (omega (arith, month_start-suc y m))
month_start-le y m (suc k) h b =
    let next : m + suc (suc k) ≡ suc (m + suc k) = omega arith in
    rw next (omega (arith, month_start-le y m k h (omega arith), month_start-suc y (m + suc k)))

pub year_start-le :
    (y k : ℕ) → 1 ≤ y → days_before_year_ad y + days_in_year y ≤ days_before_year_ad (y + suc k)
year_start-le y zero h =
    let next : y + 1 ≡ suc y = omega arith in rw next (omega (arith, days_before_year_ad-suc y))
year_start-le y (suc k) h =
    let next : y + suc (suc k) ≡ suc (y + suc k) = omega arith in
    rw next (omega (arith, year_start-le y k h, days_before_year_ad-suc (y + suc k)))

pub month_end-le-year :
    (y m : ℕ) → 1 ≤ m → m ≤ 12 → month_start y m + month_length y m ≤ days_in_year y
month_end-le-year y m h k = elim (Bool-cases (m == 12)) [
  | inl e ↦ let last : m ≡ 12 = ground arith in rw last (omega (arith, year_end y))
  | inr e ↦
      let rest : m + suc (11 - m) ≡ 12 = ground arith in
      let below : month_start y m + month_length y m ≤ month_start y 12 =
        rw rest at (month_start-le y m (11 - m) h (omega arith)) in
      omega (arith, below, year_end y)
]
