-- ===== src/Time.antt =====
-- src/time.rs: UTCTime and GeneralizedTime into seconds since 1970. A `Time` is its `u64`.
-- `unreachable!()` is `panic`, and so are an assertion that fails and a subtraction below 0.
pub mod Calendar
pub mod Order
pub mod Parse
pub mod Total
use webpki.Prelude.{
  ℕ, ◌+◌, ◌-◌, ◌*◌, ◌/◌, ◌%◌, Bool, true, false, not, ◌&&◌, ◌||◌, ltb, leb, ◌==◌, if◌then◌else◌,
}
use webpki.Error.{Error, DerTypeId, bad_der_time, trailing_data}
use webpki.Result.{Result, ok, err, panic, stuck}
use webpki.Result
use webpki.Exec.{pure, raise, lift, ◌>>=◌, ◌>>◌}
use webpki.Untrusted.{Untrusted, Reader, Decoder, peek, read_byte_or}
use webpki.Der.{Tag, utc_time, generalized_time, tag_byte, nested, der_code}

abbrev pub Time : Type 0
Time = ℕ

abbrev pub unix_epoch_year : ℕ
unix_epoch_year = 1970

abbrev pub days_before_unix_epoch_ad : ℕ
days_before_unix_epoch_ad = 1969 * 365 + 477

pub days_in_feb : ℕ → ℕ
days_in_feb year = if (year % 4 == 0) && (not (year % 100 == 0) || year % 400 == 0) then 29 else 28

pub days_in_month : ℕ → ℕ → Result ℕ
unfolding days_in_feb
days_in_month year month =
    if month == 1
      || month == 3
      || month == 5
      || month == 7
      || month == 8
      || month == 10
      || month == 12
    then ok 31
    else if month == 4 || month == 6 || month == 9 || month == 11
    then ok 30
    else if month == 2
    then ok (days_in_feb year)
    else panic

-- The years that it is called with are 1970 and later.
pub days_before_year_ad : ℕ → ℕ
days_before_year_ad year = (year - 1) * 365 + (year - 1) / 4 - (year - 1) / 100 + (year - 1) / 400

-- `a - b` on `u64`, which must not go below 0
pub checked_sub : ℕ → ℕ → Result ℕ
checked_sub a b = if ltb a b then panic else ok (a - b)

-- The `debug_assert!` fails exactly where the subtraction behind it goes below 0.
pub days_before_year_since_unix_epoch : ℕ → Result ℕ
unfolding days_before_year_ad checked_sub
days_before_year_since_unix_epoch year =
    if ltb year unix_epoch_year
    then err bad_der_time
    else checked_sub (days_before_year_ad year) days_before_unix_epoch_ad

-- the `match month`
pub days_before_month_in_year : ℕ → ℕ → Result ℕ
unfolding days_in_feb
days_before_month_in_year year month =
    let feb = days_in_feb year in
    if month == 1
    then ok 0
    else if month == 2
    then ok 31
    else if month == 3
    then ok (31 + feb)
    else if month == 4
    then ok (31 + feb + 31)
    else if month == 5
    then ok (31 + feb + 31 + 30)
    else if month == 6
    then ok (31 + feb + 31 + 30 + 31)
    else if month == 7
    then ok (31 + feb + 31 + 30 + 31 + 30)
    else if month == 8
    then ok (31 + feb + 31 + 30 + 31 + 30 + 31)
    else if month == 9
    then ok (31 + feb + 31 + 30 + 31 + 30 + 31 + 31)
    else if month == 10
    then ok (31 + feb + 31 + 30 + 31 + 30 + 31 + 31 + 30)
    else if month == 11
    then ok (31 + feb + 31 + 30 + 31 + 30 + 31 + 31 + 30 + 31)
    else if month == 12
    then ok (31 + feb + 31 + 30 + 31 + 30 + 31 + 31 + 30 + 31 + 30)
    else panic

abbrev pub seconds_at : ℕ → ℕ → ℕ → ℕ → Time
seconds_at days_before hours minutes seconds =
    days_before * 24 * 60 * 60 + hours * 60 * 60 + minutes * 60 + seconds

pub time_from_ymdhms_utc : ℕ → ℕ → ℕ → ℕ → ℕ → ℕ → Result Time
time_from_ymdhms_utc year month day_of_month hours minutes seconds =
    Result.◌>>=◌ (days_before_year_since_unix_epoch year) λ before_year.
      Result.◌>>=◌ (days_before_month_in_year year month) λ before_month.
        Result.◌>>=◌ (checked_sub (before_year + before_month + day_of_month) 1)
          λ days_before. ok (seconds_at days_before hours minutes seconds)

module _ ⦃u : Untrusted⦄ where
  read_digit : Decoder ℕ
  read_digit = do
    b ← read_byte_or bad_der_time
    if leb b'0' b && leb b b'9' then pure (b - b'0') else raise bad_der_time

  pub read_two_digits : ℕ → ℕ → Decoder ℕ
  read_two_digits min max = do
    hi ← read_digit
    lo ← read_digit
    let value = hi * 10 + lo
    if ltb value min || ltb max value then raise bad_der_time else pure value

  pub read_year : Bool → Decoder ℕ
  read_year true = do lo ← read_two_digits 0 99; pure ((if leb 50 lo then 19 else 20) * 100 + lo)
  read_year false = do hi ← read_two_digits 0 99; lo ← read_two_digits 0 99; pure (hi * 100 + lo)

  -- the closure of `from_der`
  pub read_time : Bool → Decoder Time
  read_time is_utc_time = do
    year ← read_year is_utc_time
    month ← read_two_digits 1 12
    last_day ← lift (days_in_month year month)
    day_of_month ← read_two_digits 1 last_day
    hours ← read_two_digits 0 23
    minutes ← read_two_digits 0 59
    seconds ← read_two_digits 0 59
    time_zone ← read_byte_or bad_der_time
    if not (time_zone == b'Z')
        then raise bad_der_time
        else do lift (time_from_ymdhms_utc year month day_of_month hours minutes seconds)

  -- `impl FromDer for Time`
  pub time_from_der : Decoder Time
  time_from_der input =
      let is_utc_time = peek input (tag_byte utc_time) in
      let expected_tag = if is_utc_time then utc_time else generalized_time in
      nested expected_tag (trailing_data DerTypeId.time) (read_time is_utc_time) input

-- What a run at a concrete input has to see through.
unfoldable pub time_code : Unit {0}
unfolding der_code days_in_month checked_sub days_before_year_since_unix_epoch
    days_before_month_in_year time_from_ymdhms_utc read_digit read_two_digits read_year read_time
    time_from_der
time_code = tt
