-- ===== src/Time/Parse.antt =====
-- src/time.rs: dates written as GeneralizedTime, for `from_der`.
use webpki.Prelude.{ℕ, ◌+◌, ◌/◌, ◌%◌, ◌≤◌, ◌≡◌, arith, false, [], ◌∷◌, ◌++◌}
use webpki.Error.{DerTypeId, trailing_data}
use webpki.Result.{ok}
use webpki.Untrusted.{Input, Untrusted, new}
use webpki.Der.{generalized_time, tag_byte}
use webpki.Der.Length.{encode, first_is-encode}
use webpki.Der.Nested.{nested-encode}
use webpki.Time.{read_digit, read_two_digits, read_year, read_time, time_from_der}
use webpki.Time.Calendar.{days_in_month-ok, month_length, month_length-le}
use webpki.Time.Order.{CivilTime, IsValid, time_of, time_of-IsValid}

-- Two decimal digits in ASCII, with more behind them.
abbrev pub two_digits : ℕ → Input → Input
two_digits v rest = (48 + v / 10) ∷ (48 + v % 10) ∷ rest

-- YYYYMMDDHHMMSSZ
abbrev pub generalized : CivilTime → Input
generalized c = two_digits (c.year / 100) (
    two_digits (c.year % 100) (
      two_digits c.month (
        two_digits c.day
          (two_digits c.hours (two_digits c.minutes (two_digits c.seconds (b'Z' ∷ [])))))))

module _ ⦃u : Untrusted⦄ where
  read_digit-new : (d : ℕ) (i : Input) → d ≤ 9 → read_digit (new ((48 + d) ∷ i)) ≡ (ok d, new i)
  unfolding read_digit
  read_digit-new d i h = simp u.read_byte-cons (ground arith)

  read_two_digits-new :
      (min max v : ℕ) (i : Input)
      → min ≤ v
      → v ≤ max
      → v ≤ 99
      → read_two_digits min max (new (two_digits v i)) ≡ (ok v, new i)
  unfolding read_two_digits
  read_two_digits-new min max v i low high h =
      rw (read_digit-new (v / 10) ((48 + v % 10) ∷ i) (omega arith))
        (rw (read_digit-new (v % 10) i (omega arith)) (ground arith))

  read_year-new :
      (year : ℕ) (i : Input)
      → year ≤ 9999
      → read_year false (new (two_digits (year / 100) (two_digits (year % 100) i)))
        ≡ (ok year, new i)
  unfolding read_year
  read_year-new year i h =
      rw
        (read_two_digits-new 0 99 (year / 100) (two_digits (year % 100) i) (omega arith)
          (omega arith) (omega arith))
        (rw (read_two_digits-new 0 99 (year % 100) i (omega arith) (omega arith) (omega arith))
          (ground arith))

  read_time-generalized :
      (c : CivilTime) → IsValid c → read_time false (new (generalized c)) ≡ (time_of c, new [])
  unfolding read_time
  read_time-generalized c v = rw (
    read_year-new c.year _ v.year_high,
    read_two_digits-new 1 12 c.month _ v.month_low v.month_high (omega arith),
    days_in_month-ok c.year c.month v.month_low v.month_high,
    read_two_digits-new 1 (month_length c.year c.month) c.day _ v.day_low v.day_high
        (omega (arith, month_length-le c.year c.month)),
    read_two_digits-new 0 23 c.hours _ (omega arith) v.hours_high (omega arith),
    read_two_digits-new 0 59 c.minutes _ (omega arith) v.minutes_high (omega arith),
    read_two_digits-new 0 59 c.seconds _ (omega arith) v.seconds_high (omega arith),
    u.read_byte-cons,
  )

  -- The GeneralizedTime of a valid date from 1970 to 9999, whatever bytes follow it, is read as the
  -- date's time, and the reader stands behind it.
  pub time_from_der-generalized :
      (c : CivilTime) (rest : Input)
      → IsValid c
      → time_from_der (new (encode (tag_byte generalized_time) (generalized c) ++ rest))
        ≡ (time_of c, new rest)
  unfolding time_from_der
  time_from_der-generalized c rest v =
      let value =
        nested-encode generalized_time (trailing_data DerTypeId.time) (read_time false)
          (generalized c) rest (omega arith) in
      rw (
        u.peek-new,
        first_is-encode 23 24 (generalized c) rest,
        value,
        read_time-generalized c v,
        time_of-IsValid c v,
        u.at_end-new,
      )
