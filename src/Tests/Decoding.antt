-- ===== src/Tests/Decoding.antt =====
-- DER values and times.
use webpki.Prelude.{◌+◌, ◌*◌, ◌<◌, ◌≡◌, ◌≢◌, ◌↔◌, refl, arith, bit_and, [], ◌∷◌, ◌++◌, length}
use webpki.Error.{DerTypeId, trailing_data}
use webpki.Result.{ok, panic}
use webpki.Untrusted.{Input, new, at_end, complete, read_bytes_to_end}
use webpki.Untrusted.Slice.{slice}
use webpki.Der.{
  octet_string, tag_byte, generalized_time, read_tag_and_get_value_limited, nested,
  bit_string_flags, der_code,
}
use webpki.Der.Length.{encode, read-encode}
use webpki.Der.Canonical.{read-canonical}
use webpki.Der.Nested.{nested-encode}
use webpki.Der.Flags.{bit_string_flags-panic_iff}
use webpki.Time.{Time, time_from_der, days_before_year_ad, time_code}
use webpki.Time.Calendar.{month_length, days_of_years, days_before_year_ad-count}
use webpki.Time.Order.{
  CivilTime, IsValid, earlier_month, time_of, days_since_epoch, time_of-IsValid, time_of-lt,
  time_of_range,
}
use webpki.Time.Parse.{generalized, time_from_der-generalized}

abbrev three_bytes : Input
three_bytes = 1 ∷ 2 ∷ 3 ∷ []

read-encode_example :
    read_tag_and_get_value_limited ⦃u = slice⦄ 65535
      (new ⦃u = slice⦄ (encode 4 three_bytes ++ 9 ∷ []))
    ≡ (ok (4, three_bytes), new ⦃u = slice⦄ (9 ∷ []))
read-encode_example =
    read-encode ⦃u = slice⦄ 65535 4 three_bytes (9 ∷ []) (omega arith) (omega arith) (omega arith)

read_octets :
    read_tag_and_get_value_limited ⦃u = slice⦄ 65535 (new ⦃u = slice⦄ (4 ∷ 3 ∷ 1 ∷ 2 ∷ 3 ∷ 9 ∷ []))
    ≡ (ok (4, three_bytes), new ⦃u = slice⦄ (9 ∷ []))
unfolding der_code
read_octets = refl

read-canonical_example :
    (4 ∷ 3 ∷ 1 ∷ 2 ∷ 3 ∷ 9 ∷ [] ≡ encode 4 three_bytes ++ 9 ∷ [])
    × (length three_bytes < 65535)
    × (bit_and 4 31 ≢ 31)
read-canonical_example =
    read-canonical ⦃u = slice⦄ 65535 (4 ∷ 3 ∷ 1 ∷ 2 ∷ 3 ∷ 9 ∷ []) 4 three_bytes (9 ∷ [])
      (omega arith, (omega arith, (omega arith, (omega arith, (omega arith, (omega arith, tt))))))
      read_octets

nested-encode_example :
    nested ⦃u = slice⦄ octet_string
      (trailing_data DerTypeId.extension)
      (read_bytes_to_end ⦃u = slice⦄)
      (new ⦃u = slice⦄ (encode (tag_byte octet_string) three_bytes ++ 9 ∷ []))
    ≡ (
      complete
          (at_end ⦃u = slice⦄)
          (trailing_data DerTypeId.extension)
          (read_bytes_to_end ⦃u = slice⦄ (new ⦃u = slice⦄ three_bytes)),
      new ⦃u = slice⦄ (9 ∷ []),
    )
nested-encode_example =
    nested-encode ⦃u = slice⦄ octet_string (trailing_data DerTypeId.extension)
      (read_bytes_to_end ⦃u = slice⦄) three_bytes (9 ∷ []) (omega arith)

abbrev no_flags : Input
no_flags = 0 ∷ []

bit_string_flags-panic_iff_example :
    (bit_string_flags ⦃u = slice⦄ no_flags ≡ panic) ↔ (no_flags ≡ no_flags)
bit_string_flags-panic_iff_example = bit_string_flags-panic_iff ⦃u = slice⦄ no_flags

days_before_year_ad-count_example : days_before_year_ad 1970 ≡ days_of_years 1969
days_before_year_ad-count_example = days_before_year_ad-count 1969

abbrev leap_day : CivilTime
leap_day = record { year = 2000; month = 2; day = 29; hours = 23; minutes = 59; seconds = 59 }

abbrev march : CivilTime
march = record { year = 2000; month = 3; day = 1; hours = 0; minutes = 0; seconds = 0 }

february : month_length 2000 2 ≡ 29
unfolding month_length
february = refl

leap_day-IsValid : IsValid leap_day
leap_day-IsValid = record {
  year_low = omega arith;
  year_high = omega arith;
  month_low = omega arith;
  month_high = omega arith;
  day_low = omega arith;
  day_high = omega (arith, february);
  hours_high = omega arith;
  minutes_high = omega arith;
  seconds_high = omega arith;
}

time_of-IsValid_example :
    time_of leap_day ≡ ok (days_since_epoch leap_day * 86400 + (23 * 3600 + 59 * 60 + 59))
time_of-IsValid_example = time_of-IsValid leap_day leap_day-IsValid

march-IsValid : IsValid march
unfolding month_length
march-IsValid = record {
  year_low = omega arith;
  year_high = omega arith;
  month_low = omega arith;
  month_high = omega arith;
  day_low = omega arith;
  day_high = omega arith;
  hours_high = omega arith;
  minutes_high = omega arith;
  seconds_high = omega arith;
}

leap_day_time : time_of leap_day ≡ ok 951868799
unfolding time_code
leap_day_time = refl

march_time : time_of march ≡ ok 951868800
unfolding time_code
march_time = refl

time_of-lt_example : 951868799 < 951868800
time_of-lt_example =
    time_of-lt leap_day march 951868799 951868800 leap_day-IsValid march-IsValid
      (earlier_month refl (omega arith)) leap_day_time march_time

time_of_range_example : (t : Time) × (time_of leap_day ≡ ok t) × (t < 253402300800)
time_of_range_example = time_of_range leap_day leap_day-IsValid

time_from_der-generalized_example :
    time_from_der ⦃u = slice⦄
      (new ⦃u = slice⦄ (encode (tag_byte generalized_time) (generalized leap_day) ++ 5 ∷ []))
    ≡ (time_of leap_day, new ⦃u = slice⦄ (5 ∷ []))
time_from_der-generalized_example =
    time_from_der-generalized ⦃u = slice⦄ leap_day (5 ∷ []) leap_day-IsValid
