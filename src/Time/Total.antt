-- ===== src/Time/Total.antt =====
-- src/time.rs: reading a time comes to an end.
use webpki.Prelude.{
  ℕ, ◌≤◌, ◌≡◌, ◌≢◌, ap, ◌+◌, ◌*◌, Bool, true, false, ◌||◌, ltb, refl, arith, inl, inr, Bool-cases,
  if◌then◌else◌,
}
use webpki.Error.{bad_der_time}
use webpki.Result.{Result, ok, err, panic, stuck}
use webpki.Exec.{pure, raise, >>=-eq-ok}
use webpki.Untrusted.{Untrusted, Reader, peek}
use webpki.Untrusted.Total.{
  Ends, returned, failed, Ends-bind, IsTotal, IsTotal-bind, IsTotal-bind_value, IsTotal-lift,
}
use webpki.Der.Total.{total_rules, IsTotal-nested}
use webpki.Time.{
  tag_byte, utc_time, days_in_month, days_before_year_ad, days_before_unix_epoch_ad, checked_sub,
  days_before_year_since_unix_epoch, days_before_month_in_year, time_from_ymdhms_utc, read_digit,
  read_two_digits, read_year, read_time, time_from_der,
}

abbrev IsMonth : ℕ → Type 0
IsMonth m = (1 ≤ m) × (m ≤ 12)

module _ ⦃u : Untrusted⦄ where
  in_range :
      (min max value : ℕ) (r : Reader) (a : ℕ) (s : Reader)
      → (if ltb value min || ltb max value then raise bad_der_time else pure value) r ≡ (ok a, s)
      → (min ≤ a) × (a ≤ max)
  in_range min max value r a s h = ground arith

  read_two_digits_range :
      (min max : ℕ) (r : Reader) (a : ℕ)
      → (read_two_digits min max r).0 ≡ ok a
      → (min ≤ a) × (a ≤ max)
  unfolding read_two_digits
  read_two_digits_range min max r a h =
      let (hi, s, e, k) =
        >>=-eq-ok read_digit _ r (ap (λ t. (t, (read_two_digits min max r).1)) h) in
      let (lo, t, f, l) = >>=-eq-ok read_digit _ s k in in_range min max (hi * 10 + lo) t a _ l

epoch-le : (year : ℕ) → 1970 ≤ year → days_before_unix_epoch_ad ≤ days_before_year_ad year
unfolding days_before_year_ad
epoch-le year h = omega arith

module _ {p : Bool} where
  ends_of : {A : Type 0} (x : Result A) → x ≢ panic → x ≢ stuck → Ends p x
  ends_of (ok a) h k = returned
  ends_of (err e) h k = failed
  ends_of panic h k = absurd (h refl)
  ends_of stuck h k = absurd (k refl)

  days_in_month-Ends : (year month : ℕ) → IsMonth month → Ends p (days_in_month year month)
  unfolding days_in_month
  days_in_month-Ends year month h = ends_of _ (ground arith) (ground arith)

  days_before_month_in_year-Ends :
      (year month : ℕ) → IsMonth month → Ends p (days_before_month_in_year year month)
  unfolding days_before_month_in_year
  days_before_month_in_year-Ends year month h = ends_of _ (ground arith) (ground arith)

  checked_sub-Ends : (a b : ℕ) → b ≤ a → Ends p (checked_sub a b)
  unfolding checked_sub
  checked_sub-Ends a b h = ends_of _ (ground arith) (ground arith)

  year-Ends : (year : ℕ) → Ends p (days_before_year_since_unix_epoch year)
  unfolding days_before_year_since_unix_epoch
  year-Ends year = elim (Bool-cases (ltb year 1970)) [
    | inl e ↦ rw e failed
    | inr e ↦ rw e (checked_sub-Ends _ _ (epoch-le year (ground arith)))
  ]

  time_from_ymdhms_utc-Ends :
      (year month day hours minutes seconds : ℕ)
      → IsMonth month
      → 1 ≤ day
      → Ends p (time_from_ymdhms_utc year month day hours minutes seconds)
  unfolding time_from_ymdhms_utc
  time_from_ymdhms_utc-Ends year month day hours minutes seconds h k =
      Ends-bind (year-Ends year) (λ before_year.
        Ends-bind (days_before_month_in_year-Ends year month h) (λ before_month.
          Ends-bind (checked_sub-Ends _ 1 (omega arith)) (λ days_before. returned)))

  module _ ⦃u : Untrusted⦄ where
    read_digit-IsTotal : IsTotal p read_digit
    unfolding read_digit
    read_digit-IsTotal = search (total_rules)

    read_two_digits-IsTotal : (min max : ℕ) → IsTotal p (read_two_digits min max)
    unfolding read_two_digits
    read_two_digits-IsTotal min max = search (total_rules, read_digit-IsTotal)

    read_year-IsTotal : (is_utc_time : Bool) → IsTotal p (read_year is_utc_time)
    unfolding read_year
    read_year-IsTotal true = search (total_rules, read_two_digits-IsTotal)
    read_year-IsTotal false = search (total_rules, read_two_digits-IsTotal)

    read_time-IsTotal : (is_utc_time : Bool) → IsTotal p (read_time is_utc_time)
    unfolding read_time
    read_time-IsTotal is_utc_time = IsTotal-bind (read_year-IsTotal is_utc_time) (λ year.
        IsTotal-bind_value IsMonth (read_two_digits-IsTotal 1 12) (read_two_digits_range 1 12)
          (λ month h. IsTotal-bind (IsTotal-lift (days_in_month-Ends year month h)) (λ last_day.
            IsTotal-bind_value (λ day. (1 ≤ day) × (day ≤ last_day))
              (read_two_digits-IsTotal 1 last_day) (read_two_digits_range 1 last_day)
              (λ day k.
                search (total_rules, read_two_digits-IsTotal, time_from_ymdhms_utc-Ends, h, k.0)
                  depth 8))))

    pub time_from_der-IsTotal : IsTotal p time_from_der
    unfolding time_from_der
    time_from_der-IsTotal = record {
      at = λ r. (IsTotal-nested _ _ (read_time-IsTotal (peek r (tag_byte utc_time)))).at r;
    }
