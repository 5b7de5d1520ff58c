-- ===== src/Der/Total.antt =====
-- src/der.rs: the decoders come to an end, and which of them take a byte.
use webpki.Prelude.{ℕ, Bool, true, false, List, [], ◌∷◌, not, zero, suc, refl, arith, ◌<◌, length}
use webpki.Error.{Error, bad_der}
use webpki.Result.{Result, ok, err, panic, stuck}
use webpki.Untrusted.{Input, Untrusted, Reader, Decoder, new, remaining, at_end, peek}
use webpki.Untrusted.Total.{
  Ends, returned, failed, panicked, Ends-if, left, Outcome, Outcome-if, Outcome-Ends, IsSuffix-refl,
  value, Outcome-continue, IsTotal, IsTotal-Ends, IsProgress, IsTotal-lift, IsTotal-pure,
  IsTotal-raise, IsTotal-if, IsTotal-branch, IsTotal-map_err, IsTotal-bind,
}
use webpki.Untrusted.Advance.{
  read_byte_or-IsTotal, read_bytes-IsTotal, read_bytes_to_end-IsTotal, IsTotal-read_partial,
  read_all-Ends, read_all-Ends_at, read_byte_or-IsProgress, IsProgress-bind, IsProgress-map_err,
}
use webpki.Untrusted.Loop.Rounds.{round_less}
use webpki.Der.{
  Tag, tag_byte, two_byte_der_size, length_one_byte, length_two_bytes, length_three_bytes,
  length_four_bytes, length_from, read_value, read_tag_and_get_value_limited,
  read_tag_and_get_value, expect_tag_and_get_value_limited, expect_tag, nested_limited, nested,
  nested_loop, nested_of_mut, bit_string_with_no_unused_bits, bit_string_flags, nonnegative_value,
  nonnegative_integer, u8_from_der, bool_of_byte, bool_from_der, check_padding, last_byte, one_byte,
}

pub ruleset total_rules = (
  IsTotal-lift, IsTotal-pure, IsTotal-raise, IsTotal-if, IsTotal-map_err, IsTotal-bind,
  read_byte_or-IsTotal, read_bytes-IsTotal, read_bytes_to_end-IsTotal, IsTotal-read_partial,
  read_all-Ends, Ends-if, returned, failed,
)

module _ ⦃u : Untrusted⦄ where
  module _ {p : Bool} where
    length_one_byte-IsTotal : IsTotal p length_one_byte
    unfolding length_one_byte
    length_one_byte-IsTotal = search (total_rules)

    length_two_bytes-IsTotal : IsTotal p length_two_bytes
    unfolding length_two_bytes
    length_two_bytes-IsTotal = search (total_rules)

    length_three_bytes-IsTotal : IsTotal p length_three_bytes
    unfolding length_three_bytes
    length_three_bytes-IsTotal = search (total_rules)

    length_four_bytes-IsTotal : IsTotal p length_four_bytes
    unfolding length_four_bytes
    length_four_bytes-IsTotal = search (total_rules) depth 8

    length_from-IsTotal : (n : ℕ) → IsTotal p (length_from n)
    unfolding length_from
    length_from-IsTotal n =
        search
          (
            total_rules, length_one_byte-IsTotal, length_two_bytes-IsTotal,
            length_three_bytes-IsTotal, length_four_bytes-IsTotal,
          )
          depth 8

    read_value-IsTotal : (size_limit tag length : ℕ) → IsTotal p (read_value size_limit tag length)
    unfolding read_value
    read_value-IsTotal size_limit tag length = search (total_rules)

    pub read_tag_and_get_value_limited-IsTotal :
        (size_limit : ℕ) → IsTotal p (read_tag_and_get_value_limited size_limit)
    unfolding read_tag_and_get_value_limited
    read_tag_and_get_value_limited-IsTotal size_limit =
        search (total_rules, length_from-IsTotal, read_value-IsTotal)

    pub read_tag_and_get_value-IsTotal : IsTotal p read_tag_and_get_value
    unfolding read_tag_and_get_value
    read_tag_and_get_value-IsTotal = read_tag_and_get_value_limited-IsTotal two_byte_der_size

    pub expect_tag_and_get_value_limited-IsTotal :
        (tag : Tag) (size_limit : ℕ) → IsTotal p (expect_tag_and_get_value_limited tag size_limit)
    unfolding expect_tag_and_get_value_limited
    expect_tag_and_get_value_limited-IsTotal tag size_limit =
        search (total_rules, read_tag_and_get_value_limited-IsTotal)

    pub expect_tag-IsTotal : (tag : Tag) → IsTotal p (expect_tag tag)
    unfolding expect_tag
    expect_tag-IsTotal tag = search (total_rules, read_tag_and_get_value_limited-IsTotal)

    pub IsTotal-nested_limited :
        {A : Type 0} (tag : Tag) (error : Error) {decoder : Decoder A} (size_limit : ℕ)
        → IsTotal p decoder
        → IsTotal p (nested_limited tag error decoder size_limit)
    unfolding nested_limited
    IsTotal-nested_limited tag error size_limit h =
        IsTotal-bind
          (IsTotal-map_err error (expect_tag_and_get_value_limited-IsTotal tag size_limit))
          (λ v. IsTotal-lift (read_all-Ends v error h))

    pub IsTotal-nested :
        {A : Type 0} (tag : Tag) (error : Error) {decoder : Decoder A}
        → IsTotal p decoder
        → IsTotal p (nested tag error decoder)
    unfolding nested
    IsTotal-nested tag error h = IsTotal-nested_limited tag error two_byte_der_size h

    -- a decoder of which only the result is known
    pub nested-Ends :
        {A : Type 0} (tag : Tag) (error : Error) (decoder : Decoder A)
        → ((i : Input) → Ends p (decoder (new i)).0)
        → (r : Reader) → Ends p (nested tag error decoder r).0
    unfolding nested nested_limited
    nested-Ends tag error decoder h r =
        IsTotal-Ends
          (IsTotal-bind
            (IsTotal-map_err error (expect_tag_and_get_value_limited-IsTotal tag two_byte_der_size))
            (λ v. IsTotal-lift (read_all-Ends_at v error (h v))))
          r

  pub read_tag_and_get_value_limited-IsProgress :
      (size_limit : ℕ) → IsProgress (read_tag_and_get_value_limited size_limit)
  unfolding read_tag_and_get_value_limited
  read_tag_and_get_value_limited-IsProgress size_limit =
      IsProgress-bind {p = false} (read_byte_or-IsProgress bad_der)
        (search (total_rules, length_from-IsTotal, read_value-IsTotal))

  pub read_tag_and_get_value-IsProgress : IsProgress read_tag_and_get_value
  unfolding read_tag_and_get_value
  read_tag_and_get_value-IsProgress = read_tag_and_get_value_limited-IsProgress two_byte_der_size

  pub expect_tag_and_get_value_limited-IsProgress :
      (tag : Tag) (size_limit : ℕ) → IsProgress (expect_tag_and_get_value_limited tag size_limit)
  unfolding expect_tag_and_get_value_limited
  expect_tag_and_get_value_limited-IsProgress tag size_limit =
      IsProgress-bind {p = false} (read_tag_and_get_value_limited-IsProgress size_limit)
        (search (total_rules))

  pub expect_tag-IsProgress : (tag : Tag) → IsProgress (expect_tag tag)
  unfolding expect_tag
  expect_tag-IsProgress tag =
      IsProgress-bind {p = false} (read_tag_and_get_value_limited-IsProgress two_byte_der_size)
        (search (total_rules))

  pub IsProgress-nested :
      {A : Type 0} {p : Bool} (tag : Tag) (error : Error) {decoder : Decoder A}
      → IsTotal p decoder
      → IsProgress (nested tag error decoder)
  unfolding nested nested_limited
  IsProgress-nested {A} {p} tag error h =
      IsProgress-bind {p = p}
        (IsProgress-map_err error
          (expect_tag_and_get_value_limited-IsProgress tag two_byte_der_size))
        (search (total_rules, h))

  module _ {A : Type 0} {p : Bool} where
    -- what is left, and not a byte more, is fuel enough
    nested_loop-Outcome :
        (fuel : ℕ) (tag : Tag) (error : Error) (decoder : A → Decoder A)
        → ((a : A) → IsTotal p (decoder a))
        → (a : A) (r : Reader) → left r < fuel
        → Outcome p (remaining r) (nested_loop fuel tag error decoder a r)
    unfolding nested_loop
    nested_loop-Outcome zero tag error decoder total a r h = absurd (omega arith)
    nested_loop-Outcome (suc fuel) tag error decoder total a r h =
        Outcome-continue (nested tag error (decoder a) r) _
          ((IsTotal-nested tag error (total a)).at r)
          (λ b s k. Outcome-if (at_end s) (value (IsSuffix-refl _)) (
            nested_loop-Outcome fuel tag error decoder total b s (
              omega (
                arith,
                round_less (nested tag error (decoder a)) r (IsProgress-nested tag error (total a))
                    k,
              ))))

    -- over bytes of their own
    pub nested_loop-Ends :
        (input : Input) (tag : Tag) (error : Error) (decoder : A → Decoder A) (a : A)
        → ((a : A) → IsTotal p (decoder a))
        → Ends p (nested_loop (suc (length input)) tag error decoder a (new input)).0
    nested_loop-Ends input tag error decoder a total = Outcome-Ends (
        nested_loop-Outcome (suc (length input)) tag error decoder total a (new input)
          (rw (u.remaining-new input) (omega arith)))

    pub IsTotal-nested_of_mut :
        (outer_tag inner_tag : Tag) (error : Error) {decoder : A → Decoder A}
        → ((a : A) → IsTotal p (decoder a))
        → (a : A) → IsTotal p (nested_of_mut outer_tag inner_tag error decoder a)
    unfolding nested_of_mut
    IsTotal-nested_of_mut outer_tag inner_tag error {decoder} total a =
        IsTotal-nested outer_tag error (record {
          at = λ r.
              nested_loop-Outcome (suc (left r)) inner_tag error decoder total a r (omega arith);
        })

  module _ {p : Bool} where
    pub bit_string_with_no_unused_bits-IsTotal : IsTotal p bit_string_with_no_unused_bits
    unfolding bit_string_with_no_unused_bits
    bit_string_with_no_unused_bits-IsTotal = search (total_rules, IsTotal-nested)

    nonnegative_value-Ends : (i : Input) → Ends p (nonnegative_value i)
    unfolding nonnegative_value
    nonnegative_value-Ends [] = failed
    nonnegative_value-Ends (zero ∷ []) = returned
    nonnegative_value-Ends (zero ∷ second ∷ rest) = search (total_rules)
    nonnegative_value-Ends (suc first ∷ rest) = search (total_rules)

    pub nonnegative_integer-IsTotal : IsTotal p nonnegative_integer
    unfolding nonnegative_integer
    nonnegative_integer-IsTotal = search (total_rules, expect_tag-IsTotal, nonnegative_value-Ends)

    one_byte-Ends : (i : Input) → Ends p (one_byte i)
    unfolding one_byte
    one_byte-Ends [] = failed
    one_byte-Ends (b ∷ []) = returned
    one_byte-Ends (b ∷ c ∷ i) = failed

    pub u8_from_der-IsTotal : IsTotal p u8_from_der
    unfolding u8_from_der
    u8_from_der-IsTotal = search (total_rules, nonnegative_integer-IsTotal, one_byte-Ends)

    bool_of_byte-IsTotal : IsTotal p bool_of_byte
    unfolding bool_of_byte
    bool_of_byte-IsTotal = search (total_rules)

    pub bool_from_der-IsTotal : IsTotal p bool_from_der
    unfolding bool_from_der
    bool_from_der-IsTotal =
        IsTotal-branch (λ r. not (peek r (tag_byte Tag.boolean))) (IsTotal-pure false)
          (IsTotal-nested _ _ bool_of_byte-IsTotal)

  -- The one call that may panic, on the empty bit string.
  check_padding-Ends :
      (raw_bits : List ℕ) (padding_bits : ℕ) (x : Result ℕ)
      → Ends true x
      → Ends true (check_padding raw_bits padding_bits x)
  unfolding check_padding
  check_padding-Ends raw_bits padding_bits (ok b) h = search (total_rules)
  check_padding-Ends raw_bits padding_bits (err e) h = failed
  check_padding-Ends raw_bits padding_bits panic h = panicked refl
  check_padding-Ends raw_bits padding_bits stuck h = elim h [ ]

  last_byte-Ends : (i : List ℕ) → Ends true (last_byte i)
  unfolding last_byte
  last_byte-Ends [] = panicked refl
  last_byte-Ends (b ∷ []) = returned
  last_byte-Ends (b ∷ c ∷ i) = last_byte-Ends (c ∷ i)

  pub bit_string_flags-Ends : (i : Input) → Ends true (bit_string_flags i)
  unfolding bit_string_flags
  bit_string_flags-Ends i =
      read_all-Ends i bad_der (search (total_rules, check_padding-Ends, last_byte-Ends) depth 8)
