-- ===== src/Der.antt =====
-- src/der.rs: reading DER values.
pub mod Length
pub mod Canonical
pub mod Nested
pub mod Flags
pub mod Total
pub mod Inversion
pub mod Gives
use webpki.Prelude.{
  ℕ, zero, suc, ◌+◌, ◌-◌, ◌*◌, ◌/◌, ◌%◌, ◌^◌, bit_and, bit_or, Bool, true, false, not, ◌&&◌, ◌||◌,
  Option, none, some, List, [], ◌∷◌, ltb, leb, ◌==◌, if◌then◌else◌, length, is_empty, get_elem?,
}
use webpki.Error.{Error, DerTypeId, bad_der, trailing_data}
use webpki.Result.{Result, ok, err, panic, stuck}
use webpki.Exec.{pure, raise, lift, map_err, ◌>>=◌, ◌>>◌}
use webpki.Untrusted.{
  Input, Untrusted, Reader, Decoder, new, remaining, at_end, peek, read_byte, read_byte_or,
  read_bytes, read_bytes_to_end, read_all,
}

abbrev pub constructed : ℕ
constructed = 0x20

abbrev pub context_specific : ℕ
context_specific = 0x80

pub data Tag : Type 0 where
  boolean integer bit_string octet_string oid enum utf8_string sequence set : Tag
  utc_time generalized_time : Tag
  context_specific_constructed0 context_specific_constructed1 : Tag
  context_specific_constructed3 : Tag

-- `impl From<Tag> for u8`, and for `usize`
abbrev pub tag_byte : Tag → ℕ
tag_byte boolean = 0x01
tag_byte integer = 0x02
tag_byte bit_string = 0x03
tag_byte octet_string = 0x04
tag_byte oid = 0x06
tag_byte enum = 0x0a
tag_byte utf8_string = 0x0c
tag_byte sequence = bit_or constructed 0x10
tag_byte set = bit_or constructed 0x11
tag_byte utc_time = 0x17
tag_byte generalized_time = 0x18
tag_byte context_specific_constructed0 = bit_or (bit_or context_specific constructed) 0
tag_byte context_specific_constructed1 = bit_or (bit_or context_specific constructed) 1
tag_byte context_specific_constructed3 = bit_or (bit_or context_specific constructed) 3

abbrev high_tag_range_start : ℕ
high_tag_range_start = 31

abbrev short_form_len_max : ℕ
short_form_len_max = 128

abbrev long_form_len_one_byte : ℕ
long_form_len_one_byte = 0x81

abbrev long_form_len_one_byte_max : ℕ
long_form_len_one_byte_max = 0xff

abbrev long_form_len_two_bytes : ℕ
long_form_len_two_bytes = 0x82

abbrev long_form_len_two_bytes_max : ℕ
long_form_len_two_bytes_max = 0xffff

abbrev long_form_len_three_bytes : ℕ
long_form_len_three_bytes = 0x83

abbrev long_form_len_three_bytes_max : ℕ
long_form_len_three_bytes_max = 0xffffff

abbrev long_form_len_four_bytes : ℕ
long_form_len_four_bytes = 0x84

abbrev long_form_len_four_bytes_max : ℕ
long_form_len_four_bytes_max = 0xffffffff

abbrev pub two_byte_der_size : ℕ
two_byte_der_size = long_form_len_two_bytes_max

abbrev pub max_der_size : ℕ
max_der_size = long_form_len_four_bytes_max

module _ ⦃u : Untrusted⦄ where
  -- The arms of the `match` on the length's first byte.
  pub length_one_byte : Decoder ℕ
  length_one_byte = do
    length_byte ← read_byte
    if ltb length_byte short_form_len_max then raise bad_der else pure length_byte

  pub length_two_bytes : Decoder ℕ
  length_two_bytes = do
    one ← read_byte
    two ← read_byte
    let combined = bit_or (one * 2 ^ 8) two
    if leb combined long_form_len_one_byte_max then raise bad_der else pure combined

  pub length_three_bytes : Decoder ℕ
  length_three_bytes = do
    one ← read_byte
    two ← read_byte
    three ← read_byte
    let combined = bit_or (bit_or (one * 2 ^ 16) (two * 2 ^ 8)) three
    if leb combined long_form_len_two_bytes_max then raise bad_der else pure combined

  pub length_four_bytes : Decoder ℕ
  length_four_bytes = do
    one ← read_byte
    two ← read_byte
    three ← read_byte
    four ← read_byte
    let combined = bit_or (bit_or (bit_or (one * 2 ^ 24) (two * 2 ^ 16)) (three * 2 ^ 8)) four
    if leb combined long_form_len_three_bytes_max then raise bad_der else pure combined

  pub length_from : ℕ → Decoder ℕ
  length_from n =
      if bit_and n short_form_len_max == 0
      then pure n
      else if n == long_form_len_one_byte
      then length_one_byte
      else if n == long_form_len_two_bytes
      then length_two_bytes
      else if n == long_form_len_three_bytes
      then length_three_bytes
      else if n == long_form_len_four_bytes
      then length_four_bytes
      else raise bad_der

  pub read_value : ℕ → ℕ → ℕ → Decoder (ℕ × Input)
  read_value size_limit tag length =
      if leb size_limit length
      then raise bad_der
      else (do inner ← read_bytes length; pure (tag, inner))

  pub read_tag_and_get_value_limited : ℕ → Decoder (ℕ × Input)
  read_tag_and_get_value_limited size_limit = do
    tag ← read_byte
    if bit_and tag high_tag_range_start == high_tag_range_start
        then raise bad_der
        else do n ← read_byte; length ← length_from n; read_value size_limit tag length

  pub read_tag_and_get_value : Decoder (ℕ × Input)
  read_tag_and_get_value = read_tag_and_get_value_limited two_byte_der_size

  pub expect_tag_and_get_value_limited : Tag → ℕ → Decoder Input
  expect_tag_and_get_value_limited tag size_limit = do
    (actual_tag, inner) ← read_tag_and_get_value_limited size_limit
    if not (tag_byte tag == actual_tag) then raise bad_der else pure inner

  pub expect_tag : Tag → Decoder Input
  expect_tag tag = do
    (actual_tag, value) ← read_tag_and_get_value_limited two_byte_der_size
    if not (tag_byte tag == actual_tag) then raise bad_der else pure value

  pub nested_limited : {R : Type 0} → Tag → Error → Decoder R → ℕ → Decoder R
  nested_limited tag error decoder size_limit = do
    value ← map_err error (expect_tag_and_get_value_limited tag size_limit)
    lift (read_all value error decoder)

  pub nested : {R : Type 0} → Tag → Error → Decoder R → Decoder R
  nested tag error decoder = nested_limited tag error decoder two_byte_der_size

  -- The loop of `nested_of_mut` on fuel. `decoder` changes the value that its closure captures.
  pub nested_loop : {A : Type 0} → ℕ → Tag → Error → (A → Decoder A) → A → Decoder A
  nested_loop zero inner_tag error decoder a = λ outer. (stuck, outer)
  nested_loop (suc fuel) inner_tag error decoder a = do
    a' ← nested inner_tag error (decoder a)
    λ outer.
        let again = nested_loop fuel inner_tag error decoder a' outer in
        if at_end outer then (ok a', outer) else again

  -- Each round takes a byte at least, so as many rounds as there are bytes are enough.
  pub nested_of_mut : {A : Type 0} → Tag → Tag → Error → (A → Decoder A) → A → Decoder A
  nested_of_mut outer_tag inner_tag error decoder a =
      nested outer_tag error
        (λ outer. nested_loop (suc (length (remaining outer))) inner_tag error decoder a outer)

  pub bit_string_with_no_unused_bits : Decoder Input
  bit_string_with_no_unused_bits = nested Tag.bit_string (trailing_data DerTypeId.bit_string) (do
    unused_bits_at_end ← read_byte_or bad_der
    if not (unused_bits_at_end == 0) then raise bad_der else read_bytes_to_end)

-- `bit_set`: bit 0 is the top bit of the first byte; a bit past the end is not set.
pub record BitStringFlags : Type 0 where
  pub raw_bits : List ℕ

bit_of : Option ℕ → ℕ → Bool
bit_of none bit_shift = false
bit_of (some b) bit_shift = not (bit_and (b / 2 ^ bit_shift) 1 == 0)

pub bit_set : BitStringFlags → ℕ → Bool
unfolding bit_of
bit_set flags bit =
    let byte_index = bit / 8 in
    let bit_shift = 7 - bit % 8 in
    if ltb (length flags.raw_bits) (byte_index + 1)
    then false
    else bit_of (get_elem? flags.raw_bits byte_index) bit_shift

-- `raw_bits[raw_bits.len() - 1]`, which panics on the empty slice
last_byte : List ℕ → Result ℕ
last_byte [] = panic
last_byte (b ∷ []) = ok b
last_byte (b ∷ c ∷ bs) = last_byte (c ∷ bs)

check_padding : List ℕ → ℕ → Result ℕ → Result BitStringFlags
check_padding raw_bits padding_bits (ok last) =
    let padding_mask = 2 ^ padding_bits - 1 in
    if ltb 0 padding_bits && not (bit_and last padding_mask == 0)
    then err bad_der
    else ok (record { raw_bits = raw_bits })
check_padding raw_bits padding_bits (err e) = err e
check_padding raw_bits padding_bits panic = panic
check_padding raw_bits padding_bits stuck = stuck

-- the `match` on `split_first`
nonnegative_value : Input → Result Input
nonnegative_value [] = err bad_der
nonnegative_value (zero ∷ []) = ok (0 ∷ [])
nonnegative_value (zero ∷ second ∷ rest) =
    if bit_and second 0x80 == 0x80 then ok (second ∷ rest) else err bad_der
nonnegative_value (suc first ∷ rest) =
    if bit_and (suc first) 0x80 == 0x00 then ok (suc first ∷ rest) else err bad_der

one_byte : Input → Result ℕ
one_byte (b ∷ []) = ok b
one_byte _ = err bad_der

module _ ⦃u : Untrusted⦄ where
  pub bit_string_flags : Input → Result BitStringFlags
  unfolding check_padding last_byte
  bit_string_flags input = read_all input bad_der (do
    padding_bits ← read_byte_or bad_der
    raw_bits ← read_bytes_to_end
    if ltb 7 padding_bits || (is_empty raw_bits && not (padding_bits == 0))
        then raise bad_der
        else lift (check_padding raw_bits padding_bits (last_byte raw_bits)))

  pub nonnegative_integer : Decoder Input
  nonnegative_integer = do value ← expect_tag integer; lift (nonnegative_value value)

  -- `impl FromDer for u8`
  pub u8_from_der : Decoder ℕ
  u8_from_der = do value ← nonnegative_integer; lift (one_byte value)

  bool_of_byte : Decoder Bool
  bool_of_byte = do
    b ← read_byte_or bad_der
    if b == 0xff then pure true else if b == 0x00 then pure false else raise bad_der

  -- `impl FromDer for bool`
  pub bool_from_der : Decoder Bool
  bool_from_der reader =
      if not (peek reader (tag_byte boolean))
      then (ok false, reader)
      else nested boolean (trailing_data DerTypeId.boolean) bool_of_byte reader

  -- `DerIterator::next`
  pub next {ℓ} : {T : Type ℓ} → (Reader → T × Reader) → Reader → Option T × Reader
  next from_der reader =
      let (item, rest) = from_der reader in
      if not (at_end reader) then (some item, rest) else (none, reader)

-- What a run at a concrete input has to see through.
unfoldable pub der_code : Unit {0}
unfolding length_one_byte length_two_bytes length_three_bytes length_four_bytes length_from
    read_value read_tag_and_get_value_limited read_tag_and_get_value
    expect_tag_and_get_value_limited expect_tag nested_limited nested nested_loop nested_of_mut
    bit_string_with_no_unused_bits bit_string_flags bit_set nonnegative_value nonnegative_integer
    one_byte u8_from_der bool_of_byte bool_from_der next
der_code = tt
