-- ===== src/SubjectName/IpAddress/Parse.antt =====
-- src/subject_name/ip_address.rs: IP addresses from text. An array is the list of all its elements; an
-- index out of its range and an `expect` or `unwrap` that fails are `panic`.
pub mod Ipv4
pub mod Total
pub mod Inversion
pub mod Accepts
use webpki.Prelude.{
  ℕ, zero, suc, ◌+◌, ◌-◌, ◌*◌, ◌%◌, ◌^◌, bit_or, Bool, true, false, not, ◌&&◌, ◌||◌, Option, none,
  some, List, [], ◌∷◌, ltb, leb, ◌==◌, if◌then◌else◌, length, take,
}
use webpki.Result.{Result, ok, err, panic, stuck, ◌>>=◌}
use webpki.Untrusted.{Input, Untrusted, Reader, new, at_end, peek, read_byte}
use webpki.SubjectName.IpAddress.{IpAddrRef, v4, v6}

-- `array[index] = value`
pub set_at : List ℕ → ℕ → ℕ → Result (List ℕ)
set_at [] index value = panic
set_at (x ∷ array) zero value = ok (value ∷ array)
set_at (x ∷ array) (suc index) value = do array' ← set_at array index value; ok (x ∷ array')

-- `&array[..n]`
pub slice_to : List ℕ → ℕ → Result (List ℕ)
slice_to array n = if ltb (length array) n then panic else ok (take n array)

-- `TryInto::<u8>::try_into(n).expect(..)`
pub expect_u8 : ℕ → Result ℕ
expect_u8 n = if ltb 255 n then panic else ok n

radix10_from : ℕ → List ℕ → ℕ
radix10_from result [] = result
radix10_from result (digit ∷ digits) = radix10_from (result * 10 + digit) digits

pub radix10_to_octet : List ℕ → ℕ
radix10_to_octet textual_octets = radix10_from 0 textual_octets

-- The variables of the loop of `parse_ipv4_address`: `current_octet` has three elements and `octets`
-- four.
pub record Ipv4Scan : Type 0 where
  pub is_first_byte : Bool
  pub current_octet : List ℕ
  pub current_size : ℕ
  pub dot_count : ℕ
  pub octet : ℕ
  pub octets : List ℕ

-- `none` is `Err(AddrParseError)`, here and below.
pub ipv4_dot : Ipv4Scan → Bool → Result (Option Ipv4Scan)
ipv4_dot s ends =
    if s.is_first_byte || ends || s.dot_count == 3 || s.current_size == 0 then ok none else do
      textual_octets ← slice_to s.current_octet s.current_size
      let current_raw_octet = radix10_to_octet textual_octets
      if ltb 255 current_raw_octet then ok none else do
        value ← expect_u8 current_raw_octet
        octets ← set_at s.octets s.octet value
        ok (
            some (record {
              is_first_byte = false;
              current_octet = 0 ∷ 0 ∷ 0 ∷ [];
              current_size = 0;
              dot_count = s.dot_count + 1;
              octet = s.octet + 1;
              octets = octets;
            }))

pub ipv4_digit : Ipv4Scan → ℕ → Bool → Bool → Result (Option Ipv4Scan)
ipv4_digit s number ends dot_follows =
    if number == b'0' && s.current_size == 0 && not dot_follows && not ends
    then ok none
    else if leb (length s.current_octet) s.current_size
    then ok none
    else do
      current_octet ← set_at s.current_octet s.current_size (number - b'0')
      ok (
          some (record s {
            is_first_byte = false;
            current_octet = current_octet;
            current_size = s.current_size + 1;
          }))

-- One round: the byte read, whether the text ends behind it, whether a dot comes next.
pub ipv4_byte : Ipv4Scan → ℕ → Bool → Bool → Result (Option Ipv4Scan)
ipv4_byte s b ends dot_follows =
    if b == b'.'
    then ipv4_dot s ends
    else if leb b'0' b && leb b b'9'
    then ipv4_digit s b ends dot_follows
    else ok none

-- What is done at the end of the text.
pub ipv4_end : Ipv4Scan → Result (Option (List ℕ))
ipv4_end s = do
  textual_octets ← slice_to s.current_octet s.current_size
  let last_octet = radix10_to_octet textual_octets
  if ltb 0 s.current_size && ltb 255 last_octet then ok none else do
    value ← expect_u8 last_octet
    octets ← set_at s.octets s.octet value
    ok (if not (s.dot_count == 3) then none else some octets)

-- `char::to_digit(16)`
pub to_digit : ℕ → Option ℕ
to_digit b =
    if leb b'0' b && leb b b'9'
    then some (b - b'0')
    else if leb b'a' b && leb b b'f'
    then some (b - b'a' + 10)
    else if leb b'A' b && leb b b'F'
    then some (b - b'A' + 10)
    else none

pub is_hex : ℕ → Bool
is_hex b = (leb b'0' b && leb b b'9') || (leb b'a' b && leb b b'f') || (leb b'A' b && leb b b'F')

-- `.to_digit(16).unwrap()`, and its `try_into` to a byte
pub expect_digit : ℕ → Result ℕ
expect_digit b = elim (to_digit b) [ none ↦ panic | some d ↦ expect_u8 d ]

-- The variables of the loop of `parse_ipv6_address`: `octets` has sixteen elements.
pub record Ipv6Scan : Type 0 where
  pub is_first_byte : Bool
  pub current_textual_block_size : ℕ
  pub colon_count : ℕ
  pub octet : ℕ
  pub previous_character : Option ℕ
  pub octets : List ℕ

pub ipv6_colon : Ipv6Scan → Bool → Option Ipv6Scan
ipv6_colon s ends =
    if s.is_first_byte
      || ends
      || s.colon_count == 7
      || s.current_textual_block_size == 0
      || not (s.current_textual_block_size == 4)
    then none
    else some (record s {
      is_first_byte = false;
      colon_count = s.colon_count + 1;
      current_textual_block_size = 0;
      previous_character = none;
    })

-- the `if let Some(previous_character_) = previous_character`
pub ipv6_pair : Ipv6Scan → Option ℕ → ℕ → Result Ipv6Scan
ipv6_pair s (some previous) character = do
  hi ← expect_digit previous
  lo ← expect_digit character
  octets ← set_at s.octets s.octet (bit_or (hi * 2 ^ 4 % 2 ^ 8) lo)
  ok (record s { octets = octets; previous_character = none; octet = s.octet + 1 })
ipv6_pair s none character = ok (record s { previous_character = some character })

pub ipv6_character : Ipv6Scan → ℕ → Result (Option Ipv6Scan)
ipv6_character s character = if s.current_textual_block_size == 4 then ok none else do
  s' ← ipv6_pair s s.previous_character character
  ok (
      some (record s' {
        is_first_byte = false;
        current_textual_block_size = s.current_textual_block_size + 1;
      }))

pub ipv6_byte : Ipv6Scan → ℕ → Bool → Result (Option Ipv6Scan)
ipv6_byte s b ends =
    if b == b':' then ok (ipv6_colon s ends) else if is_hex b then ipv6_character s b else ok none

pub ipv6_end : Ipv6Scan → Option (List ℕ)
ipv6_end s = if not (s.colon_count == 7) then none else some s.octets

module _ ⦃u : Untrusted⦄ where
  pub ipv4_loop : ℕ → Ipv4Scan → Reader → Result (Option (List ℕ))
  ipv4_loop zero s ip_address = stuck
  ipv4_loop (suc fuel) s ip_address =
      let (got, rest) = read_byte ip_address in
      elim got [
        | ok b ↦ ipv4_byte s b (at_end rest) (peek rest b'.') >>= λ next. elim next [
          | none ↦ ok none
          | some s' ↦
              let again = ipv4_loop fuel s' rest in if at_end rest then ipv4_end s' else again
        ]
        | _ ↦ ok none
      ]

  pub parse_ipv4_address : Input → Result (Option IpAddrRef)
  parse_ipv4_address ip_address = do
    parsed ←
        ipv4_loop (suc (length ip_address))
          (record {
            is_first_byte = true;
            current_octet = 0 ∷ 0 ∷ 0 ∷ [];
            current_size = 0;
            dot_count = 0;
            octet = 0;
            octets = 0 ∷ 0 ∷ 0 ∷ 0 ∷ [];
          })
          (new ip_address)
    ok (elim parsed [ none ↦ none | some octets ↦ some (v4 ip_address octets) ])

  pub ipv6_loop : ℕ → Ipv6Scan → Reader → Result (Option (List ℕ))
  ipv6_loop zero s ip_address = stuck
  ipv6_loop (suc fuel) s ip_address =
      let (got, rest) = read_byte ip_address in
      elim got [
        | ok b ↦ ipv6_byte s b (at_end rest) >>= λ next. elim next [
          | none ↦ ok none
          | some s' ↦
              let again = ipv6_loop fuel s' rest in if at_end rest then ok (ipv6_end s') else again
        ]
        | _ ↦ ok none
      ]

  pub parse_ipv6_address : Input → Result (Option IpAddrRef)
  parse_ipv6_address ip_address = if not (length ip_address == 39) then ok none else do
    parsed ←
        ipv6_loop (suc (length ip_address))
          (record {
            is_first_byte = true;
            current_textual_block_size = 0;
            colon_count = 0;
            octet = 0;
            previous_character = none;
            octets = 0 ∷ 0 ∷ 0 ∷ 0 ∷ 0 ∷ 0 ∷ 0 ∷ 0 ∷ 0 ∷ 0 ∷ 0 ∷ 0 ∷ 0 ∷ 0 ∷ 0 ∷ 0 ∷ [];
          })
          (new ip_address)
    ok (elim parsed [ none ↦ none | some octets ↦ some (v6 ip_address octets) ])

unfoldable pub parse_code : Unit {0}
unfolding set_at slice_to expect_u8 radix10_from radix10_to_octet ipv4_dot ipv4_digit ipv4_byte
    ipv4_end to_digit is_hex expect_digit ipv6_colon ipv6_pair ipv6_character ipv6_byte ipv6_end
    ipv4_loop parse_ipv4_address ipv6_loop parse_ipv6_address
parse_code = tt
