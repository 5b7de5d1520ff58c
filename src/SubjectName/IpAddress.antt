-- ===== src/SubjectName/IpAddress.antt =====
-- src/subject_name/ip_address.rs: IP addresses, and the match with a reference address or with a
-- constraint of an address and a mask.
pub mod Reference
pub mod Mask
pub mod Parse
pub mod Total
use webpki.Prelude.{
  ℕ, zero, suc, ◌+◌, ◌-◌, ◌*◌, ◌/◌, ◌%◌, bit_and, bit_or, bit_xor, Bool, true, false, not, ◌&&◌,
  ◌||◌, Option, none, some, List, [], ◌∷◌, ◌++◌, ltb, leb, ◌==◌, if◌then◌else◌, length,
}
use webpki.Error.{Error, bad_der, invalid_network_mask_constraint}
use webpki.Result.{Result, ok, err, panic, stuck}
use webpki.Result
use webpki.Exec.{Exec, pure, ◌>>=◌}
use webpki.Untrusted.{
  Input, Untrusted, Reader, Decoder, new, at_end, peek, read_byte, read_bytes, read_all,
}

-- `.unwrap()`
abbrev pub unwrap {ℓ} : {A : Type ℓ} → Result A → Result A
unwrap (ok a) = ok a
unwrap (err e) = panic
unwrap panic = panic
unwrap stuck = stuck

-- `u8::leading_ones` and `u8::trailing_zeros`
leading_ones_of : ℕ → ℕ → ℕ
leading_ones_of zero b = 0
leading_ones_of (suc bits) b =
    let more = suc (leading_ones_of bits (b * 2 % 256)) in if leb 128 b then more else 0

trailing_zeros_of : ℕ → ℕ → ℕ
trailing_zeros_of zero b = 0
trailing_zeros_of (suc bits) b =
    let more = suc (trailing_zeros_of bits (b / 2)) in if b % 2 == 0 then more else 0

pub leading_ones : ℕ → ℕ
leading_ones b = leading_ones_of 8 b

pub trailing_zeros : ℕ → ℕ
trailing_zeros b = trailing_zeros_of 8 b

module _ ⦃u : Untrusted⦄ where
  -- `while !presented.at_end()`, on fuel
  compare_bytes : ℕ → Reader → Reader → Result Bool
  compare_bytes zero presented reference = if at_end presented then ok true else stuck
  compare_bytes (suc fuel) presented reference =
      let (p, presented') = read_byte presented in
      let (r, reference') = read_byte reference in
      let again = compare_bytes fuel presented' reference' in
      if at_end presented
      then ok true
      else Result.◌>>=◌ (unwrap p)
          λ b. Result.◌>>=◌ (unwrap r) λ c. if not (b == c) then ok false else again

  pub presented_id_matches_reference_id : Input → Input → Result Bool
  presented_id_matches_reference_id presented_id reference_id =
      if (length presented_id == 4 && length reference_id == 4)
        || (length presented_id == 16 && length reference_id == 16)
      then compare_bytes (length presented_id) (new presented_id) (new reference_id)
      else ok false

-- One round on the bytes of the name, of the constraint's address and of its mask: whether to go
-- on, with `seen_zero_bit`.
pub data Round : Type 0 where
  go_on : Bool → Round
  answer : Result Bool → Round

pub mask_round : Bool → ℕ → ℕ → ℕ → Round
mask_round seen_zero_bit name_byte address_byte mask_byte =
    if not (leading_ones mask_byte + trailing_zeros mask_byte == 8)
    then answer (err invalid_network_mask_constraint)
    else if seen_zero_bit && not (mask_byte == 0x00)
    then answer (err invalid_network_mask_constraint)
    else if not (bit_and (bit_xor name_byte address_byte) mask_byte == 0)
    then answer (ok false)
    else go_on (if not (mask_byte == 0xff) then true else seen_zero_bit)

after_mask_round : Round → (Bool → Result Bool) → Result Bool
after_mask_round (answer r) again = r
after_mask_round (go_on seen_zero_bit) again = again seen_zero_bit

module _ ⦃u : Untrusted⦄ where
  mask_loop : ℕ → Bool → Reader → Reader → Reader → Result Bool
  mask_loop zero seen_zero_bit name address mask = stuck
  mask_loop (suc fuel) seen_zero_bit name address mask =
      let (n, name') = read_byte name in
      let (a, address') = read_byte address in
      let (m, mask') = read_byte mask in
      Result.◌>>=◌ (unwrap n) λ name_byte. Result.◌>>=◌ (unwrap a) λ address_byte.
        Result.◌>>=◌ (unwrap m) λ mask_byte.
          after_mask_round (mask_round seen_zero_bit name_byte address_byte mask_byte) (λ seen.
            let again = mask_loop fuel seen name' address' mask' in
            if at_end name' then ok true else again)

  unwrap_bytes : ℕ → Decoder Input
  unwrap_bytes n r = let (got, rest) = read_bytes n r in (unwrap got, rest)

  compare_masked : Input → Input → Result Bool
  compare_masked name constraint =
      let half = length constraint / 2 in
      Result.◌>>=◌
        (read_all constraint bad_der
          (do address ← unwrap_bytes half; mask ← unwrap_bytes half; pure (address, mask)))
        λ (address, mask). mask_loop (length name) false (new name) (new address) (new mask)

  pub presented_id_matches_constraint : Input → Input → Result Bool
  presented_id_matches_constraint name constraint =
      let n = length name in
      let c = length constraint in
      if (n == 4 && c == 8) || (n == 16 && c == 32)
      then compare_masked name constraint
      else if (n == 4 && c == 32) || (n == 16 && c == 8)
      then ok false
      else if n == 4 || n == 16
      then err invalid_network_mask_constraint
      else err bad_der

-- An address with its text.
pub data IpAddrRef : Type 0 where
  v4 : Input → List ℕ → IpAddrRef
  v6 : Input → List ℕ → IpAddrRef

unfoldable pub ip_address_code : Unit {0}
unfolding leading_ones_of trailing_zeros_of leading_ones trailing_zeros compare_bytes
    presented_id_matches_reference_id mask_round after_mask_round mask_loop unwrap_bytes
    compare_masked presented_id_matches_constraint
ip_address_code = tt
