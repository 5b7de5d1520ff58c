-- ===== src/SubjectName/IpAddress/Mask.antt =====
-- The match of a presented address with a network: an address and a mask.
use webpki.Prelude.{
  ℕ, zero, suc, ◌+◌, ◌-◌, ◌^◌, ◌≤◌, ◌≡◌, refl, arith, bit_and, bit_xor, ◌/◌, ◌∙◌, ap, sym, Bool,
  true, false, not, ◌&&◌, some, List, [], ◌∷◌, ◌++◌, ◌==◌, if◌then◌else◌, length, All, is_empty,
  length-append, take-append, drop-append, append-nil, ◌⊎◌,
}
use webpki.Prelude.Bits.{check_below, below-check}
use Prim.Native.Nat.{digits, min, bit_and-bitwise}
use webpki.Error.{bad_der}
use webpki.Result.{Result, ok}
use webpki.Untrusted.{Input, Untrusted, new}
use webpki.SubjectName.IpAddress.{
  mask_round, after_mask_round, mask_loop, compare_masked, unwrap_bytes,
  presented_id_matches_constraint, go_on, answer, leading_ones, trailing_zeros, leading_ones_of,
  trailing_zeros_of,
}

-- Ones, then zeros: whole bytes of ones, a byte with `k` zeros, bytes of zeros.
pub data IsNetmask : List ℕ → Type 0 where
  empty : IsNetmask []
  full : {ms : List ℕ} → IsNetmask ms → IsNetmask (255 ∷ ms)
  last :
      {m : ℕ} {ms : List ℕ} (k : ℕ)
      → k ≤ 8
      → m ≡ 256 - 2 ^ k
      → All (λ b. b ≡ 0) ms
      → IsNetmask (m ∷ ms)

digits-zero : (n a : ℕ) → digits (λ b. zero) min n a 0 ≡ 0
digits-zero zero a = refl
digits-zero (suc n) zero = refl
digits-zero (suc n) (suc a) = omega (arith, digits-zero n (suc a / 2))

bit_and-zero : (x : ℕ) → bit_and x 0 ≡ 0
bit_and-zero x = omega (arith, bit_and-bitwise x 0, digits-zero x x)

mask_round-zero : (seen : Bool) (n a m : ℕ) → m ≡ 0 → mask_round seen n a m ≡ go_on true
unfolding mask_round leading_ones trailing_zeros leading_ones_of trailing_zeros_of
mask_round-zero seen n a m h = rw h (ground (arith, bit_and-zero (bit_xor n a)))

netmask_table :
    check_below 9 (λ k. leading_ones (256 - 2 ^ k) + trailing_zeros (256 - 2 ^ k) == 8) ≡ true
unfolding check_below leading_ones trailing_zeros leading_ones_of trailing_zeros_of
netmask_table = refl

netmask_byte : (k m : ℕ) → k ≤ 8 → m ≡ 256 - 2 ^ k → (leading_ones m + trailing_zeros m == 8) ≡ true
netmask_byte k m le e = rw e (
    below-check 9 (λ k. leading_ones (256 - 2 ^ k) + trailing_zeros (256 - 2 ^ k) == 8) k
      netmask_table (omega arith))

mask_round-netmask :
    (n a k m : ℕ)
    → k ≤ 8
    → m ≡ 256 - 2 ^ k
    → mask_round false n a m
      ≡ (if bit_and (bit_xor n a) m == 0 then go_on (not (m == 255)) else answer (ok false))
unfolding mask_round
mask_round-netmask n a k m le e = ground (arith, netmask_byte k m)

-- The addresses agree on the bits of the mask.
pub masked_equal : Input → Input → Input → Bool
masked_equal (n ∷ name) (a ∷ address) (m ∷ mask) =
    (bit_and (bit_xor n a) m == 0) && masked_equal name address mask
masked_equal _ _ _ = true

agree :
    (c d seen : Bool) (again : Bool → Result Bool)
    → again seen ≡ ok d
    → after_mask_round (if c then go_on seen else answer (ok false)) again ≡ ok (c && d)
unfolding after_mask_round
agree true d seen again h = h
agree false d seen again h = refl

masked_equal-zeros :
    (name address mask : Input) → All (λ b. b ≡ 0) mask → masked_equal name address mask ≡ true
unfolding masked_equal
masked_equal-zeros (n ∷ name) (a ∷ address) (m ∷ mask) (z, hz) =
    rw z (ground (arith, bit_and-zero (bit_xor n a), masked_equal-zeros name address mask hz))
masked_equal-zeros [] address mask hz = refl
masked_equal-zeros (n ∷ name) [] mask hz = refl
masked_equal-zeros (n ∷ name) (a ∷ address) [] hz = refl

module _ ⦃u : Untrusted⦄ where
  step :
      (fuel : ℕ) (seen : Bool) (n a m : ℕ) (name address mask : Input)
      → mask_loop (suc fuel) seen (new (n ∷ name)) (new (a ∷ address)) (new (m ∷ mask))
        ≡ after_mask_round (mask_round seen n a m) (λ seen'.
          if is_empty name
          then ok true
          else mask_loop fuel seen' (new name) (new address) (new mask))
  unfolding mask_loop
  step fuel seen n a m name address mask =
      rw
        (
          u.read_byte-cons n name,
          u.read_byte-cons a address,
          u.read_byte-cons m mask,
          u.at_end-new name,
        )
        refl

  -- Where the mask is zero every name agrees.
  zeros :
      (seen : Bool) (n a m : ℕ) (name address mask : Input)
      → m ≡ 0
      → All (λ b. b ≡ 0) mask
      → length address ≡ length name
      → length mask ≡ length name
      → mask_loop (length (n ∷ name)) seen (new (n ∷ name)) (new (a ∷ address)) (new (m ∷ mask))
        ≡ ok true
  unfolding after_mask_round
  zeros seen n a m [] [] [] zero_byte hz ha hm =
      step 0 seen n a m [] [] [] ∙ rw (mask_round-zero seen n a m zero_byte) refl
  zeros seen n a m (n' ∷ name) (a' ∷ address) (m' ∷ mask) zero_byte (z, hz) ha hm =
      step (length (n' ∷ name)) seen n a m (n' ∷ name) (a' ∷ address) (m' ∷ mask)
      ∙ rw (mask_round-zero seen n a m zero_byte)
          (zeros true n' a' m' name address mask z hz (omega arith) (omega arith))
  zeros seen n a m _ _ _ zero_byte hz ha hm = absurd (omega arith)

  masked :
      (n a m : ℕ) (name address mask : Input)
      → IsNetmask (m ∷ mask)
      → length address ≡ length name
      → length mask ≡ length name
      → mask_loop (length (n ∷ name)) false (new (n ∷ name)) (new (a ∷ address)) (new (m ∷ mask))
        ≡ ok (masked_equal (n ∷ name) (a ∷ address) (m ∷ mask))
  unfolding masked_equal after_mask_round
  masked n a _ [] [] [] (full rest) ha hm =
      step 0 false n a 255 [] [] []
      ∙ rw (mask_round-netmask n a 0 255 (omega arith) refl) (ground arith)
  masked n a _ (n' ∷ name) (a' ∷ address) (m' ∷ mask) (full rest) ha hm =
      let again = masked n' a' m' name address mask rest (omega arith) (omega arith) in
      step (length (n' ∷ name)) false n a 255 (n' ∷ name) (a' ∷ address) (m' ∷ mask)
      ∙ rw (mask_round-netmask n a 0 255 (omega arith) refl) (agree _ _ false _ again)
  masked n a m [] [] [] (last k le e hz) ha hm =
      step 0 false n a m [] [] [] ∙ rw (mask_round-netmask n a k m le e) (ground arith)
  masked n a m (n' ∷ name) (a' ∷ address) (m' ∷ mask) (last k le e (z, hz)) ha hm =
      let seen : Bool = not (m == 255) in
      let again = zeros seen n' a' m' name address mask z hz (omega arith) (omega arith) in
      let equal = masked_equal-zeros (n' ∷ name) (a' ∷ address) (m' ∷ mask) (z, hz) in
      step (length (n' ∷ name)) false n a m (n' ∷ name) (a' ∷ address) (m' ∷ mask)
      ∙ rw (mask_round-netmask n a k m le e) (agree _ _ seen _ (again ∙ ap ok (sym equal)))
  masked n a m _ _ _ h ha hm = absurd (omega arith)

  read_bytes-append :
      (xs ys : Input) → u.read_bytes (new (xs ++ ys)) (length xs) ≡ (some xs, new ys)
  read_bytes-append xs ys =
      rw
        (
          u.read_bytes_enough (length xs) (xs ++ ys) (omega (arith, length-append xs ys)),
          take-append xs ys,
          drop-append xs ys,
        )
        refl

  read_bytes-all : (xs : Input) → u.read_bytes (new xs) (length xs) ≡ (some xs, new [])
  read_bytes-all xs = rw (append-nil xs) at (read_bytes-append xs [])

  read_halves :
      (name address mask : Input)
      → length address ≡ length name
      → length mask ≡ length name
      → compare_masked name (address ++ mask)
        ≡ mask_loop (length name) false (new name) (new address) (new mask)
  unfolding compare_masked unwrap_bytes
  read_halves name address mask ha hm =
      let half : length (address ++ mask) / 2 ≡ length address =
        omega (arith, length-append address mask) in
      let same : length mask ≡ length address = omega arith in
      rw
        (
          half,
          u.read_all_lem _ (address ++ mask) bad_der _,
          read_bytes-append address mask,
          ← same,
          read_bytes-all mask,
          u.at_end-new [],
        )
        refl

  -- An address of four or sixteen bytes matches a network of that size whose mask is ones followed by
  -- zeros exactly where the two agree on the bits of the mask.
  pub presented_id_matches_constraint-masked :
      (name address mask : Input)
      → (length name ≡ 4) ⊎ (length name ≡ 16)
      → length address ≡ length name
      → length mask ≡ length name
      → IsNetmask mask
      → presented_id_matches_constraint name (address ++ mask) ≡ ok (masked_equal name address mask)
  unfolding presented_id_matches_constraint
  presented_id_matches_constraint-masked (n ∷ name) (a ∷ address) (m ∷ mask) size ha hm net =
      let halves = read_halves (n ∷ name) (a ∷ address) (m ∷ mask) ha hm in
      let run = masked n a m name address mask net (omega arith) (omega arith) in
      ground (arith, length-append (a ∷ address) (m ∷ mask))
  presented_id_matches_constraint-masked _ _ _ size ha hm net = absurd (ground arith)
