-- ===== src/SubjectName/IpAddress/Parse/Total.antt =====
-- src/subject_name/ip_address.rs: reading an address from text does not panic.
use webpki.Prelude.{
  ℕ, zero, suc, ◌+◌, ◌-◌, ◌*◌, ◌^◌, bit_or, ◌/◌, ◌%◌, ◌<◌, ◌≤◌, ◌≡◌, refl, ap, arith, Bool, true,
  false, not, ◌&&◌, ◌||◌, none, some, Option, List, [], ◌∷◌, ◌==◌, ltb, leb, length, take,
  Bool-cases, inl, inr, if◌then◌else◌,
}
use webpki.Result.{Result, ok, err, panic, stuck, ◌>>=◌}
use webpki.Untrusted.{Input, Untrusted, Reader, new, at_end}
use webpki.Untrusted.Total.{Ends, returned, Ends-if, Ends-bind, left}
use webpki.Untrusted.Advance.{next_byte}
use webpki.SubjectName.IpAddress.Parse.{
  Ipv4Scan, ipv4_byte, ipv4_dot, ipv4_digit, ipv4_end, ipv4_loop, parse_ipv4_address, set_at,
  slice_to, expect_u8, radix10_to_octet, radix10_from, to_digit, is_hex, expect_digit, Ipv6Scan,
  ipv6_colon, ipv6_pair, ipv6_character, ipv6_byte, ipv6_end, ipv6_loop, parse_ipv6_address,
}

set_at-ok :
    (xs : List ℕ) (i v : ℕ)
    → i < length xs
    → (ys : List ℕ) × (set_at xs i v ≡ ok ys) × (length ys ≡ length xs)
unfolding set_at
set_at-ok [] i v h = absurd (omega arith)
set_at-ok (x ∷ xs) zero v h = (v ∷ xs, refl, refl)
set_at-ok (x ∷ xs) (suc i) v h =
    let (ys, set, len) = set_at-ok xs i v (omega arith) in (x ∷ ys, rw set refl, omega (arith, len))

slice_to-ok : (xs : List ℕ) (n : ℕ) → n ≤ length xs → slice_to xs n ≡ ok (take n xs)
unfolding slice_to
slice_to-ok xs n h = ground arith

expect_u8-ok : (n : ℕ) → n ≤ 255 → expect_u8 n ≡ ok n
unfolding expect_u8
expect_u8-ok n h = ground arith

-- The arrays have their lengths, and the indices lie within them.
record IsScan (s : Ipv4Scan) : Type 0 where
  digits : length s.current_octet ≡ 3
  size : s.current_size ≤ 3
  count : length s.octets ≡ 4
  octet : s.octet ≡ s.dot_count
  dots : s.dot_count ≤ 3

data Scanned : Result (Option Ipv4Scan) → Type 0 where
  refused : Scanned (ok none)
  scanned : {t : Ipv4Scan} → IsScan t → Scanned (ok (some t))

ipv4_dot-Scanned : (s : Ipv4Scan) (ends : Bool) → IsScan s → Scanned (ipv4_dot s ends)
unfolding ipv4_dot
ipv4_dot-Scanned s ends v =
    elim (Bool-cases (s.is_first_byte || ends || s.dot_count == 3 || s.current_size == 0)) [
      | inl e ↦ rw e refused
      | inr e ↦ rw e (
          rw (slice_to-ok s.current_octet s.current_size (omega (arith, v.digits, v.size))) (
            let raw = radix10_to_octet (take s.current_size s.current_octet) in
            elim (Bool-cases (ltb 255 raw)) [
              | inl f ↦ rw f refused
              | inr f ↦
                  let below : s.dot_count < 3 = ground (arith, v.dots) in
                  let (ys, set, len) =
                    set_at-ok s.octets s.octet raw (omega (arith, v.count, v.octet)) in
                  rw f (
                    rw (expect_u8-ok raw (ground arith)) (
                      rw set (
                        scanned (record {
                          digits = refl;
                          size = omega arith;
                          count = omega (arith, len, v.count);
                          octet = omega (arith, v.octet);
                          dots = omega arith;
                        }))))
            ]))
    ]

ipv4_digit-Scanned :
    (s : Ipv4Scan) (b : ℕ) (ends dot : Bool) → IsScan s → Scanned (ipv4_digit s b ends dot)
unfolding ipv4_digit
ipv4_digit-Scanned s b ends dot v =
    elim (Bool-cases (b == b'0' && s.current_size == 0 && not dot && not ends)) [
      | inl e ↦ rw e refused
      | inr e ↦ rw e (elim (Bool-cases (leb (length s.current_octet) s.current_size)) [
        | inl f ↦ rw f refused
        | inr f ↦
            let below : s.current_size < length s.current_octet = ground arith in
            let (ys, set, len) = set_at-ok s.current_octet s.current_size (b - b'0') below in
            rw f (
              rw set (
                scanned (record {
                  digits = omega (arith, len, v.digits);
                  size = omega (arith, v.digits);
                  count = v.count;
                  octet = v.octet;
                  dots = v.dots;
                })))
      ])
    ]

ipv4_byte-Scanned :
    (s : Ipv4Scan) (b : ℕ) (ends dot : Bool) → IsScan s → Scanned (ipv4_byte s b ends dot)
unfolding ipv4_byte
ipv4_byte-Scanned s b ends dot v = elim (Bool-cases (b == b'.')) [
  | inl e ↦ rw e (ipv4_dot-Scanned s ends v)
  | inr e ↦ rw e (elim (Bool-cases (leb b'0' b && leb b b'9')) [
    | inl f ↦ rw f (ipv4_digit-Scanned s b ends dot v)
    | inr f ↦ rw f refused
  ])
]

last_small :
    (xs : List ℕ) (n : ℕ)
    → (ltb 0 n && ltb 255 (radix10_to_octet (take n xs))) ≡ false
    → radix10_to_octet (take n xs) ≤ 255
unfolding radix10_to_octet radix10_from
last_small xs zero h = omega arith
last_small xs (suc n) h = ground arith

module _ {p : Bool} where
  ipv4_end-Ends : (s : Ipv4Scan) → IsScan s → Ends p (ipv4_end s)
  unfolding ipv4_end
  ipv4_end-Ends s v =
      rw (slice_to-ok s.current_octet s.current_size (omega (arith, v.digits, v.size))) (
        let last = radix10_to_octet (take s.current_size s.current_octet) in
        elim (Bool-cases (ltb 0 s.current_size && ltb 255 last)) [
          | inl e ↦ rw e returned
          | inr e ↦
              let small : last ≤ 255 = last_small s.current_octet s.current_size e in
              let (ys, set, len) =
                set_at-ok s.octets s.octet last (omega (arith, v.count, v.octet, v.dots)) in
              rw e (rw (expect_u8-ok last small) (rw set returned))
        ])

module _ ⦃u : Untrusted⦄ {p : Bool} where
  after4 :
      (fuel : ℕ) (x : Result (Option Ipv4Scan)) (rest : Reader)
      → Scanned x
      → ((t : Ipv4Scan) → IsScan t → Ends p (ipv4_loop fuel t rest))
      → Ends {A = Option (List ℕ)} p (
          x >>= λ next. elim next [
            | none ↦ ok none
            | some t ↦
                let again = ipv4_loop fuel t rest in if at_end rest then ipv4_end t else again
          ])
  after4 fuel (ok none) rest refused k = returned
  after4 fuel (ok (some t)) rest (scanned w) k = Ends-if (at_end rest) (ipv4_end-Ends t w) (k t w)
  after4 fuel (err e) rest h k = elim h [ ]
  after4 fuel panic rest h k = elim h [ ]
  after4 fuel stuck rest h k = elim h [ ]

  ipv4_loop-Ends :
      (fuel : ℕ) (s : Ipv4Scan) (r : Reader)
      → IsScan s
      → left r < fuel
      → Ends p (ipv4_loop fuel s r)
  unfolding ipv4_loop
  ipv4_loop-Ends zero s r v h = absurd (omega arith)
  ipv4_loop-Ends (suc fuel) s r v h = elim (next_byte r) [
    | inr (rest, e, z) ↦ rw (e, ipv4_loop) returned
    | inl (b, rest, e, less) ↦
        rw (e, ipv4_loop)
          (after4 fuel _ _ (ipv4_byte-Scanned s b _ _ v)
            (λ t w. ipv4_loop-Ends fuel t _ w (rw e (omega arith))))
  ]

-- As many octets as digits have been read in pairs; an odd digit is kept, and is a hexadecimal one.
abbrev Kept : ℕ → Option ℕ → Type 0
Kept size none = size % 2 ≡ 0
Kept size (some b) = (size % 2 ≡ 1) × (is_hex b ≡ true)

record IsScan6 (s : Ipv6Scan) : Type 0 where
  count : length s.octets ≡ 16
  colons : s.colon_count ≤ 7
  size : s.current_textual_block_size ≤ 4
  octet : s.octet ≡ s.colon_count * 2 + s.current_textual_block_size / 2
  kept : Kept s.current_textual_block_size s.previous_character

data Scanned6 : Result (Option Ipv6Scan) → Type 0 where
  refused : Scanned6 (ok none)
  scanned : {t : Ipv6Scan} → IsScan6 t → Scanned6 (ok (some t))

expect_digit-ok : (b : ℕ) → is_hex b ≡ true → (d : ℕ) × (expect_digit b ≡ ok d)
unfolding expect_digit to_digit is_hex expect_u8
expect_digit-ok b h = elim (Bool-cases (leb b'0' b && leb b b'9')) [
  | inl e ↦ (b - b'0', ground arith)
  | inr e ↦ elim (Bool-cases (leb b'a' b && leb b b'f')) [
    | inl f ↦ (b - b'a' + 10, ground arith)
    | inr f ↦ (b - b'A' + 10, ground arith)
  ]
]

ipv6_colon-Scanned : (s : Ipv6Scan) (ends : Bool) → IsScan6 s → Scanned6 (ok (ipv6_colon s ends))
unfolding ipv6_colon
ipv6_colon-Scanned s ends v =
    elim (Bool-cases (
      s.is_first_byte
      || ends
      || s.colon_count == 7
      || s.current_textual_block_size == 0
      || not (s.current_textual_block_size == 4))) [
        | inl e ↦ rw e refused
        | inr e ↦
            let full : s.current_textual_block_size ≡ 4 = ground arith in
            let below : s.colon_count < 7 = ground (arith, v.colons) in
            rw e (
              scanned (record {
                count = v.count;
                colons = omega arith;
                size = omega arith;
                octet = omega (arith, v.octet, full);
                kept = refl;
              }))
      ]

ipv6_pair-Scanned :
    (s : Ipv6Scan) (previous : Option ℕ) (b : ℕ)
    → IsScan6 s
    → s.current_textual_block_size < 4
    → Kept s.current_textual_block_size previous
    → is_hex b ≡ true
    → Scanned6 (
        ipv6_pair s previous b >>= λ t. ok (
          some (record t {
            is_first_byte = false;
            current_textual_block_size = s.current_textual_block_size + 1;
          })))
unfolding ipv6_pair
ipv6_pair-Scanned s none b v h even hex = scanned (record {
  count = v.count;
  colons = v.colons;
  size = omega arith;
  octet = omega (arith, v.octet, even);
  kept = (omega (arith, even), hex);
})
ipv6_pair-Scanned s (some previous) b v h (odd, kept) hex =
    let (hi, high) = expect_digit-ok previous kept in
    let (lo, low) = expect_digit-ok b hex in
    let (ys, set, len) =
      set_at-ok s.octets s.octet (bit_or (hi * 2 ^ 4 % 2 ^ 8) lo)
        (omega (arith, v.count, v.octet, v.colons, odd)) in
    rw high (
      rw low (
        rw set (
          scanned (record {
            count = omega (arith, len, v.count);
            colons = v.colons;
            size = omega arith;
            octet = omega (arith, v.octet, odd);
            kept = omega (arith, odd);
          }))))

ipv6_byte-Scanned : (s : Ipv6Scan) (b : ℕ) (ends : Bool) → IsScan6 s → Scanned6 (ipv6_byte s b ends)
unfolding ipv6_byte ipv6_character
ipv6_byte-Scanned s b ends v = elim (Bool-cases (b == b':')) [
  | inl e ↦ rw e (ipv6_colon-Scanned s ends v)
  | inr e ↦ rw e (elim (Bool-cases (is_hex b)) [
    | inr f ↦ rw f refused
    | inl f ↦ rw f (elim (Bool-cases (s.current_textual_block_size == 4)) [
      | inl g ↦ rw g refused
      | inr g ↦
          rw g (ipv6_pair-Scanned s s.previous_character b v (ground (arith, v.size)) v.kept f)
    ])
  ])
]

module _ ⦃u : Untrusted⦄ {p : Bool} where
  after6 :
      (fuel : ℕ) (x : Result (Option Ipv6Scan)) (rest : Reader)
      → Scanned6 x
      → ((t : Ipv6Scan) → IsScan6 t → Ends p (ipv6_loop fuel t rest))
      → Ends p (
          x >>= λ next. elim next [
            | none ↦ ok none
            | some t ↦
                let again = ipv6_loop fuel t rest in if at_end rest then ok (ipv6_end t) else again
          ])
  after6 fuel (ok none) rest refused k = returned
  after6 fuel (ok (some t)) rest (scanned w) k = Ends-if (at_end rest) returned (k t w)
  after6 fuel (err e) rest h k = elim h [ ]
  after6 fuel panic rest h k = elim h [ ]
  after6 fuel stuck rest h k = elim h [ ]

  ipv6_loop-Ends :
      (fuel : ℕ) (s : Ipv6Scan) (r : Reader)
      → IsScan6 s
      → left r < fuel
      → Ends p (ipv6_loop fuel s r)
  unfolding ipv6_loop
  ipv6_loop-Ends zero s r v h = absurd (omega arith)
  ipv6_loop-Ends (suc fuel) s r v h = elim (next_byte r) [
    | inr (rest, e, z) ↦ rw (e, ipv6_loop) returned
    | inl (b, rest, e, less) ↦
        rw (e, ipv6_loop)
          (after6 fuel _ _ (ipv6_byte-Scanned s b _ v)
            (λ t w. ipv6_loop-Ends fuel t _ w (rw e (omega arith))))
  ]

  -- Reading an IPv4 or an IPv6 address from any text gives an address or a refusal: no index leaves its
  -- array, no `expect` and no `unwrap` fails, and the loops have rounds enough.
  pub parse_address-Ends :
      (text : Input) → Ends p (parse_ipv4_address text) × Ends p (parse_ipv6_address text)
  unfolding parse_ipv4_address parse_ipv6_address
  parse_address-Ends text = (
    Ends-bind
        (ipv4_loop-Ends _ _ _
          (record {
            digits = refl;
            size = omega arith;
            count = refl;
            octet = refl;
            dots = omega arith;
          })
          (fits text))
        (λ parsed. returned),
    Ends-if (not (length text == 39)) returned (
        Ends-bind
          (ipv6_loop-Ends _ _ _
            (record {
              count = refl;
              colons = omega arith;
              size = omega arith;
              octet = refl;
              kept = refl;
            })
            (fits text))
          (λ parsed. returned)),
  )
    where
      fits : (text : Input) → left (new text) < suc (length text)
      fits text = omega (arith, ap length (u.remaining-new text))
