-- ===== src/SubjectName/IpAddress/Parse/Ipv4.antt =====
-- src/subject_name/ip_address.rs: `parse_ipv4_address` on the text of an address.
use webpki.Prelude.{
  ℕ, suc, ◌+◌, ◌/◌, ◌%◌, ◌<◌, ◌≤◌, ◌≡◌, refl, ap, sym, append-nil, ◌∙◌, arith, Bool, true, false,
  not, ◌||◌, some, Option, List, [], ◌∷◌, ◌++◌, ◌==◌, ltb, length, is_empty, Bool-cases, inl, inr,
  if◌then◌else◌,
}
use webpki.Result.{Result, ok}
use webpki.Untrusted.{Input, Untrusted, new, first_is}
use webpki.SubjectName.IpAddress.{v4}
use webpki.SubjectName.IpAddress.Parse.{
  Ipv4Scan, ipv4_byte, ipv4_dot, ipv4_digit, ipv4_end, ipv4_loop, parse_ipv4_address, set_at,
  slice_to, expect_u8, radix10_to_octet, radix10_from,
}

-- The decimal digits of an octet, with no leading zeros.
abbrev pub octet_text : ℕ → Input
octet_text n =
    if ltb n 10
    then (b'0' + n) ∷ []
    else if ltb n 100
    then (b'0' + n / 10) ∷ (b'0' + n % 10) ∷ []
    else (b'0' + n / 100) ∷ (b'0' + n / 10 % 10) ∷ (b'0' + n % 10) ∷ []

-- Four octets with dots between.
abbrev pub ipv4_text : ℕ → ℕ → ℕ → ℕ → Input
ipv4_text a b c d =
    octet_text a ++ b'.' ∷ (octet_text b ++ b'.' ∷ (octet_text c ++ b'.' ∷ octet_text d))

abbrev pub scan : Bool → ℕ → ℕ → ℕ → ℕ → ℕ → List ℕ → Ipv4Scan
scan first x y z size k octets = record {
  is_first_byte = first;
  current_octet = x ∷ y ∷ z ∷ [];
  current_size = size;
  dot_count = k;
  octet = k;
  octets = octets;
}

digit_first :
    (first : Bool) (k d : ℕ) (octets : List ℕ) (ends dot : Bool)
    → d < 10
    → (not (d == 0) || (dot || ends)) ≡ true
    → ipv4_byte (scan first 0 0 0 0 k octets) (b'0' + d) ends dot
      ≡ ok (some (scan false d 0 0 1 k octets))
unfolding ipv4_byte ipv4_digit set_at
digit_first first k d octets ends dot h g = ground arith

digit_second :
    (k x d : ℕ) (octets : List ℕ) (ends dot : Bool)
    → d < 10
    → ipv4_byte (scan false x 0 0 1 k octets) (b'0' + d) ends dot
      ≡ ok (some (scan false x d 0 2 k octets))
unfolding ipv4_byte ipv4_digit set_at
digit_second k x d octets ends dot h = ground arith

digit_third :
    (k x y d : ℕ) (octets : List ℕ) (ends dot : Bool)
    → d < 10
    → ipv4_byte (scan false x y 0 2 k octets) (b'0' + d) ends dot
      ≡ ok (some (scan false x y d 3 k octets))
unfolding ipv4_byte ipv4_digit set_at
digit_third k x y d octets ends dot h = ground arith

-- the first digits of the current octet are those of a number
abbrev pub Value : ℕ → ℕ → ℕ → ℕ → ℕ → Type 0
Value x y z size n =
    (digits : List ℕ) × (slice_to (x ∷ y ∷ z ∷ []) size ≡ ok digits) × (radix10_to_octet digits ≡ n)

pub one_digit : (n : ℕ) → Value n 0 0 1 n
unfolding slice_to radix10_to_octet radix10_from
one_digit n = (n ∷ [], refl, omega arith)

pub two_digits : (n : ℕ) → Value (n / 10) (n % 10) 0 2 n
unfolding slice_to radix10_to_octet radix10_from
two_digits n = ((n / 10) ∷ (n % 10) ∷ [], refl, omega arith)

pub three_digits : (n : ℕ) → Value (n / 100) (n / 10 % 10) (n % 10) 3 n
unfolding slice_to radix10_to_octet radix10_from
three_digits n = ((n / 100) ∷ (n / 10 % 10) ∷ (n % 10) ∷ [], refl, omega arith)

at_dot :
    (k x y z size n : ℕ) (octets octets' : List ℕ) (dot : Bool)
    → Value x y z size n
    → 1 ≤ size
    → n < 256
    → k < 3
    → set_at octets k n ≡ ok octets'
    → ipv4_byte (scan false x y z size k octets) b'.' false dot
      ≡ ok (some (scan false 0 0 0 0 (k + 1) octets'))
unfolding ipv4_byte ipv4_dot expect_u8
at_dot k x y z size n octets octets' dot (digits, taken, value) h small below set = ground arith

at_text_end :
    (x y z size n : ℕ) (octets octets' : List ℕ)
    → Value x y z size n
    → n < 256
    → set_at octets 3 n ≡ ok octets'
    → ipv4_end (scan false x y z size 3 octets) ≡ ok (some octets')
unfolding ipv4_end expect_u8
at_text_end x y z size n octets octets' (digits, taken, value) small set = ground arith

or_last : (b : Bool) {c : Bool} → c ≡ true → (b || c) ≡ true
or_last true h = refl
or_last false h = h

octet_text-nonempty : (n : ℕ) (j : Input) → is_empty (octet_text n ++ j) ≡ false
octet_text-nonempty n j = elim (Bool-cases (ltb n 10)) [
  | inl one ↦ rw one refl
  | inr more ↦
      rw more (elim (Bool-cases (ltb n 100)) [ inl two ↦ rw two refl | inr three ↦ rw three refl ])
]

module _ ⦃u : Untrusted⦄ where
  abbrev pub run : Ipv4Scan → Input → Result (Option (List ℕ))
  run s i = ipv4_loop (suc (length i)) s (new i)

  pub loop_step :
      (fuel : ℕ) (s t : Ipv4Scan) (b : ℕ) (i : Input)
      → ipv4_byte s b (is_empty i) (first_is b'.' i) ≡ ok (some t)
      → ipv4_loop (suc fuel) s (new (b ∷ i))
        ≡ (if is_empty i then ipv4_end t else ipv4_loop fuel t (new i))
  unfolding ipv4_loop
  loop_step fuel s t b i h =
      rw (u.read_byte-cons b i, ipv4_loop)
        (rw (u.read_byte-cons b i) (
          rw (u.at_end-new i, u.peek-new i b'.')
            (rw h (rw (u.read_byte-cons b i) (rw (u.at_end-new i) refl)))))

  -- what is left to do at the end of an octet
  abbrev pub after : Ipv4Scan → Input → Result (Option (List ℕ))
  after t j = if is_empty j then ipv4_end t else run t j

  abbrev HasRead : ℕ → ℕ → List ℕ → Ipv4Scan → Type 0
  HasRead n k octets t =
      (x : ℕ) × (y : ℕ) × (z : ℕ) × (size : ℕ) × (t ≡ scan false x y z size k octets)
      × (1 ≤ size)
      × Value x y z size n

  octet_run :
      (first : Bool) (k n : ℕ) (octets : List ℕ) (j : Input)
      → n < 256
      → (first_is b'.' j || is_empty j) ≡ true
      → (t : Ipv4Scan) × HasRead n k octets t
        × (run (scan first 0 0 0 0 k octets) (octet_text n ++ j) ≡ after t j)
  octet_run first k n octets j h e = elim (Bool-cases (ltb n 10)) [
    | inl one ↦ rw one (
      scan false n 0 0 1 k octets,
      (n, 0, 0, 1, refl, omega arith, one_digit n),
      loop_step _ _ _ _ _
          (digit_first first k n octets _ _ (ground arith) (or_last (not (n == 0)) e)),
    )
    | inr more ↦ rw more (elim (Bool-cases (ltb n 100)) [
      | inl two ↦ rw two (
        scan false (n / 10) (n % 10) 0 2 k octets,
        (n / 10, n % 10, 0, 2, refl, omega arith, two_digits n),
        loop_step _ _ _ _ _ (digit_first first k (n / 10) octets _ _ (ground arith) (ground arith))
            ∙ loop_step _ _ _ _ _ (digit_second k (n / 10) (n % 10) octets _ _ (omega arith)),
      )
      | inr three ↦ rw three (
        scan false (n / 100) (n / 10 % 10) (n % 10) 3 k octets,
        (n / 100, n / 10 % 10, n % 10, 3, refl, omega arith, three_digits n),
        loop_step _ _ _ _ _ (digit_first first k (n / 100) octets _ _ (omega arith) (ground arith))
            ∙ loop_step _ _ _ _ _ (digit_second k (n / 100) (n / 10 % 10) octets _ _ (omega arith))
            ∙ loop_step _ _ _ _ _
                (digit_third k (n / 100) (n / 10 % 10) (n % 10) octets _ _ (omega arith)),
      )
    ])
  ]

  octet_dot :
      (first : Bool) (k n : ℕ) (octets octets' : List ℕ) (i : Input)
      → n < 256
      → k < 3
      → set_at octets k n ≡ ok octets'
      → is_empty i ≡ false
      → run (scan first 0 0 0 0 k octets) (octet_text n ++ b'.' ∷ i)
        ≡ run (scan false 0 0 0 0 (k + 1) octets') i
  octet_dot first k n octets octets' i small below set more =
      let (t, (x, y, z, size, same, pos, value), read) =
        octet_run first k n octets (b'.' ∷ i) small refl in
      let dot = at_dot k x y z size n octets octets' (first_is b'.' i) value pos small below set in
      let s = scan false x y z size k octets in
      let next = scan false 0 0 0 0 (k + 1) octets' in
      let step : run s (b'.' ∷ i) ≡ after next i =
        loop_step (suc (length i)) s next b'.' i (rw more dot) in
      let goes_on : after next i ≡ run next i = rw more refl in read ∙ (rw same (step ∙ goes_on))

  octet_last :
      (n : ℕ) (octets octets' : List ℕ)
      → n < 256
      → set_at octets 3 n ≡ ok octets'
      → run (scan false 0 0 0 0 3 octets) (octet_text n) ≡ ok (some octets')
  octet_last n octets octets' small set =
      let (t, (x, y, z, size, same, pos, value), read) = octet_run false 3 n octets [] small refl in
      ap (λ i. run (scan false 0 0 0 0 3 octets) i) (sym (append-nil (octet_text n)))
      ∙ read
      ∙ rw same (at_text_end x y z size n octets octets' value small set)

  -- The text of four octets, in decimal, with no leading zeros and dots between, is read as an address
  -- of this text and these octets.
  pub parse_ipv4_address-ipv4_text :
      (a b c d : ℕ)
      → a < 256
      → b < 256
      → c < 256
      → d < 256
      → parse_ipv4_address (ipv4_text a b c d)
        ≡ ok (some (v4 (ipv4_text a b c d) (a ∷ b ∷ c ∷ d ∷ [])))
  unfolding parse_ipv4_address set_at
  parse_ipv4_address-ipv4_text a b c d ha hb hc hd =
      let last : is_empty (octet_text d) ≡ false =
        ap is_empty (sym (append-nil (octet_text d))) ∙ octet_text-nonempty d [] in
      let read : run (scan true 0 0 0 0 0 (0 ∷ 0 ∷ 0 ∷ 0 ∷ [])) (ipv4_text a b c d)
          ≡ ok (some (a ∷ b ∷ c ∷ d ∷ [])) =
        octet_dot true 0 a _ (a ∷ 0 ∷ 0 ∷ 0 ∷ []) _ ha (omega arith) refl (octet_text-nonempty b _)
        ∙ octet_dot false 1 b _ (a ∷ b ∷ 0 ∷ 0 ∷ []) _ hb (omega arith) refl
            (octet_text-nonempty c _)
        ∙ octet_dot false 2 c _ (a ∷ b ∷ c ∷ 0 ∷ []) _ hc (omega arith) refl last
        ∙ octet_last d _ (a ∷ b ∷ c ∷ d ∷ []) hd refl in
      rw read refl
