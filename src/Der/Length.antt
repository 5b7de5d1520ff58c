-- ===== src/Der/Length.antt =====
-- src/der.rs: the distinguished encoding of a tag and a value, an independent definition, for
-- `read_tag_and_get_value_limited`.
use webpki.Prelude.{
  ℕ, ◌+◌, ◌*◌, ◌/◌, ◌%◌, ◌^◌, ◌≤◌, ◌<◌, ◌≡◌, refl, ◌∙◌, ◌≢◌, bit_and, bit_or, true, false, not,
  ◌&&◌, ◌||◌, List, [], ◌∷◌, ◌++◌, arith, ltb, leb, ◌==◌, if◌then◌else◌, length, take, drop,
  take-append, drop-append, length-append, append_assoc, Bool-cases, inl, inr,
}
use webpki.Prelude.Bits.{check_below, below-check, bit_or-shift}
use webpki.Error.{bad_der}
use webpki.Result.{ok, err}
use webpki.Exec.{◌>>=◌}
use webpki.Untrusted.{first_is, Input, Untrusted, new}
use webpki.Der.{
  length_from, length_one_byte, length_two_bytes, length_three_bytes, length_four_bytes, read_value,
  read_tag_and_get_value_limited,
}

abbrev pub IsByte : ℕ → Type 0
IsByte b = b < 256

-- X.690, 8.1.3 and 10.1: the shortest length octets.
unfoldable pub length_octets : ℕ → List ℕ
length_octets n =
    if ltb n 128
    then n ∷ []
    else if ltb n (2 ^ 8)
    then 0x81 ∷ n ∷ []
    else if ltb n (2 ^ 16)
    then 0x82 ∷ n / 2 ^ 8 ∷ n % 2 ^ 8 ∷ []
    else if ltb n (2 ^ 24)
    then 0x83 ∷ n / 2 ^ 16 ∷ n / 2 ^ 8 % 2 ^ 8 ∷ n % 2 ^ 8 ∷ []
    else 0x84 ∷ n / 2 ^ 24 ∷ n / 2 ^ 16 % 2 ^ 8 ∷ n / 2 ^ 8 % 2 ^ 8 ∷ n % 2 ^ 8 ∷ []

unfoldable pub encode : ℕ → Input → Input
unfolding length_octets
encode tag value = tag ∷ (length_octets (length value) ++ value)

short_form_table :
    check_below 256
      (λ n. (ltb n 128 && bit_and n 128 == 0) || (leb 128 n && not (bit_and n 128 == 0)))
    ≡ true
unfolding check_below
short_form_table = refl

pub short_form : (n : ℕ) → n < 256 → (bit_and n 128 == 0) ≡ ltb n 128
short_form n h = ground (
  arith,
  below-check 256
      (λ n. (ltb n 128 && bit_and n 128 == 0) || (leb 128 n && not (bit_and n 128 == 0))) n
      short_form_table h,
)

two_bytes : (a b : ℕ) → b < 256 → bit_or (a * 2 ^ 8) b ≡ a * 2 ^ 8 + b
two_bytes a b h = bit_or-shift 8 a b (omega arith)

three_bytes :
    (a b c : ℕ)
    → b < 256
    → c < 256
    → bit_or (bit_or (a * 2 ^ 16) (b * 2 ^ 8)) c ≡ a * 2 ^ 16 + b * 2 ^ 8 + c
three_bytes a b c hb hc = rw (bit_or-shift 16 a (b * 2 ^ 8) (omega arith)) (
    let whole : a * 2 ^ 16 + b * 2 ^ 8 ≡ (a * 2 ^ 8 + b) * 2 ^ 8 = omega arith in
    rw whole (bit_or-shift 8 (a * 2 ^ 8 + b) c (omega arith)))

four_bytes :
    (a b c d : ℕ)
    → b < 256
    → c < 256
    → d < 256
    → bit_or (bit_or (bit_or (a * 2 ^ 24) (b * 2 ^ 16)) (c * 2 ^ 8)) d
      ≡ a * 2 ^ 24 + b * 2 ^ 16 + c * 2 ^ 8 + d
four_bytes a b c d hb hc hd = rw (bit_or-shift 24 a (b * 2 ^ 16) (omega arith)) (
    let three : a * 2 ^ 24 + b * 2 ^ 16 ≡ (a * 2 ^ 8 + b) * 2 ^ 16 = omega arith in
    rw three (rw (three_bytes (a * 2 ^ 8 + b) c d hc hd) (omega arith)))

pub first_is-encode :
    (b tag : ℕ) (value rest : Input) → first_is b (encode tag value ++ rest) ≡ (tag == b)
unfolding encode
first_is-encode b tag value rest = refl

-- Each arm of the `match`, by the bytes that are left.
module _ ⦃u : Untrusted⦄ where
  pub arm_one :
      (b : ℕ) (i : Input)
      → length_one_byte (new (b ∷ i)) ≡ (if ltb b 128 then err bad_der else ok b, new i)
  unfolding length_one_byte
  arm_one b i = simp (u.read_byte-cons) (ground arith)

  pub arm_two :
      (a b : ℕ) (i : Input)
      → b < 256
      → length_two_bytes (new (a ∷ b ∷ i))
        ≡ (if leb (a * 2 ^ 8 + b) 0xff then err bad_der else ok (a * 2 ^ 8 + b), new i)
  unfolding length_two_bytes
  arm_two a b i h = simp (u.read_byte-cons) (ground (arith, two_bytes a b))

  pub arm_three :
      (a b c : ℕ) (i : Input)
      → b < 256
      → c < 256
      → length_three_bytes (new (a ∷ b ∷ c ∷ i)) ≡ (
        if leb (a * 2 ^ 16 + b * 2 ^ 8 + c) 0xffff
            then err bad_der
            else ok (a * 2 ^ 16 + b * 2 ^ 8 + c),
        new i,
      )
  unfolding length_three_bytes
  arm_three a b c i hb hc = simp (u.read_byte-cons) (ground (arith, three_bytes a b c))

  pub arm_four :
      (a b c d : ℕ) (i : Input)
      → b < 256
      → c < 256
      → d < 256
      → length_four_bytes (new (a ∷ b ∷ c ∷ d ∷ i)) ≡ (
        if leb (a * 2 ^ 24 + b * 2 ^ 16 + c * 2 ^ 8 + d) 0xffffff
            then err bad_der
            else ok (a * 2 ^ 24 + b * 2 ^ 16 + c * 2 ^ 8 + d),
        new i,
      )
  unfolding length_four_bytes
  arm_four a b c d i hb hc hd = simp (u.read_byte-cons) (ground (arith, four_bytes a b c d))

  -- The first length byte, with the bytes behind it.
  length_from-short : (n : ℕ) (i : Input) → n < 128 → length_from n (new i) ≡ (ok n, new i)
  unfolding length_from
  length_from-short n i h = ground (arith, short_form n)

  length_from-octets :
      (n : ℕ) (rest : Input) (h : n < 2 ^ 32)
      → (f : ℕ) × (os : List ℕ) × (length_octets n ≡ f ∷ os)
        × (length_from f (new (os ++ rest)) ≡ (ok n, new rest))
  unfolding length_from length_octets
  length_from-octets n rest h = elim (Bool-cases (ltb n 128)) [
    | inl e ↦ (n, [], ground arith, length_from-short n rest (ground arith))
    | inr e ↦ elim (Bool-cases (ltb n (2 ^ 8))) [
      | inl e2 ↦ (0x81, n ∷ [], ground arith, ground (arith, arm_one n rest))
      | inr e2 ↦ elim (Bool-cases (ltb n (2 ^ 16))) [
        | inl e3 ↦ (
          0x82,
          n / 2 ^ 8 ∷ n % 2 ^ 8 ∷ [],
          ground arith,
          ground (arith, arm_two (n / 2 ^ 8) (n % 2 ^ 8) rest),
        )
        | inr e3 ↦ elim (Bool-cases (ltb n (2 ^ 24))) [
          | inl e4 ↦ (
            0x83,
            n / 2 ^ 16 ∷ n / 2 ^ 8 % 2 ^ 8 ∷ n % 2 ^ 8 ∷ [],
            ground arith,
            ground (arith, arm_three (n / 2 ^ 16) (n / 2 ^ 8 % 2 ^ 8) (n % 2 ^ 8) rest),
          )
          | inr e4 ↦ (
            0x84,
            n / 2 ^ 24 ∷ n / 2 ^ 16 % 2 ^ 8 ∷ n / 2 ^ 8 % 2 ^ 8 ∷ n % 2 ^ 8 ∷ [],
            ground arith,
            ground (
              arith,
              arm_four (n / 2 ^ 24) (n / 2 ^ 16 % 2 ^ 8) (n / 2 ^ 8 % 2 ^ 8) (n % 2 ^ 8) rest,
            ),
          )
        ]
      ]
    ]
  ]

  read_value-new :
      (limit tag n : ℕ) (i : Input)
      → n ≤ length i
      → n < limit
      → read_value limit tag n (new i) ≡ (ok (tag, take n i), new (drop n i))
  unfolding read_value
  read_value-new limit tag n i fits small = ground (arith, u.read_bytes_enough n i fits)

  pub read_tag-low :
      (limit tag f : ℕ) (i : Input)
      → (bit_and tag 31 == 31) ≡ false
      → read_tag_and_get_value_limited limit (new (tag ∷ f ∷ i))
        ≡ (do n ← length_from f; read_value limit tag n) (new i)
  unfolding read_tag_and_get_value_limited
  read_tag-low limit tag f i e = simp (u.read_byte-cons, e, u.read_byte-cons)

  pub read_tag-high :
      (limit tag : ℕ) (i : Input)
      → (bit_and tag 31 == 31) ≡ true
      → read_tag_and_get_value_limited limit (new (tag ∷ i)) ≡ (err bad_der, new i)
  unfolding read_tag_and_get_value_limited
  read_tag-high limit tag i e = simp (u.read_byte-cons, e)

  -- The encoding of a low tag and of a value shorter than a limit of at most 2^32, with any bytes
  -- behind it, is read as that tag and value, and the reader stands behind it.
  pub read-encode :
      (limit tag : ℕ) (value rest : Input)
      → bit_and tag 31 ≢ 31
      → length value < limit
      → limit ≤ 2 ^ 32
      → read_tag_and_get_value_limited limit (new (encode tag value ++ rest))
        ≡ (ok (tag, value), new rest)
  unfolding encode
  read-encode limit tag value rest low small max =
      let (f, os, split, reads) = length_from-octets (length value) (value ++ rest) (omega arith) in
      let low' : (bit_and tag 31 == 31) ≡ false = ground arith in
      let whole : read_value limit tag (length value) (new (value ++ rest))
          ≡ (ok (tag, value), new rest) =
        read_value-new limit tag (length value) (value ++ rest)
          (omega (arith, length-append value rest)) small
        ∙ rw (take-append value rest, drop-append value rest) in
      rw (split, append_assoc)
        (read_tag-low limit tag f (os ++ (value ++ rest)) low' ∙ rw reads whole)
