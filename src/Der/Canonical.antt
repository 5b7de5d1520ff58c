-- ===== src/Der/Canonical.antt =====
-- src/der.rs: what `read_tag_and_get_value_limited` accepts, against the distinguished encoding.
use webpki.Prelude.{
  ℕ, ◌≤◌, ◌<◌, ◌≡◌, sym, ◌∙◌, ◌≢◌, bit_and, false, [], ◌∷◌, ◌++◌, arith, leb, ◌==◌, length, All,
  drop, length-take, take-append-drop, append_assoc, Bool-cases, inl, inr,
}
use webpki.Error.{bad_der}
use webpki.Result.{ok, err}
use webpki.Exec.{>>=-eq-ok}
use webpki.Untrusted.{Input, Untrusted, Reader, new, remaining}
use webpki.Der.{
  length_from, length_one_byte, length_two_bytes, length_three_bytes, length_four_bytes, read_value,
  read_tag_and_get_value_limited,
}
use webpki.Der.Length.{
  IsByte, length_octets, encode, short_form, arm_one, arm_two, arm_three, arm_four, read_tag-low,
  read_tag-high,
}

assemble :
    {t tag n : ℕ} (i j rest value : Input)
    → t ≡ tag
    → n ≡ length value
    → i ≡ length_octets n ++ j
    → j ≡ value ++ rest
    → t ∷ i ≡ encode tag value ++ rest
unfolding encode
assemble i j rest value same size first split = rw (same, first, split, size, append_assoc)

low : (t tag : ℕ) → t ≡ tag → (bit_and t 31 == 31) ≡ false → bit_and tag 31 ≢ 31
low t tag same e q = let e' : (bit_and tag 31 == 31) ≡ false = rw (← same) e in ground arith

module _ ⦃u : Untrusted⦄ where
  -- An arm that succeeds has read the shortest octets of its result.
  one_canonical :
      (i : Input) (n : ℕ) (r : Reader)
      → All IsByte i
      → length_one_byte (new i) ≡ (ok n, r)
      → 0x81 ∷ i ≡ length_octets n ++ remaining r
  unfolding length_octets
  one_canonical [] n r bs h =
      let stop : length_one_byte (new []) ≡ (err bad_der, new []) =
        unfold length_one_byte in simp u.read_byte-nil in
      cc
  one_canonical (b ∷ i) n r bs h = ground (arith, arm_one b i, u.remaining-new i)

  two_canonical :
      (i : Input) (n : ℕ) (r : Reader)
      → All IsByte i
      → length_two_bytes (new i) ≡ (ok n, r)
      → 0x82 ∷ i ≡ length_octets n ++ remaining r
  unfolding length_octets
  two_canonical [] n r bs h =
      let stop : length_two_bytes (new []) ≡ (err bad_der, new []) =
        unfold length_two_bytes in simp (u.read_byte-nil) in
      cc
  two_canonical (a ∷ []) n r bs h =
      let stop : length_two_bytes (new (a ∷ [])) ≡ (err bad_der, new []) =
        unfold length_two_bytes in simp (u.read_byte-nil, u.read_byte-cons) in
      cc
  two_canonical (a ∷ b ∷ i) n r bs h = ground (arith, arm_two a b i, u.remaining-new i)

  three_canonical :
      (i : Input) (n : ℕ) (r : Reader)
      → All IsByte i
      → length_three_bytes (new i) ≡ (ok n, r)
      → 0x83 ∷ i ≡ length_octets n ++ remaining r
  unfolding length_octets
  three_canonical [] n r bs h =
      let stop : length_three_bytes (new []) ≡ (err bad_der, new []) =
        unfold length_three_bytes in simp (u.read_byte-nil) in
      cc
  three_canonical (a ∷ []) n r bs h =
      let stop : length_three_bytes (new (a ∷ [])) ≡ (err bad_der, new []) =
        unfold length_three_bytes in simp (u.read_byte-nil, u.read_byte-cons) in
      cc
  three_canonical (a ∷ b ∷ []) n r bs h =
      let stop : length_three_bytes (new (a ∷ b ∷ [])) ≡ (err bad_der, new []) =
        unfold length_three_bytes in simp (u.read_byte-nil, u.read_byte-cons) in
      cc
  three_canonical (a ∷ b ∷ c ∷ i) n r bs h = ground (arith, arm_three a b c i, u.remaining-new i)

  four_canonical :
      (i : Input) (n : ℕ) (r : Reader)
      → All IsByte i
      → length_four_bytes (new i) ≡ (ok n, r)
      → 0x84 ∷ i ≡ length_octets n ++ remaining r
  unfolding length_octets
  four_canonical [] n r bs h =
      let stop : length_four_bytes (new []) ≡ (err bad_der, new []) =
        unfold length_four_bytes in simp (u.read_byte-nil) in
      cc
  four_canonical (a ∷ []) n r bs h =
      let stop : length_four_bytes (new (a ∷ [])) ≡ (err bad_der, new []) =
        unfold length_four_bytes in simp (u.read_byte-nil, u.read_byte-cons) in
      cc
  four_canonical (a ∷ b ∷ []) n r bs h =
      let stop : length_four_bytes (new (a ∷ b ∷ [])) ≡ (err bad_der, new []) =
        unfold length_four_bytes in simp (u.read_byte-nil, u.read_byte-cons) in
      cc
  four_canonical (a ∷ b ∷ c ∷ []) n r bs h =
      let stop : length_four_bytes (new (a ∷ b ∷ c ∷ [])) ≡ (err bad_der, new []) =
        unfold length_four_bytes in simp (u.read_byte-nil, u.read_byte-cons) in
      cc
  four_canonical (a ∷ b ∷ c ∷ d ∷ i) n r bs h =
      ground (arith, arm_four a b c d i, u.remaining-new i)

  length_from-canonical :
      (f : ℕ) (i : Input) (n : ℕ) (r : Reader)
      → All IsByte (f ∷ i)
      → length_from f (new i) ≡ (ok n, r)
      → f ∷ i ≡ length_octets n ++ remaining r
  length_from-canonical f i n r bs h =
      unfold length_from in
      elim (Bool-cases (bit_and f 128 == 0)) [
        | inl e ↦ unfold length_octets in ground (arith, short_form f, u.remaining-new i)
        | inr e ↦ ground (
          arith,
          one_canonical i n r bs.1,
          two_canonical i n r bs.1,
          three_canonical i n r bs.1,
          four_canonical i n r bs.1,
        )
      ]

  read_value_inv :
      (limit t n : ℕ) (j : Input) (tag : ℕ) (value : Input) (r : Reader)
      → read_value limit t n (new j) ≡ (ok (tag, value), r)
      → (t ≡ tag) × (n ≡ length value) × (n < limit) × (j ≡ value ++ remaining r)
  unfolding read_value
  read_value_inv limit t n j tag value r h = elim (Bool-cases (leb n (length j))) [
    | inl e ↦
        let fits : n ≤ length j = ground arith in
        ground (
          arith,
          u.read_bytes_enough n j fits,
          length-take n j,
          take-append-drop n j,
          u.remaining-new (drop n j),
        )
    | inr e ↦ ground (arith, u.read_bytes_short n j)
  ]

  -- Where reading bytes succeeds, they are the distinguished encoding of the tag and the value that it
  -- returns, followed by what the reader has left; the value is shorter than the limit and the tag is
  -- a low one.
  pub read-canonical :
      (limit : ℕ) (i : Input) (tag : ℕ) (value : Input) (r : Reader)
      → All IsByte i
      → read_tag_and_get_value_limited limit (new i) ≡ (ok (tag, value), r)
      → (i ≡ encode tag value ++ remaining r) × (length value < limit) × (bit_and tag 31 ≢ 31)
  read-canonical limit [] tag value r bs h =
      let stop : read_tag_and_get_value_limited limit (new []) ≡ (err bad_der, new []) =
        unfold read_tag_and_get_value_limited in simp u.read_byte-nil in
      cc
  read-canonical limit (t ∷ []) tag value r bs h = elim (Bool-cases (bit_and t 31 == 31)) [
    | inl e ↦ cc (read_tag-high limit t [] e)
    | inr e ↦
        let stop : read_tag_and_get_value_limited limit (new (t ∷ [])) ≡ (err bad_der, new []) =
          unfold read_tag_and_get_value_limited in simp (u.read_byte-cons, e, u.read_byte-nil) in
        cc
  ]
  read-canonical limit (t ∷ f ∷ i) tag value r bs h = elim (Bool-cases (bit_and t 31 == 31)) [
    | inl e ↦ cc (read_tag-high limit t (f ∷ i) e)
    | inr e ↦
        let (n, s, octets, rest) =
          >>=-eq-ok (length_from f) (read_value limit t) (new i)
            (sym (read_tag-low limit t f i e) ∙ h) in
        let first = length_from-canonical f i n s bs.1 octets in
        let (same, size, small, split) =
          read_value_inv limit t n (remaining s) tag value r (rw u.new-remaining rest) in
        (
          assemble (f ∷ i) (remaining s) (remaining r) value same size first split,
          omega (arith, size),
          λ q. low t tag same e q,
        )
  ]
