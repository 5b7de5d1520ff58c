-- ===== src/Der/Inversion.antt =====
-- src/der.rs: what a successful run of a decoder says of the bytes that it was given.
use webpki.Prelude.{
  ℕ, ◌≡◌, refl, sym, ap, ◌∙◌, arith, Bool, true, false, not, ◌==◌, ==_iff, [], ◌∷◌, ◌++◌, All,
  is_empty, if◌then◌else◌, Bool-cases, inl, inr, length,
}
use webpki.Error.{Error, bad_der}
use webpki.Result.{Result, ok, err, panic, stuck}
use webpki.Exec.{◌>>=◌, raise, pure, map_err, replace_error, >>=-eq-ok}
use webpki.Untrusted.{
  Input, Untrusted, Reader, Decoder, new, remaining, at_end, read_byte, read_bytes_to_end, read_all,
  complete,
}
use webpki.Untrusted.Loop.Rounds.{at_end-remaining}
use webpki.Der.{
  Tag, bit_string, bit_string_with_no_unused_bits, tag_byte, two_byte_der_size,
  read_tag_and_get_value_limited, expect_tag_and_get_value_limited, expect_tag, nested_limited,
  nested,
}
use webpki.Der.Length.{IsByte, encode, length_octets}
use webpki.Der.Canonical.{read-canonical}

pub All-append_right : (xs ys : Input) → All IsByte (xs ++ ys) → All IsByte ys
All-append_right [] ys h = h
All-append_right (x ∷ xs) ys (b, h) = All-append_right xs ys h

All-append_left : (xs ys : Input) → All IsByte (xs ++ ys) → All IsByte xs
All-append_left [] ys h = tt
All-append_left (x ∷ xs) ys (b, h) = (b, All-append_left xs ys h)

pub encode-bytes :
    (tag : ℕ) (value rest : Input) → All IsByte (encode tag value ++ rest) → All IsByte value
unfolding encode
encode-bytes tag value rest (b, h) =
    All-append_right (length_octets (length value)) value (All-append_left _ rest h)

module _ ⦃u : Untrusted⦄ where
  passed :
      (b : Bool) (inner value : Input) (s r : Reader)
      → (if not b then raise bad_der else pure inner) s ≡ (ok value, r)
      → (b ≡ true) × (inner ≡ value) × (s ≡ r)
  passed true inner value s r h = (refl, cc, cc)
  passed false inner value s r h = cc

  module _ {A : Type 0} where
    complete-eq-ok :
        (e : Error) (x : Result A × Reader) {a : A}
        → complete at_end e x ≡ ok a
        → (r : Reader) × (x ≡ (ok a, r)) × (remaining r ≡ [])
    complete-eq-ok e (ok b, r) h = elim (Bool-cases (at_end r)) [
      | inl f ↦
          (r, ap (λ t. (t, r)) (rw f at h), empty (remaining r) (sym (at_end-remaining r) ∙ f))
      | inr f ↦ absurd (ground arith)
    ]
      where
        empty : (i : Input) → is_empty i ≡ true → i ≡ []
        empty [] k = refl
        empty (b ∷ i) k = cc
    complete-eq-ok e (err d, r) h = cc
    complete-eq-ok e (panic, r) h = cc
    complete-eq-ok e (stuck, r) h = cc

    pub read_all-eq-ok :
        (i : Input) (e : Error) (m : Decoder A) {a : A}
        → read_all i e m ≡ ok a
        → (r : Reader) × (m (new i) ≡ (ok a, r)) × (remaining r ≡ [])
    read_all-eq-ok i e m h = complete-eq-ok e (m (new i)) (sym (u.read_all_lem A i e m) ∙ h)

  pub expect_tag_and_get_value_limited-eq-ok :
      (tag : Tag) (limit : ℕ) (i value : Input) (r : Reader)
      → All IsByte i
      → expect_tag_and_get_value_limited tag limit (new i) ≡ (ok value, r)
      → i ≡ encode (tag_byte tag) value ++ remaining r
  unfolding expect_tag_and_get_value_limited
  expect_tag_and_get_value_limited-eq-ok tag limit i value r bytes h =
      let ((actual_tag, inner), s, read, rest) =
        >>=-eq-ok (read_tag_and_get_value_limited limit) _ (new i) h in
      let (whole, small, low) = read-canonical limit i actual_tag inner s bytes read in
      let (same_tag, same_value, same_rest) =
        passed (tag_byte tag == actual_tag) inner value s r rest in
      let tags = (==_iff (tag_byte tag) actual_tag).0 same_tag in
      whole ∙ (λ j. encode (sym tags j) (same_value j) ++ remaining (same_rest j))

  module _ {A : Type 0} where
    map_err-eq-ok :
        (e : Error) (x : Result A × Reader) {a : A} {r : Reader}
        → ◌≡◌ {A = Result A × Reader} (replace_error e x.0, x.1) (ok a, r)
        → x ≡ (ok a, r)
    map_err-eq-ok e (ok b, s) h = h
    map_err-eq-ok e (err d, s) h = cc
    map_err-eq-ok e (panic, s) h = cc
    map_err-eq-ok e (stuck, s) h = cc

  module _ {A : Type 0} where
    pub nested_limited-eq-ok :
        (tag : Tag) (e : Error) (m : Decoder A) (limit : ℕ) (i : Input) (a : A) (r : Reader)
        → All IsByte i
        → nested_limited tag e m limit (new i) ≡ (ok a, r)
        → (value : Input) × (i ≡ encode (tag_byte tag) value ++ remaining r)
          × (read_all value e m ≡ ok a)
    unfolding nested_limited
    nested_limited-eq-ok tag e m limit i a r bytes h =
        let (value, s, read, rest) =
          >>=-eq-ok (map_err e (expect_tag_and_get_value_limited tag limit)) _ (new i) h in
        let whole =
          expect_tag_and_get_value_limited-eq-ok tag limit i value s bytes
            (map_err-eq-ok e (expect_tag_and_get_value_limited tag limit (new i)) read) in
        let same : s ≡ r = ap (λ x. x.1) rest in
        (
          value,
          whole ∙ ap (λ t. encode (tag_byte tag) value ++ remaining t) same,
          ap (λ x. x.0) rest,
        )

    pub nested-eq-ok :
        (tag : Tag) (e : Error) (m : Decoder A) (i : Input) (a : A) (r : Reader)
        → All IsByte i
        → nested tag e m (new i) ≡ (ok a, r)
        → (value : Input) × (i ≡ encode (tag_byte tag) value ++ remaining r)
          × (read_all value e m ≡ ok a)
    unfolding nested
    nested-eq-ok tag e m = nested_limited-eq-ok tag e m two_byte_der_size

  expect_tag-limited :
      (tag : Tag) → expect_tag tag ≡ expect_tag_and_get_value_limited tag two_byte_der_size
  unfolding expect_tag expect_tag_and_get_value_limited
  expect_tag-limited tag = refl

  pub expect_tag-eq-ok :
      (tag : Tag) (i value : Input) (r : Reader)
      → All IsByte i
      → expect_tag tag (new i) ≡ (ok value, r)
      → i ≡ encode (tag_byte tag) value ++ remaining r
  expect_tag-eq-ok tag i value r bytes h =
      expect_tag_and_get_value_limited-eq-ok tag two_byte_der_size i value r bytes
        (ap (λ m. m (new i)) (sym (expect_tag-limited tag)) ∙ h)

  tested :
      (b : Bool) (i bits : Input) (r : Reader)
      → (if not b then raise bad_der else read_bytes_to_end) (new i) ≡ (ok bits, r)
      → (b ≡ true) × (i ≡ bits)
  tested true i bits r h = (refl, let read = rw (u.read_bytes_to_end-new i) at h in cc)
  tested false i bits r h = cc

  -- the decoder of the bits, behind the count of those that are not used
  no_unused_bits : Decoder Input
  no_unused_bits =
      read_byte >>= λ unused. if not (unused == 0) then raise bad_der else read_bytes_to_end

  no_unused_bits-eq-ok :
      (i bits : Input) (r : Reader) → no_unused_bits (new i) ≡ (ok bits, r) → i ≡ 0 ∷ bits
  unfolding no_unused_bits
  no_unused_bits-eq-ok [] bits r h =
      let stop : no_unused_bits (new []) ≡ (err bad_der, new []) = rw (u.read_byte-nil) refl in cc
  no_unused_bits-eq-ok (b ∷ i) bits r h =
      let rest = rw (u.read_byte-cons b i) at h in
      let (same, bits_left) = tested (b == 0) i bits r rest in
      λ j. (==_iff b 0).0 same j ∷ bits_left j

  pub bit_string_with_no_unused_bits-eq-ok :
      (i bits : Input) (r : Reader)
      → All IsByte i
      → bit_string_with_no_unused_bits (new i) ≡ (ok bits, r)
      → i ≡ encode (tag_byte bit_string) (0 ∷ bits) ++ remaining r
  unfolding bit_string_with_no_unused_bits no_unused_bits
  bit_string_with_no_unused_bits-eq-ok i bits r bytes h =
      let (value, whole, read) = nested-eq-ok bit_string _ no_unused_bits i bits r bytes h in
      let (s, run, done) = read_all-eq-ok value _ no_unused_bits read in
      whole
      ∙ ap (λ t. encode (tag_byte bit_string) t ++ remaining r)
          (no_unused_bits-eq-ok value bits s run)
