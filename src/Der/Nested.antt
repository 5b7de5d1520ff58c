-- ===== src/Der/Nested.antt =====
-- src/der.rs: `expect_tag` and `nested` on an encoded value.
use webpki.Prelude.{ℕ, ◌<◌, ◌≡◌, ap, ◌≢◌, bit_and, true, ◌++◌, arith, ◌==◌, length}
use webpki.Error.{Error}
use webpki.Result.{ok}
use webpki.Untrusted.{Input, Untrusted, Decoder, new, at_end, complete}
use webpki.Der.{
  Tag, tag_byte, boolean, expect_tag, expect_tag_and_get_value_limited, nested_limited, nested,
}
use webpki.Der.Length.{encode, read-encode}

==_refl : (n : ℕ) → (n == n) ≡ true
==_refl n = ground arith

tag_low : (t : Tag) → bit_and (tag_byte t) 31 ≢ 31
tag_low boolean = omega arith
tag_low _ = omega arith

module _ ⦃u : Untrusted⦄ where
  pub expect_tag-encode :
      (t : Tag) (value rest : Input)
      → length value < 65535
      → expect_tag t (new (encode (tag_byte t) value ++ rest)) ≡ (ok value, new rest)
  expect_tag-encode t value rest h =
      let reads = read-encode 65535 (tag_byte t) value rest (tag_low t) h (omega arith) in
      unfold expect_tag in rw reads (ground arith)

  -- On the encoding of a value shorter than 65535 bytes under the expected tag, with any bytes behind
  -- it, `nested` runs the decoder on the value alone, fails with its own error where the decoder leaves
  -- bytes of the value, and leaves the reader behind the encoding.
  pub nested-encode :
      {A : Type 0} (t : Tag) (e : Error) (d : Decoder A) (value rest : Input)
      → length value < 65535
      → nested t e d (new (encode (tag_byte t) value ++ rest))
        ≡ (complete at_end e (d (new value)), new rest)
  nested-encode t e d value rest h =
      let reads = read-encode 65535 (tag_byte t) value rest (tag_low t) h (omega arith) in
      unfold nested nested_limited expect_tag_and_get_value_limited in
      rw reads (rw (==_refl (tag_byte t)) (ap (λ x. (x, new rest)) (u.read_all_lem _ value e d)))
