-- ===== src/SignedData/Inversion.antt =====
-- src/signed_data.rs: the bytes that a signed structure was read from.
use webpki.Prelude.{ℕ, false, ◌≡◌, refl, sym, ap, ◌∙◌, ◌++◌, [], ◌∷◌, All, append_assoc}
use webpki.Result.{Result, ok, err, panic, stuck}
use webpki.Exec.{>>=-eq-ok}
use webpki.Untrusted.{Input, Untrusted, Reader, new, remaining, read_partial}
use webpki.Untrusted.Total.{Outcome, panicking}
use webpki.Der.{
  sequence, bit_string, tag_byte, expect_tag, expect_tag_and_get_value_limited,
  bit_string_with_no_unused_bits,
}
use webpki.Der.Length.{IsByte, encode}
use webpki.Der.Total.{expect_tag_and_get_value_limited-IsTotal}
use webpki.Der.Inversion.{
  All-append_right, expect_tag_and_get_value_limited-eq-ok, expect_tag-eq-ok,
  bit_string_with_no_unused_bits-eq-ok,
}
use webpki.SignedData.{SignedData, signed_data_from_der}

regroup :
    (a b c rest1 rest2 rest3 : Input)
    → rest1 ≡ b ++ rest2
    → rest2 ≡ c ++ rest3
    → a ++ rest1 ≡ (a ++ (b ++ c)) ++ rest3
regroup a b c rest1 rest2 rest3 e f = rw (e, f) (simp append_assoc)

module _ ⦃u : Untrusted⦄ where
  module _ (limit : ℕ) (i : Input) (bytes : All IsByte i) where
    partial_from :
        (x : Result Input × Reader)
        → expect_tag_and_get_value_limited sequence limit (new i) ≡ x
        → Outcome false i x
        → (taken tbs : Input) (r : Reader)
        → read_partial (expect_tag_and_get_value_limited sequence limit) (new i)
          ≡ (ok (taken, tbs), r)
        → (taken ≡ encode (tag_byte sequence) tbs) × (i ≡ taken ++ remaining r)
    partial_from (ok c, s) e h taken tbs r run =
        let whole = encode (tag_byte sequence) c in
        let decoder = expect_tag_and_get_value_limited sequence limit in
        let split = expect_tag_and_get_value_limited-eq-ok sequence limit i c s bytes e in
        let ran = u.read_partial-ok Input decoder whole (remaining s) c (
          ap (λ t. decoder (new t)) (sym split)
          ∙ e
          ∙ ap (λ t. (ok c, t)) (sym (u.new-remaining s))) in
        let same : ◌≡◌ {A = Result (Input × Input) × Reader} (ok (whole, c), new (remaining s))
            (ok (taken, tbs), r) =
          sym ran ∙ ap (λ t. read_partial decoder (new t)) (sym split) ∙ run in
        let is_taken : whole ≡ taken = cc in
        let is_tbs : c ≡ tbs = cc in
        let is_rest : s ≡ r = sym (u.new-remaining s) ∙ ap (λ t. t.1) same in
        (
          sym is_taken ∙ ap (encode (tag_byte sequence)) is_tbs,
          split ∙ (λ j. is_taken j ++ remaining (is_rest j)),
        )
    partial_from (err d, s) e h taken tbs r run =
        let ran =
          u.read_partial-err Input (expect_tag_and_get_value_limited sequence limit) (new i) s d
            e in
        cc
    partial_from (panic, s) e (panicking f h) taken tbs r run = cc
    partial_from (stuck, s) e h taken tbs r run = elim h [ ]

    partial_tbs :
        (taken tbs : Input) (r : Reader)
        → read_partial (expect_tag_and_get_value_limited sequence limit) (new i)
          ≡ (ok (taken, tbs), r)
        → (taken ≡ encode (tag_byte sequence) tbs) × (i ≡ taken ++ remaining r)
    partial_tbs taken tbs r run =
        let total =
          (expect_tag_and_get_value_limited-IsTotal {p = false} sequence limit).at (new i) in
        partial_from (expect_tag_and_get_value_limited sequence limit (new i)) refl
          (rw (u.remaining-new i) at total) taken tbs r run

  -- the layout of a signed structure
  abbrev pub signed_bytes : SignedData → Input
  signed_bytes signed_data =
      signed_data.signed
      ++ (encode (tag_byte sequence) signed_data.algorithm
          ++ encode (tag_byte bit_string) (0 ∷ signed_data.signature))

  no_data : SignedData
  no_data = record { signed = []; algorithm = []; signature = [] }

  abbrev first_body : Result (Input × SignedData) × Reader → Input
  first_body (ok (tbs, d), r) = tbs
  first_body (_, r) = []

  abbrev first_data : Result (Input × SignedData) × Reader → SignedData
  first_data (ok (tbs, d), r) = d
  first_data (_, r) = no_data

  pub signed_data_from_der-eq-ok :
      (limit : ℕ) (i tbs : Input) (signed_data : SignedData) (r : Reader)
      → All IsByte i
      → signed_data_from_der limit (new i) ≡ (ok (tbs, signed_data), r)
      → (i ≡ signed_bytes signed_data ++ remaining r)
        × (signed_data.signed ≡ encode (tag_byte sequence) tbs)
  unfolding signed_data_from_der
  signed_data_from_der-eq-ok limit i tbs signed_data r bytes h =
      let ((signed, body), s1, read1, rest1) =
        >>=-eq-ok (read_partial (expect_tag_and_get_value_limited sequence limit)) _ (new i) h in
      let (is_signed, split1) = partial_tbs limit i bytes signed body s1 read1 in
      let (algorithm, s2, read2, rest2) = >>=-eq-ok (expect_tag sequence) _ s1 rest1 in
      let (signature, s3, read3, rest3) = >>=-eq-ok bit_string_with_no_unused_bits _ s2 rest2 in
      let bytes1 = All-append_right signed (remaining s1) (rw split1 at bytes) in
      let split2 =
        expect_tag-eq-ok sequence (remaining s1) algorithm s2 bytes1
          (ap (expect_tag sequence) (u.new-remaining s1) ∙ read2) in
      let bytes2 =
        All-append_right (encode (tag_byte sequence) algorithm) (remaining s2)
          (rw split2 at bytes1) in
      let split3 =
        bit_string_with_no_unused_bits-eq-ok (remaining s2) signature s3 bytes2
          (ap (λ t. bit_string_with_no_unused_bits t) (u.new-remaining s2) ∙ read3) in
      let is_body : body ≡ tbs = ap first_body rest3 in
      let is_data = ap first_data rest3 in
      let is_rest : s3 ≡ r = ap (λ t. t.1) rest3 in
      let parts = regroup signed _ _ _ _ _ split2 split3 in
      (
        split1 ∙ parts ∙ (λ j. signed_bytes (is_data j) ++ remaining (is_rest j)),
        sym (ap (λ d. d.signed) is_data) ∙ is_signed ∙ ap (encode (tag_byte sequence)) is_body,
      )
