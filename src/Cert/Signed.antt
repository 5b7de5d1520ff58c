-- ===== src/Cert/Signed.antt =====
-- src/cert.rs: the bytes that a certificate's signature covers, and the bytes that its fields come
-- from.
use webpki.Prelude.{◌≡◌, refl, sym, ap, ◌∙◌, All, append-nil, Option, none, some}
use webpki.Error.{DerTypeId, trailing_data}
use webpki.Result.{Result, ok, >>=-eq-ok}
use webpki.Untrusted.{Input, Untrusted, new, remaining, read_all}
use webpki.Der.{sequence, two_byte_der_size, tag_byte, nested}
use webpki.Der.Length.{IsByte, encode}
use webpki.Der.Inversion.{read_all-eq-ok, nested-eq-ok, encode-bytes}
use webpki.SignedData.{SignedData, signed_data_from_der}
use webpki.SignedData.Inversion.{signed_bytes, signed_data_from_der-eq-ok}
use webpki.Cert.{Cert, CertFields, fields, with_role, read_tbs, cert_from_der}
use webpki.Cert.Fields.{read_tbs-signed_data}

fields-with_role : (role : Option Cert) (c : CertFields) → fields (with_role role c) ≡ c
fields-with_role none c = refl
fields-with_role (some child) c = refl

module _ ⦃u : Untrusted⦄ where
  abbrev pub fields_from : Input → SignedData → Result CertFields
  fields_from tbs signed_data =
      read_all tbs (trailing_data DerTypeId.certificate_tbs_certificate) (read_tbs signed_data)

  -- the structure and the body that are read from the whole
  outer-eq-ok :
      (der tbs : Input) (signed_data : SignedData)
      → All IsByte der
      → read_all der (trailing_data DerTypeId.certificate) (
          nested sequence
            (trailing_data DerTypeId.signed_data)
            (signed_data_from_der two_byte_der_size))
        ≡ ok (tbs, signed_data)
      → (der ≡ encode (tag_byte sequence) (signed_bytes signed_data))
        × (signed_data.signed ≡ encode (tag_byte sequence) tbs)
  outer-eq-ok der tbs signed_data bytes h =
      let (r, run, done) = read_all-eq-ok der _ _ h in
      let (value, whole, inner) = nested-eq-ok sequence _ _ der _ r bytes run in
      let all : der ≡ encode (tag_byte sequence) value = whole ∙ rw (done, append-nil) refl in
      let value_bytes = encode-bytes (tag_byte sequence) value (remaining r) (rw whole at bytes) in
      let (s, ran, empty) = read_all-eq-ok value _ _ inner in
      let (parts, is_signed) =
        signed_data_from_der-eq-ok two_byte_der_size value tbs signed_data s value_bytes ran in
      (all ∙ ap (encode (tag_byte sequence)) (parts ∙ rw (empty, append-nil) refl), is_signed)

  -- A certificate that is decoded is the encoding of its signed bytes, of the algorithm and of the
  -- signature, with nothing left out, and the signed bytes are the encoding of the very body that
  -- its fields are read from.
  pub cert_from_der-signed :
      (der : Input) (role : Option Cert) (cert : Cert)
      → All IsByte der
      → cert_from_der der role ≡ ok cert
      → (tbs : Input) × (der ≡ encode (tag_byte sequence) (signed_bytes (fields cert).signed_data))
        × ((fields cert).signed_data.signed ≡ encode (tag_byte sequence) tbs)
        × (fields_from tbs (fields cert).signed_data ≡ ok (fields cert))
  unfolding cert_from_der
  cert_from_der-signed der role cert bytes h =
      let ((tbs, signed_data), outer, rest) = >>=-eq-ok _ _ h in
      let (c, inner, done) = >>=-eq-ok (fields_from tbs signed_data) _ rest in
      let (whole, is_signed) = outer-eq-ok der tbs signed_data bytes outer in
      let is_role : with_role role c ≡ cert = cc in
      let is_fields : fields cert ≡ c = sym (ap fields is_role) ∙ fields-with_role role c in
      let (r, run, empty) = read_all-eq-ok tbs _ _ inner in
      let same : c.signed_data ≡ signed_data =
        (read_tbs-signed_data signed_data).at (new tbs) c (ap (λ x. x.0) run) in
      let is_data : (fields cert).signed_data ≡ signed_data =
        ap (λ d. d.signed_data) is_fields ∙ same in
      (
        tbs,
        whole ∙ ap (λ d. encode (tag_byte sequence) (signed_bytes d)) (sym is_data),
        ap (λ d. d.signed) is_data ∙ is_signed,
        ap (fields_from tbs) is_data ∙ inner ∙ ap (λ d. ok d) (sym is_fields),
      )
