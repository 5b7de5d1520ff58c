-- ===== src/Tests/Lists.antt =====
-- Revocation lists and trust anchors.
use webpki.Prelude.{ℕ, ◌≡◌, refl, true, none, some, [], ◌∷◌, ◌++◌, bytes_eq}
use webpki.Result.{ok}
use webpki.Untrusted.{Input}
use webpki.Untrusted.Slice.{slice}
use webpki.Untrusted.Loop.{loop_code}
use webpki.Der.{der_code}
use webpki.Time.{time_code}
use webpki.SignedData.{signed_data_code}
use webpki.X509.{x509_code}
use webpki.Cert.{end_entity, cert_code}
use webpki.Crl.{
  BorrowedCertRevocationList, borrowed_find_serial, owned_find_serial, to_owned, crl_code,
}
use webpki.Prelude.{false, not}
use webpki.Crl.Scope.{
  IssuingDistributionPoint, idp_from_der, authoritative_for, out_of_scope, scope_code,
}
use webpki.Crl.Scope.Supported.{IsSupported, idp_from_der-IsSupported}
use webpki.Result.{◌>>=◌}
use webpki.SubjectName.GeneralName.{general_name_code}
use webpki.TrustAnchor.{extract_trust_anchor, trust_anchor_code}
use webpki.Tests.Chain.{tlv, intermediate, spki_value, leaf_fields}

anchor_from_cert :
    extract_trust_anchor ⦃u = slice⦄ intermediate
    ≡ ok
        (record { subject = 7 ∷ []; subject_public_key_info = spki_value; name_constraints = none })
unfolding trust_anchor_code bytes_eq time_code der_code signed_data_code x509_code cert_code
    loop_code
anchor_from_cert = refl

abbrev pub entry : ℕ → Input
entry serial = tlv 48 (
    tlv 2 (serial ∷ [])
    ++ tlv 23 (
        b'7' ∷ b'0' ∷ b'0' ∷ b'1' ∷ b'0' ∷ b'1' ∷ b'0' ∷ b'0' ∷ b'0' ∷ b'0' ∷ b'0' ∷ b'0' ∷ b'Z'
        ∷ []))

abbrev pub two_entries : BorrowedCertRevocationList
two_entries = record {
  signed_data = record { signed = []; algorithm = []; signature = [] };
  issuer = 7 ∷ [];
  issuing_distribution_point = none;
  revoked_certs = entry 3 ++ entry 4;
}

found :
    borrowed_find_serial ⦃u = slice⦄ two_entries (4 ∷ [])
    ≡ ok (
        some (record {
          serial_number = 4 ∷ [];
          revocation_date = 0;
          reason_code = none;
          invalidity_date = none;
        }))
unfolding crl_code bytes_eq time_code der_code cert_code loop_code
found = refl

found_owned :
    (to_owned ⦃u = slice⦄ two_entries >>= λ owned. owned_find_serial owned (4 ∷ []))
    ≡ ok (
        some (record {
          serial_number = 4 ∷ [];
          revocation_date = 0;
          reason_code = none;
          invalidity_date = none;
        }))
unfolding crl_code bytes_eq time_code der_code cert_code loop_code
found_owned = refl

-- a full name with one URI, for a certificate that names no distribution point
in_scope :
    (idp_from_der ⦃u = slice⦄ (tlv 48 (tlv 0xa0 (tlv 0xa0 (tlv 0x86 (b'u' ∷ []))))) >>= λ idp.
    authoritative_for ⦃u = slice⦄ idp (end_entity leaf_fields))
    ≡ ok true
unfolding scope_code der_code x509_code cert_code loop_code general_name_code
in_scope = refl

abbrev point_der : Input
point_der = tlv 48 (tlv 0xa0 (tlv 0xa0 (tlv 0x86 (b'u' ∷ []))) ++ tlv 0x82 (0xff ∷ []))

abbrev ca_point : IssuingDistributionPoint
ca_point = record {
  distribution_point = some (tlv 0xa0 (tlv 0x86 (b'u' ∷ [])));
  only_contains_user_certs = false;
  only_contains_ca_certs = true;
  only_some_reasons = none;
  indirect_crl = false;
  only_contains_attribute_certs = false;
}

read_point : idp_from_der ⦃u = slice⦄ point_der ≡ ok ca_point
unfolding scope_code der_code x509_code cert_code loop_code
read_point = refl

idp_from_der-IsSupported_example :
    IsSupported ⦃u = slice⦄ ca_point
    × (authoritative_for ⦃u = slice⦄ ca_point (end_entity leaf_fields)
        ≡ ok (not (out_of_scope ⦃u = slice⦄ ca_point (end_entity leaf_fields))))
idp_from_der-IsSupported_example =
    idp_from_der-IsSupported ⦃u = slice⦄ point_der ca_point (end_entity leaf_fields) read_point refl
