-- ===== src/Tests/Certificates.antt =====
-- Certificates as they are decoded, and the search for the algorithm of a signature.
use webpki.Prelude.{◌≡◌, ◌≢◌, ◌↔◌, refl, arith, true, none, some, List, [], ◌∷◌, All, bytes_eq}
use webpki.Error.{unsupported_signature_algorithm}
use webpki.Result.{ok, err}
use webpki.Untrusted.{Input}
use webpki.Untrusted.Slice.{slice}
use webpki.Untrusted.Loop.{loop_code}
use webpki.Der.{sequence, tag_byte, der_code}
use webpki.Der.Length.{encode}
use webpki.SignedData.{
  SignedData, SignatureVerificationAlgorithm, SubjectPublicKeyInfo, verify_signed_data,
  signed_data_code,
}
use webpki.SignedData.Inversion.{signed_bytes}
use webpki.SignedData.Search.{
  Verifies, read_key, verify_signed_data-eq-ok_iff, verify_signed_data-unsupported_iff,
}
use webpki.X509.{Extension, x509_code}
use webpki.Cert.{CertFields, end_entity, remember_cert_extension, cert_from_der, cert_code}
use webpki.Cert.Fields.{Remembers, remember_cert_extension-Remembers}
use webpki.Cert.Signed.{fields_from, cert_from_der-signed}
use webpki.Tests.Chain.{tlv, intermediate, intermediate_signed, spki_value, validity_value}

abbrev decoded_fields : CertFields
decoded_fields = record {
  serial = 6 ∷ [];
  signed_data = record { signed = intermediate_signed; algorithm = []; signature = 3 ∷ [] };
  issuer = 8 ∷ [];
  validity = validity_value;
  subject = 7 ∷ [];
  spki = spki_value;
  basic_constraints = some (tlv 1 (0xff ∷ []));
  key_usage = none;
  eku = none;
  name_constraints = none;
  subject_alt_name = none;
  crl_distribution_points = none;
}

decoded : cert_from_der ⦃u = slice⦄ intermediate none ≡ ok (end_entity decoded_fields)
unfolding bytes_eq der_code signed_data_code x509_code cert_code loop_code
decoded = refl

cert_from_der-signed_example :
    (tbs : Input) × (intermediate
      ≡ encode (tag_byte sequence) (signed_bytes ⦃u = slice⦄ decoded_fields.signed_data))
    × (intermediate_signed ≡ encode (tag_byte sequence) tbs)
    × (fields_from ⦃u = slice⦄ tbs decoded_fields.signed_data ≡ ok decoded_fields)
cert_from_der-signed_example =
    cert_from_der-signed ⦃u = slice⦄ intermediate none (end_entity decoded_fields) (omega arith)
      decoded

abbrev key_usage_extension : Extension
key_usage_extension = record {
  critical = true;
  id = 0x55 ∷ 0x1d ∷ 15 ∷ [];
  value = 3 ∷ 2 ∷ 1 ∷ 6 ∷ [];
}

abbrev with_key_usage : CertFields
with_key_usage = record decoded_fields { key_usage = some (3 ∷ 2 ∷ 1 ∷ 6 ∷ []) }

remembered :
    remember_cert_extension ⦃u = slice⦄ decoded_fields key_usage_extension ≡ ok with_key_usage
unfolding bytes_eq der_code x509_code cert_code
remembered = refl

remember_cert_extension-Remembers_example : Remembers decoded_fields with_key_usage
remember_cert_extension-Remembers_example =
    remember_cert_extension-Remembers ⦃u = slice⦄ decoded_fields with_key_usage key_usage_extension
      remembered

-- one algorithm for another key, and one that accepts
abbrev two_algorithms : List SignatureVerificationAlgorithm
two_algorithms =
    record {
      public_key_alg_id = 1 ∷ [];
      signature_alg_id = [];
      verify_signature = λ key message signature. true;
    }
    ∷ record {
      public_key_alg_id = [];
      signature_alg_id = [];
      verify_signature = λ key message signature. bytes_eq key (1 ∷ 2 ∷ []);
    }
    ∷ []

abbrev pub signed_data : SignedData
signed_data = record { signed = 1 ∷ []; algorithm = []; signature = 2 ∷ [] }

abbrev key : SubjectPublicKeyInfo
key = record { algorithm_id_value = []; key_value = 1 ∷ 2 ∷ [] }

key_read : read_key ⦃u = slice⦄ spki_value ≡ ok key
unfolding der_code signed_data_code
key_read = refl

verify_signed_data-eq-ok_iff_example :
    (verify_signed_data ⦃u = slice⦄ two_algorithms spki_value signed_data ≡ ok tt) ↔ (
      (k : SubjectPublicKeyInfo) × (read_key ⦃u = slice⦄ spki_value ≡ ok k)
      × Verifies k signed_data two_algorithms)
verify_signed_data-eq-ok_iff_example =
    verify_signed_data-eq-ok_iff ⦃u = slice⦄ two_algorithms spki_value signed_data

verified : verify_signed_data ⦃u = slice⦄ two_algorithms spki_value signed_data ≡ ok tt
unfolding bytes_eq der_code signed_data_code
verified = refl

verify_signed_data-unsupported_iff_example :
    (verify_signed_data ⦃u = slice⦄ two_algorithms spki_value
        (record { signed = 1 ∷ []; algorithm = 3 ∷ []; signature = 2 ∷ [] })
      ≡ err unsupported_signature_algorithm)
    ↔ All (λ alg. alg.signature_alg_id ≢ (3 ∷ [])) two_algorithms
verify_signed_data-unsupported_iff_example =
    verify_signed_data-unsupported_iff ⦃u = slice⦄ two_algorithms spki_value
      (record { signed = 1 ∷ []; algorithm = 3 ∷ []; signature = 2 ∷ [] }) key key_read
