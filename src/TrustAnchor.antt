-- ===== src/TrustAnchor.antt =====
-- src/trust_anchor.rs and src/end_entity.rs: trust anchors from certificates, and the public entry
-- points on an end-entity certificate.
pub mod Total
use webpki.Prelude.{Option, none, List}
use webpki.Error.{DerTypeId, bad_der, trailing_data, unsupported_cert_version}
use webpki.Result.{Result, ok, err, panic, stuck}
use webpki.Exec.{pure, lift, ◌>>=◌, ◌>>◌}
use webpki.Untrusted.{Input, Untrusted, Decoder, read_all}
use webpki.Der.{Tag, sequence, bit_string, expect_tag, nested}
use webpki.Time.{Time}
use webpki.SignedData.{SignatureVerificationAlgorithm}
use webpki.SignedData
use webpki.Cert.{Cert, CertFields, fields, cert_from_der, lenient_certificate_serial_number}
use webpki.SubjectName.Verify.{SubjectNameRef, verify_cert_subject_name, list_cert_dns_names}
use webpki.VerifyCert.{TrustAnchor, ExtendedKeyUsage, RevocationOptions, build_chain}

-- `impl From<Cert> for TrustAnchor`
pub anchor_of : CertFields → TrustAnchor
anchor_of cert = record {
  subject = cert.subject;
  subject_public_key_info = cert.spki;
  name_constraints = cert.name_constraints;
}

module _ ⦃u : Untrusted⦄ where
  skip_tag : Tag → Decoder (Unit {0})
  skip_tag tag = do expect_tag tag; pure tt

  v1_tbs : Decoder TrustAnchor
  v1_tbs = do
    lenient_certificate_serial_number
    skip_tag sequence
    skip_tag sequence
    skip_tag sequence
    subject ← expect_tag sequence
    spki ← expect_tag sequence
    pure (record { subject = subject; subject_public_key_info = spki; name_constraints = none })

  -- The result of the inner value is returned only behind the two that are skipped.
  v1_body : Decoder TrustAnchor
  v1_body cert_der =
      let (anchor, rest) =
        nested sequence (trailing_data DerTypeId.trust_anchor_v1_tbs_certificate) v1_tbs cert_der in
      (do skip_tag sequence; skip_tag bit_string; lift anchor) rest

  pub extract_trust_anchor_from_v1_cert_der : Input → Result TrustAnchor
  extract_trust_anchor_from_v1_cert_der cert_der =
      read_all cert_der bad_der (nested sequence (trailing_data DerTypeId.trust_anchor_v1) v1_body)

  -- `.or(Err(Error::BadDer))`
  or_bad_der : Result TrustAnchor → Result TrustAnchor
  or_bad_der (err e) = err bad_der
  or_bad_der r = r

  anchor_or_v1 : Input → Result Cert → Result TrustAnchor
  anchor_or_v1 cert_der (ok cert) = ok (anchor_of (fields cert))
  anchor_or_v1 cert_der (err unsupported_cert_version) =
      or_bad_der (extract_trust_anchor_from_v1_cert_der cert_der)
  anchor_or_v1 cert_der (err e) = err e
  anchor_or_v1 cert_der panic = panic
  anchor_or_v1 cert_der stuck = stuck

  pub extract_trust_anchor : Input → Result TrustAnchor
  extract_trust_anchor cert_der = anchor_or_v1 cert_der (cert_from_der cert_der none)

  -- `EndEntityCert::try_from`
  pub end_entity_try_from : Input → Result Cert
  end_entity_try_from cert = cert_from_der cert none

  -- `EndEntityCert::verify_for_usage`
  pub verify_for_usage :
      Cert
      → List SignatureVerificationAlgorithm
      → List TrustAnchor
      → List Input
      → Time
      → ExtendedKeyUsage
      → Option RevocationOptions
      → Result (Unit {0})
  verify_for_usage cert supported_sig_algs trust_anchors intermediate_certs time usage revocation =
      build_chain
        (record {
          eku = usage;
          supported_sig_algs = supported_sig_algs;
          trust_anchors = trust_anchors;
          intermediate_certs = intermediate_certs;
          revocation = revocation;
        })
        cert time

  -- `EndEntityCert::verify_is_valid_for_subject_name`
  pub verify_is_valid_for_subject_name : Cert → SubjectNameRef → Result (Unit {0})
  verify_is_valid_for_subject_name cert subject_name = verify_cert_subject_name cert subject_name

  -- `EndEntityCert::verify_signature`
  pub verify_signature : Cert → SignatureVerificationAlgorithm → Input → Input → Result (Unit {0})
  verify_signature cert signature_alg msg signature =
      SignedData.verify_signature signature_alg (fields cert).spki msg signature

  -- `EndEntityCert::dns_names`
  pub dns_names : Cert → Result (List Input)
  dns_names cert = list_cert_dns_names cert

unfoldable pub trust_anchor_code : Unit {0}
unfolding anchor_of skip_tag v1_tbs v1_body extract_trust_anchor_from_v1_cert_der or_bad_der
    anchor_or_v1 extract_trust_anchor end_entity_try_from verify_for_usage
    verify_is_valid_for_subject_name verify_signature dns_names
trust_anchor_code = tt
