-- ===== src/Tests/Chain.antt =====
-- A leaf, an intermediate certificate and a trust anchor.
use webpki.Prelude.{
  ℕ, zero, suc, ap, ◌↔◌, ◌≤◌, ◌≡◌, ◌⊎◌, refl, arith, true, none, some, [], ◌∷◌, ◌++◌, length, All,
  bytes_eq,
}
use webpki.Error.{
  rank, most_specific, unknown_issuer, cert_revoked, maximum_signature_checks_exceeded,
}
use webpki.Result.{Result, ok, err}
use webpki.Exec.{raise}
use webpki.Untrusted.{Input}
use webpki.Untrusted.Slice.{slice}
use webpki.Untrusted.Loop.{loop_code}
use webpki.Der.{der_code}
use webpki.Time.{time_code}
use webpki.SignedData.{SignatureVerificationAlgorithm, signed_data_code}
use webpki.X509.{x509_code}
use webpki.Cert.{CertFields, end_entity, cert_code}
use webpki.Crl.{CertRevocationList}
use webpki.SubjectName.Verify.{verify_code}
use webpki.VerifyCert.{
  ChainOptions, TrustAnchor, RevocationOptions, required_if_present, eku_server_auth, chain_depth,
  deny, allow, build_chain, build_chain_inner, verify_cert_code, check_crls,
  loop_while_non_fatal_error,
}
use webpki.VerifyCert.Checks.{within_validity, basic_constraints_allow, yes_ca, checks_code}
use webpki.VerifyCert.Checks.Accepts.{Allowed, within_validity_iff, basic_constraints_allow_iff}
use webpki.VerifyCert.Revocation.Accepts.{Clears, First, check_crls-ok}
use webpki.VerifyCert.Path.{IsChain}
use webpki.VerifyCert.Sound.{build_chain-IsChain}
use webpki.VerifyCert.Depth.{build_chain-fuel}
use webpki.VerifyCert.Loop.{FailsBelow, loop-eq-err}
use webpki.VerifyCert.Revocation.{assertion, depth_skips, revocation_code}

abbrev pub tlv : ℕ → Input → Input
tlv tag value = tag ∷ length value ∷ value

-- 1 January 1970 to 1 January 2049
abbrev pub validity_value : Input
validity_value =
    tlv 23 (
      b'7' ∷ b'0' ∷ b'0' ∷ b'1' ∷ b'0' ∷ b'1' ∷ b'0' ∷ b'0' ∷ b'0' ∷ b'0' ∷ b'0' ∷ b'0' ∷ b'Z' ∷ [])
    ++ tlv 23 (
        b'4' ∷ b'9' ∷ b'0' ∷ b'1' ∷ b'0' ∷ b'1' ∷ b'0' ∷ b'0' ∷ b'0' ∷ b'0' ∷ b'0' ∷ b'0' ∷ b'Z'
        ∷ [])

abbrev pub spki_value : Input
spki_value = tlv 48 [] ++ tlv 3 (0 ∷ 1 ∷ 2 ∷ [])

abbrev any_signature : SignatureVerificationAlgorithm
any_signature = record {
  public_key_alg_id = [];
  signature_alg_id = [];
  verify_signature = λ key message signature. true;
}

abbrev pub leaf_fields : CertFields
leaf_fields = record {
  serial = 5 ∷ [];
  signed_data = record { signed = 1 ∷ []; algorithm = []; signature = 2 ∷ [] };
  issuer = 7 ∷ [];
  validity = validity_value;
  subject = 9 ∷ [];
  spki = 4 ∷ [];
  basic_constraints = none;
  key_usage = none;
  eku = none;
  name_constraints = none;
  subject_alt_name = none;
  crl_distribution_points = none;
}

abbrev basic_constraints_extension : Input
basic_constraints_extension =
    tlv 48 (tlv 6 (0x55 ∷ 0x1d ∷ 19 ∷ []) ++ tlv 4 (tlv 48 (tlv 1 (0xff ∷ []))))

abbrev pub intermediate_signed : Input
intermediate_signed = tlv 48 (
    tlv 160 (tlv 2 (2 ∷ []))
    ++ (tlv 2 (6 ∷ [])
        ++ (tlv 48 []
            ++ (tlv 48 (8 ∷ [])
                ++ (tlv 48 validity_value
                    ++ (tlv 48 (7 ∷ [])
                        ++ (tlv 48 spki_value ++ tlv 163 (tlv 48 basic_constraints_extension))))))))

abbrev pub intermediate : Input
intermediate = tlv 48 (intermediate_signed ++ (tlv 48 [] ++ tlv 3 (0 ∷ 3 ∷ [])))

abbrev anchor : TrustAnchor
anchor = record { subject = 8 ∷ []; subject_public_key_info = spki_value; name_constraints = none }

abbrev pub options : ChainOptions
options = record {
  eku = required_if_present eku_server_auth;
  supported_sig_algs = any_signature ∷ [];
  trust_anchors = anchor ∷ [];
  intermediate_certs = (1 ∷ []) ∷ intermediate ∷ [];
  revocation = none;
}

accepted_with :
    build_chain_inner ⦃u = slice⦄ 8 options 1000000000 (end_entity leaf_fields) 0 0 ≡ (ok tt, 2)
unfolding bytes_eq verify_cert_code checks_code time_code der_code signed_data_code x509_code
    cert_code verify_code loop_code
accepted_with = refl

accepted : build_chain ⦃u = slice⦄ options (end_entity leaf_fields) 1000000000 ≡ ok tt
unfolding verify_cert_code
accepted = ap (λ p. p.0) accepted_with

build_chain-IsChain_example : IsChain ⦃u = slice⦄ options 1000000000 (end_entity leaf_fields) 0
build_chain-IsChain_example =
    build_chain-IsChain ⦃u = slice⦄ options (end_entity leaf_fields) 1000000000 accepted

build_chain-fuel_example :
    (build_chain_inner ⦃u = slice⦄ 20 options 1000000000 (end_entity leaf_fields) 0 0).0
    ≡ build_chain ⦃u = slice⦄ options (end_entity leaf_fields) 1000000000
build_chain-fuel_example =
    build_chain-fuel ⦃u = slice⦄ options 20 (end_entity leaf_fields) 1000000000 (omega arith)

-- One value fails with a specific error, the others with the least specific one.
abbrev fails : ℕ → ℕ → Result (Unit {0}) × ℕ
fails zero = raise unknown_issuer
fails (suc v) = raise cert_revoked

most_specific_run :
    loop_while_non_fatal_error unknown_issuer (0 ∷ 1 ∷ 0 ∷ []) fails 7 ≡ (err cert_revoked, 7)
unfolding verify_cert_code most_specific rank
most_specific_run = refl

loop-eq-err_example :
    (cert_revoked ≡ maximum_signature_checks_exceeded)
    ⊎ ((rank unknown_issuer ≤ rank cert_revoked)
        × All (FailsBelow fails cert_revoked) (0 ∷ 1 ∷ 0 ∷ []))
loop-eq-err_example =
    loop-eq-err fails unknown_issuer (0 ∷ 1 ∷ 0 ∷ []) 7 7 cert_revoked most_specific_run

abbrev empty_list : CertRevocationList
empty_list = record {
  issuer = 7 ∷ [];
  issuing_distribution_point = none;
  find_serial = λ serial. ok none;
  verify_signature = λ algs spki. ok tt;
}

abbrev other_list : CertRevocationList
other_list = record {
  issuer = 8 ∷ [];
  issuing_distribution_point = none;
  find_serial = λ serial. ok none;
  verify_signature = λ algs spki. ok tt;
}

abbrev revocation : RevocationOptions
revocation = record {
  crls = other_list ∷ empty_list ∷ [];
  depth = chain_depth;
  status_requirement = deny;
}

cleared :
    check_crls ⦃u = slice⦄
      (any_signature ∷ [])
      (end_entity leaf_fields)
      (7 ∷ [])
      spki_value
      none
      revocation
    ≡ ok (some assertion)
unfolding bytes_eq revocation_code
cleared = refl

check_crls-ok_example :
    ((some assertion ≡ none)
      × ((depth_skips revocation.depth (end_entity leaf_fields) ≡ true)
          ⊎ (revocation.status_requirement ≡ allow)))
    ⊎ First ⦃u = slice⦄
        (end_entity leaf_fields)
        (Clears ⦃u = slice⦄ (any_signature ∷ []) (end_entity leaf_fields) spki_value none)
        (other_list ∷ empty_list ∷ [])
check_crls-ok_example =
    check_crls-ok ⦃u = slice⦄ (any_signature ∷ []) (end_entity leaf_fields) (7 ∷ []) spki_value none
      revocation (some assertion) cleared

within_validity_iff_example : (within_validity 3 9 9 ≡ ok tt) ↔ ((3 ≤ 9) × (9 ≤ 9))
within_validity_iff_example = within_validity_iff 3 9 9

basic_constraints_allow_iff_example :
    (basic_constraints_allow yes_ca true (some 1) 2 ≡ ok tt) ↔ Allowed yes_ca true (some 1) 2
basic_constraints_allow_iff_example = basic_constraints_allow_iff yes_ca true (some 1) 2
