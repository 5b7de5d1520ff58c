-- ===== src/VerifyCert/Revocation.antt =====
-- src/verify_cert.rs: the revocation status of one certificate.
pub mod Accepts
pub mod Total
pub mod Owned
use webpki.Prelude.{
  ℕ, zero, suc, Bool, true, false, not, Option, none, some, List, [], ◌∷◌, if◌then◌else◌, bytes_eq,
  is_empty,
}
use webpki.Error.{
  Error, issuer_not_crl_signer, cert_revoked, unknown_revocation_status,
  unsupported_crl_signature_algorithm, unsupported_signature_algorithm,
  unsupported_crl_signature_algorithm_for_public_key,
  unsupported_signature_algorithm_for_public_key, invalid_crl_signature_for_public_key,
  invalid_signature_for_public_key,
}
use webpki.Result.{Result, ok, err, panic, stuck, map_err, ◌>>=◌, ◌>>◌}
use webpki.Untrusted.{Input, Untrusted, new}
use webpki.Der.{bit_string, expect_tag, bit_string_flags, bit_set}
use webpki.SignedData.{SignatureVerificationAlgorithm}
use webpki.Cert.{Cert, end_entity, ca, fields}
use webpki.Crl.{CertRevocationList, RevokedCert}
use webpki.Crl.Scope.{idp_from_der, authoritative_for}

pub data RevocationCheckDepth : Type 0 where
  end_entity_depth chain_depth : RevocationCheckDepth

pub data UnknownStatusPolicy : Type 0 where
  allow deny : UnknownStatusPolicy

-- `RevocationOptions`, and its builder, which has the same fields
pub record RevocationOptions : Type 0 where
  pub crls : List CertRevocationList
  pub depth : RevocationCheckDepth
  pub status_requirement : UnknownStatusPolicy

-- `RevocationOptionsBuilder::new`; `none` is `CrlsRequired`
pub builder_new : List CertRevocationList → Option RevocationOptions
builder_new crls =
    if is_empty crls
    then none
    else some (record { crls = crls; depth = chain_depth; status_requirement = deny })

pub with_depth : RevocationOptions → RevocationCheckDepth → RevocationOptions
with_depth self depth = record self { depth = depth }

pub allow_unknown_status : RevocationOptions → RevocationOptions
allow_unknown_status self = record self { status_requirement = allow }

pub forbid_unknown_status : RevocationOptions → RevocationOptions
forbid_unknown_status self = record self { status_requirement = deny }

-- `CertNotRevoked`
pub data CertNotRevoked : Type 0 where
  assertion : CertNotRevoked

pub crl_signature_err : Error → Error
crl_signature_err unsupported_signature_algorithm = unsupported_crl_signature_algorithm
crl_signature_err unsupported_signature_algorithm_for_public_key =
    unsupported_crl_signature_algorithm_for_public_key
crl_signature_err invalid_signature_for_public_key = invalid_crl_signature_for_public_key
crl_signature_err e = e

-- `KeyUsageMode::CrlSign`
abbrev pub crl_sign : ℕ
crl_sign = 6

-- the depth leaves this certificate out
abbrev pub depth_skips : RevocationCheckDepth → Cert → Bool
depth_skips end_entity_depth (ca c child) = true
depth_skips _ _ = false

module _ ⦃u : Untrusted⦄ where
  -- `KeyUsageMode::check`
  pub check_key_usage : ℕ → Option Input → Result (Unit {0})
  check_key_usage mode none = ok tt
  check_key_usage mode (some input) = do
    bits ← (expect_tag bit_string (new input)).0
    flags ← bit_string_flags bits
    if bit_set flags mode then ok tt else err issuer_not_crl_signer

  authoritative_idp : Option Input → Option Input → Cert → Result Bool
  authoritative_idp none none cert = ok true
  authoritative_idp (some cert_dps) none cert = ok false
  authoritative_idp cert_dps (some crl_idp) cert = elim (idp_from_der crl_idp) [
    | ok idp ↦ authoritative_for idp cert
    | err e ↦ ok false
    | panic ↦ panic
    | stuck ↦ stuck
  ]

  pub crl_authoritative : CertRevocationList → Cert → Result Bool
  crl_authoritative crl cert =
      if not (bytes_eq crl.issuer (fields cert).issuer)
      then ok false
      else authoritative_idp (fields cert).crl_distribution_points crl.issuing_distribution_point
          cert

  -- `crls.iter().find(..)`
  pub find_authoritative : List CertRevocationList → Cert → Result (Option CertRevocationList)
  find_authoritative [] cert = ok none
  find_authoritative (crl ∷ crls) cert = do
    authoritative ← crl_authoritative crl cert
    if authoritative then ok (some crl) else find_authoritative crls cert

  -- the verified list's word on the serial number
  pub serial_status : Option RevokedCert → Result (Option CertNotRevoked)
  serial_status none = ok (some assertion)
  serial_status (some entry) = err cert_revoked

  -- `status` applies to a certificate that no list speaks for.
  pub check_with :
      Option CertRevocationList
      → UnknownStatusPolicy
      → List SignatureVerificationAlgorithm
      → Cert
      → Input
      → Option Input
      → Result (Option CertNotRevoked)
  check_with none allow algs cert issuer_spki issuer_ku = ok none
  check_with none deny algs cert issuer_spki issuer_ku = err unknown_revocation_status
  check_with (some crl) status algs cert issuer_spki issuer_ku = do
    map_err crl_signature_err (crl.verify_signature algs issuer_spki)
    check_key_usage crl_sign issuer_ku
    entry ← crl.find_serial (fields cert).serial
    serial_status entry

  pub check_crls :
      List SignatureVerificationAlgorithm
      → Cert
      → Input
      → Input
      → Option Input
      → RevocationOptions
      → Result (Option CertNotRevoked)
  check_crls algs cert issuer_subject issuer_spki issuer_ku revocation =
      if not (bytes_eq (fields cert).issuer issuer_subject)
      then panic
      else if depth_skips revocation.depth cert
      then ok none
      else (do
        crl ← find_authoritative revocation.crls cert
        check_with crl revocation.status_requirement algs cert issuer_spki issuer_ku)

unfoldable pub revocation_code : Unit {0}
unfolding builder_new with_depth allow_unknown_status forbid_unknown_status crl_signature_err
    check_key_usage authoritative_idp crl_authoritative find_authoritative serial_status check_with
    check_crls
revocation_code = tt
