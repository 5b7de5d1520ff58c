-- ===== src/Cert.antt =====
-- src/cert.rs: certificates and their decoder.
pub mod Role
pub mod Total
pub mod Fields
pub mod Signed
use webpki.Prelude.{
  ℕ, bit_or, Bool, true, false, not, Option, none, some, List, [], ◌∷◌, ◌==◌, if◌then◌else◌,
  bytes_eq,
}
use webpki.Error.{
  Error, DerTypeId, bad_der, trailing_data, unsupported_cert_version, signature_algorithm_mismatch,
  malformed_extensions,
}
use webpki.Result.{Result, ok, err, panic, stuck}
use webpki.Result
use webpki.Exec.{pure, raise, lift, ◌>>=◌, ◌>>◌}
use webpki.Untrusted.{Input, Untrusted, Reader, Decoder, new, at_end, read_all, read_bytes_to_end}
use webpki.Untrusted.Loop.{while_not_at_end}
use webpki.Der.{
  sequence, integer, context_specific_constructed0, context_specific_constructed3, constructed,
  context_specific, two_byte_der_size, expect_tag, nested, nested_of_mut, u8_from_der,
  read_tag_and_get_value, BitStringFlags, bit_string_flags,
}
use webpki.SignedData.{SignedData, signed_data_from_der}
use webpki.X509.{
  Extension, unsupported, extension_from_der, set_field, remember_extension, DistributionPointName,
  distribution_point_name_from_der,
}

-- The fields of `Cert` but for `ee_or_ca`.
pub record CertFields : Type 0 where
  pub serial : Input
  pub signed_data : SignedData
  pub issuer : Input
  pub validity : Input
  pub subject : Input
  pub spki : Input
  pub basic_constraints : Option Input
  pub key_usage : Option Input
  pub eku : Option Input
  pub name_constraints : Option Input
  pub subject_alt_name : Option Input
  pub crl_distribution_points : Option Input

-- `Cert` with its `EndEntityOrCa`: a leaf, or the issuer of the certificate behind it.
pub data Cert : Type 0 where
  end_entity : CertFields → Cert
  ca : CertFields → Cert → Cert

abbrev pub fields : Cert → CertFields
fields (end_entity c) = c
fields (ca c child) = c

abbrev pub with_role : Option Cert → CertFields → Cert
with_role none c = end_entity c
with_role (some child) c = ca c child

module _ ⦃u : Untrusted⦄ where
  pub version3 : Decoder (Unit {0})
  version3 = nested context_specific_constructed0 unsupported_cert_version (do
    version ← u8_from_der
    if not (version == 2) then raise unsupported_cert_version else pure tt)

  pub lenient_certificate_serial_number : Decoder Input
  lenient_certificate_serial_number = expect_tag integer

  -- what is kept of an extension's value: the key usage whole, else the body of a SEQUENCE
  extension_value : ℕ → Input → Result Input
  extension_value id value =
      read_all value bad_der (if id == 15 then read_bytes_to_end else expect_tag sequence)

  -- the closure of `remember_cert_extension`, for the destination that `id` selects
  remember_by_id : CertFields → Extension → ℕ → Result CertFields
  remember_by_id cert extension id =
      if id == 15
      then set_field cert.key_usage (extension_value id extension.value)
          (λ out. record cert { key_usage = out })
      else if id == 17
      then set_field cert.subject_alt_name (extension_value id extension.value)
          (λ out. record cert { subject_alt_name = out })
      else if id == 19
      then set_field cert.basic_constraints (extension_value id extension.value)
          (λ out. record cert { basic_constraints = out })
      else if id == 30
      then set_field cert.name_constraints (extension_value id extension.value)
          (λ out. record cert { name_constraints = out })
      else if id == 31
      then set_field cert.crl_distribution_points (extension_value id extension.value)
          (λ out. record cert { crl_distribution_points = out })
      else if id == 37
      then set_field cert.eku (extension_value id extension.value)
          (λ out. record cert { eku = out })
      else unsupported extension cert

  pub remember_cert_extension : CertFields → Extension → Result CertFields
  remember_cert_extension cert extension =
      remember_extension extension cert (remember_by_id cert extension)

  read_extensions : CertFields → Decoder CertFields
  read_extensions cert tbs =
      let read =
        nested context_specific_constructed3 (trailing_data DerTypeId.certificate_extensions)
          (nested_of_mut sequence sequence (trailing_data DerTypeId.extension)
            (λ c. do extension ← extension_from_der; lift (remember_cert_extension c extension))
            cert)
          tbs in
      if at_end tbs then (ok cert, tbs) else read

  -- the second closure of `Cert::from_der`
  pub read_tbs : SignedData → Decoder CertFields
  read_tbs signed_data = do
    version3
    serial ← lenient_certificate_serial_number
    signature ← expect_tag sequence
    if not (bytes_eq signature signed_data.algorithm)
        then raise signature_algorithm_mismatch
        else do
          issuer ← expect_tag sequence
          validity ← expect_tag sequence
          subject ← expect_tag sequence
          spki ← expect_tag sequence
          read_extensions (record {
            serial = serial;
            signed_data = signed_data;
            issuer = issuer;
            validity = validity;
            subject = subject;
            spki = spki;
            basic_constraints = none;
            key_usage = none;
            eku = none;
            name_constraints = none;
            subject_alt_name = none;
            crl_distribution_points = none;
          })

  -- `Cert::from_der`; `none` is `EndEntityOrCa::EndEntity`
  pub cert_from_der : Input → Option Cert → Result Cert
  cert_from_der cert_der ee_or_ca =
      Result.◌>>=◌
        (read_all cert_der (trailing_data DerTypeId.certificate) (
          nested sequence (trailing_data DerTypeId.signed_data)
            (signed_data_from_der two_byte_der_size)))
        λ (tbs, signed_data).
          Result.◌>>=◌
            (read_all tbs (trailing_data DerTypeId.certificate_tbs_certificate)
              (read_tbs signed_data))
            λ c. ok (with_role ee_or_ca c)

pub record CrlDistributionPoint : Type 0 where
  pub distribution_point : Option Input
  pub reasons : Option BitStringFlags
  pub crl_issuer : Option Input

module _ ⦃u : Untrusted⦄ where
  -- `names`, of this and of the CRL's issuing distribution point
  pub names : Option Input → Result (Option DistributionPointName)
  names none = ok none
  names (some input) =
      Result.◌>>=◌ ((distribution_point_name_from_der (new input)).0) λ name. ok (some name)

  -- one round of the `while`
  distribution_point_field : CrlDistributionPoint → Decoder CrlDistributionPoint
  distribution_point_field result = do
    (tag, value) ← read_tag_and_get_value
    lift (
        if tag == bit_or context_specific constructed
        then set_field result.distribution_point (ok value)
            (λ out. record result { distribution_point = out })
        else if tag == bit_or context_specific 1
        then set_field result.reasons (bit_string_flags value)
            (λ out. record result { reasons = out })
        else if tag == bit_or (bit_or context_specific constructed) 2
        then set_field result.crl_issuer (ok value) (λ out. record result { crl_issuer = out })
        else err bad_der)

  -- A point that has reasons only is malformed.
  checked_point : CrlDistributionPoint → Option Input → Option Input → Result CrlDistributionPoint
  checked_point result none none = err malformed_extensions
  checked_point result _ _ = ok result

  -- `impl FromDer for CrlDistributionPoint`
  pub crl_distribution_point_from_der : Decoder CrlDistributionPoint
  crl_distribution_point_from_der =
      nested sequence (trailing_data DerTypeId.crl_distribution_point) (do
        result ←
            while_not_at_end distribution_point_field
              (record { distribution_point = none; reasons = none; crl_issuer = none })
        lift (checked_point result result.distribution_point result.crl_issuer))

unfoldable pub cert_code : Unit {0}
unfolding version3 lenient_certificate_serial_number extension_value remember_by_id
    remember_cert_extension read_extensions read_tbs cert_from_der names distribution_point_field
    checked_point crl_distribution_point_from_der
cert_code = tt
