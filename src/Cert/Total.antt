-- ===== src/Cert/Total.antt =====
-- src/cert.rs: decoding a certificate comes to an end.
use webpki.Prelude.{ℕ, Bool, true, false, Option, none, some}
use webpki.Untrusted.{Input, Untrusted, at_end, new}
use webpki.Untrusted.Total.{
  Ends, returned, failed, Ends-bind, IsTotal, IsProgress, IsTotal-lift, IsTotal-pure,
  IsTotal-branch, IsTotal-bind, IsTotal-Ends,
}
use webpki.Untrusted.Advance.{read_all-Ends, IsProgress-bind}
use webpki.Exec.{lift, ◌>>=◌}
use webpki.Untrusted.Loop.{while_not_at_end}
use webpki.Untrusted.Loop.Rounds.{IsTotal-while_not_at_end}
use webpki.Der.{sequence, two_byte_der_size}
use webpki.Der.Total.{
  total_rules, expect_tag-IsTotal, IsTotal-nested, IsTotal-nested_of_mut, u8_from_der-IsTotal,
  read_tag_and_get_value-IsTotal, read_tag_and_get_value-IsProgress, IsProgress-nested,
  bit_string_flags-Ends,
}
use webpki.X509.{Extension}
use webpki.X509.Total.{
  extension_from_der-IsTotal, unsupported-Ends, set_field-Ends, remember_extension-Ends,
  distribution_point_name_from_der-IsTotal,
}
use webpki.SignedData.{SignedData}
use webpki.SignedData.Total.{signed_data_from_der-IsTotal}
use webpki.Cert.{
  Cert, CertFields, version3, lenient_certificate_serial_number, extension_value, remember_by_id,
  remember_cert_extension, read_extensions, read_tbs, cert_from_der, CrlDistributionPoint, names,
  distribution_point_field, checked_point, crl_distribution_point_from_der,
}

abbrev no_fields : CrlDistributionPoint
no_fields = record { distribution_point = none; reasons = none; crl_issuer = none }

module _ ⦃u : Untrusted⦄ where
  module _ {p : Bool} where
    version3-IsTotal : IsTotal p version3
    unfolding version3
    version3-IsTotal = search (total_rules, IsTotal-nested, u8_from_der-IsTotal)

    pub serial_number-IsTotal : IsTotal p lenient_certificate_serial_number
    unfolding lenient_certificate_serial_number
    serial_number-IsTotal = expect_tag-IsTotal _

    extension_value-Ends : (id : ℕ) (value : Input) → Ends p (extension_value id value)
    unfolding extension_value
    extension_value-Ends id value = search (total_rules, expect_tag-IsTotal)

    remember_by_id-Ends :
        (cert : CertFields) (extension : Extension) (id : ℕ)
        → Ends p (remember_by_id cert extension id)
    unfolding remember_by_id
    remember_by_id-Ends cert extension id =
        search (total_rules, set_field-Ends, extension_value-Ends, unsupported-Ends) depth 10

    remember_cert_extension-Ends :
        (cert : CertFields) (extension : Extension)
        → Ends p (remember_cert_extension cert extension)
    unfolding remember_cert_extension
    remember_cert_extension-Ends cert extension =
        remember_extension-Ends extension cert (remember_by_id-Ends cert extension)

    read_extensions-IsTotal : (cert : CertFields) → IsTotal p (read_extensions cert)
    unfolding read_extensions
    read_extensions-IsTotal cert = IsTotal-branch at_end (IsTotal-pure cert) (
        IsTotal-nested _ _ (
          IsTotal-nested_of_mut sequence sequence _
            (λ c. search (total_rules, extension_from_der-IsTotal, remember_cert_extension-Ends))
            cert))

    read_tbs-IsTotal : (signed_data : SignedData) → IsTotal p (read_tbs signed_data)
    unfolding read_tbs
    read_tbs-IsTotal signed_data = IsTotal-bind version3-IsTotal (λ t.
        search (total_rules, serial_number-IsTotal, expect_tag-IsTotal, read_extensions-IsTotal)
          depth 12)

    pub names-Ends : (input : Option Input) → Ends p (names input)
    unfolding names
    names-Ends none = returned
    names-Ends (some input) =
        Ends-bind (IsTotal-Ends distribution_point_name_from_der-IsTotal (new input))
          (λ name. returned)

    checked_point-Ends :
        (result : CrlDistributionPoint) (point crl_issuer : Option Input)
        → Ends p (checked_point result point crl_issuer)
    unfolding checked_point
    checked_point-Ends result none none = failed
    checked_point-Ends result none (some i) = returned
    checked_point-Ends result (some i) crl_issuer = returned

  -- Decoding any bytes as a certificate gives a certificate or an error: no call panics, and no loop
  -- runs out of fuel.
  pub cert_from_der-Ends :
      (cert_der : Input) (ee_or_ca : Option Cert) → Ends false (cert_from_der cert_der ee_or_ca)
  unfolding cert_from_der
  cert_from_der-Ends cert_der ee_or_ca =
      Ends-bind
        (read_all-Ends cert_der _
          (IsTotal-nested sequence _ (signed_data_from_der-IsTotal two_byte_der_size)))
        (λ (tbs, signed_data).
          Ends-bind (read_all-Ends tbs _ (read_tbs-IsTotal signed_data)) (λ c. returned))

  -- Its reasons are flags, whose decoder panics on the empty bit string.
  distribution_point_field-IsTotal :
      (result : CrlDistributionPoint) → IsTotal true (distribution_point_field result)
  unfolding distribution_point_field
  distribution_point_field-IsTotal result =
      IsTotal-bind read_tag_and_get_value-IsTotal
        (λ (tag, value). search (total_rules, set_field-Ends, bit_string_flags-Ends) depth 8)

  distribution_point_field-IsProgress :
      (result : CrlDistributionPoint) → IsProgress (distribution_point_field result)
  unfolding distribution_point_field
  distribution_point_field-IsProgress result =
      IsProgress-bind {p = true} read_tag_and_get_value-IsProgress
        (λ (tag, value). search (total_rules, set_field-Ends, bit_string_flags-Ends) depth 8)

  point_body-IsTotal : IsTotal true (
      while_not_at_end distribution_point_field no_fields >>= λ result.
      lift (checked_point result result.distribution_point result.crl_issuer))
  point_body-IsTotal =
      IsTotal-bind
        (IsTotal-while_not_at_end distribution_point_field-IsTotal
          distribution_point_field-IsProgress _)
        (λ result. IsTotal-lift (checked_point-Ends result _ _))

  pub crl_distribution_point_from_der-IsTotal : IsTotal true crl_distribution_point_from_der
  unfolding crl_distribution_point_from_der
  crl_distribution_point_from_der-IsTotal = IsTotal-nested _ _ point_body-IsTotal

  pub crl_distribution_point_from_der-IsProgress : IsProgress crl_distribution_point_from_der
  unfolding crl_distribution_point_from_der
  crl_distribution_point_from_der-IsProgress = IsProgress-nested {p = true} _ _ point_body-IsTotal
