-- ===== src/Crl/Scope.antt =====
-- src/crl.rs: `IssuingDistributionPoint`, and the certificates that a revocation list speaks for.
pub mod Total
pub mod Decides
pub mod Supported
use webpki.Prelude.{
  ℕ, zero, suc, bit_or, Bool, true, false, not, ◌||◌, Option, none, some, ◌==◌, if◌then◌else◌,
  bytes_eq, length,
}
use webpki.Error.{
  DerTypeId, bad_der, trailing_data, malformed_extensions, unsupported_indirect_crl,
  unsupported_revocation_reasons_partitioning, unsupported_crl_issuing_distribution_point,
}
use webpki.Result.{Result, ok, err, panic, stuck}
use webpki.Result
use webpki.Exec.{lift, ◌>>=◌}
use webpki.Untrusted.{Input, Untrusted, Reader, Decoder, new, remaining, at_end, read_byte}
use webpki.Untrusted.Loop.{while_not_at_end}
use webpki.Der.{
  sequence, constructed, context_specific, nested, read_tag_and_get_value, BitStringFlags,
  bit_string_flags,
}
use webpki.X509.{set_field, DistributionPointName, full_name, name_relative_to_crl_issuer}
use webpki.Cert.{
  Cert, CrlDistributionPoint, end_entity, ca, fields, crl_distribution_point_from_der, names,
}
use webpki.SubjectName.GeneralName.{GeneralName, uniform_resource_identifier, general_name_from_der}

pub record IssuingDistributionPoint : Type 0 where
  pub distribution_point : Option Input
  pub only_contains_user_certs : Bool
  pub only_contains_ca_certs : Bool
  pub only_some_reasons : Option BitStringFlags
  pub indirect_crl : Bool
  pub only_contains_attribute_certs : Bool

abbrev pub is_some {ℓ} : {A : Type ℓ} → Option A → Bool
is_some none = false
is_some (some a) = true

module _ ⦃u : Untrusted⦄ where
  bool_of_byte : ℕ → Decoder Bool
  bool_of_byte b reader = (
    if not (at_end reader)
        then err bad_der
        else if b == 0xff
        then ok true
        else if b == 0x00
        then ok false
        else err bad_der,
    reader,
  )

  decode_bool : Input → Result Bool
  decode_bool value = ((do b ← read_byte; bool_of_byte b) (new value)).0

  -- one round of the `while`
  idp_field : IssuingDistributionPoint → Decoder IssuingDistributionPoint
  idp_field result = do
    (tag, value) ← read_tag_and_get_value
    lift (
        if tag == bit_or context_specific constructed
        then set_field result.distribution_point (ok value)
            (λ out. record result { distribution_point = out })
        else if tag == bit_or context_specific 1
        then (Result.◌>>=◌ (decode_bool value)
            (λ b. ok (record result { only_contains_user_certs = b })))
        else if tag == bit_or context_specific 2
        then (Result.◌>>=◌ (decode_bool value)
            (λ b. ok (record result { only_contains_ca_certs = b })))
        else if tag == bit_or context_specific 3
        then set_field result.only_some_reasons (bit_string_flags value)
            (λ out. record result { only_some_reasons = out })
        else if tag == bit_or context_specific 4
        then (Result.◌>>=◌ (decode_bool value) (λ b. ok (record result { indirect_crl = b })))
        else if tag == bit_or context_specific 5
        then (Result.◌>>=◌ (decode_bool value)
            (λ b. ok (record result { only_contains_attribute_certs = b })))
        else err bad_der)

  -- the `match result.names()`
  require_full_name :
      IssuingDistributionPoint
      → Result (Option DistributionPointName)
      → Result IssuingDistributionPoint
  require_full_name result (ok (some (full_name n))) = ok result
  require_full_name result (ok (some (name_relative_to_crl_issuer n))) =
      err unsupported_crl_issuing_distribution_point
  require_full_name result (ok none) = err unsupported_crl_issuing_distribution_point
  require_full_name result (err e) = err malformed_extensions
  require_full_name result panic = panic
  require_full_name result stuck = stuck

  check_supported : IssuingDistributionPoint → Result IssuingDistributionPoint
  check_supported result =
      if result.only_contains_attribute_certs
      then err malformed_extensions
      else if result.indirect_crl
      then err unsupported_indirect_crl
      else if is_some result.only_some_reasons
      then err unsupported_revocation_reasons_partitioning
      else require_full_name result (names result.distribution_point)

  -- `IssuingDistributionPoint::from_der`
  pub idp_from_der : Input → Result IssuingDistributionPoint
  idp_from_der der =
      Result.◌>>=◌
        (nested sequence (trailing_data DerTypeId.issuing_distribution_point)
          (while_not_at_end idp_field (record {
            distribution_point = none;
            only_contains_user_certs = false;
            only_contains_ca_certs = false;
            only_some_reasons = none;
            indirect_crl = false;
            only_contains_attribute_certs = false;
          }))
          (new der)).0
        check_supported

  is_uri : Input → Result GeneralName → Bool
  is_uri uri (ok (uniform_resource_identifier other)) = bytes_eq uri other
  is_uri uri _ = false

  -- `dp_general_names.flatten()`: names that do not parse are passed over. The iterator comes back
  -- as it was left.
  find_uri : ℕ → Input → Decoder Bool
  find_uri zero uri dp = (if at_end dp then ok false else stuck, dp)
  find_uri (suc fuel) uri dp =
      let (other_name, rest) = general_name_from_der dp in
      let again = find_uri fuel uri rest in
      if at_end dp then (ok false, dp) else if is_uri uri other_name then (ok true, rest) else again

  find_uri_of : Result GeneralName → Decoder Bool
  find_uri_of (ok (uniform_resource_identifier uri)) dp = find_uri (length (remaining dp)) uri dp
  find_uri_of _ dp = (ok false, dp)

  until_found :
      Result Bool → Reader → Reader → Result Bool × Reader × Reader → Result Bool × Reader × Reader
  until_found (ok true) idp dp again = (ok true, idp, dp)
  until_found (ok false) idp dp again = again
  until_found r idp dp again = (r, idp, dp)

  -- `uri_name_in_common`, on fuel, with both iterators as they are left
  pub uri_name_in_common : ℕ → Reader → Reader → Result Bool × Reader × Reader
  uri_name_in_common zero idp dp = (if at_end idp then ok false else stuck, idp, dp)
  uri_name_in_common (suc fuel) idp dp =
      let (name, idp') = general_name_from_der idp in
      let (found, dp') = find_uri_of name dp in
      let again = uri_name_in_common fuel idp' dp' in
      if at_end idp then (ok false, idp, dp) else until_found found idp' dp' again

  -- `rest` is run on the names of a point that has a full name; anything else ends the loop.
  on_name : Result (Option DistributionPointName) → (Input → Result Bool) → Result Bool
  on_name (ok (some (full_name i))) rest = rest i
  on_name (ok _) rest = ok false
  on_name (err e) rest = ok false
  on_name panic rest = panic
  on_name stuck rest = stuck

  on_point : Result CrlDistributionPoint → (Input → Result Bool) → Result Bool
  on_point (ok point) rest =
      if is_some point.crl_issuer || is_some point.reasons
      then ok false
      else on_name (names point.distribution_point) rest
  on_point (err e) rest = ok false
  on_point panic rest = panic
  on_point stuck rest = stuck

  -- The loop over the certificate's distribution points. The iterator over the CRL's names is
  -- shared by the rounds.
  points_loop : ℕ → Reader → Reader → Result Bool
  points_loop zero idp cert_dps = if at_end cert_dps then ok false else stuck
  points_loop (suc fuel) idp cert_dps =
      let (cert_dp, cert_dps') = crl_distribution_point_from_der cert_dps in
      if at_end cert_dps
      then ok false
      else on_point cert_dp λ i.
        let (common, idp', dp') = uri_name_in_common (length (remaining idp)) idp (new i) in
        let again = points_loop fuel idp' cert_dps' in
        Result.◌>>=◌ common λ b. if b then ok true else again

  authoritative_points : Result (Option DistributionPointName) → Input → Result Bool
  authoritative_points (ok (some (full_name general_names))) cert_dps =
      points_loop (length cert_dps) (new general_names) (new cert_dps)
  authoritative_points (ok _) cert_dps = ok false
  authoritative_points (err e) cert_dps = ok false
  authoritative_points panic cert_dps = panic
  authoritative_points stuck cert_dps = stuck

  -- `only_contains_ca_certs` leaves leaves out, `only_contains_user_certs` issuers.
  pub out_of_scope : IssuingDistributionPoint → Cert → Bool
  out_of_scope idp (end_entity c) = idp.only_contains_ca_certs
  out_of_scope idp (ca c child) = idp.only_contains_user_certs

  pub authoritative_for : IssuingDistributionPoint → Cert → Result Bool
  authoritative_for idp cert =
      if idp.only_contains_attribute_certs
      then panic
      else if out_of_scope idp cert
      then ok false
      else elim (fields cert).crl_distribution_points [
        | none ↦ ok true
        | some cert_dps ↦ authoritative_points (names idp.distribution_point) cert_dps
      ]

unfoldable pub scope_code : Unit {0}
unfolding bool_of_byte decode_bool idp_field require_full_name check_supported idp_from_der is_uri
    find_uri find_uri_of until_found on_name on_point uri_name_in_common points_loop
    authoritative_points out_of_scope authoritative_for
scope_code = tt
