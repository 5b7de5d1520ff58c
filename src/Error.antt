-- ===== src/Error.antt =====
-- src/error.rs: the errors, and their order by specificity.
pub mod Rank
use webpki.Prelude.{ℕ, Bool, leb, if◌then◌else◌}

pub data DerTypeId : Type 0 where
  bit_string boolean certificate certificate_extensions certificate_tbs_certificate : DerTypeId
  cert_revocation_list cert_revocation_list_extension crl_distribution_point : DerTypeId
  common_name_inner common_name_outer distribution_point_name extension general_name : DerTypeId
  revocation_reason signature signature_algorithm signed_data subject_public_key_info : DerTypeId
  time trust_anchor_v1 trust_anchor_v1_tbs_certificate u8 revoked_certificate : DerTypeId
  revoked_certificate_extension revoked_cert_entry issuing_distribution_point : DerTypeId

pub data Error : Type 0 where
  bad_der bad_der_time ca_used_as_end_entity cert_expired cert_not_valid_for_name : Error
  cert_not_valid_yet cert_revoked end_entity_used_as_ca extension_value_invalid : Error
  invalid_cert_validity invalid_crl_number invalid_network_mask_constraint : Error
  invalid_serial_number invalid_crl_signature_for_public_key : Error
  invalid_signature_for_public_key issuer_not_crl_signer malformed_dns_identifier : Error
  malformed_extensions malformed_name_constraint maximum_signature_checks_exceeded : Error
  name_constraint_violation path_len_constraint_violated required_eku_not_found : Error
  signature_algorithm_mismatch : Error
  trailing_data : DerTypeId → Error
  unknown_issuer unknown_revocation_status unsupported_cert_version : Error
  unsupported_critical_extension unsupported_crl_issuing_distribution_point : Error
  unsupported_crl_version unsupported_delta_crl unsupported_indirect_crl : Error
  unsupported_revocation_reason unsupported_revocation_reasons_partitioning : Error
  unsupported_crl_signature_algorithm unsupported_signature_algorithm : Error
  unsupported_crl_signature_algorithm_for_public_key : Error
  unsupported_signature_algorithm_for_public_key : Error

-- `Error::rank`
unfoldable pub rank : Error → ℕ
rank cert_not_valid_yet = 29
rank cert_expired = 29
rank cert_not_valid_for_name = 28
rank cert_revoked = 27
rank unknown_revocation_status = 27
rank invalid_crl_signature_for_public_key = 26
rank invalid_signature_for_public_key = 26
rank signature_algorithm_mismatch = 25
rank required_eku_not_found = 24
rank name_constraint_violation = 23
rank path_len_constraint_violated = 22
rank ca_used_as_end_entity = 21
rank end_entity_used_as_ca = 21
rank issuer_not_crl_signer = 20
rank invalid_cert_validity = 19
rank invalid_network_mask_constraint = 18
rank invalid_serial_number = 17
rank invalid_crl_number = 16
rank unsupported_crl_signature_algorithm_for_public_key = 15
rank unsupported_signature_algorithm_for_public_key = 15
rank unsupported_crl_signature_algorithm = 14
rank unsupported_signature_algorithm = 14
rank unsupported_critical_extension = 13
rank unsupported_cert_version = 13
rank unsupported_crl_version = 12
rank unsupported_delta_crl = 11
rank unsupported_indirect_crl = 10
rank unsupported_revocation_reason = 9
rank unsupported_revocation_reasons_partitioning = 8
rank unsupported_crl_issuing_distribution_point = 7
rank malformed_dns_identifier = 6
rank malformed_name_constraint = 5
rank malformed_extensions = 4
rank (trailing_data _) = 4
rank extension_value_invalid = 3
rank bad_der_time = 2
rank bad_der = 1
rank maximum_signature_checks_exceeded = 0
rank unknown_issuer = 0

-- `Error::most_specific`
unfoldable pub most_specific : Error → Error → Error
most_specific self new = if leb (rank new) (rank self) then self else new
