-- ===== src/VerifyCert/Checks.antt =====
-- src/verify_cert.rs: the checks on one certificate that do not depend on its issuer.
pub mod Accepts
pub mod Total
use webpki.Prelude.{
  ℕ, zero, suc, ◌+◌, ◌*◌, Bool, true, false, not, Option, none, some, List, [], ◌∷◌, ltb,
  if◌then◌else◌, bytes_eq, length,
}
use webpki.Error.{
  Error, bad_der, invalid_cert_validity, cert_not_valid_yet, cert_expired, ca_used_as_end_entity,
  end_entity_used_as_ca, path_len_constraint_violated, required_eku_not_found,
}
use webpki.Result.{Result, ok, err, panic, stuck}
use webpki.Result
use webpki.Exec.{Exec, pure, raise, lift, ◌>>=◌, ◌>>◌}
use webpki.Untrusted.{
  Input, Untrusted, Reader, Decoder, remaining, at_end, skip_to_end, read_all, read_all_optional,
}
use webpki.Der.{oid, expect_tag, bool_from_der, u8_from_der}
use webpki.Time.{Time, time_from_der}
use webpki.Cert.{Cert, end_entity, ca, fields}

pub data UsedAsCa : Type 0 where
  yes_ca no_ca : UsedAsCa

abbrev pub used_as_ca : Cert → UsedAsCa
used_as_ca (end_entity c) = no_ca
used_as_ca (ca c child) = yes_ca

-- `ExtendedKeyUsage`, with the key purpose's OID
pub data ExtendedKeyUsage : Type 0 where
  required : Input → ExtendedKeyUsage
  required_if_present : Input → ExtendedKeyUsage

pub key_purpose_id_equals : ExtendedKeyUsage → Input → Bool
key_purpose_id_equals (required oid_value) value = bytes_eq oid_value value
key_purpose_id_equals (required_if_present oid_value) value = bytes_eq oid_value value

abbrev pub eku_server_auth : Input
eku_server_auth = (40 * 1 + 3) ∷ 6 ∷ 1 ∷ 5 ∷ 5 ∷ 7 ∷ 3 ∷ 1 ∷ []

abbrev pub eku_client_auth : Input
eku_client_auth = (40 * 1 + 3) ∷ 6 ∷ 1 ∷ 5 ∷ 5 ∷ 7 ∷ 3 ∷ 2 ∷ []

-- the tests of `check_validity`, in their order
pub within_validity : Time → Time → Time → Result (Unit {0})
within_validity not_before not_after time =
    if ltb not_after not_before
    then err invalid_cert_validity
    else if ltb time not_before
    then err cert_not_valid_yet
    else if ltb not_after time
    then err cert_expired
    else ok tt

-- the final `match` of `check_basic_constraints`
pub basic_constraints_allow : UsedAsCa → Bool → Option ℕ → ℕ → Result (Unit {0})
basic_constraints_allow no_ca true path_len sub_ca_count = err ca_used_as_end_entity
basic_constraints_allow yes_ca false path_len sub_ca_count = err end_entity_used_as_ca
basic_constraints_allow yes_ca true (some len) sub_ca_count =
    if ltb len sub_ca_count then err path_len_constraint_violated else ok tt
basic_constraints_allow _ _ _ sub_ca_count = ok tt

module _ ⦃u : Untrusted⦄ where
  pub check_validity : Time → Decoder (Unit {0})
  check_validity time = do
    not_before ← time_from_der
    not_after ← time_from_der
    lift (within_validity not_before not_after time)

  read_path_len : Decoder (Option ℕ)
  read_path_len input =
      let read = (do len ← u8_from_der; pure (some len)) input in
      if not (at_end input) then read else (ok none, input)

  read_basic_constraints : UsedAsCa → ℕ → Decoder (Unit {0})
  read_basic_constraints role sub_ca_count = do
    is_ca ← bool_from_der
    path_len_constraint ← read_path_len
    lift (basic_constraints_allow role is_ca path_len_constraint sub_ca_count)

  pub check_basic_constraints : UsedAsCa → ℕ → Exec (Option Reader) (Unit {0})
  check_basic_constraints role sub_ca_count none =
      (basic_constraints_allow role false none sub_ca_count, none)
  check_basic_constraints role sub_ca_count (some input) =
      let (r, rest) = read_basic_constraints role sub_ca_count input in (r, some rest)

  -- the loop of `ExtendedKeyUsage::check`, on fuel
  pub eku_loop : ℕ → ExtendedKeyUsage → Decoder (Unit {0})
  eku_loop zero eku = λ input. (stuck, input)
  eku_loop (suc fuel) eku = do
    value ← expect_tag oid
    if key_purpose_id_equals eku value then skip_to_end else (λ input.
        let again = eku_loop fuel eku input in
        if at_end input then (err required_eku_not_found, input) else again)

  pub check_eku : ExtendedKeyUsage → Exec (Option Reader) (Unit {0})
  check_eku (required_if_present oid_value) none = (ok tt, none)
  check_eku (required oid_value) none = (err required_eku_not_found, none)
  check_eku eku (some input) =
      let (r, rest) = eku_loop (suc (length (remaining input))) eku input in (r, some rest)

  pub check_issuer_independent_properties :
      Cert → Time → UsedAsCa → ℕ → ExtendedKeyUsage → Result (Unit {0})
  check_issuer_independent_properties cert time role sub_ca_count eku =
      Result.◌>>◌ (read_all (fields cert).validity bad_der (check_validity time)) (
        Result.◌>>◌
          (read_all_optional (fields cert).basic_constraints bad_der
            (check_basic_constraints role sub_ca_count))
          (read_all_optional (fields cert).eku bad_der (check_eku eku)))

unfoldable pub checks_code : Unit {0}
unfolding key_purpose_id_equals within_validity basic_constraints_allow check_validity read_path_len
    read_basic_constraints check_basic_constraints eku_loop check_eku
    check_issuer_independent_properties
checks_code = tt
