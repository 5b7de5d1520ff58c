-- ===== src/Crl.antt =====
-- src/crl.rs: certificate revocation lists, borrowed from their encoding or owned.
pub mod Scope
pub mod Total
pub mod Owned
use webpki.Prelude.{
  ℕ, zero, suc, ◌+◌, Bool, true, false, not, Option, none, some, List, [], ◌∷◌, ◌++◌, leb, ◌==◌,
  if◌then◌else◌, bytes_eq, length, is_empty,
}
use webpki.Error.{
  Error, DerTypeId, bad_der, trailing_data, invalid_crl_number, unsupported_delta_crl,
  unsupported_crl_version, signature_algorithm_mismatch, malformed_extensions,
  unsupported_indirect_crl, invalid_serial_number, unsupported_revocation_reason,
}
use webpki.Result.{Result, ok, err, panic, stuck}
use webpki.Result
use webpki.Exec.{pure, raise, lift, map_err, ◌>>=◌, ◌>>◌}
use webpki.Untrusted.{
  Input, Untrusted, Reader, Decoder, new, remaining, at_end, peek, read_byte_or, read_all,
}
use webpki.Der.{
  sequence, enum, context_specific_constructed0, tag_byte, max_der_size, expect_tag,
  expect_tag_and_get_value_limited, nested, nested_limited, nested_loop, nested_of_mut, u8_from_der,
  nonnegative_integer,
}
use webpki.Time.{Time, time_from_der}
use webpki.SignedData.{
  SignedData, OwnedSignedData, SignatureVerificationAlgorithm, signed_data_from_der,
  verify_signed_data, borrow, to_owned as own_signed_data,
}
use webpki.X509.{Extension, unsupported, extension_from_der, set_field, remember_extension}
use webpki.Cert.{lenient_certificate_serial_number}
use Scope.{idp_from_der}

pub data RevocationReason : Type 0 where
  unspecified key_compromise ca_compromise affiliation_changed superseded : RevocationReason
  cessation_of_operation certificate_hold remove_from_crl privilege_withdrawn : RevocationReason
  aa_compromise : RevocationReason

-- `impl TryFrom<u8> for RevocationReason`
pub reason_try_from : ℕ → Result RevocationReason
reason_try_from value =
    if value == 0
    then ok unspecified
    else if value == 1
    then ok key_compromise
    else if value == 2
    then ok ca_compromise
    else if value == 3
    then ok affiliation_changed
    else if value == 4
    then ok superseded
    else if value == 5
    then ok cessation_of_operation
    else if value == 6
    then ok certificate_hold
    else if value == 8
    then ok remove_from_crl
    else if value == 9
    then ok privilege_withdrawn
    else if value == 10
    then ok aa_compromise
    else err unsupported_revocation_reason

-- `BorrowedRevokedCert`, and `OwnedRevokedCert`, which has the same fields
pub record RevokedCert : Type 0 where
  pub serial_number : Input
  pub revocation_date : Time
  pub reason_code : Option RevocationReason
  pub invalidity_date : Option Time

pub record BorrowedCertRevocationList : Type 0 where
  pub signed_data : SignedData
  pub issuer : Input
  pub issuing_distribution_point : Option Input
  pub revoked_certs : Input

-- `BTreeMap<Vec<u8>, OwnedRevokedCert>` as the entries that were put in, the latest first
pub record OwnedCertRevocationList : Type 0 where
  pub revoked_certs : List RevokedCert
  pub issuer : Input
  pub issuing_distribution_point : Option Input
  pub signed_data : OwnedSignedData

module _ ⦃u : Untrusted⦄ where
  -- `impl FromDer for RevocationReason`
  pub reason_from_der : Decoder RevocationReason
  reason_from_der = do
    input ← expect_tag enum
    value ← lift (read_all input bad_der (read_byte_or bad_der))
    lift (reason_try_from value)

  -- the closure of `BorrowedRevokedCert::remember_extension`
  remember_entry_by_id : RevokedCert → Extension → ℕ → Result RevokedCert
  remember_entry_by_id cert extension id =
      if id == 21
      then set_field cert.reason_code
          (read_all extension.value (trailing_data DerTypeId.revocation_reason) reason_from_der)
          (λ out. record cert { reason_code = out })
      else if id == 24
      then set_field cert.invalidity_date (read_all extension.value bad_der time_from_der)
          (λ out. record cert { invalidity_date = out })
      else if id == 29
      then err unsupported_indirect_crl
      else unsupported extension cert

  remember_entry_extension : RevokedCert → Decoder RevokedCert
  remember_entry_extension cert = do
    extension ← extension_from_der
    lift (remember_extension extension cert (remember_entry_by_id cert extension))

  read_entry_extensions : RevokedCert → Decoder RevokedCert
  read_entry_extensions cert = do
    ext_seq ← expect_tag sequence
    lift (
        if is_empty ext_seq
        then ok cert
        else (nested_loop (suc (length ext_seq)) sequence
            (trailing_data DerTypeId.revoked_certificate_extension) remember_entry_extension cert
            (new ext_seq)).0)

  revoked_cert_fields : Decoder RevokedCert
  revoked_cert_fields = do
    serial_number ← map_err invalid_serial_number lenient_certificate_serial_number
    revocation_date ← time_from_der
    λ der.
        let cert : RevokedCert = record {
          serial_number = serial_number;
          revocation_date = revocation_date;
          reason_code = none;
          invalidity_date = none;
        } in
        let read = read_entry_extensions cert der in if at_end der then (ok cert, der) else read

  -- `impl FromDer for BorrowedRevokedCert`
  pub revoked_cert_from_der : Decoder RevokedCert
  revoked_cert_from_der =
      nested sequence (trailing_data DerTypeId.revoked_cert_entry) revoked_cert_fields

  check_crl_number : Decoder (Unit {0})
  check_crl_number = do
    crl_number ← map_err invalid_crl_number nonnegative_integer
    if leb (length crl_number) 20 then pure tt else raise invalid_crl_number

  -- the closure of `BorrowedCertRevocationList::remember_extension`
  remember_crl_by_id :
      BorrowedCertRevocationList → Extension → ℕ → Result BorrowedCertRevocationList
  remember_crl_by_id crl extension id =
      if id == 20
      then Result.◌>>◌ (read_all extension.value invalid_crl_number check_crl_number) (ok crl)
      else if id == 27
      then err unsupported_delta_crl
      else if id == 28
      then set_field crl.issuing_distribution_point (ok extension.value)
          (λ out. record crl { issuing_distribution_point = out })
      else if id == 35
      then ok crl
      else unsupported extension crl

  remember_crl_extension : BorrowedCertRevocationList → Decoder BorrowedCertRevocationList
  remember_crl_extension crl = do
    extension ← extension_from_der
    lift (remember_extension extension crl (remember_crl_by_id crl extension))

  read_revoked_certs : Decoder Input
  read_revoked_certs tbs =
      let read = expect_tag_and_get_value_limited sequence max_der_size tbs in
      if peek tbs (tag_byte sequence) then read else (ok [], tbs)

  read_tbs_cert_list : SignedData → Decoder BorrowedCertRevocationList
  read_tbs_cert_list signed_data = do
    version ← u8_from_der
    if not (version == 1) then raise unsupported_crl_version else do
      signature ← expect_tag sequence
      if not (bytes_eq signature signed_data.algorithm)
          then raise signature_algorithm_mismatch
          else do
            issuer ← expect_tag sequence
            time_from_der
            time_from_der
            revoked_certs ← read_revoked_certs
            nested context_specific_constructed0 malformed_extensions (
                nested_of_mut sequence sequence
                  (trailing_data DerTypeId.cert_revocation_list_extension) remember_crl_extension
                  (record {
                    signed_data = signed_data;
                    issuer = issuer;
                    issuing_distribution_point = none;
                    revoked_certs = revoked_certs;
                  }))

  -- The distribution point is parsed, to be refused early if it is not supported.
  check_idp : Option Input → Result (Unit {0})
  check_idp none = ok tt
  check_idp (some der) = Result.◌>>◌ (idp_from_der der) (ok tt)

  -- `impl FromDer for BorrowedCertRevocationList`
  pub crl_from_der : Decoder BorrowedCertRevocationList
  crl_from_der = do
    (tbs_cert_list, signed_data) ←
        nested_limited sequence (trailing_data DerTypeId.cert_revocation_list)
          (signed_data_from_der max_der_size) max_der_size
    crl ← lift (read_all tbs_cert_list bad_der (read_tbs_cert_list signed_data))
    lift (check_idp crl.issuing_distribution_point)
    pure crl

  -- `BorrowedCertRevocationList::from_der`
  pub borrowed_from_der : Input → Result BorrowedCertRevocationList
  borrowed_from_der crl_der =
      read_all crl_der (trailing_data DerTypeId.cert_revocation_list) crl_from_der

  -- The loop of `BorrowedCertRevocationList::find_serial` over the `DerIterator`, on fuel.
  pub find_serial_loop : ℕ → Input → Reader → Result (Option RevokedCert)
  find_serial_loop zero serial reader = if at_end reader then ok none else stuck
  find_serial_loop (suc fuel) serial reader =
      let (item, rest) = revoked_cert_from_der reader in
      let again = find_serial_loop fuel serial rest in
      if at_end reader
      then ok none
      else Result.◌>>=◌ item λ revoked_cert.
        if bytes_eq revoked_cert.serial_number serial then ok (some revoked_cert) else again

  pub borrowed_find_serial : BorrowedCertRevocationList → Input → Result (Option RevokedCert)
  borrowed_find_serial crl serial =
      find_serial_loop (length crl.revoked_certs) serial (new crl.revoked_certs)

  -- `collect` of the `DerIterator`, put into the map one after the other
  pub collect_loop : ℕ → List RevokedCert → Reader → Result (List RevokedCert)
  collect_loop zero entries reader = if at_end reader then ok entries else stuck
  collect_loop (suc fuel) entries reader =
      let (item, rest) = revoked_cert_from_der reader in
      let again = λ (revoked_cert : RevokedCert). collect_loop fuel (revoked_cert ∷ entries) rest in
      if at_end reader then ok entries else (Result.◌>>=◌ item again)

  -- `BorrowedCertRevocationList::to_owned`
  pub to_owned : BorrowedCertRevocationList → Result OwnedCertRevocationList
  to_owned crl =
      Result.◌>>=◌ (collect_loop (length crl.revoked_certs) [] (new crl.revoked_certs)) λ entries.
        ok (record {
          revoked_certs = entries;
          issuer = crl.issuer;
          issuing_distribution_point = crl.issuing_distribution_point;
          signed_data = own_signed_data crl.signed_data;
        })

-- `BTreeMap::get`: the entry put in last under the serial number
pub lookup_serial : List RevokedCert → Input → Option RevokedCert
lookup_serial [] serial = none
lookup_serial (entry ∷ entries) serial =
    if bytes_eq entry.serial_number serial then some entry else lookup_serial entries serial

pub owned_find_serial : OwnedCertRevocationList → Input → Result (Option RevokedCert)
owned_find_serial crl serial = ok (lookup_serial crl.revoked_certs serial)

-- the trait `CertRevocationList`
pub record CertRevocationList : Type 0 where
  pub issuer : Input
  pub issuing_distribution_point : Option Input
  pub find_serial : Input → Result (Option RevokedCert)
  pub verify_signature : List SignatureVerificationAlgorithm → Input → Result (Unit {0})

module _ ⦃u : Untrusted⦄ where
  pub borrowed_list : BorrowedCertRevocationList → CertRevocationList
  borrowed_list crl = record {
    issuer = crl.issuer;
    issuing_distribution_point = crl.issuing_distribution_point;
    find_serial = borrowed_find_serial crl;
    verify_signature = λ algs issuer_spki. verify_signed_data algs issuer_spki crl.signed_data;
  }

  pub owned_list : OwnedCertRevocationList → CertRevocationList
  owned_list crl = record {
    issuer = crl.issuer;
    issuing_distribution_point = crl.issuing_distribution_point;
    find_serial = owned_find_serial crl;
    verify_signature =
        λ algs issuer_spki. verify_signed_data algs issuer_spki (borrow crl.signed_data);
  }

unfoldable pub crl_code : Unit {0}
unfolding reason_try_from reason_from_der remember_entry_by_id remember_entry_extension
    read_entry_extensions revoked_cert_fields revoked_cert_from_der check_crl_number
    remember_crl_by_id remember_crl_extension read_revoked_certs read_tbs_cert_list check_idp
    crl_from_der borrowed_from_der find_serial_loop borrowed_find_serial collect_loop to_owned
    lookup_serial owned_find_serial borrowed_list owned_list
crl_code = tt
