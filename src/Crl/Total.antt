-- ===== src/Crl/Total.antt =====
-- src/crl.rs: reading a revocation list, and the loops over its entries, come to an end.
use webpki.Prelude.{
  ℕ, zero, suc, ◌≤◌, ◌==◌, Bool, true, false, Option, none, some, List, [], ◌∷◌, arith,
}
use webpki.Error.{invalid_serial_number, invalid_crl_number}
use webpki.Untrusted.{Input, Untrusted, Reader, at_end, peek}
use webpki.Untrusted.Total.{
  Ends, returned, failed, Ends-if, Ends-bind, Ends-bind_value, left, IsTotal, IsProgress,
  IsTotal-pure, IsTotal-branch, IsTotal-map_err, IsTotal-bind, IsTotal-Ends,
}
use webpki.Untrusted.Advance.{read_all-Ends}
use webpki.Untrusted.Loop.Rounds.{rest_less, empty_at_end}
use webpki.Der.{sequence, tag_byte}
use webpki.Der.Total.{
  total_rules, expect_tag-IsTotal, expect_tag_and_get_value_limited-IsTotal, IsTotal-nested,
  IsTotal-nested_limited, nested_loop-Ends, IsTotal-nested_of_mut, u8_from_der-IsTotal,
  nonnegative_integer-IsTotal, IsProgress-nested,
}
use webpki.Time.Total.{time_from_der-IsTotal}
use webpki.X509.{Extension}
use webpki.X509.Total.{
  extension_from_der-IsTotal, unsupported-Ends, set_field-Ends, remember_extension-Ends,
}
use webpki.SignedData.{SignedData}
use webpki.SignedData.Total.{signed_data_from_der-IsTotal}
use webpki.Cert.Total.{serial_number-IsTotal}
use webpki.Crl.{
  RevokedCert, BorrowedCertRevocationList, reason_try_from, reason_from_der, remember_entry_by_id,
  remember_entry_extension, read_entry_extensions, revoked_cert_fields, revoked_cert_from_der,
  check_crl_number, remember_crl_by_id, remember_crl_extension, read_revoked_certs,
  read_tbs_cert_list, check_idp, crl_from_der, borrowed_from_der, find_serial_loop,
  borrowed_find_serial, collect_loop, to_owned,
}
use webpki.Crl.Scope.Total.{idp_from_der-Ends}

module _ ⦃u : Untrusted⦄ where
  module _ {p : Bool} where
    reason_try_from-Ends : (value : ℕ) → Ends p (reason_try_from value)
    unfolding reason_try_from
    reason_try_from-Ends value = search (Ends-if, returned, failed) depth 14

    reason_from_der-IsTotal : IsTotal p reason_from_der
    unfolding reason_from_der
    reason_from_der-IsTotal = search (total_rules, expect_tag-IsTotal, reason_try_from-Ends)

    remember_entry_by_id-Ends :
        (cert : RevokedCert) (extension : Extension) (id : ℕ)
        → Ends p (remember_entry_by_id cert extension id)
    unfolding remember_entry_by_id
    remember_entry_by_id-Ends cert extension id =
        search
          (
            total_rules, set_field-Ends, unsupported-Ends, reason_from_der-IsTotal,
            time_from_der-IsTotal,
          )
          depth 8

    remember_entry_extension-IsTotal :
        (cert : RevokedCert) → IsTotal p (remember_entry_extension cert)
    unfolding remember_entry_extension
    remember_entry_extension-IsTotal cert = search (
      total_rules, extension_from_der-IsTotal, remember_extension-Ends, remember_entry_by_id-Ends,
    )

    read_entry_extensions-IsTotal : (cert : RevokedCert) → IsTotal p (read_entry_extensions cert)
    unfolding read_entry_extensions
    read_entry_extensions-IsTotal cert =
        search (total_rules, expect_tag-IsTotal, nested_loop-Ends, remember_entry_extension-IsTotal)

    revoked_cert_fields-IsTotal : IsTotal p revoked_cert_fields
    unfolding revoked_cert_fields
    revoked_cert_fields-IsTotal =
        IsTotal-bind (IsTotal-map_err invalid_serial_number serial_number-IsTotal) (λ serial_number.
          IsTotal-bind time_from_der-IsTotal (λ revocation_date.
            IsTotal-branch at_end (IsTotal-pure _) (read_entry_extensions-IsTotal _)))

    revoked_cert_from_der-IsTotal : IsTotal p revoked_cert_from_der
    unfolding revoked_cert_from_der
    revoked_cert_from_der-IsTotal = IsTotal-nested _ _ revoked_cert_fields-IsTotal

  revoked_cert_from_der-IsProgress : IsProgress revoked_cert_from_der
  unfolding revoked_cert_from_der
  revoked_cert_from_der-IsProgress = IsProgress-nested {p = false} _ _ revoked_cert_fields-IsTotal

  module _ {p : Bool} where
    find_serial_loop-Ends :
        (fuel : ℕ) (serial : Input) (reader : Reader)
        → left reader ≤ fuel
        → Ends p (find_serial_loop fuel serial reader)
    unfolding find_serial_loop
    find_serial_loop-Ends zero serial reader h = rw (empty_at_end reader h) returned
    find_serial_loop-Ends (suc fuel) serial reader h = Ends-if (at_end reader) returned (
        Ends-bind_value (IsTotal-Ends revoked_cert_from_der-IsTotal reader) (λ cert e.
          Ends-if _ returned (
            find_serial_loop-Ends fuel serial _ (
              omega (
                arith,
                rest_less revoked_cert_from_der reader revoked_cert_from_der-IsProgress e,
              )))))

    collect_loop-Ends :
        (fuel : ℕ) (entries : List RevokedCert) (reader : Reader)
        → left reader ≤ fuel
        → Ends p (collect_loop fuel entries reader)
    unfolding collect_loop
    collect_loop-Ends zero entries reader h = rw (empty_at_end reader h) returned
    collect_loop-Ends (suc fuel) entries reader h = Ends-if (at_end reader) returned (
        Ends-bind_value (IsTotal-Ends revoked_cert_from_der-IsTotal reader) (λ cert e.
          collect_loop-Ends fuel (cert ∷ entries) _ (
            omega
              (arith, rest_less revoked_cert_from_der reader revoked_cert_from_der-IsProgress e))))

    check_crl_number-IsTotal : IsTotal p check_crl_number
    unfolding check_crl_number
    check_crl_number-IsTotal =
        IsTotal-bind (IsTotal-map_err invalid_crl_number nonnegative_integer-IsTotal)
          (λ n. search (total_rules))

    remember_crl_by_id-Ends :
        (crl : BorrowedCertRevocationList) (extension : Extension) (id : ℕ)
        → Ends p (remember_crl_by_id crl extension id)
    unfolding remember_crl_by_id
    remember_crl_by_id-Ends crl extension id =
        Ends-if (id == 20)
          (Ends-bind (read_all-Ends extension.value _ check_crl_number-IsTotal) (λ t. returned))
          (search (total_rules, set_field-Ends, unsupported-Ends))

    remember_crl_extension-IsTotal :
        (crl : BorrowedCertRevocationList) → IsTotal p (remember_crl_extension crl)
    unfolding remember_crl_extension
    remember_crl_extension-IsTotal crl =
        search (
          total_rules, extension_from_der-IsTotal, remember_extension-Ends, remember_crl_by_id-Ends,
        )

    read_revoked_certs-IsTotal : IsTotal p read_revoked_certs
    unfolding read_revoked_certs
    read_revoked_certs-IsTotal =
        IsTotal-branch (λ tbs. peek tbs (tag_byte sequence))
          (expect_tag_and_get_value_limited-IsTotal _ _) (IsTotal-pure [])

    read_tbs_cert_list-IsTotal :
        (signed_data : SignedData) → IsTotal p (read_tbs_cert_list signed_data)
    unfolding read_tbs_cert_list
    read_tbs_cert_list-IsTotal signed_data =
        search
          (
            total_rules, u8_from_der-IsTotal, expect_tag-IsTotal, time_from_der-IsTotal,
            read_revoked_certs-IsTotal, IsTotal-nested, IsTotal-nested_of_mut,
            remember_crl_extension-IsTotal,
          )
          depth 14

  check_idp-Ends : (idp : Option Input) → Ends true (check_idp idp)
  unfolding check_idp
  check_idp-Ends none = returned
  check_idp-Ends (some der) = Ends-bind (idp_from_der-Ends der) (λ idp. returned)

  crl_from_der-IsTotal : IsTotal true crl_from_der
  unfolding crl_from_der
  crl_from_der-IsTotal =
      IsTotal-bind (IsTotal-nested_limited sequence _ _ (signed_data_from_der-IsTotal _))
        (λ (tbs_cert_list, signed_data).
          search (total_rules, read_tbs_cert_list-IsTotal, check_idp-Ends))

  -- Decoding any bytes as a revocation list comes to an end, in a list, an error or a panic: no loop
  -- runs out of fuel.
  pub borrowed_from_der-Ends : (crl_der : Input) → Ends true (borrowed_from_der crl_der)
  unfolding borrowed_from_der
  borrowed_from_der-Ends crl_der = read_all-Ends crl_der _ crl_from_der-IsTotal

  -- A search for a serial number through a borrowed list gives an entry, none or an error, and so does
  -- making an owned list of it: no call panics, and there are as many rounds as the entries need.
  pub crl_entries-Ends :
      (crl : BorrowedCertRevocationList) (serial : Input)
      → Ends false (borrowed_find_serial crl serial) × Ends false (to_owned crl)
  unfolding borrowed_find_serial to_owned
  crl_entries-Ends crl serial = (
    find_serial_loop-Ends _ serial _ (rw (u.remaining-new crl.revoked_certs) (omega arith)),
    Ends-bind (collect_loop-Ends _ [] _ (rw (u.remaining-new crl.revoked_certs) (omega arith)))
        (λ entries. returned),
  )
