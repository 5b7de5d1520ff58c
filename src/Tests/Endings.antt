-- ===== src/Tests/Endings.antt =====
-- Decoders that come to an end, on some bytes.
use webpki.Prelude.{ℕ, ◌≡◌, refl, true, false, none, some, [], ◌∷◌, bytes_eq}
use webpki.Result.{ok}
use webpki.Untrusted.Slice.{slice}
use webpki.Untrusted.Total.{Ends}
use webpki.Untrusted.Loop.{loop_code}
use webpki.Der.{der_code}
use webpki.SignedData.{signed_data_code}
use webpki.Time.{time_code}
use webpki.Cert.{cert_from_der, cert_code}
use webpki.Cert.Total.{cert_from_der-Ends}
use webpki.Crl.{
  RevokedCert, OwnedCertRevocationList, borrowed_find_serial, borrowed_list, owned_list, to_owned,
  borrowed_from_der, crl_code,
}
use webpki.Crl.Total.{crl_entries-Ends, borrowed_from_der-Ends}
use webpki.Crl.Owned.{Agree, to_owned-Agree}
use webpki.Crl.Scope.{IssuingDistributionPoint}
use webpki.Crl.Scope.Decides.{Decides}
use webpki.TrustAnchor.{extract_trust_anchor}
use webpki.TrustAnchor.Total.{extract_trust_anchor-Ends}
use webpki.Tests.Chain.{tlv, intermediate}
use webpki.Tests.Lists.{entry, two_entries}

cert_from_der-Ends_example : Ends false (cert_from_der ⦃u = slice⦄ intermediate none)
cert_from_der-Ends_example = cert_from_der-Ends ⦃u = slice⦄ intermediate none

extract_trust_anchor-Ends_example : Ends false (extract_trust_anchor ⦃u = slice⦄ intermediate)
extract_trust_anchor-Ends_example = extract_trust_anchor-Ends ⦃u = slice⦄ intermediate

borrowed_from_der-Ends_example : Ends true (borrowed_from_der ⦃u = slice⦄ (tlv 48 (entry 3)))
borrowed_from_der-Ends_example = borrowed_from_der-Ends ⦃u = slice⦄ (tlv 48 (entry 3))

crl_entries-Ends_example :
    Ends false (borrowed_find_serial ⦃u = slice⦄ two_entries (4 ∷ []))
    × Ends false (to_owned ⦃u = slice⦄ two_entries)
crl_entries-Ends_example = crl_entries-Ends ⦃u = slice⦄ two_entries (4 ∷ [])

abbrev point : IssuingDistributionPoint
point = record {
  distribution_point = some (tlv 0xa0 (tlv 0x86 (b'u' ∷ [])));
  only_contains_user_certs = false;
  only_contains_ca_certs = false;
  only_some_reasons = none;
  indirect_crl = false;
  only_contains_attribute_certs = false;
}

abbrev entry_of : ℕ → RevokedCert
entry_of serial = record {
  serial_number = serial ∷ [];
  revocation_date = 0;
  reason_code = none;
  invalidity_date = none;
}

abbrev pub owned : OwnedCertRevocationList
owned = record {
  revoked_certs = entry_of 4 ∷ entry_of 3 ∷ [];
  issuer = 7 ∷ [];
  issuing_distribution_point = none;
  signed_data = record { signed = []; algorithm = []; signature = [] };
}

pub made_owned : to_owned ⦃u = slice⦄ two_entries ≡ ok owned
unfolding signed_data_code crl_code bytes_eq time_code der_code cert_code loop_code
made_owned = refl

to_owned-Agree_example :
    Agree (borrowed_list ⦃u = slice⦄ two_entries) (owned_list ⦃u = slice⦄ owned)
to_owned-Agree_example = to_owned-Agree ⦃u = slice⦄ two_entries owned made_owned
