-- ===== src/VerifyCert/Revocation/Owned.antt =====
-- src/verify_cert.rs: revocation checks with a list in its owned form.
use webpki.Prelude.{
  ◌≡◌, refl, ap, Bool, true, false, not, Option, none, some, List, [], ◌∷◌, ◌++◌, if◌then◌else◌,
  bytes_eq,
}
use webpki.Result.{Result, ok, err, panic, stuck, ◌>>=◌}
use webpki.Untrusted.{Input, Untrusted}
use webpki.SignedData.{SignatureVerificationAlgorithm}
use webpki.Cert.{Cert, fields}
use webpki.Crl.{
  CertRevocationList, RevokedCert, BorrowedCertRevocationList, OwnedCertRevocationList, to_owned,
  borrowed_list, owned_list,
}
use webpki.Crl.Scope.{is_some}
use webpki.Crl.Owned.{Agree, to_owned-Agree}
use webpki.VerifyCert.Revocation.{
  UnknownStatusPolicy, CertNotRevoked, crl_authoritative, find_authoritative, serial_status,
  check_with, check_crls, RevocationOptions, depth_skips,
}

module _ ⦃u : Untrusted⦄ where
  serial_status-is_some :
      (x y : Option RevokedCert) → is_some x ≡ is_some y → serial_status x ≡ serial_status y
  unfolding serial_status
  serial_status-is_some none none h = refl
  serial_status-is_some none (some b) h = cc
  serial_status-is_some (some a) none h = cc
  serial_status-is_some (some a) (some b) h = refl

  check_with-Agree :
      (a b : CertRevocationList) (status : UnknownStatusPolicy)
      (algs : List SignatureVerificationAlgorithm) (cert : Cert) (spki : Input) (ku : Option Input)
      → Agree a b
      → check_with (some a) status algs cert spki ku ≡ check_with (some b) status algs cert spki ku
  unfolding check_with
  check_with-Agree a b status algs cert spki ku h =
      let (x, y, found, also, alike) = h.find_serial (fields cert).serial in
      rw (h.verify_signature algs spki, found, also, serial_status-is_some x y alike) refl

  crl_authoritative-Agree :
      (a b : CertRevocationList) (cert : Cert)
      → Agree a b
      → crl_authoritative a cert ≡ crl_authoritative b cert
  unfolding crl_authoritative
  crl_authoritative-Agree a b cert h = rw (h.issuer, h.issuing_distribution_point) refl

  module _ (options : RevocationOptions) (algs : List SignatureVerificationAlgorithm) (cert : Cert)
      (spki : Input) (ku : Option Input) where
    abbrev checked : Option CertRevocationList → Result (Option CertNotRevoked)
    checked crl = check_with crl options.status_requirement algs cert spki ku

    chosen :
        (a b : CertRevocationList) (r : Result Bool) (rest : Result (Option CertRevocationList))
        → Agree a b
        → ((r >>= λ t. if t then ok (some a) else rest) >>= checked)
          ≡ ((r >>= λ t. if t then ok (some b) else rest) >>= checked)
    chosen a b (ok true) rest h =
        check_with-Agree a b options.status_requirement algs cert spki ku h
    chosen a b (ok false) rest h = refl
    chosen a b (err e) rest h = refl
    chosen a b panic rest h = refl
    chosen a b stuck rest h = refl

    passed_over :
        (a : CertRevocationList) (r : Result Bool) (x y : Result (Option CertRevocationList))
        → (x >>= checked) ≡ (y >>= checked)
        → ((r >>= λ t. if t then ok (some a) else x) >>= checked)
          ≡ ((r >>= λ t. if t then ok (some a) else y) >>= checked)
    passed_over a (ok true) x y h = refl
    passed_over a (ok false) x y h = h
    passed_over a (err e) x y h = refl
    passed_over a panic x y h = refl
    passed_over a stuck x y h = refl

    find_authoritative-Agree :
        (before after : List CertRevocationList) (a b : CertRevocationList)
        → Agree a b
        → (find_authoritative (before ++ (a ∷ after)) cert >>= checked)
          ≡ (find_authoritative (before ++ (b ∷ after)) cert >>= checked)
    unfolding find_authoritative
    find_authoritative-Agree [] after a b h =
        rw (crl_authoritative-Agree a b cert h) (chosen a b _ (find_authoritative after cert) h)
    find_authoritative-Agree (c ∷ before) after a b h =
        passed_over c (crl_authoritative c cert) _ _ (find_authoritative-Agree before after a b h)

  -- A revocation check has the same result whether one of its lists is borrowed, or the owned list
  -- that was made of it stands in its place.
  pub check_crls-to_owned :
      (crl : BorrowedCertRevocationList) (owned : OwnedCertRevocationList)
      (before after : List CertRevocationList) (options : RevocationOptions)
      (algs : List SignatureVerificationAlgorithm) (cert : Cert) (subject spki : Input)
      (ku : Option Input)
      → to_owned crl ≡ ok owned
      → check_crls algs cert subject spki ku
          (record options { crls = before ++ (borrowed_list crl ∷ after) })
        ≡ check_crls algs cert subject spki ku
            (record options { crls = before ++ (owned_list owned ∷ after) })
  unfolding check_crls
  check_crls-to_owned crl owned before after options algs cert subject spki ku h =
      ap
        (λ t.
          if not (bytes_eq (fields cert).issuer subject)
          then panic
          else if depth_skips options.depth cert
          then ok none
          else t)
        (find_authoritative-Agree options algs cert spki ku before after (borrowed_list crl)
          (owned_list owned) (to_owned-Agree crl owned h))
