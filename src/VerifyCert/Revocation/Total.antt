-- ===== src/VerifyCert/Revocation/Total.antt =====
-- src/verify_cert.rs: a revocation check comes to an end.
use webpki.Prelude.{
  ℕ, Bool, true, false, not, Option, none, some, List, [], ◌∷◌, All, if◌then◌else◌, bytes_eq, refl,
  ◌≡◌,
}
use mathlib.Core.Path.{subst}
use webpki.Error.{Error}
use webpki.Result.{Result, ok, err, panic, stuck, map_err, >>=-eq-ok}
use webpki.Untrusted.{Input, Untrusted, new}
use webpki.Untrusted.Total.{
  Ends, returned, failed, panicked, Ends-if, Ends-bind, Ends-bind_value, Ends-weaken, IsTotal-Ends,
}
use webpki.Der.{bit_string, bit_set}
use webpki.Der.Total.{expect_tag-IsTotal, bit_string_flags-Ends}
use webpki.SignedData.{SignatureVerificationAlgorithm, borrow}
use webpki.SignedData.Total.{verify_signed_data-Ends}
use webpki.Cert.{Cert, fields}
use webpki.Crl.{
  CertRevocationList, RevokedCert, BorrowedCertRevocationList, OwnedCertRevocationList,
  borrowed_list, owned_list, crl_code,
}
use webpki.Crl.Total.{crl_entries-Ends}
use webpki.Crl.Scope.{IssuingDistributionPoint, authoritative_for}
use webpki.Crl.Scope.Total.{idp_from_der-Ends}
use webpki.Crl.Scope.Decides.{Decides-Ends, authoritative_for-Decides}
use webpki.VerifyCert.Revocation.{
  RevocationOptions, UnknownStatusPolicy, allow, deny, crl_signature_err, crl_sign, depth_skips,
  check_key_usage, authoritative_idp, crl_authoritative, find_authoritative, serial_status,
  check_with, check_crls,
}

-- the methods of a list come to an end
pub record Responds (crl : CertRevocationList) : Type 0 where
  pub verify_signature :
      (algs : List SignatureVerificationAlgorithm) (spki : Input)
      → Ends true (crl.verify_signature algs spki)
  pub find_serial : (serial : Input) → Ends true (crl.find_serial serial)

abbrev IsUsable : Option CertRevocationList → Type 0
IsUsable none = Unit
IsUsable (some crl) = Responds crl

map_err-Ends :
    {A : Type 0} (f : Error → Error) (r : Result A) → Ends true r → Ends true (map_err f r)
map_err-Ends f (ok a) h = returned
map_err-Ends f (err e) h = failed
map_err-Ends f panic h = panicked refl
map_err-Ends f stuck h = elim h [ ]

module _ ⦃u : Untrusted⦄ where
  pub borrowed_list-Responds : (crl : BorrowedCertRevocationList) → Responds (borrowed_list crl)
  unfolding crl_code
  borrowed_list-Responds crl = record {
    verify_signature = λ algs spki. verify_signed_data-Ends algs spki crl.signed_data;
    find_serial = λ serial. Ends-weaken (crl_entries-Ends crl serial).0;
  }

  pub owned_list-Responds : (crl : OwnedCertRevocationList) → Responds (owned_list crl)
  unfolding crl_code
  owned_list-Responds crl = record {
    verify_signature = λ algs spki. verify_signed_data-Ends algs spki (borrow crl.signed_data);
    find_serial = λ serial. returned;
  }

  check_key_usage-Ends : (mode : ℕ) (ku : Option Input) → Ends true (check_key_usage mode ku)
  unfolding check_key_usage
  check_key_usage-Ends mode none = returned
  check_key_usage-Ends mode (some input) =
      Ends-bind (IsTotal-Ends (expect_tag-IsTotal bit_string) (new input)) (λ bits.
        Ends-bind (bit_string_flags-Ends bits)
          (λ flags. Ends-if (bit_set flags mode) returned failed))

  by_idp-Ends :
      (idp : Result IssuingDistributionPoint) (cert : Cert)
      → Ends true idp
      → Ends true (elim idp [
        | ok i ↦ authoritative_for i cert
        | err e ↦ ok false
        | panic ↦ panic
        | stuck ↦ stuck
      ])
  by_idp-Ends (ok i) cert h = Decides-Ends (authoritative_for-Decides i cert)
  by_idp-Ends (err e) cert h = returned
  by_idp-Ends panic cert h = panicked refl
  by_idp-Ends stuck cert h = elim h [ ]

  authoritative_idp-Ends :
      (dps idp : Option Input) (cert : Cert) → Ends true (authoritative_idp dps idp cert)
  unfolding authoritative_idp
  authoritative_idp-Ends none none cert = returned
  authoritative_idp-Ends (some dps) none cert = returned
  authoritative_idp-Ends none (some idp) cert = by_idp-Ends _ cert (idp_from_der-Ends idp)
  authoritative_idp-Ends (some dps) (some idp) cert = by_idp-Ends _ cert (idp_from_der-Ends idp)

  serial_status-Ends : (o : Option RevokedCert) → Ends true (serial_status o)
  unfolding serial_status
  serial_status-Ends none = returned
  serial_status-Ends (some entry) = failed

  crl_authoritative-Ends :
      (crl : CertRevocationList) (cert : Cert) → Ends true (crl_authoritative crl cert)
  unfolding crl_authoritative
  crl_authoritative-Ends crl cert = Ends-if _ returned (authoritative_idp-Ends _ _ cert)

  find_authoritative-Ends :
      (crls : List CertRevocationList) (cert : Cert) → Ends true (find_authoritative crls cert)
  unfolding find_authoritative
  find_authoritative-Ends [] cert = returned
  find_authoritative-Ends (crl ∷ crls) cert =
      Ends-bind (crl_authoritative-Ends crl cert)
        (λ b. Ends-if b returned (find_authoritative-Ends crls cert))

  -- the list that is found is one of the lists
  find_authoritative-IsUsable :
      (crls : List CertRevocationList) (cert : Cert) (o : Option CertRevocationList)
      → All Responds crls
      → find_authoritative crls cert ≡ ok o
      → IsUsable o
  unfolding find_authoritative
  find_authoritative-IsUsable [] cert none h e = tt
  find_authoritative-IsUsable [] cert (some crl) h e = cc
  find_authoritative-IsUsable (crl ∷ crls) cert o (r, h) e =
      let (b, found, rest) = >>=-eq-ok (crl_authoritative crl cert) _ e in
      usable b (find_authoritative-IsUsable crls cert o h) rest
    where
      usable :
          (b : Bool)
          → (find_authoritative crls cert ≡ ok o → IsUsable o)
          → (if b then ok (some crl) else find_authoritative crls cert) ≡ ok o
          → IsUsable o
      usable true later k = let same : some crl ≡ o = cc in subst IsUsable same r
      usable false later k = later k

  check_with-Ends :
      (o : Option CertRevocationList) (status : UnknownStatusPolicy)
      (algs : List SignatureVerificationAlgorithm) (cert : Cert) (spki : Input) (ku : Option Input)
      → IsUsable o
      → Ends true (check_with o status algs cert spki ku)
  unfolding check_with
  check_with-Ends none allow algs cert spki ku h = returned
  check_with-Ends none deny algs cert spki ku h = failed
  check_with-Ends (some crl) status algs cert spki ku h =
      Ends-bind (map_err-Ends crl_signature_err _ (h.verify_signature algs spki)) (λ t.
        Ends-bind (check_key_usage-Ends crl_sign ku)
          (λ t'. Ends-bind (h.find_serial (fields cert).serial) serial_status-Ends))

  -- Where the methods of every list come to an end, a revocation check does, unless a call panics,
  -- whatever bytes the certificate and the distribution points are.
  pub check_crls-Ends :
      (algs : List SignatureVerificationAlgorithm) (cert : Cert) (subject spki : Input)
      (ku : Option Input) (options : RevocationOptions)
      → All Responds options.crls
      → Ends true (check_crls algs cert subject spki ku options)
  unfolding check_crls
  check_crls-Ends algs cert subject spki ku options h =
      Ends-if (not (bytes_eq (fields cert).issuer subject)) (panicked refl) (
        Ends-if (depth_skips options.depth cert) returned (
          Ends-bind_value (find_authoritative-Ends options.crls cert) (λ o e.
            check_with-Ends o options.status_requirement algs cert spki ku
              (find_authoritative-IsUsable options.crls cert o h e))))
