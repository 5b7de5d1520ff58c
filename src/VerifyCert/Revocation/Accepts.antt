-- ===== src/VerifyCert/Revocation/Accepts.antt =====
-- src/verify_cert.rs: the lists that clear a certificate, for `check_crls`.
use webpki.Prelude.{
  ◌≡◌, refl, arith, true, false, ◌⊎◌, inl, inr, Option, none, some, List, [], ◌∷◌, Bool-cases,
  bytes_eq, if◌then◌else◌,
}
use webpki.Result.{ok, >>=-eq-ok}
use webpki.Untrusted.{Input, Untrusted}
use webpki.SignedData.{SignatureVerificationAlgorithm}
use webpki.Cert.{Cert, fields}
use webpki.Crl.{CertRevocationList}
use webpki.VerifyCert.Revocation.{
  RevocationOptions, UnknownStatusPolicy, allow, deny, CertNotRevoked, assertion, crl_sign,
  check_key_usage, crl_authoritative, find_authoritative, check_with, check_crls, depth_skips,
  serial_status,
}

module _ ⦃u : Untrusted⦄ where
  -- A list that speaks for the certificate: the issuer may sign it and has, and the serial number is not on it.
  pub record Clears (algs : List SignatureVerificationAlgorithm) (cert : Cert) (spki : Input)
      (key_usage : Option Input) (crl : CertRevocationList) : Type 0 where
    pub authoritative : crl_authoritative crl cert ≡ ok true
    pub signature : crl.verify_signature algs spki ≡ ok tt
    pub signer : check_key_usage crl_sign key_usage ≡ ok tt
    pub absent : crl.find_serial (fields cert).serial ≡ ok none

  -- The first authoritative list of those given; the ones before it are not.
  pub data First (cert : Cert) (P : CertRevocationList → Type 0)
      : List CertRevocationList → Type 0 where
    here :
        {crl : CertRevocationList} {crls : List CertRevocationList}
        → P crl
        → First cert P (crl ∷ crls)
    later :
        {crl : CertRevocationList} {crls : List CertRevocationList}
        → crl_authoritative crl cert ≡ ok false
        → First cert P crls
        → First cert P (crl ∷ crls)

  find_authoritative-some :
      (crls : List CertRevocationList) (cert : Cert) (crl : CertRevocationList)
      → find_authoritative crls cert ≡ ok (some crl)
      → First cert (λ c. (crl ≡ c) × (crl_authoritative c cert ≡ ok true)) crls
  unfolding find_authoritative
  find_authoritative-some [] cert crl h = cc
  find_authoritative-some (c ∷ crls) cert crl h =
      let (b, auth, rest) =
        >>=-eq-ok (crl_authoritative c cert)
          (λ authoritative. if authoritative then ok (some c) else find_authoritative crls cert)
          h in
      elim (Bool-cases b) [
        | inl e ↦ here (ground arith, cc)
        | inr e ↦ later (ground arith) (find_authoritative-some crls cert crl (ground arith))
      ]

  check_with-ok :
      (crl : CertRevocationList) (status : UnknownStatusPolicy)
      (algs : List SignatureVerificationAlgorithm) (cert : Cert) (spki : Input) (ku : Option Input)
      (r : Option CertNotRevoked)
      → crl_authoritative crl cert ≡ ok true
      → check_with (some crl) status algs cert spki ku ≡ ok r
      → Clears algs cert spki ku crl × (r ≡ some assertion)
  unfolding check_with serial_status
  check_with-ok crl status algs cert spki ku r auth h = (
    record {
      authoritative = auth;
      signature = ground arith;
      signer = ground arith;
      absent = ground arith;
    },
    ground arith,
  )

  First-map :
      {cert : Cert} {P Q : CertRevocationList → Type 0} {crls : List CertRevocationList}
      → ((c : CertRevocationList) → P c → Q c)
      → First cert P crls
      → First cert Q crls
  First-map f (here p) = here (f _ p)
  First-map f (later other rest) = later other (First-map f rest)

  check_with-crls :
      (found : Option CertRevocationList) (status : UnknownStatusPolicy)
      (crls : List CertRevocationList) (algs : List SignatureVerificationAlgorithm) (cert : Cert)
      (spki : Input) (ku : Option Input) (r : Option CertNotRevoked)
      → find_authoritative crls cert ≡ ok found
      → check_with found status algs cert spki ku ≡ ok r
      → ((r ≡ none) × (status ≡ allow)) ⊎ First cert (Clears algs cert spki ku) crls
  check_with-crls none allow crls algs cert spki ku r found h =
      inl (unfold check_with in ground arith, refl)
  check_with-crls none deny crls algs cert spki ku r found h = unfold check_with in cc
  check_with-crls (some crl) status crls algs cert spki ku r found h = inr (
      First-map
        (λ c (same, auth).
          rw (← same) (check_with-ok crl status algs cert spki ku r (rw same auth) h).0)
        (find_authoritative-some crls cert crl found))

  -- Where `check_crls` accepts a certificate, either a list clears it, the first of those given that is
  -- authoritative for it, or nothing was established: then the depth leaves the certificate out, or
  -- the policy allows an unknown status.
  pub check_crls-ok :
      (algs : List SignatureVerificationAlgorithm) (cert : Cert) (subject spki : Input)
      (ku : Option Input) (revocation : RevocationOptions) (r : Option CertNotRevoked)
      → check_crls algs cert subject spki ku revocation ≡ ok r
      → ((r ≡ none)
          × ((depth_skips revocation.depth cert ≡ true) ⊎ (revocation.status_requirement ≡ allow)))
        ⊎ First cert (Clears algs cert spki ku) revocation.crls
  unfolding check_crls
  check_crls-ok algs cert subject spki ku revocation r h =
      elim (Bool-cases (bytes_eq (fields cert).issuer subject)) [
        | inr other ↦ absurd (ground arith)
        | inl same ↦ elim (Bool-cases (depth_skips revocation.depth cert)) [
          | inl skip ↦ inl (ground arith, inl skip)
          | inr covered ↦
              let (found, search, rest) =
                >>=-eq-ok (find_authoritative revocation.crls cert)
                  (λ crl. check_with crl revocation.status_requirement algs cert spki ku)
                  (ground arith) in
              elim (check_with-crls found revocation.status_requirement revocation.crls algs cert
                spki ku r search rest) [
                  | inl (nothing, policy) ↦ inl (nothing, inr policy)
                  | inr clear ↦ inr clear
                ]
        ]
      ]
