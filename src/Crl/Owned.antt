-- ===== src/Crl/Owned.antt =====
-- src/crl.rs: the borrowed and the owned form of one revocation list.
use webpki.Prelude.{
  ℕ, zero, suc, ◌≡◌, refl, sym, ap, ◌∙◌, length, arith, Bool, true, false, ◌||◌, Option, List, [],
  ◌∷◌, inl, inr, Bool-cases, if◌then◌else◌,
}
use webpki.Result.{Result, ok, >>=-eq-ok}
use webpki.Untrusted.{Input, Untrusted, Reader, new, at_end}
use webpki.Crl.Scope.{is_some}
use webpki.SignedData.{SignatureVerificationAlgorithm, verify_signed_data, borrow}
use webpki.SignedData.Owned.{borrow-to_owned}
use webpki.Crl.{
  CertRevocationList, borrowed_list, owned_list, RevokedCert, BorrowedCertRevocationList,
  OwnedCertRevocationList, revoked_cert_from_der, find_serial_loop, borrowed_find_serial,
  collect_loop, to_owned, lookup_serial, owned_find_serial,
}

-- the entries in the order of the encoding, put before those that are there, the latest first
abbrev put_all : List RevokedCert → List RevokedCert → List RevokedCert
put_all [] entries = entries
put_all (cert ∷ certs) entries = put_all certs (cert ∷ entries)

-- two lists that the checks cannot tell apart
pub record Agree (a b : CertRevocationList) : Type 0 where
  pub issuer : a.issuer ≡ b.issuer
  pub issuing_distribution_point : a.issuing_distribution_point ≡ b.issuing_distribution_point
  pub verify_signature :
      (algs : List SignatureVerificationAlgorithm) (spki : Input)
      → a.verify_signature algs spki ≡ b.verify_signature algs spki
  pub find_serial :
      (serial : Input)
      → (x : Option RevokedCert) × (y : Option RevokedCert) × (a.find_serial serial ≡ ok x)
        × (b.find_serial serial ≡ ok y)
        × (is_some x ≡ is_some y)

is_some-lookup_serial-put_all :
    (certs entries : List RevokedCert) (serial : Input)
    → is_some (lookup_serial (put_all certs entries) serial)
      ≡ (is_some (lookup_serial certs serial) || is_some (lookup_serial entries serial))
unfolding lookup_serial
is_some-lookup_serial-put_all [] entries serial = refl
is_some-lookup_serial-put_all (cert ∷ certs) entries serial =
    let ih = is_some-lookup_serial-put_all certs (cert ∷ entries) serial in ground (arith, ih)

or_false : (b : Bool) → (b || false) ≡ b
or_false true = refl
or_false false = refl

choice :
    (b : Bool) (x y : Option RevokedCert)
    → ◌≡◌ {A = Result (Option RevokedCert)} (if b then ok x else ok y) (ok (if b then x else y))
choice true x y = refl
choice false x y = refl

module _ ⦃u : Untrusted⦄ where
  -- The two loops go through the same entries.
  collect-find :
      (fuel : ℕ) (entries : List RevokedCert) (reader : Reader) (serial : Input)
      {all : List RevokedCert}
      → collect_loop fuel entries reader ≡ ok all
      → (certs : List RevokedCert) × (all ≡ put_all certs entries)
        × (find_serial_loop fuel serial reader ≡ ok (lookup_serial certs serial))
  unfolding collect_loop find_serial_loop lookup_serial
  collect-find zero entries reader serial h = elim (Bool-cases (at_end reader)) [
    | inl e ↦ ([], ground arith, ground arith)
    | inr e ↦ absurd (ground arith)
  ]
  collect-find (suc fuel) entries reader serial h = elim (Bool-cases (at_end reader)) [
    | inl e ↦ ([], ground arith, ground arith)
    | inr e ↦
        let (cert, parsed, rest) =
          >>=-eq-ok (revoked_cert_from_der reader).0
            (λ cert. collect_loop fuel (cert ∷ entries) (revoked_cert_from_der reader).1)
            (rw e at h) in
        let (certs, same, found) = collect-find fuel (cert ∷ entries) _ serial rest in
        (cert ∷ certs, same, rw e (rw parsed (rw found (choice _ _ _))))
  ]

  find_serial-agree :
      (crl : BorrowedCertRevocationList) (entries : List RevokedCert) (serial : Input)
      → collect_loop (length crl.revoked_certs) [] (new crl.revoked_certs) ≡ ok entries
      → (found : Option RevokedCert) × (borrowed_find_serial crl serial ≡ ok found)
        × (is_some found ≡ is_some (lookup_serial entries serial))
  unfolding borrowed_find_serial lookup_serial
  find_serial-agree crl entries serial h =
      let (certs, put, found) = collect-find _ [] (new crl.revoked_certs) serial h in
      let is_put = is_some-lookup_serial-put_all certs [] serial in
      (lookup_serial certs serial, found, sym (rw (put, is_put) (or_false _)))

  -- Where an owned list is made of a borrowed one, both answer alike as revocation lists: they have
  -- one issuer, one distribution point and one verdict on every signature, and the search through the
  -- encoding succeeds, and finds an entry exactly when the map has one.
  pub to_owned-Agree :
      (crl : BorrowedCertRevocationList) (owned : OwnedCertRevocationList)
      → to_owned crl ≡ ok owned
      → Agree (borrowed_list crl) (owned_list owned)
  unfolding to_owned borrowed_list owned_list owned_find_serial
  to_owned-Agree crl owned h =
      let (entries, collected, done) = >>=-eq-ok _ _ h in
      let same = ap made done in
      record {
        issuer = ap (λ o. o.issuer) same;
        issuing_distribution_point = ap (λ o. o.issuing_distribution_point) same;
        verify_signature = λ algs spki.
            ap (verify_signed_data algs spki) (sym (borrow-to_owned crl.signed_data))
            ∙ ap (λ o. verify_signed_data algs spki (borrow o.signed_data)) same;
        find_serial = λ serial.
            let (found, borrowed, alike) = find_serial-agree crl entries serial collected in
            (
              found,
              lookup_serial owned.revoked_certs serial,
              borrowed,
              refl,
              alike ∙ ap (λ o. is_some (lookup_serial o.revoked_certs serial)) same,
            );
      }
    where
      made : Result OwnedCertRevocationList → OwnedCertRevocationList
      made (ok o) = o
      made _ = owned
