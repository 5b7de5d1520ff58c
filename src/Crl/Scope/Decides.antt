-- ===== src/Crl/Scope/Decides.antt =====
-- src/crl.rs: `authoritative_for` has no way to fail.
use webpki.Prelude.{
  ℕ, zero, suc, ◌≤◌, Bool, true, false, Option, none, some, refl, Bool-cases, inl, inr, arith,
  if◌then◌else◌,
}
use webpki.Result.{Result, ok, err, panic, stuck}
use webpki.Result
use webpki.Untrusted.{Input, Untrusted, Reader, new, at_end}
use webpki.Untrusted.Total.{Ends, returned, panicked, left, IsTotal-Ends}
use webpki.Untrusted.Loop.Rounds.{empty_at_end, more_less}
use webpki.X509.{DistributionPointName, full_name, name_relative_to_crl_issuer}
use webpki.Cert.{Cert, CrlDistributionPoint, fields, names, crl_distribution_point_from_der}
use webpki.SubjectName.GeneralName.{GeneralName, uniform_resource_identifier, general_name_from_der}
use webpki.SubjectName.GeneralName.Total.{general_name_from_der-IsProgress}
use webpki.Cert.Total.{
  names-Ends, crl_distribution_point_from_der-IsTotal, crl_distribution_point_from_der-IsProgress,
}
use webpki.Crl.Scope.{
  IssuingDistributionPoint, is_uri, find_uri, find_uri_of, until_found, uri_name_in_common, on_name,
  on_point, points_loop, authoritative_points, out_of_scope, authoritative_for,
}

-- An answer or a panic: what a function that returns no `Result` may do.
pub data Decides {A : Type 0} : Result A → Type 0 where
  decided : {a : A} → Decides (ok a)
  panicking : Decides panic

pub Decides-Ends : {A : Type 0} {r : Result A} → Decides r → Ends true r
Decides-Ends decided = returned
Decides-Ends panicking = panicked refl

Decides-bind :
    {A B : Type 0} {r : Result A} {f : A → Result B}
    → Decides r
    → ((a : A) → Decides (f a))
    → Decides (Result.◌>>=◌ r f)
Decides-bind decided k = k _
Decides-bind panicking k = panicking

Decides-if :
    {A : Type 0} (b : Bool) {r s : Result A} → Decides r → Decides s → Decides (if b then r else s)
Decides-if true h k = h
Decides-if false h k = k

Decides-if_pair :
    {A S : Type 0} (b : Bool) (x y : Result A × S)
    → Decides x.0
    → Decides y.0
    → Decides (if b then x else y).0
Decides-if_pair true x y h k = h
Decides-if_pair false x y h k = k

module _ ⦃u : Untrusted⦄ where
  find_uri-Decides :
      (fuel : ℕ) (uri : Input) (dp : Reader) → left dp ≤ fuel → Decides (find_uri fuel uri dp).0
  unfolding find_uri
  find_uri-Decides zero uri dp h = rw (empty_at_end dp h) decided
  find_uri-Decides (suc fuel) uri dp h = elim (Bool-cases (at_end dp)) [
    | inl e ↦ rw e decided
    | inr e ↦ rw e (
        Decides-if_pair (is_uri uri (general_name_from_der dp).0) _ _ decided (
          find_uri-Decides fuel uri _
            (omega (arith, more_less general_name_from_der dp general_name_from_der-IsProgress e))))
  ]

  find_uri_of-Decides : (name : Result GeneralName) (dp : Reader) → Decides (find_uri_of name dp).0
  unfolding find_uri_of
  find_uri_of-Decides (ok (uniform_resource_identifier uri)) dp =
      find_uri-Decides _ uri dp (omega arith)
  find_uri_of-Decides _ dp = decided

  until_found-Decides :
      (found : Result Bool) (idp dp : Reader) (again : Result Bool × Reader × Reader)
      → Decides found
      → Decides again.0
      → Decides (until_found found idp dp again).0
  unfolding until_found
  until_found-Decides (ok true) idp dp again h k = decided
  until_found-Decides (ok false) idp dp again h k = k
  until_found-Decides (err e) idp dp again h k = elim h [ ]
  until_found-Decides panic idp dp again h k = panicking
  until_found-Decides stuck idp dp again h k = elim h [ ]

  uri_name_in_common-Decides :
      (fuel : ℕ) (idp dp : Reader) → left idp ≤ fuel → Decides (uri_name_in_common fuel idp dp).0
  unfolding uri_name_in_common
  uri_name_in_common-Decides zero idp dp h = rw (empty_at_end idp h) decided
  uri_name_in_common-Decides (suc fuel) idp dp h = elim (Bool-cases (at_end idp)) [
    | inl e ↦ rw e decided
    | inr e ↦ rw e (
        until_found-Decides _ _ _ _ (find_uri_of-Decides _ dp) (
          uri_name_in_common-Decides fuel _ _ (
            omega (arith, more_less general_name_from_der idp general_name_from_der-IsProgress e))))
  ]

  on_name-Decides :
      (name : Result (Option DistributionPointName)) {rest : Input → Result Bool}
      → Ends true name
      → ((i : Input) → Decides (rest i))
      → Decides (on_name name rest)
  unfolding on_name
  on_name-Decides (ok none) h k = decided
  on_name-Decides (ok (some (full_name i))) h k = k i
  on_name-Decides (ok (some (name_relative_to_crl_issuer i))) h k = decided
  on_name-Decides (err e) h k = decided
  on_name-Decides panic h k = panicking
  on_name-Decides stuck h k = elim h [ ]

  on_point-Decides :
      (point : Result CrlDistributionPoint) {rest : Input → Result Bool}
      → Ends true point
      → ((i : Input) → Decides (rest i))
      → Decides (on_point point rest)
  unfolding on_point
  on_point-Decides (ok point) h k =
      Decides-if _ decided (on_name-Decides _ (names-Ends point.distribution_point) k)
  on_point-Decides (err e) h k = decided
  on_point-Decides panic h k = panicking
  on_point-Decides stuck h k = elim h [ ]

  points_loop-Decides :
      (fuel : ℕ) (idp cert_dps : Reader)
      → left cert_dps ≤ fuel
      → Decides (points_loop fuel idp cert_dps)
  unfolding points_loop
  points_loop-Decides zero idp cert_dps h = rw (empty_at_end cert_dps h) decided
  points_loop-Decides (suc fuel) idp cert_dps h = elim (Bool-cases (at_end cert_dps)) [
    | inl e ↦ rw e decided
    | inr e ↦ rw e (
        on_point-Decides _ (IsTotal-Ends crl_distribution_point_from_der-IsTotal cert_dps) (λ i.
          Decides-bind (uri_name_in_common-Decides _ idp (new i) (omega arith)) (λ b.
            Decides-if b decided (
              points_loop-Decides fuel _ _ (
                omega (
                  arith,
                  more_less crl_distribution_point_from_der cert_dps
                      crl_distribution_point_from_der-IsProgress e,
                ))))))
  ]

  authoritative_points-Decides :
      (name : Result (Option DistributionPointName)) (cert_dps : Input)
      → Ends true name
      → Decides (authoritative_points name cert_dps)
  unfolding authoritative_points
  authoritative_points-Decides (ok none) cert_dps h = decided
  authoritative_points-Decides (ok (some (full_name i))) cert_dps h =
      points_loop-Decides _ _ _ (rw (u.remaining-new cert_dps) (omega arith))
  authoritative_points-Decides (ok (some (name_relative_to_crl_issuer i))) cert_dps h = decided
  authoritative_points-Decides (err e) cert_dps h = decided
  authoritative_points-Decides panic cert_dps h = panicking
  authoritative_points-Decides stuck cert_dps h = elim h [ ]

  pub authoritative_for-Decides :
      (idp : IssuingDistributionPoint) (cert : Cert) → Decides (authoritative_for idp cert)
  unfolding authoritative_for
  authoritative_for-Decides idp cert = Decides-if idp.only_contains_attribute_certs panicking (
      Decides-if (out_of_scope idp cert) decided
        (elim (fields cert).crl_distribution_points
          as (λ o. Decides (elim o [
            | none ↦ ok true
            | some cert_dps ↦ authoritative_points (names idp.distribution_point) cert_dps
          ])) [
            | none ↦ decided
            | some cert_dps ↦
                authoritative_points-Decides _ cert_dps (names-Ends idp.distribution_point)
          ]))
