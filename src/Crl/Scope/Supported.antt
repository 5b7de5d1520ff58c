-- ===== src/Crl/Scope/Supported.antt =====
-- src/crl.rs: the distribution points that `IssuingDistributionPoint::from_der` lets through.
use mathlib.Core.Path.{subst}
use webpki.Prelude.{arith, inl, inr, Bool-cases, ◌≡◌, refl, false, not, Option, none, some}
use webpki.Result.{Result, ok, err, panic, stuck, >>=-eq-ok}
use webpki.Error.{DerTypeId, trailing_data}
use webpki.Untrusted.{Input, Untrusted, new}
use webpki.Untrusted.Loop.{while_not_at_end}
use webpki.Der.{sequence, nested}
use webpki.X509.{DistributionPointName, full_name, name_relative_to_crl_issuer}
use webpki.Cert.{Cert, fields, names}
use webpki.Crl.Scope.{
  IssuingDistributionPoint, is_some, idp_field, require_full_name, check_supported, idp_from_der,
  out_of_scope, authoritative_for,
}

module _ ⦃u : Untrusted⦄ where
  -- It names its lists in full, and leaves out neither reasons nor kinds of certificate but users' or CAs'.
  pub record IsSupported (idp : IssuingDistributionPoint) : Type 0 where
    pub attributes : idp.only_contains_attribute_certs ≡ false
    pub direct : idp.indirect_crl ≡ false
    pub reasons : idp.only_some_reasons ≡ none
    pub named : (i : Input) × (names idp.distribution_point ≡ ok (some (full_name i)))

  require_full_name-eq-ok :
      (result idp : IssuingDistributionPoint) (name : Result (Option DistributionPointName))
      → require_full_name result name ≡ ok idp
      → (result ≡ idp) × (i : Input) × (name ≡ ok (some (full_name i)))
  unfolding require_full_name
  require_full_name-eq-ok result idp (ok (some (full_name i))) h = (cc, i, refl)
  require_full_name-eq-ok result idp (ok (some (name_relative_to_crl_issuer i))) h = cc
  require_full_name-eq-ok result idp (ok none) h = cc
  require_full_name-eq-ok result idp (err e) h = cc
  require_full_name-eq-ok result idp panic h = cc
  require_full_name-eq-ok result idp stuck h = cc

  none_if_not_some : {A : Type 0} (o : Option A) → is_some o ≡ false → o ≡ none
  none_if_not_some none h = refl
  none_if_not_some (some a) h = cc

  check_supported-IsSupported :
      (result idp : IssuingDistributionPoint) → check_supported result ≡ ok idp → IsSupported idp
  unfolding check_supported
  check_supported-IsSupported result idp h =
      let attributes : result.only_contains_attribute_certs ≡ false = ground arith in
      let direct : result.indirect_crl ≡ false = ground arith in
      let reasons : is_some result.only_some_reasons ≡ false = ground arith in
      let last : require_full_name result (names result.distribution_point) ≡ ok idp =
        ground arith in
      let (same, i, name) = require_full_name-eq-ok result idp _ last in
      subst IsSupported same (record {
        attributes = attributes;
        direct = direct;
        reasons = none_if_not_some _ reasons;
        named = (i, name);
      })

  unreached :
      (idp : IssuingDistributionPoint) (cert : Cert)
      → idp.only_contains_attribute_certs ≡ false
      → (fields cert).crl_distribution_points ≡ none
      → authoritative_for idp cert ≡ ok (not (out_of_scope idp cert))
  unfolding authoritative_for out_of_scope
  unreached idp cert attributes no_points = elim (Bool-cases (out_of_scope idp cert)) [
    | inl e ↦ rw attributes (rw e refl)
    | inr e ↦ rw attributes (rw e (rw no_points refl))
  ]

  -- Where an issuing distribution point is decoded, it is for more than attribute certificates, its
  -- list is direct and for every reason, and it has a full name; and of a certificate without
  -- distribution points the list speaks exactly where the certificate's kind is in its scope, with no
  -- panic.
  pub idp_from_der-IsSupported :
      (der : Input) (idp : IssuingDistributionPoint) (cert : Cert)
      → idp_from_der der ≡ ok idp
      → (fields cert).crl_distribution_points ≡ none
      → IsSupported idp × (authoritative_for idp cert ≡ ok (not (out_of_scope idp cert)))
  unfolding idp_from_der
  idp_from_der-IsSupported der idp cert h no_points =
      let (result, decoded, checked) =
        >>=-eq-ok
          (nested sequence (trailing_data DerTypeId.issuing_distribution_point)
            (while_not_at_end idp_field (record {
              distribution_point = none;
              only_contains_user_certs = false;
              only_contains_ca_certs = false;
              only_some_reasons = none;
              indirect_crl = false;
              only_contains_attribute_certs = false;
            }))
            (new der)).0
          check_supported h in
      let supported = check_supported-IsSupported result idp checked in
      (supported, unreached idp cert supported.attributes no_points)
