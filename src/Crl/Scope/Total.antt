-- ===== src/Crl/Scope/Total.antt =====
-- src/crl.rs: reading an issuing distribution point comes to an end.
use webpki.Prelude.{ℕ, Bool, true, Option, none, some}
use webpki.Result.{Result, ok, err, panic, stuck}
use webpki.Result
use webpki.Untrusted.{Input, Untrusted, new}
use webpki.Untrusted.Total.{
  Ends, returned, failed, panicked, Ends-if, Ends-bind, IsTotal, IsProgress, IsTotal-lift,
  IsTotal-bind, IsTotal-Ends,
}
use webpki.Untrusted.Advance.{read_byte_or-IsTotal, IsProgress-bind}
use webpki.Untrusted.Loop.Rounds.{IsTotal-while_not_at_end}
use webpki.Der.Total.{
  total_rules, IsTotal-nested, read_tag_and_get_value-IsTotal, read_tag_and_get_value-IsProgress,
  bit_string_flags-Ends,
}
use webpki.X509.{DistributionPointName, full_name, name_relative_to_crl_issuer}
use webpki.X509.Total.{set_field-Ends}
use webpki.Cert.Total.{names-Ends}
use webpki.Crl.Scope.{
  IssuingDistributionPoint, bool_of_byte, decode_bool, idp_field, require_full_name,
  check_supported, idp_from_der,
}

module _ ⦃u : Untrusted⦄ where
  bool_of_byte-IsTotal : {p : Bool} (b : ℕ) → IsTotal p (bool_of_byte b)
  unfolding bool_of_byte
  bool_of_byte-IsTotal b = record {
    at = λ r. (IsTotal-lift (search (Ends-if, returned, failed))).at r;
  }

  decode_bool-Ends : {p : Bool} (value : Input) → Ends p (decode_bool value)
  unfolding decode_bool
  decode_bool-Ends value =
      IsTotal-Ends (IsTotal-bind (read_byte_or-IsTotal _) bool_of_byte-IsTotal) (new value)

  idp_value-Ends :
      {p : Bool} (value : Input) (f : Bool → IssuingDistributionPoint)
      → Ends p (Result.◌>>=◌ (decode_bool value) (λ b. ok (f b)))
  idp_value-Ends value f = Ends-bind (decode_bool-Ends value) (λ b. returned)

  idp_field-IsTotal : (result : IssuingDistributionPoint) → IsTotal true (idp_field result)
  unfolding idp_field
  idp_field-IsTotal result = IsTotal-bind read_tag_and_get_value-IsTotal (λ (tag, value).
      search (total_rules, set_field-Ends, bit_string_flags-Ends, idp_value-Ends) depth 12)

  idp_field-IsProgress : (result : IssuingDistributionPoint) → IsProgress (idp_field result)
  unfolding idp_field
  idp_field-IsProgress result =
      IsProgress-bind {p = true} read_tag_and_get_value-IsProgress (λ (tag, value).
        search (total_rules, set_field-Ends, bit_string_flags-Ends, idp_value-Ends) depth 12)

  require_full_name-Ends :
      {p : Bool} (result : IssuingDistributionPoint) (name : Result (Option DistributionPointName))
      → Ends p name
      → Ends p (require_full_name result name)
  unfolding require_full_name
  require_full_name-Ends result (ok none) h = failed
  require_full_name-Ends result (ok (some (full_name n))) h = returned
  require_full_name-Ends result (ok (some (name_relative_to_crl_issuer n))) h = failed
  require_full_name-Ends result (err e) h = failed
  require_full_name-Ends result panic (panicked h) = panicked h
  require_full_name-Ends result stuck h = elim h [ ]

  check_supported-Ends :
      {p : Bool} (result : IssuingDistributionPoint) → Ends p (check_supported result)
  unfolding check_supported
  check_supported-Ends result = search (Ends-if, failed, require_full_name-Ends, names-Ends)

  pub idp_from_der-Ends : (der : Input) → Ends true (idp_from_der der)
  unfolding idp_from_der
  idp_from_der-Ends der =
      Ends-bind
        (IsTotal-Ends
          (IsTotal-nested _ _ (IsTotal-while_not_at_end idp_field-IsTotal idp_field-IsProgress _))
          (new der))
        check_supported-Ends
