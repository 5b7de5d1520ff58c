-- ===== src/X509/Total.antt =====
-- src/x509.rs: reading an extension comes to an end.
use webpki.Prelude.{
  ℕ, Bool, not, ◌||◌, Option, none, some, [], ◌∷◌, ◌==◌, inl, inr, Bool-cases, length, take,
  bytes_eq, ◌+◌, ◌<◌, arith,
}
use webpki.Result.{Result}
use webpki.Untrusted.{Input, Untrusted}
use webpki.Untrusted.Total.{Ends, returned, failed, Ends-if, Ends-bind, IsTotal}
use webpki.Der.Total.{
  total_rules, expect_tag-IsTotal, bool_from_der-IsTotal, read_tag_and_get_value-IsTotal,
}
use webpki.X509.{
  Extension, id_ce, unsupported, extension_from_der, set_extension_once, set_field, last,
  remember_extension, distribution_point_name_from_der,
}

module _ {p : Bool} where
  module _ ⦃u : Untrusted⦄ where
    pub extension_from_der-IsTotal : IsTotal p extension_from_der
    unfolding extension_from_der
    extension_from_der-IsTotal = search (total_rules, expect_tag-IsTotal, bool_from_der-IsTotal)

    pub distribution_point_name_from_der-IsTotal : IsTotal p distribution_point_name_from_der
    unfolding distribution_point_name_from_der
    distribution_point_name_from_der-IsTotal = search (total_rules, read_tag_and_get_value-IsTotal)

  pub unsupported-Ends :
      {A : Type 0} (extension : Extension) (a : A) → Ends p (unsupported extension a)
  unfolding unsupported
  unsupported-Ends extension a = Ends-if extension.critical failed returned

  pub set_field-Ends :
      {T A : Type 0} (destination : Option T) {parser : Result T} (put : Option T → A)
      → Ends p parser
      → Ends p (set_field destination parser put)
  unfolding set_field set_extension_once
  set_field-Ends none put h = Ends-bind (Ends-bind h (λ t. returned)) (λ out. returned)
  set_field-Ends (some t) put h = failed

  last-Ends : (i : Input) → 0 < length i → Ends p (last i)
  unfolding last
  last-Ends [] h = absurd (omega arith)
  last-Ends (b ∷ []) h = returned
  last-Ends (b ∷ c ∷ i) h = last-Ends (c ∷ i) (omega arith)

  -- The handler sees the last byte of an identifier that has one.
  pub remember_extension-Ends :
      {A : Type 0} (extension : Extension) (a : A) {handler : ℕ → Result A}
      → ((id : ℕ) → Ends p (handler id))
      → Ends p (remember_extension extension a handler)
  unfolding remember_extension
  remember_extension-Ends extension a h =
      elim (Bool-cases (
        not (length extension.id == length id_ce + 1)
        || not (bytes_eq (take (length id_ce) extension.id) id_ce))) [
          | inl e ↦ rw e (unsupported-Ends extension a)
          | inr e ↦ rw e (Ends-bind (last-Ends extension.id (ground arith)) h)
        ]
