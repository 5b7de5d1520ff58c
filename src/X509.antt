-- ===== src/X509.antt =====
-- src/x509.rs: extensions, and the names of distribution points.
pub mod Total
pub mod Fields
use webpki.Prelude.{
  ℕ, ◌+◌, ◌*◌, bit_or, Bool, not, ◌||◌, Option, none, some, [], ◌∷◌, ◌==◌, if◌then◌else◌, bytes_eq,
  length, take,
}
use webpki.Error.{bad_der, unsupported_critical_extension, extension_value_invalid}
use webpki.Result.{Result, ok, err, panic, ◌>>=◌}
use webpki.Exec.{pure, raise}
use webpki.Exec
use webpki.Untrusted.{Input, Untrusted, Decoder}
use webpki.Der.{
  oid, octet_string, constructed, context_specific, expect_tag, bool_from_der,
  read_tag_and_get_value,
}

pub record Extension : Type 0 where
  pub critical : Bool
  pub id : Input
  pub value : Input

-- `Extension::unsupported`, which leaves what is being filled in as it is
pub unsupported : {A : Type 0} → Extension → A → Result A
unsupported extension a = if extension.critical then err unsupported_critical_extension else ok a

module _ ⦃u : Untrusted⦄ where
  -- `impl FromDer for Extension`
  pub extension_from_der : Decoder Extension
  extension_from_der = Exec.◌>>=◌ (expect_tag oid) λ id. Exec.◌>>=◌ bool_from_der λ critical.
      Exec.◌>>=◌ (expect_tag octet_string)
        λ value. pure (record { critical = critical; id = id; value = value })

-- The destination's new value.
pub set_extension_once : {T : Type 0} → Option T → Result T → Result (Option T)
set_extension_once (some t) parser = err extension_value_invalid
set_extension_once none parser = do t ← parser; ok (some t)

-- `set_extension_once` on a field of what is being filled in, which `put` writes
pub set_field : {T A : Type 0} → Option T → Result T → (Option T → A) → Result A
set_field destination parser put = do out ← set_extension_once destination parser; ok (put out)

-- the ISO arc 2.5.29, `oid![2, 5, 29]`
abbrev pub id_ce : Input
id_ce = (40 * 2 + 5) ∷ 29 ∷ []

last : Input → Result ℕ
last [] = panic
last (b ∷ []) = ok b
last (b ∷ c ∷ bs) = last (c ∷ bs)

-- The handler's closure fills in `a`; it returns the new value.
pub remember_extension : {A : Type 0} → Extension → A → (ℕ → Result A) → Result A
remember_extension extension a handler =
    if not (length extension.id == length id_ce + 1)
      || not (bytes_eq (take (length id_ce) extension.id) id_ce)
    then unsupported extension a
    else (do last_octet ← last extension.id; handler last_octet)

-- A full name is the bytes of its `DerIterator` over general names.
pub data DistributionPointName : Type 0 where
  name_relative_to_crl_issuer : Input → DistributionPointName
  full_name : Input → DistributionPointName

abbrev full_name_tag : ℕ
full_name_tag = bit_or context_specific constructed

abbrev name_relative_to_crl_issuer_tag : ℕ
name_relative_to_crl_issuer_tag = bit_or (bit_or context_specific constructed) 1

module _ ⦃u : Untrusted⦄ where
  -- `impl FromDer for DistributionPointName`
  pub distribution_point_name_from_der : Decoder DistributionPointName
  distribution_point_name_from_der = Exec.◌>>=◌ read_tag_and_get_value λ (tag, value).
      if tag == full_name_tag
      then pure (full_name value)
      else if tag == name_relative_to_crl_issuer_tag
      then pure (name_relative_to_crl_issuer value)
      else raise bad_der

unfoldable pub x509_code : Unit {0}
unfolding unsupported extension_from_der set_extension_once set_field last remember_extension
    distribution_point_name_from_der
x509_code = tt
