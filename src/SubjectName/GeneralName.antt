-- ===== src/SubjectName/GeneralName.antt =====
-- src/subject_name/verify.rs: `GeneralName` and its decoder.
pub mod Total
use webpki.Prelude.{ℕ, bit_and, bit_or, ◌||◌, ◌==◌, if◌then◌else◌}
use webpki.Error.{bad_der}
use webpki.Exec.{pure, raise, ◌>>=◌}
use webpki.Untrusted.{Input, Untrusted, Decoder}
use webpki.Der.{constructed, context_specific, read_tag_and_get_value}

pub data GeneralName : Type 0 where
  dns_name : Input → GeneralName
  directory_name : Input → GeneralName
  ip_address : Input → GeneralName
  uniform_resource_identifier : Input → GeneralName
  unsupported : ℕ → GeneralName

abbrev other_name_tag : ℕ
other_name_tag = bit_or (bit_or context_specific constructed) 0

abbrev rfc822_name_tag : ℕ
rfc822_name_tag = bit_or context_specific 1

abbrev dns_name_tag : ℕ
dns_name_tag = bit_or context_specific 2

abbrev x400_address_tag : ℕ
x400_address_tag = bit_or (bit_or context_specific constructed) 3

abbrev directory_name_tag : ℕ
directory_name_tag = bit_or (bit_or context_specific constructed) 4

abbrev edi_party_name_tag : ℕ
edi_party_name_tag = bit_or (bit_or context_specific constructed) 5

abbrev uniform_resource_identifier_tag : ℕ
uniform_resource_identifier_tag = bit_or context_specific 6

abbrev ip_address_tag : ℕ
ip_address_tag = bit_or context_specific 7

abbrev registered_id_tag : ℕ
registered_id_tag = bit_or context_specific 8

module _ ⦃u : Untrusted⦄ where
  -- the `match tag`; on a byte, `!(CONTEXT_SPECIFIC | CONSTRUCTED)` is 0x5f
  abbrev general_name_of : ℕ → Input → Decoder GeneralName
  general_name_of tag value =
      if tag == dns_name_tag
      then pure (dns_name value)
      else if tag == directory_name_tag
      then pure (directory_name value)
      else if tag == ip_address_tag
      then pure (ip_address value)
      else if tag == uniform_resource_identifier_tag
      then pure (uniform_resource_identifier value)
      else if tag == other_name_tag
          || tag == rfc822_name_tag
          || tag == x400_address_tag
          || tag == edi_party_name_tag
          || tag == registered_id_tag
      then pure (unsupported (bit_and tag 0x5f))
      else raise bad_der

  -- `impl FromDer for GeneralName`
  pub general_name_from_der : Decoder GeneralName
  general_name_from_der = do (tag, value) ← read_tag_and_get_value; general_name_of tag value

unfoldable pub general_name_code : Unit {0}
unfolding general_name_from_der
general_name_code = tt
