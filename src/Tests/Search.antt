-- ===== src/Tests/Search.antt =====
-- The search for a path and its checks come to an end, on some certificates.
use webpki.Prelude.{true, false, none, some, [], ◌∷◌, All}
use webpki.Untrusted.{Input, new}
use webpki.Untrusted.Slice.{slice}
use webpki.Untrusted.Total.{Ends}
use webpki.Cert.{Cert, end_entity}
use webpki.SubjectName.Verify.{ignore, check_name_constraints}
use webpki.SubjectName.Verify.Constraints.{check_name_constraints-Ends}
use webpki.VerifyCert.{
  ChainOptions, RevocationOptions, required_if_present, eku_server_auth, chain_depth, deny,
  build_chain, check_crls, no_ca, check_issuer_independent_properties,
}
use webpki.VerifyCert.Checks.Total.{check_issuer_independent_properties-Ends}
use webpki.VerifyCert.Revocation.Total.{Responds, borrowed_list-Responds, check_crls-Ends}
use webpki.Crl.{borrowed_list}
use webpki.VerifyCert.Total.{build_chain-Ends}
use webpki.Tests.Chain.{tlv, leaf_fields, spki_value, options}
use webpki.Tests.Lists.{two_entries}

abbrev leaf : Cert
leaf = end_entity leaf_fields

-- one permitted subtree, of DNS names
abbrev constraints : Input
constraints = tlv 160 (tlv 48 (tlv 130 (b'a' ∷ b'.' ∷ b'b' ∷ [])))

check_name_constraints-Ends_example :
    Ends true
      (check_name_constraints ⦃u = slice⦄ ignore leaf (some (new ⦃u = slice⦄ constraints))).0
check_name_constraints-Ends_example =
    check_name_constraints-Ends ⦃u = slice⦄ ignore leaf (some (new ⦃u = slice⦄ constraints))

check_issuer_independent_properties-Ends_example : Ends false (
    check_issuer_independent_properties ⦃u = slice⦄ leaf 9 no_ca 0
      (required_if_present eku_server_auth))
check_issuer_independent_properties-Ends_example =
    check_issuer_independent_properties-Ends ⦃u = slice⦄ leaf 9 no_ca 0
      (required_if_present eku_server_auth)

abbrev with_list : RevocationOptions
with_list = record {
  crls = borrowed_list ⦃u = slice⦄ two_entries ∷ [];
  depth = chain_depth;
  status_requirement = deny;
}

list-Responds : All Responds (with_list.crls)
list-Responds = (borrowed_list-Responds ⦃u = slice⦄ two_entries, tt)

check_crls-Ends_example :
    Ends true (check_crls ⦃u = slice⦄ [] leaf (7 ∷ []) spki_value none with_list)
check_crls-Ends_example =
    check_crls-Ends ⦃u = slice⦄ [] leaf (7 ∷ []) spki_value none with_list list-Responds

abbrev checked : ChainOptions
checked = record options { revocation = some with_list }

build_chain-Ends_example : Ends true (build_chain ⦃u = slice⦄ checked leaf 1000000000)
build_chain-Ends_example = build_chain-Ends ⦃u = slice⦄ checked list-Responds leaf 1000000000
