-- ===== src/Tests/Matching.antt =====
-- Matching of names comes to an end, on some names.
use webpki.Prelude.{some, [], ◌∷◌}
use webpki.Untrusted.{Input}
use webpki.Cert.{Cert, end_entity}
use webpki.Tests.Chain.{tlv, leaf_fields}

abbrev wildcard_name : Input
wildcard_name = b'*' ∷ b'.' ∷ b'a' ∷ b'.' ∷ b'b' ∷ []

abbrev host : Input
host = b'c' ∷ b'.' ∷ b'a' ∷ b'.' ∷ b'b' ∷ []

abbrev named_leaf : Cert
named_leaf = end_entity (record leaf_fields { subject_alt_name = some (tlv 0x82 wildcard_name) })
