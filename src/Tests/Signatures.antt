-- ===== src/Tests/Signatures.antt =====
-- The search through lists of algorithms, and the revocation check with either form of a list.
use webpki.Prelude.{ℕ, ◌≡◌, ◌↔◌, refl, true, none, List, [], ◌∷◌, ◌++◌, map, bytes_eq}
use webpki.Error.{invalid_signature_for_public_key}
use webpki.Result.{ok, err}
use webpki.Untrusted.{Input}
use webpki.Untrusted.Slice.{slice}
use webpki.Der.{der_code}
use webpki.SignedData.{
  SignedData, SignatureVerificationAlgorithm, SubjectPublicKeyInfo, verify_signed_data,
  signed_data_code,
}
use webpki.SignedData.AlgId
use webpki.SignedData.Search.{read_key}
use webpki.SignedData.Order.{IsIn, first, further, verify_signed_data-order}
use webpki.RingAlgs.{
  Ring, RingAlgorithm, as_algorithm, rsa_pkcs1_2048_8192_sha384, rsa_pkcs1_3072_8192_sha384,
  ring_code,
}
use webpki.RingAlgs.Accepts.{verify_signed_data-ring}
use webpki.Cert.{end_entity}
use webpki.Crl.{borrowed_list, owned_list}
use webpki.VerifyCert.Revocation.{RevocationOptions, check_crls, chain_depth, deny}
use webpki.VerifyCert.Revocation.Owned.{check_crls-to_owned}
use webpki.Tests.Chain.{tlv, leaf_fields, spki_value}
use webpki.Tests.Lists.{two_entries}
use webpki.Tests.Certificates.{signed_data}
use webpki.Tests.Endings.{owned, made_owned}

abbrev for_key : Input → SignatureVerificationAlgorithm
for_key id = record {
  public_key_alg_id = id;
  signature_alg_id = [];
  verify_signature = λ key message signature. bytes_eq key (1 ∷ 2 ∷ []);
}

abbrev one_order : List SignatureVerificationAlgorithm
one_order = for_key [] ∷ for_key (1 ∷ []) ∷ []

abbrev other_order : List SignatureVerificationAlgorithm
other_order = for_key (1 ∷ []) ∷ for_key [] ∷ []

to_other : (alg : SignatureVerificationAlgorithm) → IsIn alg one_order → IsIn alg other_order
to_other alg first = further first
to_other alg (further first) = first
to_other alg (further (further i)) = elim i [ ]

to_one : (alg : SignatureVerificationAlgorithm) → IsIn alg other_order → IsIn alg one_order
to_one alg first = further first
to_one alg (further first) = first
to_one alg (further (further i)) = elim i [ ]

verify_signed_data-order_example :
    (verify_signed_data ⦃u = slice⦄ one_order spki_value signed_data ≡ ok tt)
    ↔ (verify_signed_data ⦃u = slice⦄ other_order spki_value signed_data ≡ ok tt)
verify_signed_data-order_example =
    verify_signed_data-order ⦃u = slice⦄ one_order other_order spki_value signed_data
      (((λ (s, p). cc), tt), (tt, tt)) (((λ (s, p). cc), tt), (tt, tt))
      (λ alg. (to_other alg, to_one alg))

-- an instance that knows its algorithms by numbers, and takes the key that is the number
abbrev numbers : Ring
numbers = record {
  VerificationAlgorithm = ℕ;
  ecdsa_p256_sha256_asn1 = 1;
  ecdsa_p256_sha384_asn1 = 2;
  ecdsa_p384_sha256_asn1 = 3;
  ecdsa_p384_sha384_asn1 = 4;
  rsa_pkcs1_2048_8192_sha256 = 5;
  rsa_pkcs1_2048_8192_sha384 = 6;
  rsa_pkcs1_2048_8192_sha512 = 7;
  rsa_pkcs1_3072_8192_sha384 = 8;
  rsa_pss_2048_8192_sha256 = 9;
  rsa_pss_2048_8192_sha384 = 10;
  rsa_pss_2048_8192_sha512 = 11;
  ed25519 = 12;
  verify = λ alg key message signature. bytes_eq key (alg ∷ []);
}

abbrev rsa_spki : Input
rsa_spki = tlv 48 AlgId.rsa_encryption ++ tlv 3 (0 ∷ 6 ∷ [])

abbrev rsa_signed : SignedData
rsa_signed = record { signed = 1 ∷ []; algorithm = AlgId.rsa_pkcs1_sha384; signature = 2 ∷ [] }

abbrev both_sizes : List (RingAlgorithm ⦃ring = numbers⦄)
both_sizes =
    rsa_pkcs1_2048_8192_sha384 ⦃ring = numbers⦄ ∷ rsa_pkcs1_3072_8192_sha384 ⦃ring = numbers⦄ ∷ []

small_key_first :
    verify_signed_data ⦃u = slice⦄
      (map (as_algorithm ⦃ring = numbers⦄) both_sizes)
      rsa_spki
      rsa_signed
    ≡ ok tt
unfolding bytes_eq ring_code der_code signed_data_code
small_key_first = refl

-- Both algorithms have the same two identifiers, so only the first is tried.
small_key_last :
    verify_signed_data ⦃u = slice⦄
      (map (as_algorithm ⦃ring = numbers⦄) (
        rsa_pkcs1_3072_8192_sha384 ⦃ring = numbers⦄
        ∷ rsa_pkcs1_2048_8192_sha384 ⦃ring = numbers⦄
        ∷ []))
      rsa_spki
      rsa_signed
    ≡ err invalid_signature_for_public_key
unfolding bytes_eq ring_code der_code signed_data_code
small_key_last = refl

verify_signed_data-ring_example :
    (alg : RingAlgorithm ⦃ring = numbers⦄) × IsIn alg both_sizes
    × (key : SubjectPublicKeyInfo) × (read_key ⦃u = slice⦄ rsa_spki ≡ ok key)
    × (alg.signature_alg_id ≡ AlgId.rsa_pkcs1_sha384)
    × (alg.public_key_alg_id ≡ key.algorithm_id_value)
    × (bytes_eq key.key_value (alg.verification_alg ∷ []) ≡ true)
verify_signed_data-ring_example =
    verify_signed_data-ring ⦃ring = numbers⦄ ⦃u = slice⦄ both_sizes rsa_spki rsa_signed
      small_key_first

abbrev require_status : RevocationOptions
require_status = record { crls = []; depth = chain_depth; status_requirement = deny }

check_crls-to_owned_example :
    check_crls ⦃u = slice⦄ []
      (end_entity leaf_fields)
      (7 ∷ [])
      spki_value
      none
      (record require_status { crls = [] ++ (borrowed_list ⦃u = slice⦄ two_entries ∷ []) })
    ≡ check_crls ⦃u = slice⦄ []
        (end_entity leaf_fields)
        (7 ∷ [])
        spki_value
        none
        (record require_status { crls = [] ++ (owned_list ⦃u = slice⦄ owned ∷ []) })
check_crls-to_owned_example =
    check_crls-to_owned ⦃u = slice⦄ two_entries owned [] [] require_status []
      (end_entity leaf_fields) (7 ∷ []) spki_value none made_owned
