-- ===== src/SignedData.antt =====
-- src/signed_data.rs: signed structures and the search for an algorithm that verifies them. The
-- algorithms themselves are the caller's: an implementation of the trait
-- `SignatureVerificationAlgorithm`.
pub mod Total
pub mod Owned
pub mod Order
pub mod AlgId
pub mod Inversion
pub mod Search
use webpki.Prelude.{ℕ, Bool, true, false, List, [], ◌∷◌, filter, if◌then◌else◌, bytes_eq}
use webpki.Error.{
  DerTypeId, trailing_data, unsupported_signature_algorithm_for_public_key,
  unsupported_signature_algorithm, invalid_signature_for_public_key,
}
use webpki.Result.{Result, ok, err, panic, stuck}
use webpki.Result
use webpki.Exec.{pure, ◌>>=◌}
use webpki.Untrusted.{Input, Untrusted, Decoder, read_partial, read_all}
use webpki.Der.{
  sequence, expect_tag, expect_tag_and_get_value_limited, bit_string_with_no_unused_bits,
}

pub record SignedData : Type 0 where
  pub signed : Input
  pub algorithm : Input
  pub signature : Input

pub record OwnedSignedData : Type 0 where
  pub signed : List ℕ
  pub algorithm : List ℕ
  pub signature : List ℕ

-- `OwnedSignedData::borrow`
pub borrow : OwnedSignedData → SignedData
borrow owned = record {
  signed = owned.signed;
  algorithm = owned.algorithm;
  signature = owned.signature;
}

-- `SignedData::to_owned`
pub to_owned : SignedData → OwnedSignedData
to_owned signed_data = record {
  signed = signed_data.signed;
  algorithm = signed_data.algorithm;
  signature = signed_data.signature;
}

-- the trait; `verify_signature` takes the public key, the message and the signature
pub record SignatureVerificationAlgorithm : Type 0 where
  pub public_key_alg_id : Input
  pub signature_alg_id : Input
  pub verify_signature : Input → Input → Input → Bool

-- `AlgorithmIdentifier::matches_algorithm_id_value`
pub matches_algorithm_id_value : Input → Input → Bool
matches_algorithm_id_value asn1_id_value encoded = bytes_eq encoded asn1_id_value

pub record SubjectPublicKeyInfo : Type 0 where
  pub algorithm_id_value : Input
  pub key_value : Input

-- the rest of the loop, when the key is of another algorithm
unless_other_key : Result (Unit {0}) → Result (Unit {0}) → Result (Unit {0})
unless_other_key (err unsupported_signature_algorithm_for_public_key) rest = rest
unless_other_key result rest = result

module _ ⦃u : Untrusted⦄ where
  -- `SignedData::from_der`
  pub signed_data_from_der : ℕ → Decoder (Input × SignedData)
  signed_data_from_der size_limit = do
    (signed, tbs) ← read_partial (expect_tag_and_get_value_limited sequence size_limit)
    algorithm ← expect_tag sequence
    signature ← bit_string_with_no_unused_bits
    pure (tbs, record { signed = signed; algorithm = algorithm; signature = signature })

  -- `impl FromDer for SubjectPublicKeyInfo`
  pub spki_from_der : Decoder SubjectPublicKeyInfo
  spki_from_der = do
    algorithm_id_value ← expect_tag sequence
    key_value ← bit_string_with_no_unused_bits
    pure (record { algorithm_id_value = algorithm_id_value; key_value = key_value })

  pub verify_signature : SignatureVerificationAlgorithm → Input → Input → Input → Result (Unit {0})
  verify_signature signature_alg spki_value msg signature =
      Result.◌>>=◌
        (read_all spki_value (trailing_data DerTypeId.subject_public_key_info) spki_from_der)
        λ spki.
          if matches_algorithm_id_value signature_alg.public_key_alg_id spki.algorithm_id_value
          then (if signature_alg.verify_signature spki.key_value msg signature
              then ok tt
              else err invalid_signature_for_public_key)
          else err unsupported_signature_algorithm_for_public_key

  -- the loop over the algorithms that match, with `found_signature_alg_match`
  verify_loop : List SignatureVerificationAlgorithm → Bool → Input → SignedData → Result (Unit {0})
  verify_loop [] found spki_value signed_data =
      if found
      then err unsupported_signature_algorithm_for_public_key
      else err unsupported_signature_algorithm
  verify_loop (alg ∷ algs) found spki_value signed_data =
      unless_other_key (verify_signature alg spki_value signed_data.signed signed_data.signature)
        (verify_loop algs true spki_value signed_data)

  pub verify_signed_data :
      List SignatureVerificationAlgorithm → Input → SignedData → Result (Unit {0})
  verify_signed_data supported_algorithms spki_value signed_data =
      verify_loop
        (filter (λ alg. matches_algorithm_id_value alg.signature_alg_id signed_data.algorithm)
          supported_algorithms)
        false spki_value signed_data

unfoldable pub signed_data_code : Unit {0}
unfolding borrow to_owned matches_algorithm_id_value signed_data_from_der spki_from_der
    verify_signature unless_other_key verify_loop verify_signed_data
signed_data_code = tt
