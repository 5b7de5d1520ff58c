-- ===== src/SignedData/Total.antt =====
-- src/signed_data.rs: reading and checking a signed structure comes to an end.
use webpki.Prelude.{ℕ, Bool, true, false, List, [], ◌∷◌}
use webpki.Error.{unsupported_signature_algorithm_for_public_key}
use webpki.Result.{Result, ok, err, panic, stuck}
use webpki.Untrusted.{Input, Untrusted}
use webpki.Untrusted.Total.{Ends, returned, failed, panicked, Ends-if, Ends-bind, IsTotal}
use webpki.Untrusted.Advance.{read_all-Ends}
use webpki.Der.Total.{
  total_rules, expect_tag-IsTotal, expect_tag_and_get_value_limited-IsTotal,
  bit_string_with_no_unused_bits-IsTotal,
}
use webpki.SignedData.{
  SignedData, SignatureVerificationAlgorithm, signed_data_from_der, spki_from_der, verify_signature,
  unless_other_key, verify_loop, verify_signed_data,
}

module _ ⦃u : Untrusted⦄ {p : Bool} where
  pub signed_data_from_der-IsTotal : (size_limit : ℕ) → IsTotal p (signed_data_from_der size_limit)
  unfolding signed_data_from_der
  signed_data_from_der-IsTotal size_limit =
      search
        (
          total_rules, expect_tag-IsTotal, expect_tag_and_get_value_limited-IsTotal,
          bit_string_with_no_unused_bits-IsTotal,
        )
        depth 8

  spki_from_der-IsTotal : IsTotal p spki_from_der
  unfolding spki_from_der
  spki_from_der-IsTotal =
      search (total_rules, expect_tag-IsTotal, bit_string_with_no_unused_bits-IsTotal)

  verify_signature-Ends :
      (alg : SignatureVerificationAlgorithm) (spki_value msg signature : Input)
      → Ends p (verify_signature alg spki_value msg signature)
  unfolding verify_signature
  verify_signature-Ends alg spki_value msg signature =
      Ends-bind (read_all-Ends spki_value _ spki_from_der-IsTotal) (λ spki. search (total_rules))

  unless_other_key-Ends :
      (x : Result (Unit {0})) {rest : Result (Unit {0})}
      → Ends p x
      → Ends p rest
      → Ends p (unless_other_key x rest)
  unfolding unless_other_key
  unless_other_key-Ends (ok a) h k = returned
  unless_other_key-Ends (err unsupported_signature_algorithm_for_public_key) h k = k
  unless_other_key-Ends (err e) h k = failed
  unless_other_key-Ends panic (panicked h) k = panicked h
  unless_other_key-Ends stuck h k = elim h [ ]

  verify_loop-Ends :
      (algs : List SignatureVerificationAlgorithm) (found : Bool) (spki_value : Input)
      (signed_data : SignedData)
      → Ends p (verify_loop algs found spki_value signed_data)
  unfolding verify_loop
  verify_loop-Ends [] found spki_value signed_data = Ends-if found failed failed
  verify_loop-Ends (alg ∷ algs) found spki_value signed_data =
      unless_other_key-Ends _
        (verify_signature-Ends alg spki_value signed_data.signed signed_data.signature)
        (verify_loop-Ends algs true spki_value signed_data)

  pub verify_signed_data-Ends :
      (algs : List SignatureVerificationAlgorithm) (spki_value : Input) (signed_data : SignedData)
      → Ends p (verify_signed_data algs spki_value signed_data)
  unfolding verify_signed_data
  verify_signed_data-Ends algs spki_value signed_data =
      verify_loop-Ends _ false spki_value signed_data
