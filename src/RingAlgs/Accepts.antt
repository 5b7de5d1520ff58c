-- ===== src/RingAlgs/Accepts.antt =====
-- src/ring_algs.rs: what a signature that is accepted owes to `ring`.
use webpki.Prelude.{◌≡◌, refl, sym, ◌∙◌, ap, true, List, [], ◌∷◌, map}
use webpki.Result.{ok}
use webpki.Untrusted.{Input, Untrusted}
use webpki.SignedData.{
  SignedData, SignatureVerificationAlgorithm, SubjectPublicKeyInfo, verify_signed_data,
}
use webpki.SignedData.Search.{read_key, verify_signed_data-eq-ok_iff}
use webpki.SignedData.Order.{IsIn, first, further, Accepts, Verifies-Accepts}
use webpki.RingAlgs.{Ring, RingAlgorithm, as_algorithm}

module _ ⦃ring : Ring⦄ where
  IsIn-map :
      (algs : List RingAlgorithm) (a : SignatureVerificationAlgorithm)
      → IsIn a (map as_algorithm algs)
      → (alg : RingAlgorithm) × IsIn alg algs × (a ≡ as_algorithm alg)
  IsIn-map [] a i = elim i [ ]
  IsIn-map (alg ∷ algs) a first = (alg, first, refl)
  IsIn-map (alg ∷ algs) a (further i) = let (b, j, e) = IsIn-map algs a i in (b, further j, e)

  as_algorithm-Accepts :
      (key : SubjectPublicKeyInfo) (signed_data : SignedData) (a : SignatureVerificationAlgorithm)
      (alg : RingAlgorithm)
      → a ≡ as_algorithm alg
      → Accepts key signed_data a
      → (alg.signature_alg_id ≡ signed_data.algorithm)
        × (alg.public_key_alg_id ≡ key.algorithm_id_value)
        × (ring.verify alg.verification_alg key.key_value signed_data.signed signed_data.signature
            ≡ true)
  unfolding as_algorithm
  as_algorithm-Accepts key signed_data a alg e h = (
    ap (λ x. x.signature_alg_id) (sym e) ∙ h.signature_alg_id,
    ap (λ x. x.public_key_alg_id) (sym e) ∙ h.public_key_alg_id,
    ap (λ x. x.verify_signature key.key_value signed_data.signed signed_data.signature) (sym e)
        ∙ h.verifies,
  )

  module _ ⦃u : Untrusted⦄ where
    -- A signature that is accepted with algorithms of `ring` was verified by `ring`, over the very signed
    -- bytes, with the key that was read, and by one of the algorithms whose identifiers are those of the
    -- signature and of the key.
    pub verify_signed_data-ring :
        (algs : List RingAlgorithm) (spki_value : Input) (signed_data : SignedData)
        → verify_signed_data (map as_algorithm algs) spki_value signed_data ≡ ok tt
        → (alg : RingAlgorithm) × IsIn alg algs
          × (key : SubjectPublicKeyInfo) × (read_key spki_value ≡ ok key)
          × (alg.signature_alg_id ≡ signed_data.algorithm)
          × (alg.public_key_alg_id ≡ key.algorithm_id_value)
          × (ring.verify alg.verification_alg key.key_value signed_data.signed signed_data.signature
              ≡ true)
    verify_signed_data-ring algs spki_value signed_data h =
        let (key, is_key, v) = (verify_signed_data-eq-ok_iff _ spki_value signed_data).0 h in
        let (a, i, accepts) = Verifies-Accepts key signed_data _ v in
        let (alg, j, e) = IsIn-map algs a i in
        let of_alg = as_algorithm-Accepts key signed_data a alg e accepts in
        (alg, j, key, is_key, of_alg.0, of_alg.1, of_alg.2)
