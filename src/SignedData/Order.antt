-- ===== src/SignedData/Order.antt =====
-- src/signed_data.rs: when the order of the algorithms matters.
use webpki.Prelude.{
  ◌≡◌, ◌≢◌, ◌↔◌, sym, ◌∙◌, true, ◌⊎◌, inl, inr, Bool-cases, List, [], ◌∷◌, All, bytes_eq,
  bytes_eq→eq,
}
use webpki.Result.{ok}
use webpki.Untrusted.{Input, Untrusted}
use webpki.SignedData.{
  SignedData, SignatureVerificationAlgorithm, SubjectPublicKeyInfo, verify_signed_data,
}
use webpki.SignedData.Search.{Verifies, here, later, bytes_eq-ne, verify_signed_data-eq-ok_iff}

pub data IsIn {ℓ} {A : Type ℓ} (a : A) : List A → Type ℓ where
  first : {xs : List A} → IsIn a (a ∷ xs)
  further : {b : A} {xs : List A} → IsIn a xs → IsIn a (b ∷ xs)

abbrev pub SameIds : SignatureVerificationAlgorithm → SignatureVerificationAlgorithm → Type 0
SameIds a b =
    (a.signature_alg_id ≡ b.signature_alg_id) × (a.public_key_alg_id ≡ b.public_key_alg_id)

-- no two algorithms have both identifiers in common
abbrev pub Distinct : List SignatureVerificationAlgorithm → Type 0
Distinct [] = Unit
Distinct (a ∷ xs) = All (λ b. ¬ SameIds a b) xs × Distinct xs

All-IsIn :
    (P : SignatureVerificationAlgorithm → Type 0) {a : SignatureVerificationAlgorithm}
    (xs : List SignatureVerificationAlgorithm)
    → All P xs
    → IsIn a xs
    → P a
All-IsIn P [] h i = elim i [ ]
All-IsIn P (b ∷ xs) (p, h) first = p
All-IsIn P (b ∷ xs) (p, h) (further i) = All-IsIn P xs h i

module _ (key : SubjectPublicKeyInfo) (signed_data : SignedData) where
  pub record Accepts (alg : SignatureVerificationAlgorithm) : Type 0 where
    pub signature_alg_id : alg.signature_alg_id ≡ signed_data.algorithm
    pub public_key_alg_id : alg.public_key_alg_id ≡ key.algorithm_id_value
    pub verifies :
        alg.verify_signature key.key_value signed_data.signed signed_data.signature ≡ true

  pub Verifies-Accepts :
      (algs : List SignatureVerificationAlgorithm)
      → Verifies key signed_data algs
      → (alg : SignatureVerificationAlgorithm) × IsIn alg algs × Accepts alg
  Verifies-Accepts [] v = elim v [ ]
  Verifies-Accepts (alg ∷ algs) (here e f g) =
      (alg, first, record { signature_alg_id = e; public_key_alg_id = f; verifies = g })
  Verifies-Accepts (alg ∷ algs) (later h v) =
      let (a, i, accepts) = Verifies-Accepts algs v in (a, further i, accepts)

  other_ids :
      (a b : SignatureVerificationAlgorithm)
      → Accepts b
      → ¬ SameIds a b
      → (a.signature_alg_id ≢ signed_data.algorithm)
        ⊎ (a.public_key_alg_id ≢ key.algorithm_id_value)
  other_ids a b h other = elim (Bool-cases (bytes_eq a.signature_alg_id signed_data.algorithm)) [
    | inr e ↦ inl (bytes_eq-ne _ _ e)
    | inl e ↦ elim (Bool-cases (bytes_eq a.public_key_alg_id key.algorithm_id_value)) [
      | inr f ↦ inr (bytes_eq-ne _ _ f)
      | inl f ↦ absurd (
          other (
            bytes_eq→eq _ _ e ∙ sym h.signature_alg_id,
            bytes_eq→eq _ _ f ∙ sym h.public_key_alg_id,
          ))
    ]
  ]

  Accepts-Verifies :
      (algs : List SignatureVerificationAlgorithm) (alg : SignatureVerificationAlgorithm)
      → Distinct algs
      → IsIn alg algs
      → Accepts alg
      → Verifies key signed_data algs
  Accepts-Verifies [] alg d i h = elim i [ ]
  Accepts-Verifies (a ∷ algs) alg d first h = here h.signature_alg_id h.public_key_alg_id h.verifies
  Accepts-Verifies (a ∷ algs) alg (others, d) (further i) h =
      later (other_ids a alg h (All-IsIn (λ b. ¬ SameIds a b) algs others i))
        (Accepts-Verifies algs alg d i h)

module _ ⦃u : Untrusted⦄ where
  -- one direction
  accepted_by_members :
      (xs ys : List SignatureVerificationAlgorithm) (spki_value : Input) (signed_data : SignedData)
      → Distinct ys
      → ((alg : SignatureVerificationAlgorithm) → IsIn alg xs → IsIn alg ys)
      → verify_signed_data xs spki_value signed_data ≡ ok tt
      → verify_signed_data ys spki_value signed_data ≡ ok tt
  accepted_by_members xs ys spki_value signed_data distinct members h =
      let (key, is_key, v) = (verify_signed_data-eq-ok_iff xs spki_value signed_data).0 h in
      let (alg, i, accepts) = Verifies-Accepts key signed_data xs v in
      (verify_signed_data-eq-ok_iff ys spki_value signed_data).1
        (key, is_key, Accepts-Verifies key signed_data ys alg distinct (members alg i) accepts)

  -- Where no two algorithms of a list have both identifiers in common, their order does not matter: two
  -- such lists with the same members accept the same signatures.
  pub verify_signed_data-order :
      (xs ys : List SignatureVerificationAlgorithm) (spki_value : Input) (signed_data : SignedData)
      → Distinct xs
      → Distinct ys
      → ((alg : SignatureVerificationAlgorithm) → IsIn alg xs ↔ IsIn alg ys)
      → (verify_signed_data xs spki_value signed_data ≡ ok tt)
        ↔ (verify_signed_data ys spki_value signed_data ≡ ok tt)
  verify_signed_data-order xs ys spki_value signed_data da db members = (
    accepted_by_members xs ys spki_value signed_data db (λ alg. (members alg).0),
    accepted_by_members ys xs spki_value signed_data da (λ alg. (members alg).1),
  )
