-- ===== src/SignedData/Search.antt =====
-- src/signed_data.rs: which algorithm's verdict on a signature counts.
use webpki.Prelude.{
  ◌≡◌, ◌≢◌, ◌↔◌, refl, sym, ◌∙◌, arith, Bool, true, false, ◌⊎◌, inl, inr, Bool-cases, List, [], ◌∷◌,
  All, filter, if◌then◌else◌, bytes_eq, bytes_eq_refl, bytes_eq→eq,
}
use webpki.Error.{
  DerTypeId, trailing_data, invalid_signature_for_public_key, unsupported_signature_algorithm,
  unsupported_signature_algorithm_for_public_key,
}
use webpki.Result.{Result, ok, err, >>=-eq-ok}
use webpki.Untrusted.{Input, Untrusted, read_all}
use webpki.SignedData.{
  SignedData, SignatureVerificationAlgorithm, SubjectPublicKeyInfo, matches_algorithm_id_value,
  spki_from_der, verify_signature, unless_other_key, verify_loop, verify_signed_data,
}

pub bytes_eq-ne : (xs ys : Input) → bytes_eq xs ys ≡ false → xs ≢ ys
bytes_eq-ne xs ys h e =
    let same = bytes_eq_refl xs in (let other : bytes_eq xs xs ≡ false = rw (sym e) at h in cc)

eq→bytes_ne : (xs ys : Input) → xs ≢ ys → bytes_eq xs ys ≡ false
eq→bytes_ne xs ys h = elim (Bool-cases (bytes_eq xs ys)) [
  | inl e ↦ absurd (h (bytes_eq→eq xs ys e))
  | inr e ↦ e
]

pick : (b : Bool) {x y z : Result (Unit {0})} → x ≡ z → y ≡ z → (if b then x else y) ≡ z
pick true h k = h
pick false h k = k

module _ (key : SubjectPublicKeyInfo) (signed_data : SignedData) where
  -- The first algorithm whose two identifiers are those of the signature and of the key verifies it.
  pub data Verifies : List SignatureVerificationAlgorithm → Type 0 where
    here :
        {alg : SignatureVerificationAlgorithm} {algs : List SignatureVerificationAlgorithm}
        → alg.signature_alg_id ≡ signed_data.algorithm
        → alg.public_key_alg_id ≡ key.algorithm_id_value
        → alg.verify_signature key.key_value signed_data.signed signed_data.signature ≡ true
        → Verifies (alg ∷ algs)
    later :
        {alg : SignatureVerificationAlgorithm} {algs : List SignatureVerificationAlgorithm}
        → (alg.signature_alg_id ≢ signed_data.algorithm)
          ⊎ (alg.public_key_alg_id ≢ key.algorithm_id_value)
        → Verifies algs
        → Verifies (alg ∷ algs)

-- an algorithm on a key that is read
abbrev verdict :
    SignatureVerificationAlgorithm → SubjectPublicKeyInfo → SignedData → Result (Unit {0})
verdict alg key signed_data =
    if bytes_eq key.algorithm_id_value alg.public_key_alg_id
    then (if alg.verify_signature key.key_value signed_data.signed signed_data.signature
        then ok tt
        else err invalid_signature_for_public_key)
    else err unsupported_signature_algorithm_for_public_key

verdict-unsupported :
    (alg : SignatureVerificationAlgorithm) (key : SubjectPublicKeyInfo) (signed_data : SignedData)
    (rest : Result (Unit {0}))
    → unless_other_key (verdict alg key signed_data) rest ≡ err unsupported_signature_algorithm
    → rest ≡ err unsupported_signature_algorithm
unfolding unless_other_key
verdict-unsupported alg key signed_data rest h = ground arith

unless_other_key-eq-ok :
    (r rest : Result (Unit {0})) → unless_other_key r rest ≡ ok tt → (r ≡ ok tt) ⊎ (rest ≡ ok tt)
unfolding unless_other_key
unless_other_key-eq-ok (ok t) rest h = inl h
unless_other_key-eq-ok (err unsupported_signature_algorithm_for_public_key) rest h = inr h
unless_other_key-eq-ok r rest h = inl h

module _ ⦃u : Untrusted⦄ where
  abbrev pub read_key : Input → Result SubjectPublicKeyInfo
  read_key spki_value =
      read_all spki_value (trailing_data DerTypeId.subject_public_key_info) spki_from_der

  abbrev search_from :
      List SignatureVerificationAlgorithm → Bool → Input → SignedData → Result (Unit {0})
  search_from algs found spki_value signed_data =
      verify_loop
        (filter (λ alg. matches_algorithm_id_value alg.signature_alg_id signed_data.algorithm) algs)
        found spki_value signed_data

  module _ (spki_value : Input) (signed_data : SignedData) (key : SubjectPublicKeyInfo)
      (is_key : read_key spki_value ≡ ok key) where
    verify_signature-verdict :
        (alg : SignatureVerificationAlgorithm)
        → verify_signature alg spki_value signed_data.signed signed_data.signature
          ≡ verdict alg key signed_data
    unfolding verify_signature matches_algorithm_id_value
    verify_signature-verdict alg = rw is_key refl

    search_from-cons :
        (alg : SignatureVerificationAlgorithm) (algs : List SignatureVerificationAlgorithm)
        (found : Bool)
        → search_from (alg ∷ algs) found spki_value signed_data ≡ (
            if bytes_eq signed_data.algorithm alg.signature_alg_id
            then unless_other_key
                (verdict alg key signed_data)
                (search_from algs true spki_value signed_data)
            else search_from algs found spki_value signed_data)
    unfolding matches_algorithm_id_value verify_loop
    search_from-cons alg algs found =
        elim (Bool-cases (bytes_eq signed_data.algorithm alg.signature_alg_id)) [
          | inl e ↦ rw e (rw (verify_signature-verdict alg) refl)
          | inr e ↦ rw e refl
        ]

    search_from-Verifies :
        (algs : List SignatureVerificationAlgorithm) (found : Bool)
        → search_from algs found spki_value signed_data ≡ ok tt
        → Verifies key signed_data algs
    unfolding verify_loop unless_other_key
    search_from-Verifies [] found h = absurd (ground arith)
    search_from-Verifies (alg ∷ algs) found h =
        let step = sym (search_from-cons alg algs found) ∙ h in
        elim (Bool-cases (bytes_eq signed_data.algorithm alg.signature_alg_id)) [
          | inr e ↦
              later (inl (λ same. bytes_eq-ne _ _ e (sym same)))
                (search_from-Verifies algs found (rw e at step))
          | inl e ↦ elim (Bool-cases (bytes_eq key.algorithm_id_value alg.public_key_alg_id)) [
            | inr f ↦
                later (inr (λ same. bytes_eq-ne _ _ f (sym same)))
                  (search_from-Verifies algs true (rw (e, f) at step))
            | inl f ↦
                elim (Bool-cases
                  (alg.verify_signature key.key_value signed_data.signed signed_data.signature)) [
                    | inl g ↦ here (sym (bytes_eq→eq _ _ e)) (sym (bytes_eq→eq _ _ f)) g
                    | inr g ↦ absurd (wrong (rw (e, f, g) at step))
                  ]
          ]
        ]
      where
        wrong : ◌≡◌ {A = Result (Unit {0})} (err invalid_signature_for_public_key) (ok tt) → ⊥
        wrong h = cc

    Verifies-search_from :
        (algs : List SignatureVerificationAlgorithm) (found : Bool)
        → Verifies key signed_data algs
        → search_from algs found spki_value signed_data ≡ ok tt
    unfolding unless_other_key
    Verifies-search_from [] found v = elim v [ ]
    Verifies-search_from (alg ∷ algs) found (here e f g) =
        search_from-cons alg algs found
        ∙ rw (e, f, bytes_eq_refl signed_data.algorithm, bytes_eq_refl key.algorithm_id_value, g)
            refl
    Verifies-search_from (alg ∷ algs) found (later (inl e) v) =
        search_from-cons alg algs found
        ∙ rw (eq→bytes_ne _ _ (λ same. e (sym same))) (Verifies-search_from algs found v)
    Verifies-search_from (alg ∷ algs) found (later (inr e) v) =
        search_from-cons alg algs found
        ∙ rw (eq→bytes_ne _ _ (λ same. e (sym same))) (
            pick (bytes_eq signed_data.algorithm alg.signature_alg_id)
              (Verifies-search_from algs true v) (Verifies-search_from algs found v))

    search_from-found :
        (algs : List SignatureVerificationAlgorithm)
        → search_from algs true spki_value signed_data ≢ err unsupported_signature_algorithm
    unfolding verify_loop
    search_from-found [] h = cc
    search_from-found (alg ∷ algs) h =
        let step = sym (search_from-cons alg algs true) ∙ h in
        elim (Bool-cases (bytes_eq signed_data.algorithm alg.signature_alg_id)) [
          | inl e ↦
              search_from-found algs (verdict-unsupported alg key signed_data _ (rw e at step))
          | inr e ↦ search_from-found algs (rw e at step)
        ]

    search_from-none :
        (algs : List SignatureVerificationAlgorithm)
        → search_from algs false spki_value signed_data ≡ err unsupported_signature_algorithm
        → All (λ alg. alg.signature_alg_id ≢ signed_data.algorithm) algs
    search_from-none [] h = tt
    search_from-none (alg ∷ algs) h =
        let step = sym (search_from-cons alg algs false) ∙ h in
        elim (Bool-cases (bytes_eq signed_data.algorithm alg.signature_alg_id)) [
          | inl e ↦
              absurd
                (search_from-found algs (verdict-unsupported alg key signed_data _ (rw e at step)))
          | inr e ↦ ((λ same. bytes_eq-ne _ _ e (sym same)), search_from-none algs (rw e at step))
        ]

    none-search_from :
        (algs : List SignatureVerificationAlgorithm)
        → All (λ alg. alg.signature_alg_id ≢ signed_data.algorithm) algs
        → search_from algs false spki_value signed_data ≡ err unsupported_signature_algorithm
    unfolding verify_loop
    none-search_from [] h = refl
    none-search_from (alg ∷ algs) (e, h) =
        search_from-cons alg algs false
        ∙ rw (eq→bytes_ne _ _ (λ same. e (sym same))) (none-search_from algs h)

  verify_signature-key :
      (alg : SignatureVerificationAlgorithm) (spki_value msg signature : Input)
      → verify_signature alg spki_value msg signature ≡ ok tt
      → (key : SubjectPublicKeyInfo) × (read_key spki_value ≡ ok key)
  unfolding verify_signature
  verify_signature-key alg spki_value msg signature h =
      let (key, e, rest) = >>=-eq-ok (read_key spki_value) _ h in (key, e)

  verify_loop-key :
      (algs : List SignatureVerificationAlgorithm) (found : Bool) (spki_value : Input)
      (signed_data : SignedData)
      → verify_loop algs found spki_value signed_data ≡ ok tt
      → (key : SubjectPublicKeyInfo) × (read_key spki_value ≡ ok key)
  unfolding verify_loop
  verify_loop-key [] found spki_value signed_data h = absurd (ground arith)
  verify_loop-key (alg ∷ algs) found spki_value signed_data h =
      elim (unless_other_key-eq-ok _ _ h) [
        | inl e ↦ verify_signature-key alg spki_value signed_data.signed signed_data.signature e
        | inr e ↦ verify_loop-key algs true spki_value signed_data e
      ]

  -- A signature is accepted exactly when the key is read and, of the algorithms whose two identifiers
  -- are those of the signature and of the key, the first accepts it.
  pub verify_signed_data-eq-ok_iff :
      (algs : List SignatureVerificationAlgorithm) (spki_value : Input) (signed_data : SignedData)
      → (verify_signed_data algs spki_value signed_data ≡ ok tt) ↔ (
          (key : SubjectPublicKeyInfo) × (read_key spki_value ≡ ok key)
          × Verifies key signed_data algs)
  unfolding verify_signed_data
  verify_signed_data-eq-ok_iff algs spki_value signed_data = (
    (λ h.
        let (key, e) = verify_loop-key _ false spki_value signed_data h in
        (key, e, search_from-Verifies spki_value signed_data key e algs false h)),
    (λ (key, e, v). Verifies-search_from spki_value signed_data key e algs false v),
  )

  -- On a key that is read, the signature's algorithm is reported as unsupported exactly when no
  -- algorithm has its identifier.
  pub verify_signed_data-unsupported_iff :
      (algs : List SignatureVerificationAlgorithm) (spki_value : Input) (signed_data : SignedData)
      (key : SubjectPublicKeyInfo)
      → read_key spki_value ≡ ok key
      → (verify_signed_data algs spki_value signed_data ≡ err unsupported_signature_algorithm)
        ↔ All (λ alg. alg.signature_alg_id ≢ signed_data.algorithm) algs
  unfolding verify_signed_data
  verify_signed_data-unsupported_iff algs spki_value signed_data key e = (
    search_from-none spki_value signed_data key e algs,
    none-search_from spki_value signed_data key e algs,
  )
