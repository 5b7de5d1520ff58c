-- ===== src/VerifyCert/Total.antt =====
-- src/verify_cert.rs: the search for a path comes to an end.
use webpki.Prelude.{
  ℕ, zero, suc, ◌+◌, ◌≤◌, ◌<◌, ◌≡◌, refl, ap, arith, true, not, Option, none, some, List, [], ◌∷◌,
  All, bytes_eq, ltb, leb, ◌==◌,
}
use webpki.Error.{Error, most_specific, bad_der, unknown_issuer, maximum_signature_checks_exceeded}
use webpki.Result.{Result, ok, err, panic, stuck}
use webpki.Exec.{Exec, raise, pure, lift, ◌>>=◌, ◌>>◌}
use webpki.Untrusted.{Input, Untrusted, read_all_optional}
use webpki.Untrusted.Total.{
  Ends, returned, failed, panicked, Ends-if, Ends-weaken, continue-Ends, choice-Ends,
}
use webpki.Untrusted.Advance.{read_all_optional-Ends}
use webpki.Time.{Time}
use webpki.SignedData.Total.{verify_signed_data-Ends}
use webpki.Cert.{Cert, CertFields, end_entity, ca, fields}
use webpki.Cert.Role.{cert_from_der-ca}
use webpki.Cert.Total.{cert_from_der-Ends}
use webpki.SubjectName.Verify.{check_name_constraints}
use webpki.SubjectName.Verify.Constraints.{check_name_constraints-Ends}
use webpki.VerifyCert.Checks.{UsedAsCa, yes_ca, no_ca, check_issuer_independent_properties}
use webpki.VerifyCert.Checks.Total.{check_issuer_independent_properties-Ends}
use webpki.VerifyCert.Revocation.{RevocationOptions, CertNotRevoked}
use webpki.VerifyCert.Revocation.Total.{Responds, check_crls-Ends}
use webpki.VerifyCert.Sound.{extend_path-ok}
use webpki.VerifyCert.{
  ChainOptions, TrustAnchor, after_round, loop_while_non_fatal_error, max_signatures,
  count_signature, is_in_path, check_depth, next_sub_ca_count, after_anchors, check_revocation,
  check_link, check_signatures_from, check_signatures, common_name_contents, try_anchor,
  extend_path, try_issuers, build_chain_inner, build_chain,
}

-- from every count of signatures
abbrev EndsFrom : {A : Type 0} → Exec ℕ A → Type 0
EndsFrom m = (s : ℕ) → Ends true (m s).0

EndsFrom-bind :
    {A B : Type 0} (m : Exec ℕ A) (f : A → Exec ℕ B)
    → EndsFrom m
    → ((a : A) → EndsFrom (f a))
    → EndsFrom (m >>= f)
EndsFrom-bind m f hm hf s = continue-Ends (m s) f (hm s) (λ a t e. hf a t)

abbrev pub RespondsAll : Option RevocationOptions → Type 0
RespondsAll none = Unit
RespondsAll (some options) = All Responds options.crls

module _ {V : Type 0} (f : V → Exec ℕ (Unit {0})) (h : (v : V) → EndsFrom (f v)) where
  after_round-Ends :
      (again : Error → Exec ℕ (Unit {0})) (r : Result (Unit {0})) (s : ℕ)
      → Ends true r
      → ((e : Error) → EndsFrom (again e))
      → Ends true (after_round again r s).0
  unfolding after_round
  after_round-Ends again (ok t) s k g = returned
  after_round-Ends again (err maximum_signature_checks_exceeded) s k g = failed
  after_round-Ends again (err e) s k g = g e s
  after_round-Ends again panic s k g = panicked refl
  after_round-Ends again stuck s k g = elim k [ ]

  loop-Ends :
      (error : Error) (values : List V) → EndsFrom (loop_while_non_fatal_error error values f)
  unfolding loop_while_non_fatal_error
  loop-Ends error [] s = failed
  loop-Ends error (v ∷ values) s =
      after_round-Ends _ (f v s).0 (f v s).1 (h v s) (λ e. loop-Ends (most_specific error e) values)

module _ ⦃u : Untrusted⦄ (opts : ChainOptions) (answers : RespondsAll opts.revocation) where
  unless_error-Ends :
      (r : Result (Option CertNotRevoked))
      → Ends true r
      → Ends {0} {A = Unit {0}} true
          (elim r [ ok x ↦ ok tt | err e ↦ err e | panic ↦ panic | stuck ↦ stuck ])
  unless_error-Ends (ok x) h = returned
  unless_error-Ends (err e) h = failed
  unless_error-Ends panic h = panicked refl
  unless_error-Ends stuck h = elim h [ ]

  revocation-Ends :
      (o : Option RevocationOptions) (cert : Cert) (subject spki : Input) (ku : Option Input)
      → RespondsAll o
      → Ends true (check_revocation o opts.supported_sig_algs cert subject spki ku)
  unfolding check_revocation
  revocation-Ends none cert subject spki ku h = returned
  revocation-Ends (some options) cert subject spki ku h =
      unless_error-Ends _ (check_crls-Ends opts.supported_sig_algs cert subject spki ku options h)

  count_signature-Ends : EndsFrom count_signature
  unfolding count_signature
  count_signature-Ends s = Ends-if (ltb max_signatures (s + 1)) failed returned

  check_link-Ends :
      (cert : Cert) (subject spki : Input) (ku : Option Input)
      → EndsFrom (check_link opts cert subject spki ku)
  unfolding check_link
  check_link-Ends cert subject spki ku = EndsFrom-bind count_signature _ count_signature-Ends (λ t.
      EndsFrom-bind (lift _) _
        (λ s. verify_signed_data-Ends opts.supported_sig_algs spki (fields cert).signed_data)
        (λ t' s. revocation-Ends opts.revocation cert subject spki ku answers))

  signatures-Ends :
      (cert : Cert) (subject spki : Input) (ku : Option Input)
      → EndsFrom (check_signatures_from opts cert subject spki ku)
  unfolding check_signatures_from
  signatures-Ends (end_entity c) subject spki ku = check_link-Ends (end_entity c) subject spki ku
  signatures-Ends (ca c child) subject spki ku =
      EndsFrom-bind (check_link opts (ca c child) subject spki ku) _
        (check_link-Ends (ca c child) subject spki ku)
        (λ t. signatures-Ends child c.subject c.spki c.key_usage)

  permitted-Ends :
      (cert : Cert) (constraints : Option Input)
      → Ends true (
          read_all_optional constraints bad_der
            (check_name_constraints (common_name_contents opts cert) cert))
  permitted-Ends cert constraints =
      read_all_optional-Ends constraints bad_der _
        (check_name_constraints-Ends (common_name_contents opts cert) cert)

  try_anchor-Ends : (cert : Cert) (anchor : TrustAnchor) → EndsFrom (try_anchor opts cert anchor)
  unfolding try_anchor check_signatures
  try_anchor-Ends cert anchor s =
      choice-Ends (not (bytes_eq (fields cert).issuer anchor.subject)) (raise unknown_issuer) _ s
        failed
        (EndsFrom-bind (lift _) _ (λ t. permitted-Ends cert anchor.name_constraints)
          (λ t. signatures-Ends cert anchor.subject anchor.subject_public_key_info none) s)

  extend_path-Ends : (cert : Cert) (der : Input) → EndsFrom (extend_path opts cert der)
  unfolding extend_path
  extend_path-Ends cert der =
      EndsFrom-bind (lift _) _ (λ s. Ends-weaken (cert_from_der-Ends der (some cert)))
        (λ issuer s.
          choice-Ends (not (bytes_eq (fields issuer).subject (fields cert).issuer))
            (raise unknown_issuer) _ s failed
            (choice-Ends (is_in_path (fields issuer) cert) (raise unknown_issuer) _ s failed (
              EndsFrom-bind (lift _) (λ t. pure issuer)
                (λ t. permitted-Ends cert (fields issuer).name_constraints) (λ t t'. returned) s)))

  next_try-Ends :
      (next_try : Error → Exec ℕ (Unit {0})) (r : Result (Unit {0})) (s : ℕ)
      → Ends true r
      → ((e : Error) → EndsFrom (next_try e))
      → Ends true (after_anchors next_try r s).0
  unfolding after_anchors
  next_try-Ends next_try (ok t) s h k = returned
  next_try-Ends next_try (err e) s h k = k e s
  next_try-Ends next_try panic s h k = panicked refl
  next_try-Ends next_try stuck s h k = elim h [ ]

  issuer-Ends :
      (cert : Cert) (go_on : Cert → Exec ℕ (Unit {0}))
      → ((c : CertFields) → EndsFrom (go_on (ca c cert)))
      → (der : Input) → EndsFrom (extend_path opts cert der >>= go_on)
  issuer-Ends cert go_on h der s =
      continue-Ends (extend_path opts cert der s) go_on (extend_path-Ends cert der s) (λ issuer t e.
        let decoded = (extend_path-ok opts cert der issuer s t e).decoded in
        let (c, role) = cert_from_der-ca der cert issuer decoded in rw role (h c t))

  try_issuers-Ends :
      (cert : Cert) (go_on : Cert → Exec ℕ (Unit {0}))
      → ((c : CertFields) → EndsFrom (go_on (ca c cert)))
      → EndsFrom (try_issuers opts cert go_on)
  unfolding try_issuers
  try_issuers-Ends cert go_on h s =
      next_try-Ends _ _ _
        (loop-Ends (try_anchor opts cert) (try_anchor-Ends cert) unknown_issuer opts.trust_anchors
          s)
        (λ e.
          loop-Ends (λ der. extend_path opts cert der >>= go_on) (issuer-Ends cert go_on h) e
            opts.intermediate_certs)

  depth-Ends : (role : UsedAsCa) (n : ℕ) → Ends true (check_depth role n)
  unfolding check_depth
  depth-Ends yes_ca n = Ends-if (leb 6 n) failed returned
  depth-Ends no_ca n = Ends-if (n == 0) returned (panicked refl)

  yes_ca-under : (n : ℕ) → check_depth yes_ca n ≡ ok tt → n < 6
  unfolding check_depth
  yes_ca-under n h = ground arith

  -- what comes behind the two checks is run on a depth that is allowed
  checked-Ends :
      (cert : Cert) (time : Time) (role : UsedAsCa) (n : ℕ) (rest : Exec ℕ (Unit {0}))
      → (check_depth role n ≡ ok tt → EndsFrom rest)
      → EndsFrom (
          lift (check_issuer_independent_properties cert time role n opts.eku)
          >> (lift (check_depth role n) >> rest))
  checked-Ends cert time role n rest h =
      EndsFrom-bind (lift _) _
        (λ s. check_issuer_independent_properties-Ends cert time role n opts.eku)
        (λ t s.
          continue-Ends (check_depth role n, s) (λ t'. rest) (depth-Ends role n)
            (λ t' s' e. h (ap (λ x. x.0) e) s'))

  inner-Ends :
      (fuel : ℕ) (time : Time) (c : CertFields) (child : Cert) (n : ℕ)
      → 7 ≤ suc fuel + n
      → EndsFrom (build_chain_inner (suc fuel) opts time (ca c child) n)
  unfolding build_chain_inner next_sub_ca_count
  inner-Ends zero time c child n h =
      checked-Ends (ca c child) time yes_ca n _
        (λ e. let under = yes_ca-under n e in absurd (omega arith))
  inner-Ends (suc fuel) time c child n h = checked-Ends (ca c child) time yes_ca n _ (λ e.
      try_issuers-Ends (ca c child) _
        (λ c'. inner-Ends fuel time c' (ca c child) (n + 1) (omega arith)))

  -- Where the methods of every revocation list come to an end, so does `build_chain`, on any bytes of
  -- the certificates, the anchors and the intermediate certificates and at any time: with a success or
  -- an error, unless a call panics, and never for want of fuel.
  pub build_chain-Ends : (cert : Cert) (time : Time) → Ends true (build_chain opts cert time)
  unfolding build_chain build_chain_inner next_sub_ca_count
  build_chain-Ends (ca c child) time = inner-Ends 7 time c child 0 (omega arith) 0
  build_chain-Ends (end_entity c) time =
      checked-Ends (end_entity c) time no_ca 0 _
        (λ e.
          try_issuers-Ends (end_entity c) _
            (λ c'. inner-Ends 6 time c' (end_entity c) 0 (omega arith)))
        0
