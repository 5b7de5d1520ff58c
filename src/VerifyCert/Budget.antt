-- ===== src/VerifyCert/Budget.antt =====
-- src/verify_cert.rs: how the count of signatures moves through the search for a path.
use webpki.Prelude.{
  ℕ, zero, suc, ◌≤◌, arith, Bool, true, false, Option, List, [], ◌∷◌, if◌then◌else◌,
}
use webpki.Error.{Error, most_specific, maximum_signature_checks_exceeded, unknown_issuer}
use webpki.Result.{Result, ok, err, panic, stuck}
use webpki.Exec.{Exec, continue, lift, ◌>>=◌}
use webpki.Untrusted.{Input, Untrusted}
use webpki.Time.{Time}
use webpki.Cert.{Cert, end_entity, ca}
use webpki.VerifyCert.{
  ChainOptions, TrustAnchor, used_as_ca, count_signature, check_link, check_signatures_from,
  check_signatures, try_anchor, check_depth, check_issuer_independent_properties, extend_path,
  after_round, after_anchors, try_issuers, build_chain_inner, loop_while_non_fatal_error,
}

-- The count never goes down.
pub record Grows {A : Type 0} (m : Exec ℕ A) : Type 0 where
  pub at : (n : ℕ) → n ≤ (m n).1

module _ {A : Type 0} where
  pub Grows-lift : (r : Result A) → Grows (lift {S = ℕ} r)
  Grows-lift r = record { at = λ n. omega arith }

  Grows-if : (b : Bool) (m n : Exec ℕ A) → Grows m → Grows n → Grows (if b then m else n)
  Grows-if true m n hm hn = hm
  Grows-if false m n hm hn = hn

module _ {A B : Type 0} where
  continue-le :
      (r : Result A) (f : A → Exec ℕ B) (n : ℕ) → ((a : A) → Grows (f a)) → n ≤ (continue r f n).1
  continue-le (ok a) f n h = (h a).at n
  continue-le (err e) f n h = omega arith
  continue-le panic f n h = omega arith
  continue-le stuck f n h = omega arith

  pub Grows-bind :
      (m : Exec ℕ A) (f : A → Exec ℕ B) → Grows m → ((a : A) → Grows (f a)) → Grows (m >>= f)
  Grows-bind m f hm hf = record {
    at = λ n. omega (arith, hm.at n, continue-le (m n).0 f (m n).1 hf);
  }

ruleset growth_rules = (Grows-lift, Grows-if, Grows-bind)

Grows-count_signature : Grows count_signature
unfolding count_signature
Grows-count_signature = record { at = λ n. omega arith }

after_round-le :
    (again : Error → Exec ℕ (Unit {0})) (r : Result (Unit {0})) (n : ℕ)
    → ((e : Error) → Grows (again e))
    → n ≤ (after_round again r n).1
unfolding after_round
after_round-le again (ok t) n h = omega arith
after_round-le again panic n h = omega arith
after_round-le again stuck n h = omega arith
after_round-le again (err maximum_signature_checks_exceeded) n h = omega arith
after_round-le again (err e) n h = (h e).at n

pub Grows-loop :
    {V : Type 0} (error : Error) (values : List V) (f : V → Exec ℕ (Unit {0}))
    → ((v : V) → Grows (f v))
    → Grows (loop_while_non_fatal_error error values f)
unfolding loop_while_non_fatal_error
Grows-loop error [] f h = Grows-lift (err error)
Grows-loop error (v ∷ values) f h = record {
  at = λ n. omega (
    arith,
    after_round-le _ (f v n).0 (f v n).1 (λ e. Grows-loop (most_specific error e) values f h),
    (h v).at n,
  );
}

module _ ⦃u : Untrusted⦄ (opts : ChainOptions) where
  pub Grows-check_link :
      (cert : Cert) (subject spki : Input) (ku : Option Input)
      → Grows (check_link opts cert subject spki ku)
  unfolding check_link
  Grows-check_link cert subject spki ku = search (growth_rules, Grows-count_signature)

  Grows-check_signatures_from :
      (cert : Cert) (subject spki : Input) (ku : Option Input)
      → Grows (check_signatures_from opts cert subject spki ku)
  unfolding check_signatures_from
  Grows-check_signatures_from (end_entity c) subject spki ku =
      Grows-check_link (end_entity c) subject spki ku
  Grows-check_signatures_from (ca c child) subject spki ku =
      Grows-bind (check_link opts (ca c child) subject spki ku) _
        (Grows-check_link (ca c child) subject spki ku)
        (λ _. Grows-check_signatures_from child c.subject c.spki c.key_usage)

  pub Grows-try_anchor : (cert : Cert) (anchor : TrustAnchor) → Grows (try_anchor opts cert anchor)
  unfolding try_anchor check_signatures
  Grows-try_anchor cert anchor = search (growth_rules, Grows-check_signatures_from)

  pub Grows-extend_path : (cert : Cert) (der : Input) → Grows (extend_path opts cert der)
  unfolding extend_path
  Grows-extend_path cert der = search growth_rules

  after_anchors-le :
      (next_try : Error → Exec ℕ (Unit {0})) (r : Result (Unit {0})) (n : ℕ)
      → ((e : Error) → Grows (next_try e))
      → n ≤ (after_anchors next_try r n).1
  unfolding after_anchors
  after_anchors-le next_try (ok t) n h = omega arith
  after_anchors-le next_try (err e) n h = (h e).at n
  after_anchors-le next_try panic n h = omega arith
  after_anchors-le next_try stuck n h = omega arith

  Grows-try_issuers :
      (cert : Cert) (go_on : Cert → Exec ℕ (Unit {0}))
      → ((issuer : Cert) → Grows (go_on issuer))
      → Grows (try_issuers opts cert go_on)
  unfolding try_issuers
  Grows-try_issuers cert go_on h = record {
    at = λ n.
        let p =
          loop_while_non_fatal_error unknown_issuer opts.trust_anchors (try_anchor opts cert) n in
        omega (
          arith,
          (Grows-loop unknown_issuer opts.trust_anchors (try_anchor opts cert)
                (Grows-try_anchor cert)).at
              n,
          after_anchors-le _ p.0 p.1 (λ e.
              Grows-loop e opts.intermediate_certs (λ der. extend_path opts cert der >>= go_on)
                (λ der.
                  Grows-bind (extend_path opts cert der) go_on (Grows-extend_path cert der) h)),
        );
  }

  pub Grows-build_chain_inner :
      (fuel : ℕ) (time : Time) (cert : Cert) (n : ℕ)
      → Grows (build_chain_inner fuel opts time cert n)
  unfolding build_chain_inner
  Grows-build_chain_inner zero time cert n = record { at = λ s. omega arith }
  Grows-build_chain_inner (suc fuel) time cert n =
      Grows-bind (lift (check_issuer_independent_properties cert time (used_as_ca cert) n opts.eku))
        _ (Grows-lift _)
        (λ _.
          Grows-bind (lift (check_depth (used_as_ca cert) n)) _ (Grows-lift _)
            (λ _. Grows-try_issuers cert _ (λ issuer. Grows-build_chain_inner fuel time issuer _)))
