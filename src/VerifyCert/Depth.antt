-- ===== src/VerifyCert/Depth.antt =====
-- src/verify_cert.rs: the fuel of `build_chain_inner`.
use webpki.Prelude.{ℕ, zero, suc, ◌+◌, ◌≤◌, ◌≡◌, refl, ap, arith}
use webpki.Error.{unknown_issuer}
use webpki.Result.{Result, ok, err, panic, stuck}
use webpki.Exec.{Exec, continue, lift, ◌>>=◌, ◌>>◌}
use webpki.Untrusted.{Input, Untrusted}
use webpki.Time.{Time}
use webpki.Cert.{Cert, CertFields, end_entity, ca}
use webpki.Cert.Role.{cert_from_der-ca}
use webpki.VerifyCert.{
  ChainOptions, no_ca, extend_path, try_anchor, check_depth, next_sub_ca_count, try_issuers,
  build_chain_inner, build_chain, loop_while_non_fatal_error, after_anchors,
  check_issuer_independent_properties,
}
use webpki.VerifyCert.Sound.{extend_path-ok}

module _ ⦃u : Untrusted⦄ (opts : ChainOptions) where
  -- `p` and `q` do the same to every issuer
  abbrev SameOnIssuers : (Cert → Exec ℕ (Unit {0})) → (Cert → Exec ℕ (Unit {0})) → Type 0
  SameOnIssuers p q = (c : CertFields) (child : Cert) (s : ℕ) → p (ca c child) s ≡ q (ca c child) s

  continue_same :
      (p q : Cert → Exec ℕ (Unit {0})) (r : Result Cert) (s : ℕ)
      → ((issuer : Cert) → r ≡ ok issuer → p issuer s ≡ q issuer s)
      → continue r p s ≡ continue r q s
  continue_same p q (ok issuer) s h = h issuer refl
  continue_same p q (err e) s h = refl
  continue_same p q panic s h = refl
  continue_same p q stuck s h = refl

  extend_same :
      (p q : Cert → Exec ℕ (Unit {0})) (cert : Cert)
      → SameOnIssuers p q
      → (der : Input) (s : ℕ)
      → (extend_path opts cert der >>= p) s ≡ (extend_path opts cert der >>= q) s
  extend_same p q cert same der s =
      let r = extend_path opts cert der s in
      continue_same p q r.0 r.1 (λ issuer e.
        let decoded = (extend_path-ok opts cert der issuer s r.1 cc).decoded in
        let (c, role) = cert_from_der-ca der cert issuer decoded in rw role (same c cert r.1))

  try_issuers_same :
      (p q : Cert → Exec ℕ (Unit {0})) (cert : Cert) (s : ℕ)
      → SameOnIssuers p q
      → try_issuers opts cert p s ≡ try_issuers opts cert q s
  unfolding try_issuers
  try_issuers_same p q cert s same =
      let extend_p : Input → Exec ℕ (Unit {0}) = λ der. extend_path opts cert der >>= p in
      let extend_q : Input → Exec ℕ (Unit {0}) = λ der. extend_path opts cert der >>= q in
      let equal : extend_p ≡ extend_q = λ i der t. extend_same p q cert same der t i in
      let anchors =
        loop_while_non_fatal_error unknown_issuer opts.trust_anchors (try_anchor opts cert) s in
      ap
        (λ f.
          after_anchors (λ e. loop_while_non_fatal_error e opts.intermediate_certs f) anchors.0
            anchors.1)
        equal

  go_on_same :
      (p q : Cert → Exec ℕ (Unit {0})) (cert : Cert) (x y : Result (Unit {0})) (s : ℕ)
      → SameOnIssuers p q
      → (lift x >> (lift y >> try_issuers opts cert p)) s
        ≡ (lift x >> (lift y >> try_issuers opts cert q)) s
  go_on_same p q cert (ok _) (ok _) s same = try_issuers_same p q cert s same
  go_on_same p q cert (ok _) (err e) s same = refl
  go_on_same p q cert (ok _) panic s same = refl
  go_on_same p q cert (ok _) stuck s same = refl
  go_on_same p q cert (err e) y s same = refl
  go_on_same p q cert panic y s same = refl
  go_on_same p q cert stuck y s same = refl

  -- An issuer with `n` issuers below it needs a fuel of `7 - n`.
  more_fuel :
      (d more : ℕ) (time : Time) (c : CertFields) (child : Cert) (n s : ℕ)
      → 6 ≤ n + d
      → d ≤ more
      → build_chain_inner (suc more) opts time (ca c child) n s
        ≡ build_chain_inner (suc d) opts time (ca c child) n s
  unfolding build_chain_inner check_depth next_sub_ca_count
  more_fuel zero more time c child n s deep le = ground arith
  more_fuel (suc d) zero time c child n s deep le = absurd (omega arith)
  more_fuel (suc d) (suc more) time c child n s deep le =
      go_on_same _ _ (ca c child) _ _ s
        (λ c' child' t. more_fuel d more time c' child' (n + 1) t (omega arith) (omega arith))

  enough :
      (more : ℕ) (cert : Cert) (time : Time) (s : ℕ)
      → 7 ≤ more
      → build_chain_inner (suc more) opts time cert 0 s ≡ build_chain_inner 8 opts time cert 0 s
  unfolding build_chain_inner check_depth next_sub_ca_count
  enough zero cert time s h = absurd (omega arith)
  enough (suc more) (ca c child) time s h =
      more_fuel 7 (suc more) time c child 0 s (omega arith) (omega arith)
  enough (suc more) (end_entity c) time s h =
      go_on_same (λ issuer. build_chain_inner (suc more) opts time issuer 0)
        (λ issuer. build_chain_inner 7 opts time issuer 0) (end_entity c)
        (check_issuer_independent_properties (end_entity c) time no_ca 0 opts.eku)
        (check_depth no_ca 0) s
        (λ c' child' t. more_fuel 6 more time c' child' 0 t (omega arith) (omega arith))

  -- A search on eight levels of recursion or more gives the result of `build_chain`, whatever the
  -- options, the certificate and the time.
  pub build_chain-fuel :
      (fuel : ℕ) (cert : Cert) (time : Time)
      → 8 ≤ fuel
      → (build_chain_inner fuel opts time cert 0 0).0 ≡ build_chain opts cert time
  unfolding build_chain
  build_chain-fuel zero cert time h = absurd (omega arith)
  build_chain-fuel (suc more) cert time h = ap (λ p. p.0) (enough more cert time 0 (omega arith))
