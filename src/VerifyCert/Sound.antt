-- ===== src/VerifyCert/Sound.antt =====
-- src/verify_cert.rs: from a run of `build_chain` to the specification of a path.
use webpki.Prelude.{
  ℕ, zero, suc, ◌≡◌, refl, arith, ◌⊎◌, inl, inr, Option, List, Bool-cases, bytes_eq, bytes_eq→eq,
}
use webpki.Error.{Error, unknown_issuer}
use webpki.Result.{Result, ok, err, panic, stuck}
use webpki.Exec.{Exec, lift, ◌>>=◌, >>=-eq-ok}
use webpki.Untrusted.{Input, Untrusted}
use webpki.Time.{Time}
use webpki.Cert.{Cert, end_entity, ca, fields}
use webpki.VerifyCert.{
  ChainOptions, TrustAnchor, UsedAsCa, yes_ca, no_ca, used_as_ca, check_link, check_signatures_from,
  check_signatures, try_anchor, extend_path, check_depth, next_sub_ca_count, after_anchors,
  try_issuers, build_chain_inner, build_chain, loop_while_non_fatal_error, count_signature,
}
use webpki.VerifyCert.Loop.{Any, loop-eq-ok, SucceedsTo}
use webpki.VerifyCert.Path.{
  IsSigned, AreSigned, leaf, link, NamesPermitted, IsAnchor, IsIssuer, DepthAllowed, IsAcceptable,
  IsChain, to_anchor, to_issuer,
}

Any-map :
    {V : Type 0} {P Q : V → Type 0} {vs : List V} → ((v : V) → P v → Q v) → Any P vs → Any Q vs
Any-map f (Any.here p) = Any.here (f _ p)
Any-map f (Any.there p) = Any.there (Any-map f p)

Any-choose :
    {V B : Type 0} {P : V → Type 0} {Q : B → V → Type 0} {R : B → Type 0} {vs : List V}
    → ((v : V) → P v → (b : B) × Q b v × R b)
    → Any P vs
    → (b : B) × Any (Q b) vs × R b
Any-choose f (Any.here p) = let (b, q, r) = f _ p in (b, Any.here q, r)
Any-choose f (Any.there p) = let (b, q, r) = Any-choose f p in (b, Any.there q, r)

lift-eq-ok : {A : Type 0} {r : Result A} {a : A} {s t : ℕ} → lift r s ≡ (ok a, t) → r ≡ ok a
lift-eq-ok h = cc

check_depth-ok : (role : UsedAsCa) (n : ℕ) → check_depth role n ≡ ok tt → DepthAllowed role n
unfolding check_depth
check_depth-ok yes_ca n h = ground arith
check_depth-ok no_ca n h = ground arith

pub after_anchors-eq-ok :
    (next_try : Error → Exec ℕ (Unit {0})) (r : Result (Unit {0})) (s t : ℕ)
    → after_anchors next_try r s ≡ (ok tt, t)
    → ((r ≡ ok tt) × (s ≡ t)) ⊎ ((e : Error) × (next_try e s ≡ (ok tt, t)))
unfolding after_anchors
after_anchors-eq-ok next_try (ok tt) s t h = inl (refl, cc)
after_anchors-eq-ok next_try (err e) s t h = inr (e, h)
after_anchors-eq-ok next_try panic s t h = cc
after_anchors-eq-ok next_try stuck s t h = cc

module _ ⦃u : Untrusted⦄ (opts : ChainOptions) where
  check_link-ok :
      (cert : Cert) (subject spki : Input) (ku : Option Input) (s t : ℕ)
      → check_link opts cert subject spki ku s ≡ (ok tt, t)
      → IsSigned opts cert subject spki ku
  unfolding check_link count_signature
  check_link-ok cert subject spki ku s t h = record {
    signature = ground arith;
    revocation = ground arith;
  }

  check_signatures_from-ok :
      (cert : Cert) (subject spki : Input) (ku : Option Input) (s t : ℕ)
      → check_signatures_from opts cert subject spki ku s ≡ (ok tt, t)
      → AreSigned opts cert subject spki ku
  unfolding check_signatures_from
  check_signatures_from-ok (end_entity c) subject spki ku s t h = leaf (check_link-ok _ _ _ _ s t h)
  check_signatures_from-ok (ca c child) subject spki ku s t h =
      let (_, s1, first, rest) =
        >>=-eq-ok (check_link opts (ca c child) subject spki ku)
          (λ _. check_signatures_from opts child c.subject c.spki c.key_usage) s h in
      link (check_link-ok _ _ _ _ s s1 first) (check_signatures_from-ok child _ _ _ s1 t rest)

  try_anchor-ok :
      (cert : Cert) (anchor : TrustAnchor) (s t : ℕ)
      → try_anchor opts cert anchor s ≡ (ok tt, t)
      → IsAnchor opts cert anchor
  unfolding try_anchor check_signatures
  try_anchor-ok cert anchor s t h =
      elim (Bool-cases (bytes_eq (fields cert).issuer anchor.subject)) [
        | inl same ↦
            let permitted : NamesPermitted opts cert anchor.name_constraints = ground arith in
            record {
              subject = bytes_eq→eq _ _ same;
              permitted = permitted;
              signed = check_signatures_from-ok cert _ _ _ s t (ground arith);
            }
        | inr other ↦ absurd (ground arith)
      ]

  pub extend_path-ok :
      (cert : Cert) (der : Input) (issuer : Cert) (s t : ℕ)
      → extend_path opts cert der s ≡ (ok issuer, t)
      → IsIssuer opts cert issuer der
  unfolding extend_path
  extend_path-ok cert der issuer s t h =
      elim (Bool-cases (bytes_eq (fields issuer).subject (fields cert).issuer)) [
        | inl same ↦ record {
          decoded = ground arith;
          subject = bytes_eq→eq _ _ same;
          fresh = ground arith;
          permitted = ground arith;
        }
        | inr other ↦ absurd (ground arith)
      ]

  -- a success comes from an anchor, or from an issuer with which the closure succeeds
  try_issuers-eq-ok :
      (cert : Cert) (go_on : Cert → Exec ℕ (Unit {0})) (s t : ℕ)
      → try_issuers opts cert go_on s ≡ (ok tt, t)
      → Any (SucceedsTo (try_anchor opts cert) t) opts.trust_anchors
        ⊎ Any (SucceedsTo (λ der. extend_path opts cert der >>= go_on) t) opts.intermediate_certs
  unfolding try_issuers
  try_issuers-eq-ok cert go_on s t h =
      let p =
        loop_while_non_fatal_error unknown_issuer opts.trust_anchors (try_anchor opts cert) s in
      elim (after_anchors-eq-ok _ p.0 p.1 t h) [
        | inl (r, same) ↦
            inl (loop-eq-ok (try_anchor opts cert) unknown_issuer opts.trust_anchors s t cc)
        | inr (e, rest) ↦ inr (loop-eq-ok _ e _ p.1 t rest)
      ]

  build_chain_inner-ok :
      (fuel : ℕ) (time : Time) (cert : Cert) (n s t : ℕ)
      → build_chain_inner fuel opts time cert n s ≡ (ok tt, t)
      → IsChain opts time cert n
  unfolding build_chain_inner
  build_chain_inner-ok zero time cert n s t h = cc
  build_chain_inner-ok (suc fuel) time cert n s t h =
      let go_on : Cert → Exec ℕ (Unit {0}) =
        λ issuer. build_chain_inner fuel opts time issuer (next_sub_ca_count (used_as_ca cert) n) in
      let acceptable : IsAcceptable opts time cert n = record {
        properties = ground arith;
        depth = check_depth-ok (used_as_ca cert) n (ground arith);
      } in
      let issued : try_issuers opts cert go_on s ≡ (ok tt, t) = ground arith in
      elim (try_issuers-eq-ok cert go_on s t issued) [
        | inl anchors ↦
            to_anchor acceptable
              (Any-map (λ anchor (s1, run). try_anchor-ok cert anchor s1 t run) anchors)
        | inr issuers ↦
            let (issuer, given, chain) =
              Any-choose {Q = IsIssuer opts cert}
                {R = λ issuer. IsChain opts time issuer (next_sub_ca_count (used_as_ca cert) n)}
                (λ der (s1, run).
                  let (issuer, s2, extended, rest) =
                    >>=-eq-ok (extend_path opts cert der) go_on s1 run in
                  (
                    issuer,
                    extend_path-ok cert der issuer s1 s2 extended,
                    build_chain_inner-ok fuel time issuer _ s2 t rest,
                  ))
                issuers in
            to_issuer issuer acceptable given chain
      ]

  -- Where `build_chain` accepts a certificate, a path leads from it over intermediate certificates to
  -- a trust anchor: every certificate of the path passes the checks that do not depend on its issuer
  -- and the limit on the depth; its issuer's name is the subject of the next, which is not yet on the
  -- path and whose name constraints hold of the path below it; the last one's issuer is the anchor's
  -- subject; and every signature and revocation check succeeds with the key of the certificate above.
  pub build_chain-IsChain :
      (cert : Cert) (time : Time) → build_chain opts cert time ≡ ok tt → IsChain opts time cert 0
  unfolding build_chain
  build_chain-IsChain cert time h =
      build_chain_inner-ok 8 time cert 0 0 (build_chain_inner 8 opts time cert 0 0).1 cc
