-- ===== src/VerifyCert.antt =====
-- src/verify_cert.rs: path building, and the checks on each certificate of a path.
pub mod Budget
pub mod Depth
pub mod Limit
pub mod Loop
pub mod Total
pub mod Path
pub mod Sound
pub mod Checks
pub mod Revocation
pub use Checks.{
  UsedAsCa, yes_ca, no_ca, used_as_ca, ExtendedKeyUsage, required, required_if_present,
  key_purpose_id_equals, eku_server_auth, eku_client_auth, check_eku, check_validity,
  check_basic_constraints, check_issuer_independent_properties,
}
pub use Revocation.{
  RevocationCheckDepth, end_entity_depth, chain_depth, UnknownStatusPolicy, allow, deny,
  RevocationOptions, check_crls, crl_authoritative, crl_signature_err, check_key_usage,
  CertNotRevoked,
}
use webpki.Prelude.{
  ℕ, zero, suc, ◌+◌, Bool, true, false, not, ◌&&◌, ◌||◌, Option, none, some, List, [], ◌∷◌, ltb,
  leb, ◌==◌, if◌then◌else◌, bytes_eq,
}
use webpki.Error.{Error, bad_der, maximum_signature_checks_exceeded, most_specific, unknown_issuer}
use webpki.Result.{Result, ok, err, panic, stuck}
use webpki.Exec.{Exec, pure, raise, lift, ◌>>=◌, ◌>>◌}
use webpki.Untrusted.{Input, Untrusted, read_all_optional}
use webpki.Time.{Time}
use webpki.SignedData.{SignatureVerificationAlgorithm, verify_signed_data}
use webpki.Cert.{Cert, CertFields, end_entity, ca, fields, cert_from_der}
use webpki.SubjectName.Verify.{
  SubjectCommonNameContents, dns_contents, ignore, check_name_constraints,
}

-- `pki_types::TrustAnchor`
pub record TrustAnchor : Type 0 where
  pub subject : Input
  pub subject_public_key_info : Input
  pub name_constraints : Option Input

pub record ChainOptions : Type 0 where
  pub eku : ExtendedKeyUsage
  pub supported_sig_algs : List SignatureVerificationAlgorithm
  pub trust_anchors : List TrustAnchor
  pub intermediate_certs : List Input
  pub revocation : Option RevocationOptions

-- the `match` on a round's result; `again` goes on with the error of the round
pub after_round : (Error → Exec ℕ (Unit {0})) → Result (Unit {0}) → Exec ℕ (Unit {0})
after_round again (ok t) signatures = (ok t, signatures)
after_round again (err maximum_signature_checks_exceeded) signatures =
    (err maximum_signature_checks_exceeded, signatures)
after_round again (err new_error) signatures = again new_error signatures
after_round again panic signatures = (panic, signatures)
after_round again stuck signatures = (stuck, signatures)

-- `loop_while_non_fatal_error`: the first success, else the most specific error. The state is the
-- count of signatures, which the closures change.
pub loop_while_non_fatal_error :
    {V : Type 0} → Error → List V → (V → Exec ℕ (Unit {0})) → Exec ℕ (Unit {0})
loop_while_non_fatal_error error [] f = raise error
loop_while_non_fatal_error error (v ∷ values) f = λ signatures.
    let (r, signatures') = f v signatures in
    after_round (λ new_error. loop_while_non_fatal_error (most_specific error new_error) values f) r
      signatures'

abbrev pub max_signatures : ℕ
max_signatures = 100

abbrev pub max_sub_ca_count : ℕ
max_sub_ca_count = 6

-- `*signatures += 1; if *signatures > 100 { return Err(..) }`
pub count_signature : Exec ℕ (Unit {0})
count_signature signatures = (
  if ltb max_signatures (signatures + 1) then err maximum_signature_checks_exceeded else ok tt,
  signatures + 1,
)

-- `potential_issuer` is none of the certificates of the path so far
pub is_in_path : CertFields → Cert → Bool
is_in_path issuer (end_entity c) = bytes_eq issuer.spki c.spki && bytes_eq issuer.subject c.subject
is_in_path issuer (ca c child) =
    (bytes_eq issuer.spki c.spki && bytes_eq issuer.subject c.subject) || is_in_path issuer child

-- the `match used_as_ca`, with its `assert_eq!`
pub check_depth : UsedAsCa → ℕ → Result (Unit {0})
check_depth yes_ca sub_ca_count =
    if leb max_sub_ca_count sub_ca_count then err unknown_issuer else ok tt
check_depth no_ca sub_ca_count = if sub_ca_count == 0 then ok tt else panic

pub next_sub_ca_count : UsedAsCa → ℕ → ℕ
next_sub_ca_count no_ca sub_ca_count = sub_ca_count
next_sub_ca_count yes_ca sub_ca_count = sub_ca_count + 1

-- the `match` on the result for the anchors; `next_try` takes up its error
pub after_anchors : (Error → Exec ℕ (Unit {0})) → Result (Unit {0}) → Exec ℕ (Unit {0})
after_anchors next_try (ok t) signatures = (ok t, signatures)
after_anchors next_try (err e) signatures = next_try e signatures
after_anchors next_try panic signatures = (panic, signatures)
after_anchors next_try stuck signatures = (stuck, signatures)

module _ ⦃u : Untrusted⦄ where
  pub check_revocation :
      Option RevocationOptions
      → List SignatureVerificationAlgorithm
      → Cert
      → Input
      → Input
      → Option Input
      → Result (Unit {0})
  check_revocation none algs cert issuer_subject spki_value issuer_key_usage = ok tt
  check_revocation (some options) algs cert issuer_subject spki_value issuer_key_usage =
      elim (check_crls algs cert issuer_subject spki_value issuer_key_usage options) [
        | ok not_revoked ↦ ok tt
        | err e ↦ err e
        | panic ↦ panic
        | stuck ↦ stuck
      ]

  -- one round of the loop of `check_signatures`
  pub check_link : ChainOptions → Cert → Input → Input → Option Input → Exec ℕ (Unit {0})
  check_link opts cert issuer_subject spki_value issuer_key_usage = do
    count_signature
    lift (verify_signed_data opts.supported_sig_algs spki_value (fields cert).signed_data)
    lift (
        check_revocation opts.revocation opts.supported_sig_algs cert issuer_subject spki_value
          issuer_key_usage)

  -- the loop of `check_signatures`, from the issuer's side down to the leaf
  pub check_signatures_from : ChainOptions → Cert → Input → Input → Option Input → Exec ℕ (Unit {0})
  check_signatures_from opts (end_entity c) issuer_subject spki_value issuer_key_usage =
      check_link opts (end_entity c) issuer_subject spki_value issuer_key_usage
  check_signatures_from opts (ca c child) issuer_subject spki_value issuer_key_usage = do
    check_link opts (ca c child) issuer_subject spki_value issuer_key_usage
    check_signatures_from opts child c.subject c.spki c.key_usage

  pub check_signatures : ChainOptions → Cert → TrustAnchor → Exec ℕ (Unit {0})
  check_signatures opts cert_chain trust_anchor =
      check_signatures_from opts cert_chain trust_anchor.subject
        trust_anchor.subject_public_key_info none

  pub common_name_contents : ChainOptions → Cert → SubjectCommonNameContents
  common_name_contents opts (end_entity c) =
      if key_purpose_id_equals opts.eku eku_server_auth then dns_contents else ignore
  common_name_contents opts (ca c child) = ignore

  -- the closure on a trust anchor
  pub try_anchor : ChainOptions → Cert → TrustAnchor → Exec ℕ (Unit {0})
  try_anchor opts cert trust_anchor =
      if not (bytes_eq (fields cert).issuer trust_anchor.subject) then raise unknown_issuer else (do
        lift (
            read_all_optional trust_anchor.name_constraints bad_der
              (check_name_constraints (common_name_contents opts cert) cert))
        check_signatures opts cert trust_anchor)

  -- The closure on an intermediate certificate, up to the recursive call; the result is the path
  -- that begins with it.
  pub extend_path : ChainOptions → Cert → Input → Exec ℕ Cert
  extend_path opts cert cert_der = do
    potential_issuer ← lift (cert_from_der cert_der (some cert))
    if not (bytes_eq (fields potential_issuer).subject (fields cert).issuer)
        then raise unknown_issuer
        else if is_in_path (fields potential_issuer) cert
        then raise unknown_issuer
        else do
          lift (
              read_all_optional (fields potential_issuer).name_constraints bad_der
                (check_name_constraints (common_name_contents opts cert) cert))
          pure potential_issuer

  -- first the anchors, then the intermediate certificates
  pub try_issuers : ChainOptions → Cert → (Cert → Exec ℕ (Unit {0})) → Exec ℕ (Unit {0})
  try_issuers opts cert go_on signatures =
      let (result, signatures') =
        loop_while_non_fatal_error unknown_issuer opts.trust_anchors (try_anchor opts cert)
          signatures in
      after_anchors
        (λ e.
          loop_while_non_fatal_error e opts.intermediate_certs
            (λ cert_der. extend_path opts cert cert_der >>= go_on))
        result signatures'

  -- `build_chain_inner`, on fuel for the depth of the recursion.
  pub build_chain_inner : ℕ → ChainOptions → Time → Cert → ℕ → Exec ℕ (Unit {0})
  build_chain_inner zero opts time cert sub_ca_count = λ signatures. (stuck, signatures)
  build_chain_inner (suc fuel) opts time cert sub_ca_count = do
    lift (check_issuer_independent_properties cert time (used_as_ca cert) sub_ca_count opts.eku)
    lift (check_depth (used_as_ca cert) sub_ca_count)
    try_issuers opts cert (λ issuer.
        build_chain_inner fuel opts time issuer (next_sub_ca_count (used_as_ca cert) sub_ca_count))

  -- A leaf and at most six issuers have been passed when the seventh is refused.
  pub build_chain : ChainOptions → Cert → Time → Result (Unit {0})
  build_chain opts cert time = (build_chain_inner 8 opts time cert 0 0).0

unfoldable pub verify_cert_code : Unit {0}
unfolding after_round after_anchors loop_while_non_fatal_error count_signature is_in_path
    check_revocation check_link check_signatures_from check_signatures common_name_contents
    try_anchor extend_path check_depth next_sub_ca_count try_issuers build_chain_inner build_chain
verify_cert_code = tt
