-- ===== src/VerifyCert/Path.antt =====
-- src/verify_cert.rs: the abstract specification of an accepted path, for `build_chain`.
use webpki.Prelude.{ℕ, ◌<◌, ◌≡◌, false, Option, none, some}
use webpki.Error.{bad_der}
use webpki.Result.{ok}
use webpki.Untrusted.{Input, Untrusted, read_all_optional}
use webpki.Time.{Time}
use webpki.SignedData.{verify_signed_data}
use webpki.Cert.{Cert, end_entity, ca, fields, cert_from_der}
use webpki.SubjectName.Verify.{check_name_constraints}
use webpki.VerifyCert.{
  ChainOptions, TrustAnchor, UsedAsCa, yes_ca, no_ca, used_as_ca,
  check_issuer_independent_properties, check_revocation, common_name_contents, is_in_path,
  next_sub_ca_count,
}
use webpki.VerifyCert.Loop.{Any}

-- A leaf has no certificates below it, an issuer less than six other issuers.
abbrev pub DepthAllowed : UsedAsCa → ℕ → Type 0
DepthAllowed yes_ca sub_ca_count = sub_ca_count < 6
DepthAllowed no_ca sub_ca_count = sub_ca_count ≡ 0

module _ ⦃u : Untrusted⦄ where
  -- The key verifies the certificate's signature, and its revocation status is accepted.
  pub record IsSigned (opts : ChainOptions) (cert : Cert) (subject spki : Input)
      (key_usage : Option Input) : Type 0 where
    pub signature :
        verify_signed_data opts.supported_sig_algs spki (fields cert).signed_data ≡ ok tt
    pub revocation :
        check_revocation opts.revocation opts.supported_sig_algs cert subject spki key_usage ≡ ok tt

  -- Each certificate of the path is signed by the key of the one before it, the first by the given key.
  pub data AreSigned (opts : ChainOptions) : Cert → Input → Input → Option Input → Type 0 where
    leaf :
        {c : _} {subject spki : Input} {ku : Option Input}
        → IsSigned opts (end_entity c) subject spki ku
        → AreSigned opts (end_entity c) subject spki ku
    link :
        {c : _} {child : Cert} {subject spki : Input} {ku : Option Input}
        → IsSigned opts (ca c child) subject spki ku
        → AreSigned opts child c.subject c.spki c.key_usage
        → AreSigned opts (ca c child) subject spki ku

  -- The name constraints of an issuer hold of the path down from `cert`.
  abbrev pub NamesPermitted : ChainOptions → Cert → Option Input → Type 0
  NamesPermitted opts cert constraints =
      read_all_optional constraints bad_der
        (check_name_constraints (common_name_contents opts cert) cert)
      ≡ ok tt

  pub record IsAnchor (opts : ChainOptions) (cert : Cert) (anchor : TrustAnchor) : Type 0 where
    pub subject : (fields cert).issuer ≡ anchor.subject
    pub permitted : NamesPermitted opts cert anchor.name_constraints
    pub signed : AreSigned opts cert anchor.subject anchor.subject_public_key_info none

  pub record IsIssuer (opts : ChainOptions) (cert issuer : Cert) (der : Input) : Type 0 where
    pub decoded : cert_from_der der (some cert) ≡ ok issuer
    pub subject : (fields issuer).subject ≡ (fields cert).issuer
    pub fresh : is_in_path (fields issuer) cert ≡ false
    pub permitted : NamesPermitted opts cert (fields issuer).name_constraints

  pub record IsAcceptable (opts : ChainOptions) (time : Time) (cert : Cert) (sub_ca_count : ℕ)
      : Type 0 where
    pub properties :
        check_issuer_independent_properties cert time (used_as_ca cert) sub_ca_count opts.eku
        ≡ ok tt
    pub depth : DepthAllowed (used_as_ca cert) sub_ca_count

  -- A path from the certificate to an anchor, with the number of issuers passed so far.
  pub data IsChain (opts : ChainOptions) (time : Time) : Cert → ℕ → Type 0 where
    to_anchor :
        {cert : Cert} {n : ℕ}
        → IsAcceptable opts time cert n
        → Any (IsAnchor opts cert) opts.trust_anchors
        → IsChain opts time cert n
    to_issuer :
        {cert : Cert} {n : ℕ} (issuer : Cert)
        → IsAcceptable opts time cert n
        → Any (IsIssuer opts cert issuer) opts.intermediate_certs
        → IsChain opts time issuer (next_sub_ca_count (used_as_ca cert) n)
        → IsChain opts time cert n
