-- ===== src/TrustAnchor/Total.antt =====
-- src/trust_anchor.rs: making a trust anchor comes to an end.
use webpki.Prelude.{Bool, false, none}
use webpki.Error.{unsupported_cert_version}
use webpki.Result.{Result, ok, err, panic, stuck}
use webpki.Untrusted.{Input, Untrusted, Reader, new}
use webpki.Untrusted.Total.{
  Ends, returned, failed, panicked, IsTotal, IsTotal-bind, IsTotal-lift, IsTotal-Ends,
}
use webpki.Untrusted.Advance.{read_all-Ends_at}
use webpki.Der.{Tag, sequence, bit_string}
use webpki.Der.Total.{total_rules, expect_tag-IsTotal, IsTotal-nested, nested-Ends}
use webpki.Cert.{Cert}
use webpki.Cert.Total.{cert_from_der-Ends, serial_number-IsTotal}
use webpki.VerifyCert.{TrustAnchor}
use webpki.TrustAnchor.{
  skip_tag, v1_tbs, v1_body, extract_trust_anchor_from_v1_cert_der, or_bad_der, anchor_or_v1,
  extract_trust_anchor,
}

module _ ⦃u : Untrusted⦄ {p : Bool} where
  skip_tag-IsTotal : (tag : Tag) → IsTotal p (skip_tag tag)
  unfolding skip_tag
  skip_tag-IsTotal tag = search (total_rules, expect_tag-IsTotal)

  v1_tbs-IsTotal : IsTotal p v1_tbs
  unfolding v1_tbs
  v1_tbs-IsTotal =
      search (total_rules, serial_number-IsTotal, skip_tag-IsTotal, expect_tag-IsTotal) depth 10

  v1_body-Ends : (r : Reader) → Ends p (v1_body r).0
  unfolding v1_body
  v1_body-Ends r =
      IsTotal-Ends
        (IsTotal-bind (skip_tag-IsTotal sequence) (λ s.
          IsTotal-bind (skip_tag-IsTotal bit_string)
            (λ t. IsTotal-lift (IsTotal-Ends (IsTotal-nested sequence _ v1_tbs-IsTotal) r))))
        _

  extract_trust_anchor_from_v1_cert_der-Ends :
      (cert_der : Input) → Ends p (extract_trust_anchor_from_v1_cert_der cert_der)
  unfolding extract_trust_anchor_from_v1_cert_der
  extract_trust_anchor_from_v1_cert_der-Ends cert_der =
      read_all-Ends_at cert_der _
        (nested-Ends sequence _ v1_body (λ i. v1_body-Ends (new i)) (new cert_der))

  or_bad_der-Ends : (x : Result TrustAnchor) → Ends p x → Ends p (or_bad_der x)
  unfolding or_bad_der
  or_bad_der-Ends (ok a) h = returned
  or_bad_der-Ends (err e) h = failed
  or_bad_der-Ends panic h = h
  or_bad_der-Ends stuck h = h

  anchor_or_v1-Ends :
      (cert_der : Input) (x : Result Cert) → Ends p x → Ends p (anchor_or_v1 cert_der x)
  unfolding anchor_or_v1
  anchor_or_v1-Ends cert_der (ok cert) h = returned
  anchor_or_v1-Ends cert_der (err unsupported_cert_version) h =
      or_bad_der-Ends _ (extract_trust_anchor_from_v1_cert_der-Ends cert_der)
  anchor_or_v1-Ends cert_der (err e) h = failed
  anchor_or_v1-Ends cert_der panic (panicked h) = panicked h
  anchor_or_v1-Ends cert_der stuck h = elim h [ ]

-- Making a trust anchor of any bytes gives an anchor or an error: no call panics and no loop runs out
-- of fuel.
pub extract_trust_anchor-Ends :
    ⦃u : Untrusted⦄ (cert_der : Input) → Ends false (extract_trust_anchor cert_der)
unfolding extract_trust_anchor
extract_trust_anchor-Ends cert_der = anchor_or_v1-Ends cert_der _ (cert_from_der-Ends cert_der none)
