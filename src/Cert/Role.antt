-- ===== src/Cert/Role.antt =====
-- src/cert.rs: the role that `Cert::from_der` gives to a certificate.
use webpki.Prelude.{◌≡◌, arith, some}
use webpki.Result.{ok}
use webpki.Untrusted.{Input, Untrusted}
use webpki.Cert.{Cert, CertFields, ca, cert_from_der}

module _ ⦃u : Untrusted⦄ where
  pub cert_from_der-ca :
      (der : Input) (child cert : Cert)
      → cert_from_der der (some child) ≡ ok cert
      → (c : CertFields) × (cert ≡ ca c child)
  unfolding cert_from_der
  cert_from_der-ca der child cert h = ground arith
