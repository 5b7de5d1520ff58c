-- ===== src/Cert/Fields.antt =====
-- src/cert.rs: how the fields of a certificate are filled in.
use webpki.Prelude.{ℕ, ◌≡◌, refl, ◌∙◌, Option, none, some, ◌⊎◌, inl, inr, ◌==◌}
use webpki.Result.{ok}
use webpki.Untrusted.{Input, Untrusted, at_end}
use webpki.Untrusted.Gives.{
  Ensures, Ensures-if, Gives, Gives-lift, Gives-pure, Gives-raise, Gives-if, Gives-branch,
  Gives-bind,
}
use webpki.Der.{sequence, expect_tag}
use webpki.Der.Gives.{Gives-nested, Gives-nested_of_mut}
use webpki.SignedData.{SignedData}
use webpki.X509.{Extension}
use webpki.X509.Fields.{unsupported-Ensures, set_field-Ensures, remember_extension-Ensures}
use webpki.Cert.{
  CertFields, version3, lenient_certificate_serial_number, remember_by_id, remember_cert_extension,
  read_extensions, read_tbs,
}

-- a field that is set stays as it is
abbrev pub Kept : Option Input → Option Input → Type 0
Kept before after = (before ≡ none) ⊎ (after ≡ before)

pub record Keeps (before after : CertFields) : Type 0 where
  pub serial : after.serial ≡ before.serial
  pub signed_data : after.signed_data ≡ before.signed_data
  pub issuer : after.issuer ≡ before.issuer
  pub validity : after.validity ≡ before.validity
  pub subject : after.subject ≡ before.subject
  pub spki : after.spki ≡ before.spki
  pub basic_constraints : Kept before.basic_constraints after.basic_constraints
  pub key_usage : Kept before.key_usage after.key_usage
  pub eku : Kept before.eku after.eku
  pub name_constraints : Kept before.name_constraints after.name_constraints
  pub subject_alt_name : Kept before.subject_alt_name after.subject_alt_name
  pub crl_distribution_points : Kept before.crl_distribution_points after.crl_distribution_points

-- At most one of the fields of the extensions is filled in, one that had no value.
pub data Remembers (before : CertFields) : CertFields → Type 0 where
  unchanged : Remembers before before
  basic_constraints :
      (t : Input)
      → before.basic_constraints ≡ none
      → Remembers before (record before { basic_constraints = some t })
  key_usage :
      (t : Input)
      → before.key_usage ≡ none
      → Remembers before (record before { key_usage = some t })
  eku : (t : Input) → before.eku ≡ none → Remembers before (record before { eku = some t })
  name_constraints :
      (t : Input)
      → before.name_constraints ≡ none
      → Remembers before (record before { name_constraints = some t })
  subject_alt_name :
      (t : Input)
      → before.subject_alt_name ≡ none
      → Remembers before (record before { subject_alt_name = some t })
  crl_distribution_points :
      (t : Input)
      → before.crl_distribution_points ≡ none
      → Remembers before (record before { crl_distribution_points = some t })

Kept-trans : {a b c : Option Input} → Kept a b → Kept b c → Kept a c
Kept-trans (inl e) k = inl e
Kept-trans (inr e) (inl f) = inl cc
Kept-trans (inr e) (inr f) = inr cc

Keeps-refl : (c : CertFields) → Keeps c c
Keeps-refl c = record {
  serial = refl;
  signed_data = refl;
  issuer = refl;
  validity = refl;
  subject = refl;
  spki = refl;
  basic_constraints = inr refl;
  key_usage = inr refl;
  eku = inr refl;
  name_constraints = inr refl;
  subject_alt_name = inr refl;
  crl_distribution_points = inr refl;
}

Keeps-trans : {a b c : CertFields} → Keeps a b → Keeps b c → Keeps a c
Keeps-trans h k = record {
  serial = k.serial ∙ h.serial;
  signed_data = k.signed_data ∙ h.signed_data;
  issuer = k.issuer ∙ h.issuer;
  validity = k.validity ∙ h.validity;
  subject = k.subject ∙ h.subject;
  spki = k.spki ∙ h.spki;
  basic_constraints = Kept-trans h.basic_constraints k.basic_constraints;
  key_usage = Kept-trans h.key_usage k.key_usage;
  eku = Kept-trans h.eku k.eku;
  name_constraints = Kept-trans h.name_constraints k.name_constraints;
  subject_alt_name = Kept-trans h.subject_alt_name k.subject_alt_name;
  crl_distribution_points = Kept-trans h.crl_distribution_points k.crl_distribution_points;
}

Kept-refl : (o : Option Input) → Kept o o
Kept-refl o = inr refl

Kept-set : {o : Option Input} (t : Input) → o ≡ none → Kept o (some t)
Kept-set t e = inl e

ruleset kept = (Kept-refl, Kept-set)

Remembers-Keeps : {before after : CertFields} → Remembers before after → Keeps before after
Remembers-Keeps unchanged = Keeps-refl _
Remembers-Keeps (basic_constraints t e) = search (kept)
Remembers-Keeps (key_usage t e) = search (kept)
Remembers-Keeps (eku t e) = search (kept)
Remembers-Keeps (name_constraints t e) = search (kept)
Remembers-Keeps (subject_alt_name t e) = search (kept)
Remembers-Keeps (crl_distribution_points t e) = search (kept)

module _ ⦃u : Untrusted⦄ where
  remember_by_id-Remembers :
      (cert : CertFields) (extension : Extension) (id : ℕ)
      → Ensures (Remembers cert) (remember_by_id cert extension id)
  unfolding remember_by_id
  remember_by_id-Remembers cert extension id =
      Ensures-if (id == 15) (set_field-Ensures (Remembers cert) _ _ _ key_usage) (
        Ensures-if (id == 17) (set_field-Ensures (Remembers cert) _ _ _ subject_alt_name) (
          Ensures-if (id == 19) (set_field-Ensures (Remembers cert) _ _ _ basic_constraints) (
            Ensures-if (id == 30) (set_field-Ensures (Remembers cert) _ _ _ name_constraints) (
              Ensures-if (id == 31)
                (set_field-Ensures (Remembers cert) _ _ _ crl_distribution_points)
                (Ensures-if (id == 37) (set_field-Ensures (Remembers cert) _ _ _ eku)
                  (unsupported-Ensures (Remembers cert) extension cert unchanged))))))

  -- An extension changes no field that was read before the extensions, and of the extensions' own
  -- fields at most one, which had no value and gets one.
  pub remember_cert_extension-Remembers :
      (cert after : CertFields) (extension : Extension)
      → remember_cert_extension cert extension ≡ ok after
      → Remembers cert after
  unfolding remember_cert_extension
  remember_cert_extension-Remembers cert after extension h =
      remember_extension-Ensures (Remembers cert) extension cert (remember_by_id cert extension)
        unchanged (remember_by_id-Remembers cert extension) after h

  read_extensions-Keeps : (cert : CertFields) → Gives (Keeps cert) (read_extensions cert)
  unfolding read_extensions
  read_extensions-Keeps cert = Gives-branch at_end (Gives-pure (Keeps-refl cert)) (
      Gives-nested _ _ (
        Gives-nested_of_mut sequence sequence _ _
          (λ c k. Gives-bind _ (λ extension. Gives-lift (λ after h.
            Keeps-trans k
              (Remembers-Keeps (remember_cert_extension-Remembers c after extension h)))))
          cert (Keeps-refl cert)))

  read_extensions-signed_data :
      (cert : CertFields) (signed_data : SignedData)
      → cert.signed_data ≡ signed_data
      → Gives (λ c. c.signed_data ≡ signed_data) (read_extensions cert)
  read_extensions-signed_data cert signed_data e = record {
    at = λ r c h. ((read_extensions-Keeps cert).at r c h).signed_data ∙ e;
  }

  pub read_tbs-signed_data :
      (signed_data : SignedData) → Gives (λ c. c.signed_data ≡ signed_data) (read_tbs signed_data)
  unfolding read_tbs
  read_tbs-signed_data signed_data =
      let body = expect_tag sequence in
      Gives-bind version3 (λ t. Gives-bind lenient_certificate_serial_number (λ serial.
        Gives-bind body (λ signature. Gives-if _ (Gives-raise _) (
          Gives-bind body (λ issuer. Gives-bind body (λ validity. Gives-bind body (λ subject.
            Gives-bind body (λ spki. read_extensions-signed_data _ signed_data refl))))))))
