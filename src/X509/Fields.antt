-- ===== src/X509/Fields.antt =====
-- src/x509.rs: what is known of the value that an extension's handler fills in.
use webpki.Prelude.{ℕ, ◌≡◌, refl, Option, none, some}
use mathlib.Core.Path.{subst}
use webpki.Result.{Result, >>=-eq-ok}
use webpki.Untrusted.Gives.{Ensures, Ensures-if}
use webpki.X509.{Extension, unsupported, set_extension_once, set_field, last, remember_extension}

module _ {A : Type 0} (Q : A → Type 0) where
  pub unsupported-Ensures :
      (extension : Extension) (a : A) → Q a → Ensures Q (unsupported extension a)
  unfolding unsupported
  unsupported-Ensures extension a q =
      Ensures-if extension.critical (λ b h. cc) (λ b h. subst Q (cc) q)

  -- The field was not set, and it is set to the value that was read.
  pub set_field-Ensures :
      {T : Type 0} (destination : Option T) (parser : Result T) (put : Option T → A)
      → ((t : T) → destination ≡ none → Q (put (some t)))
      → Ensures Q (set_field destination parser put)
  unfolding set_field set_extension_once
  set_field-Ensures (some t) parser put q a h = cc
  set_field-Ensures none parser put q a h =
      let (out, once, done) = >>=-eq-ok _ _ h in
      let (t, parsed, is_out) = >>=-eq-ok parser _ once in
      let is_put : put (some t) ≡ a = cc in subst Q is_put (q t refl)

  pub remember_extension-Ensures :
      (extension : Extension) (a : A) (handler : ℕ → Result A)
      → Q a
      → ((id : ℕ) → Ensures Q (handler id))
      → Ensures Q (remember_extension extension a handler)
  unfolding remember_extension
  remember_extension-Ensures extension a handler q h =
      Ensures-if _ (unsupported-Ensures extension a q)
        (λ b e. let (id, is_last, run) = >>=-eq-ok (last extension.id) handler e in h id b run)
