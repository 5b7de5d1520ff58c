-- ===== src/Exec.antt =====
-- Computations over a state `S` that may fail. What was written before a failure stays written, so
-- the state comes back beside the error too.
use webpki.Prelude.{◌≡◌, refl}
use webpki.Error.{Error}
use webpki.Result.{Result, ok, err, panic, stuck}

abbrev pub Exec {ℓ κ} : Type ℓ → Type κ → Type (ℓ ⊔ κ)
Exec S A = S → Result A × S

abbrev pub replace_error {ℓ} : {A : Type ℓ} → Error → Result A → Result A
replace_error e (ok a) = ok a
replace_error e (err _) = err e
replace_error e panic = panic
replace_error e stuck = stuck

module _ {ℓ κ} {S : Type ℓ} {A : Type κ} where
  abbrev pub pure : A → Exec S A
  pure a s = (ok a, s)

  -- `return Err(e)`
  abbrev pub raise : Error → Exec S A
  raise e s = (err e, s)

  -- a call that does not touch the state
  abbrev pub lift : Result A → Exec S A
  lift r s = (r, s)

  -- `.map_err(|_| e)`
  abbrev pub map_err : Error → Exec S A → Exec S A
  map_err e m s = let (r, s') = m s in (replace_error e r, s')

module _ {ℓ κ μ} {S : Type ℓ} {A : Type κ} {B : Type μ} where
  abbrev pub continue : Result A → (A → Exec S B) → Exec S B
  continue (ok a) f s = f a s
  continue (err e) f s = (err e, s)
  continue panic f s = (panic, s)
  continue stuck f s = (stuck, s)

  infixl 5 ◌>>=◌ ◌>>◌
  abbrev pub ◌>>=◌ : Exec S A → (A → Exec S B) → Exec S B
  ◌>>=◌ m f s = let (r, s') = m s in continue r f s'

  abbrev pub ◌>>◌ : Exec S A → Exec S B → Exec S B
  m >> n = m >>= λ _. n

  continue-eq-ok :
      (p : Result A × S) (f : A → Exec S B) {b : B} {t : S}
      → continue p.0 f p.1 ≡ (ok b, t)
      → (a : A) × (s' : S) × (p ≡ (ok a, s')) × (f a s' ≡ (ok b, t))
  continue-eq-ok (ok a, s') f h = (a, s', refl, h)
  continue-eq-ok (err e, s') f h = cc
  continue-eq-ok (panic, s') f h = cc
  continue-eq-ok (stuck, s') f h = cc

  -- Inversion of a successful bind.
  pub >>=-eq-ok :
      (m : Exec S A) (f : A → Exec S B) (s : S) {b : B} {t : S}
      → (m >>= f) s ≡ (ok b, t)
      → (a : A) × (s' : S) × (m s ≡ (ok a, s')) × (f a s' ≡ (ok b, t))
  >>=-eq-ok m f s h = continue-eq-ok (m s) f h
