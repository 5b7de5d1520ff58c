-- ===== src/Untrusted/Gives.antt =====
-- What is known of the values that a decoder gives, one rule for each way to build one.
use webpki.Prelude.{◌≡◌, ap, Bool, true, false, if◌then◌else◌}
use mathlib.Core.Path.{subst}
use webpki.Error.{Error}
use webpki.Result.{Result, ok}
use webpki.Exec.{pure, raise, lift, ◌>>=◌, >>=-eq-ok}
use webpki.Untrusted.{Untrusted, Reader, Decoder}

-- the value, if there is one, has the property
abbrev pub Ensures {ℓ} : {A : Type ℓ} → (A → Type ℓ) → Result A → Type ℓ
Ensures {A} Q r = (a : A) → r ≡ ok a → Q a

pub Ensures-if :
    {A : Type 0} {Q : A → Type 0} (b : Bool) {x y : Result A}
    → Ensures Q x
    → Ensures Q y
    → Ensures Q (if b then x else y)
Ensures-if true h k = h
Ensures-if false h k = k

module _ ⦃u : Untrusted⦄ where
  pub record Gives {A : Type 0} (Q : A → Type 0) (m : Decoder A) : Type 0 where
    pub at : (r : Reader) → Ensures Q (m r).0

  module _ {A : Type 0} {Q : A → Type 0} where
    pub Gives-lift : {x : Result A} → Ensures Q x → Gives Q (lift {S = Reader} x)
    Gives-lift h = record { at = λ r. h }

    pub Gives-pure : {a : A} → Q a → Gives Q (pure {S = Reader} a)
    Gives-pure h = record { at = λ r b e. subst_ok Q _ b h e }
      where
        subst_ok : (P : A → Type 0) (a b : A) → P a → ◌≡◌ {A = Result A} (ok a) (ok b) → P b
        subst_ok P a b p e = subst P (cc) p

    pub Gives-raise : (e : Error) → Gives Q (raise {S = Reader} {A = A} e)
    Gives-raise e = record { at = λ r a h. cc }

    pub Gives-if :
        (b : Bool) {m n : Decoder A} → Gives Q m → Gives Q n → Gives Q (if b then m else n)
    Gives-if true h k = h
    Gives-if false h k = k

    -- a test on the reader
    pub Gives-branch :
        (c : Reader → Bool) {m n : Decoder A}
        → Gives Q m
        → Gives Q n
        → Gives Q (λ r. if c r then m r else n r)
    Gives-branch c {m} {n} hm hn = record { at = λ r. pick (c r) r }
      where
        pick : (b : Bool) (r : Reader) → Ensures Q (if b then m r else n r).0
        pick true r = hm.at r
        pick false r = hn.at r

  module _ {A B : Type 0} {Q : B → Type 0} where
    pub Gives-bind_value :
        {P : A → Type 0} {m : Decoder A} {f : A → Decoder B}
        → Gives P m
        → ((a : A) → P a → Gives Q (f a))
        → Gives Q (m >>= f)
    Gives-bind_value {P} {m} {f} hm h = record {
      at = λ r b e.
          let (a, s, run, rest) = >>=-eq-ok m f r (ap (λ x. (x, ((m >>= f) r).1)) e) in
          (h a (hm.at r a (ap (λ x. x.0) run))).at s b (ap (λ x. x.0) rest);
    }

    pub Gives-bind :
        (m : Decoder A) {f : A → Decoder B} → ((a : A) → Gives Q (f a)) → Gives Q (m >>= f)
    Gives-bind m {f} h = Gives-bind_value {P = λ a. Unit} (record { at = λ r a e. tt }) (λ a t. h a)
