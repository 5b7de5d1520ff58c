-- ===== src/Untrusted/Total.antt =====
-- Decoders that always come to an end, one rule for each way to build one.
use webpki.Prelude.{
  ℕ, ◌≤◌, ◌<◌, ◌≡◌, refl, sym, ap, arith, Bool, true, false, ◌⊎◌, [], ◌++◌, length, length-append,
  append_assoc, take, drop, take-append-drop, if◌then◌else◌,
}
use webpki.Error.{Error}
use webpki.Result.{Result, ok, err, panic, stuck}
use webpki.Result
use webpki.Exec.{Exec, pure, raise, lift, map_err, replace_error, continue, ◌>>=◌}
use webpki.Untrusted.{Input, Untrusted, Reader, Decoder, remaining}

-- A value or an error; a panic where `panics` says that there may be one.
pub data Ends {ℓ} {A : Type ℓ} (panics : Bool) : Result A → Type ℓ where
  returned : {a : A} → Ends panics (ok a)
  failed : {e : Error} → Ends panics (err e)
  panicked : panics ≡ true → Ends panics panic

module _ {ℓ κ} {A : Type ℓ} {B : Type κ} {p : Bool} where
  pub Ends-bind :
      {r : Result A} {f : A → Result B}
      → Ends p r
      → ((a : A) → Ends p (f a))
      → Ends p (Result.◌>>=◌ r f)
  Ends-bind returned k = k _
  Ends-bind failed k = failed
  Ends-bind (panicked h) k = panicked h

  -- the rest may use that this is the value
  pub Ends-bind_value :
      {r : Result A} {f : A → Result B}
      → Ends p r
      → ((a : A) → r ≡ ok a → Ends p (f a))
      → Ends p (Result.◌>>=◌ r f)
  Ends-bind_value returned k = k _ refl
  Ends-bind_value failed k = failed
  Ends-bind_value (panicked h) k = panicked h

module _ {ℓ} {A : Type ℓ} {p : Bool} where
  pub Ends-if : (b : Bool) {r s : Result A} → Ends p r → Ends p s → Ends p (if b then r else s)
  Ends-if true h k = h
  Ends-if false h k = k

  -- what a test gives beside a state
  pub Ends-if_pair :
      {S : Type 0} (b : Bool) (x y : Result A × S)
      → Ends p x.0
      → Ends p y.0
      → Ends p (if b then x else y).0
  Ends-if_pair true x y h k = h
  Ends-if_pair false x y h k = k

  pub Ends-weaken : {r : Result A} → Ends false r → Ends p r
  Ends-weaken returned = returned
  Ends-weaken failed = failed
  Ends-weaken (panicked h) = cc

module _ {S A B : Type 0} {p : Bool} where
  pub continue-Ends :
      (x : Result A × S) (f : A → Exec S B)
      → Ends p x.0
      → ((a : A) (s : S) → x ≡ (ok a, s) → Ends p (f a s).0)
      → Ends p (continue x.0 f x.1).0
  continue-Ends (ok a, s) f h k = k a s refl
  continue-Ends (err e, s) f h k = failed
  continue-Ends (panic, s) f (panicked h) k = panicked h
  continue-Ends (stuck, s) f h k = elim h [ ]

module _ {S A : Type 0} {p : Bool} where
  -- one of two computations
  pub choice-Ends :
      (b : Bool) (m n : Exec S A) (s : S)
      → Ends p (m s).0
      → Ends p (n s).0
      → Ends p ((if b then m else n) s).0
  choice-Ends true m n s h k = h
  choice-Ends false m n s h k = k

-- `j` is what is left of `i` behind some bytes.
abbrev pub IsSuffix : Input → Input → Type 0
IsSuffix j i = (pre : Input) × (i ≡ pre ++ j)

pub IsSuffix-refl : (i : Input) → IsSuffix i i
IsSuffix-refl i = ([], refl)

IsSuffix-trans : (i j k : Input) → IsSuffix k j → IsSuffix j i → IsSuffix k i
IsSuffix-trans i j k (p, e) (q, f) = (q ++ p, rw (f, e, append_assoc))

pub IsSuffix-drop : (n : ℕ) (i : Input) → IsSuffix (drop n i) i
IsSuffix-drop n i = (take n i, sym (take-append-drop n i))

IsSuffix-le : {j i : Input} → IsSuffix j i → length j ≤ length i
IsSuffix-le {j} (p, e) = rw e (omega (arith, length-append p j))

module _ ⦃u : Untrusted⦄ where
  -- how many bytes a reader has left
  abbrev pub left : Reader → ℕ
  left r = length (remaining r)

  -- What came of a run over the bytes `i`: a value and a reader over what is left of them, or
  -- else a reader that has no more bytes.
  pub data Outcome {A : Type 0} (panics : Bool) (i : Input) : Result A × Reader → Type 0 where
    value : {a : A} {s : Reader} → IsSuffix (remaining s) i → Outcome panics i (ok a, s)
    error : {e : Error} {s : Reader} → left s ≤ length i → Outcome panics i (err e, s)
    panicking : {s : Reader} → panics ≡ true → left s ≤ length i → Outcome panics i (panic, s)

  -- From every reader `m` comes to an end, and it moves forward only.
  pub record IsTotal {A : Type 0} (panics : Bool) (m : Decoder A) : Type 0 where
    pub at : (r : Reader) → Outcome panics (remaining r) (m r)

  -- `m` takes a byte at least, or it fails since there is none.
  pub record IsProgress {A : Type 0} (m : Decoder A) : Type 0 where
    pub at :
        (r : Reader) → (left (m r).1 < left r) ⊎ ((left r ≡ 0) × ((e : Error) × ((m r).0 ≡ err e)))

  pub Outcome-Ends :
      {A : Type 0} {p : Bool} {i : Input} {x : Result A × Reader} → Outcome p i x → Ends p x.0
  Outcome-Ends (value h) = returned
  Outcome-Ends (error h) = failed
  Outcome-Ends (panicking h k) = panicked h

  Outcome-le :
      {A : Type 0} {p : Bool} {i : Input} {x : Result A × Reader}
      → Outcome p i x
      → left x.1 ≤ length i
  Outcome-le (value h) = IsSuffix-le h
  Outcome-le (error h) = h
  Outcome-le (panicking h k) = k

  pub IsTotal-Ends :
      {A : Type 0} {p : Bool} {m : Decoder A} → IsTotal p m → (r : Reader) → Ends p (m r).0
  IsTotal-Ends h r = Outcome-Ends (h.at r)

  pub IsTotal-forward :
      {A : Type 0} {p : Bool} {m : Decoder A} → IsTotal p m → (r : Reader) → left (m r).1 ≤ left r
  IsTotal-forward h r = Outcome-le (h.at r)

  Outcome-trans :
      {A : Type 0} {p : Bool} {i j : Input} {x : Result A × Reader}
      → IsSuffix j i
      → Outcome p j x
      → Outcome p i x
  Outcome-trans k (value h) = value (IsSuffix-trans _ _ _ h k)
  Outcome-trans k (error h) = error (omega (arith, IsSuffix-le k))
  Outcome-trans k (panicking e h) = panicking e (omega (arith, IsSuffix-le k))

  Outcome-lift :
      {A : Type 0} {p : Bool} {x : Result A} {r : Reader}
      → Ends p x
      → Outcome p (remaining r) (x, r)
  Outcome-lift returned = value (IsSuffix-refl _)
  Outcome-lift failed = error (omega arith)
  Outcome-lift (panicked h) = panicking h (omega arith)

  module _ {A : Type 0} {p : Bool} where
    pub IsTotal-lift : {x : Result A} → Ends p x → IsTotal p (lift {S = Reader} x)
    IsTotal-lift h = record { at = λ r. Outcome-lift h }

    pub IsTotal-pure : (a : A) → IsTotal p (pure {S = Reader} a)
    IsTotal-pure a = IsTotal-lift returned

    pub IsTotal-raise : (e : Error) → IsTotal p (raise {S = Reader} {A = A} e)
    IsTotal-raise e = IsTotal-lift failed

    pub Outcome-if :
        {i : Input} (b : Bool) {x y : Result A × Reader}
        → Outcome p i x
        → Outcome p i y
        → Outcome p i (if b then x else y)
    Outcome-if true h k = h
    Outcome-if false h k = k

    -- a test on the reader
    pub IsTotal-branch :
        (c : Reader → Bool) {m n : Decoder A}
        → IsTotal p m
        → IsTotal p n
        → IsTotal p (λ r. if c r then m r else n r)
    IsTotal-branch c hm hn = record { at = λ r. Outcome-if (c r) (hm.at r) (hn.at r) }

    pub IsTotal-if :
        (b : Bool) {m n : Decoder A} → IsTotal p m → IsTotal p n → IsTotal p (if b then m else n)
    IsTotal-if true hm hn = hm
    IsTotal-if false hm hn = hn

    Outcome-map_err :
        {i : Input} (e : Error) {x : Result A × Reader}
        → Outcome p i x
        → Outcome p i (replace_error e x.0, x.1)
    Outcome-map_err e (value h) = value h
    Outcome-map_err e (error h) = error h
    Outcome-map_err e (panicking h k) = panicking h k

    pub IsTotal-map_err : (e : Error) {m : Decoder A} → IsTotal p m → IsTotal p (map_err e m)
    IsTotal-map_err e h = record { at = λ r. Outcome-map_err e (h.at r) }

  module _ {A B : Type 0} {p : Bool} where
    pub Outcome-continue :
        {i : Input} (x : Result A × Reader) (f : A → Decoder B)
        → Outcome p i x
        → ((a : A) (s : Reader) → x ≡ (ok a, s) → Outcome p (remaining s) (f a s))
        → Outcome p i (continue x.0 f x.1)
    Outcome-continue x f (value {a} {s} h) k = Outcome-trans h (k a s refl)
    Outcome-continue x f (error h) k = error h
    Outcome-continue x f (panicking h l) k = panicking h l

    pub IsTotal-bind :
        {m : Decoder A} {f : A → Decoder B}
        → IsTotal p m
        → ((a : A) → IsTotal p (f a))
        → IsTotal p (m >>= f)
    IsTotal-bind {m} {f} hm hf = record {
      at = λ r. Outcome-continue (m r) f (hm.at r) (λ a s e. (hf a).at s);
    }

    -- the rest may use what is known of the value
    pub IsTotal-bind_value :
        (Q : A → Type 0) {m : Decoder A} {f : A → Decoder B}
        → IsTotal p m
        → ((r : Reader) (a : A) → (m r).0 ≡ ok a → Q a)
        → ((a : A) → Q a → IsTotal p (f a))
        → IsTotal p (m >>= f)
    IsTotal-bind_value Q {m} {f} hm known hf = record {
      at = λ r.
          Outcome-continue (m r) f (hm.at r) (λ a s e. (hf a (known r a (ap (λ x. x.0) e))).at s);
    }
