-- ===== src/Untrusted.antt =====
-- The `untrusted` crate (version 0.7), which the library parses with, as an interface. `Input` is a
-- byte slice; a `Reader` is a cursor that only moves forward, and is known by what it has left.
-- The laws are the crate's documented behaviour.
pub mod Slice
pub mod Loop
pub mod Total
pub mod Advance
pub mod Gives
use webpki.Prelude.{
  ℕ, ◌≤◌, ◌<◌, ◌≡◌, Bool, true, false, Option, none, some, List, [], ◌∷◌, ◌++◌, ◌==◌, is_empty,
  length, take, drop, if◌then◌else◌,
}
use webpki.Error.{Error, bad_der}
use webpki.Result.{Result, ok, err, panic, stuck}
use webpki.Exec.{Exec}

abbrev pub Input : Type 0
Input = List ℕ

-- what `read_all` makes of the callback's result and of the cursor that it leaves
abbrev pub complete {ℓ} : {S : Type ℓ} {A : Type 0} → (S → Bool) → Error → Result A × S → Result A
complete at_end e (ok a, s) = if at_end s then ok a else err e
complete at_end e (err x, s) = err x
complete at_end e (panic, s) = panic
complete at_end e (stuck, s) = stuck

abbrev pub first_is : ℕ → Input → Bool
first_is b [] = false
first_is b (c ∷ i) = c == b

abbrev pub at_end_optional : {S : Type 0} → (S → Bool) → Option S → Bool
at_end_optional at_end none = true
at_end_optional at_end (some s) = at_end s

abbrev pub map_optional : {S T : Type 0} → (S → T) → Option S → Option T
map_optional f none = none
map_optional f (some s) = some (f s)

pub record Untrusted : Type 1 where
  pub Reader : Type 0
  pub new : Input → Reader
  pub remaining : Reader → Input
  pub at_end : Reader → Bool
  pub peek : Reader → ℕ → Bool
  pub read_byte : Reader → Option ℕ × Reader
  pub read_bytes : Reader → ℕ → Option Input × Reader
  pub read_bytes_to_end : Reader → Input × Reader
  pub skip : Reader → ℕ → Option (Unit {0}) × Reader
  pub skip_to_end : Reader → Reader
  pub read_partial : (A : Type 0) → Exec Reader A → Exec Reader (Input × A)
  pub read_all : (A : Type 0) → Input → Error → Exec Reader A → Result A
  pub read_all_optional : (A : Type 0) → Option Input → Error → Exec (Option Reader) A → Result A
  pub new-remaining : (r : Reader) → new (remaining r) ≡ r
  pub remaining-new : (i : Input) → remaining (new i) ≡ i
  pub at_end-new : (i : Input) → at_end (new i) ≡ is_empty i
  pub peek-new : (i : Input) (b : ℕ) → peek (new i) b ≡ first_is b i
  pub read_byte-nil : read_byte (new []) ≡ (none, new [])
  pub read_byte-cons : (b : ℕ) (i : Input) → read_byte (new (b ∷ i)) ≡ (some b, new i)
  pub read_bytes_enough :
      (n : ℕ) (i : Input) → n ≤ length i → read_bytes (new i) n ≡ (some (take n i), new (drop n i))
  pub read_bytes_short : (n : ℕ) (i : Input) → length i < n → (read_bytes (new i) n).0 ≡ none
  pub read_bytes_forward :
      (n : ℕ) (r : Reader) → length (remaining (read_bytes r n).1) ≤ length (remaining r)
  pub read_bytes_to_end-new : (i : Input) → read_bytes_to_end (new i) ≡ (i, new [])
  pub skip_enough : (n : ℕ) (i : Input) → n ≤ length i → skip (new i) n ≡ (some tt, new (drop n i))
  pub skip_short : (n : ℕ) (i : Input) → length i < n → (skip (new i) n).0 ≡ none
  pub skip_to_end-new : (i : Input) → skip_to_end (new i) ≡ new []
  pub read_partial-ok :
      (A : Type 0) (f : Exec Reader A) (i j : Input) (a : A)
      → f (new (i ++ j)) ≡ (ok a, new j)
      → read_partial A f (new (i ++ j)) ≡ (ok (i, a), new j)
  pub read_partial-err :
      (A : Type 0) (f : Exec Reader A) (r s : Reader) (e : Error)
      → f r ≡ (err e, s)
      → read_partial A f r ≡ (err e, s)
  pub read_all_lem :
      (A : Type 0) (i : Input) (e : Error) (f : Exec Reader A)
      → read_all A i e f ≡ complete at_end e (f (new i))
  pub read_all_optional_lem :
      (A : Type 0) (i : Option Input) (e : Error) (f : Exec (Option Reader) A)
      → read_all_optional A i e f ≡ complete (at_end_optional at_end) e (f (map_optional new i))

-- The operations, at the implementation in scope.
module _ ⦃u : Untrusted⦄ where
  abbrev pub Reader : Type 0
  Reader = u.Reader

  abbrev pub Decoder : Type 0 → Type 0
  Decoder A = Exec Reader A

  abbrev pub new : Input → Reader
  new = u.new

  abbrev pub remaining : Reader → Input
  remaining = u.remaining

  abbrev pub at_end : Reader → Bool
  at_end = u.at_end

  abbrev pub peek : Reader → ℕ → Bool
  peek = u.peek

  -- `Err(EndOfInput)` becomes the error `e`
  abbrev pub or_end : {A : Type 0} → Error → Option A × Reader → Result A × Reader
  or_end e (none, r) = (err e, r)
  or_end e (some a, r) = (ok a, r)

  -- `read_byte().map_err(|_| e)?`
  abbrev pub read_byte_or : Error → Decoder ℕ
  read_byte_or e r = or_end e (u.read_byte r)

  -- `read_byte()?`, by `From<EndOfInput> for Error`
  abbrev pub read_byte : Decoder ℕ
  read_byte = read_byte_or bad_der

  abbrev pub read_bytes : ℕ → Decoder Input
  read_bytes n r = or_end bad_der (u.read_bytes r n)

  abbrev pub read_bytes_to_end : Decoder Input
  read_bytes_to_end r = let (i, s) = u.read_bytes_to_end r in (ok i, s)

  abbrev pub skip : ℕ → Decoder (Unit {0})
  skip n r = or_end bad_der (u.skip r n)

  abbrev pub skip_to_end : Decoder (Unit {0})
  skip_to_end r = (ok tt, u.skip_to_end r)

  abbrev pub read_partial : {A : Type 0} → Decoder A → Decoder (Input × A)
  read_partial {A} = u.read_partial A

  abbrev pub read_all : {A : Type 0} → Input → Error → Decoder A → Result A
  read_all {A} = u.read_all A

  abbrev pub read_all_optional :
      {A : Type 0} → Option Input → Error → Exec (Option Reader) A → Result A
  read_all_optional {A} = u.read_all_optional A
