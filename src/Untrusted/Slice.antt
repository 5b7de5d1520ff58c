-- ===== src/Untrusted/Slice.antt =====
-- The interface can be met: a reader as the list of the bytes that it has left. The runs of the
-- model at concrete inputs use this instance.
use webpki.Prelude.{
  ℕ, ◌-◌, ◌≤◌, ◌<◌, ◌≡◌, refl, Option, none, some, [], ◌∷◌, ◌++◌, arith, length, length-append,
  length-drop, is_empty, take, take-append, drop, leb, if◌then◌else◌,
}
use webpki.Error.{Error}
use webpki.Result.{Result, ok, err, panic, stuck}
use webpki.Exec.{Exec}
use webpki.Untrusted.{Input, Untrusted, complete, first_is, at_end_optional, map_optional}

abbrev pub slice_read_byte : Input → Option ℕ × Input
slice_read_byte [] = (none, [])
slice_read_byte (b ∷ i) = (some b, i)

abbrev pub slice_read_bytes : Input → ℕ → Option Input × Input
slice_read_bytes i n = if leb n (length i) then (some (take n i), drop n i) else (none, i)

abbrev pub slice_skip : Input → ℕ → Option (Unit {0}) × Input
slice_skip i n = if leb n (length i) then (some tt, drop n i) else (none, i)

pub slice_read_bytes_enough :
    (n : ℕ) (i : Input) → n ≤ length i → slice_read_bytes i n ≡ (some (take n i), drop n i)
slice_read_bytes_enough n i h = ground arith

pub slice_read_bytes_short : (n : ℕ) (i : Input) → length i < n → (slice_read_bytes i n).0 ≡ none
slice_read_bytes_short n i h = ground arith

pub slice_skip_enough : (n : ℕ) (i : Input) → n ≤ length i → slice_skip i n ≡ (some tt, drop n i)
slice_skip_enough n i h = ground arith

pub slice_skip_short : (n : ℕ) (i : Input) → length i < n → (slice_skip i n).0 ≡ none
slice_skip_short n i h = ground arith

abbrev pub consumed : {A : Type 0} → Input → Result A × Input → Result (Input × A) × Input
consumed i (ok a, j) = (ok (take (length i - length j) i, a), j)
consumed i (err e, j) = (err e, j)
consumed i (panic, j) = (panic, j)
consumed i (stuck, j) = (stuck, j)

pub slice_read_bytes_forward : (n : ℕ) (i : Input) → length (slice_read_bytes i n).1 ≤ length i
slice_read_bytes_forward n i = ground (arith, length-drop n i)

pub slice_read_partial-ok :
    (A : Type 0) (f : Exec Input A) (i j : Input) (a : A)
    → f (i ++ j) ≡ (ok a, j)
    → consumed (i ++ j) (f (i ++ j)) ≡ (ok (i, a), j)
slice_read_partial-ok A f i j a h =
    let size : length (i ++ j) - length j ≡ length i = omega (arith, length-append i j) in
    rw h (rw size (rw (take-append i j)))

pub slice_read_partial-err :
    (A : Type 0) (f : Exec Input A) (i j : Input) (e : Error)
    → f i ≡ (err e, j)
    → consumed i (f i) ≡ (err e, j)
slice_read_partial-err A f i j e h = rw h

abbrev pub slice : Untrusted
slice = record {
  Reader = Input;
  new = λ i. i;
  remaining = λ i. i;
  at_end = is_empty;
  peek = λ i b. first_is b i;
  read_byte = slice_read_byte;
  read_bytes = slice_read_bytes;
  read_bytes_to_end = λ i. (i, []);
  skip = slice_skip;
  skip_to_end = λ i. [];
  read_partial = λ A f i. consumed i (f i);
  read_all = λ A i e f. complete is_empty e (f i);
  read_all_optional =
      λ A i e f. complete (at_end_optional is_empty) e (f (map_optional (λ j. j) i));
  new-remaining = λ i. refl;
  remaining-new = λ i. refl;
  at_end-new = λ i. refl;
  peek-new = λ i b. refl;
  read_byte-nil = refl;
  read_byte-cons = λ b i. refl;
  read_bytes_enough = slice_read_bytes_enough;
  read_bytes_short = slice_read_bytes_short;
  read_bytes_forward = slice_read_bytes_forward;
  read_bytes_to_end-new = λ i. refl;
  skip_enough = slice_skip_enough;
  skip_short = slice_skip_short;
  skip_to_end-new = λ i. refl;
  read_partial-ok = slice_read_partial-ok;
  read_partial-err = slice_read_partial-err;
  read_all_lem = λ A i e f. refl;
  read_all_optional_lem = λ A i e f. refl;
}
