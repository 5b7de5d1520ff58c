-- ===== src/VerifyCert/Loop.antt =====
-- src/verify_cert.rs: the lemmas on `loop_while_non_fatal_error`.
use webpki.Prelude.{ℕ, ◌≤◌, ◌≡◌, refl, arith, ◌⊎◌, inl, inr, List, [], ◌∷◌, All}
use webpki.Error.{Error, rank, most_specific, maximum_signature_checks_exceeded}
use webpki.Error.Rank.{most_specific-left, most_specific-right}
use webpki.Result.{Result, ok, err, panic, stuck}
use webpki.Exec.{Exec}
use webpki.VerifyCert.{loop_while_non_fatal_error, after_round}

module _ {V : Type 0} where
  -- `P` holds of a value of the list.
  pub data Any (P : V → Type 0) : List V → Type 0 where
    here : {v : V} {vs : List V} → P v → Any P (v ∷ vs)
    there : {v : V} {vs : List V} → Any P vs → Any P (v ∷ vs)

module _ (again : Error → Exec ℕ (Unit {0})) where
  pub after_round-eq-ok :
      (r : Result (Unit {0})) (s t : ℕ)
      → after_round again r s ≡ (ok tt, t)
      → ((r ≡ ok tt) × (s ≡ t)) ⊎ ((e : Error) × (again e s ≡ (ok tt, t)))
  unfolding after_round
  after_round-eq-ok (ok tt) s t h = inl (refl, cc)
  after_round-eq-ok panic s t h = cc
  after_round-eq-ok stuck s t h = cc
  after_round-eq-ok (err maximum_signature_checks_exceeded) s t h = cc
  after_round-eq-ok (err e) s t h = inr (e, h)

  -- the error is the fatal one, or the loop has gone on with an error of the round
  after_round-eq-err :
      (r : Result (Unit {0})) (s t : ℕ) (e : Error)
      → after_round again r s ≡ (err e, t)
      → (e ≡ maximum_signature_checks_exceeded)
        ⊎ ((e1 : Error) × (r ≡ err e1) × (again e1 s ≡ (err e, t)))
  unfolding after_round
  after_round-eq-err (ok tt) s t e h = cc
  after_round-eq-err panic s t e h = cc
  after_round-eq-err stuck s t e h = cc
  after_round-eq-err (err maximum_signature_checks_exceeded) s t e h = inl cc
  after_round-eq-err (err e1) s t e h = inr (e1, refl, h)

module _ {V : Type 0} (f : V → Exec ℕ (Unit {0})) where
  -- some run of `f` on the value succeeds, and leaves the count `t`
  abbrev pub SucceedsTo : ℕ → V → Type 0
  SucceedsTo t v = (s : ℕ) × (f v s ≡ (ok tt, t))

  -- some run of `f` on the value fails, and with no more specific an error than `e`
  abbrev pub FailsBelow : Error → V → Type 0
  FailsBelow e v = (s : ℕ) × (t : ℕ) × (e1 : Error) × (f v s ≡ (err e1, t)) × (rank e1 ≤ rank e)

  -- A loop that succeeds has a value on which the closure succeeds.
  pub loop-eq-ok :
      (error : Error) (values : List V) (s t : ℕ)
      → loop_while_non_fatal_error error values f s ≡ (ok tt, t)
      → Any (SucceedsTo t) values
  unfolding loop_while_non_fatal_error
  loop-eq-ok error [] s t h = cc
  loop-eq-ok error (v ∷ values) s t h = elim (after_round-eq-ok _ (f v s).0 (f v s).1 t h) [
    | inl (r, same) ↦ Any.here (s, cc)
    | inr (e, rest) ↦ Any.there (loop-eq-ok (most_specific error e) values (f v s).1 t rest)
  ]

  -- A loop that fails has the fatal error, or it has run the closure on every value, each run failed,
  -- and its error ranks no lower than the default error and the error of each run.
  pub loop-eq-err :
      (error : Error) (values : List V) (s t : ℕ) (e : Error)
      → loop_while_non_fatal_error error values f s ≡ (err e, t)
      → (e ≡ maximum_signature_checks_exceeded)
        ⊎ ((rank error ≤ rank e) × All (FailsBelow e) values)
  unfolding loop_while_non_fatal_error
  loop-eq-err error [] s t e h = let same : error ≡ e = cc in inr (rw same (omega arith), tt)
  loop-eq-err error (v ∷ values) s t e h = elim (after_round-eq-err _ (f v s).0 (f v s).1 t e h) [
    | inl fatal ↦ inl fatal
    | inr (e1, r, rest) ↦ elim (loop-eq-err (most_specific error e1) values (f v s).1 t e rest) [
      | inl fatal ↦ inl fatal
      | inr (first, others) ↦ inr (
        omega (arith, most_specific-left error e1),
        ((s, (f v s).1, e1, cc, omega (arith, most_specific-right error e1)), others),
      )
    ]
  ]
