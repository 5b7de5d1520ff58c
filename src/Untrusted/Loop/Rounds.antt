-- ===== src/Untrusted/Loop/Rounds.antt =====
-- The loops over a reader come to an end when each round takes a byte.
use webpki.Prelude.{
  ℕ, zero, suc, ◌≤◌, ◌<◌, ◌≡◌, refl, ap, arith, Bool, true, false, inl, inr, [], ◌∷◌, length,
  is_empty, Bool-cases,
}
use mathlib.Core.Path.{subst}
use webpki.Result.{Result, ok}
use webpki.Untrusted.{Input, Untrusted, Reader, Decoder, remaining, at_end}
use webpki.Untrusted.Total.{
  IsSuffix-refl, left, Outcome, value, Outcome-continue, IsTotal, IsProgress,
}
use webpki.Untrusted.Loop.{while_fuel, while_not_at_end}

module _ ⦃u : Untrusted⦄ where
  pub at_end-remaining : (r : Reader) → at_end r ≡ is_empty (remaining r)
  at_end-remaining r =
      subst (λ s. at_end s ≡ is_empty (remaining r)) (u.new-remaining r)
        (u.at_end-new (remaining r))

  pub empty_at_end : (r : Reader) → left r ≤ 0 → at_end r ≡ true
  empty_at_end r h = rw (at_end-remaining r) (empty (remaining r) h)
    where
      empty : (i : Input) → length i ≤ 0 → is_empty i ≡ true
      empty [] h = refl
      empty (b ∷ i) h = absurd (omega arith)

  -- A round that takes a byte leaves the next one less to do.
  pub round_less :
      {A : Type 0} (m : Decoder A) (r : Reader) {a : A} {s : Reader}
      → IsProgress m
      → m r ≡ (ok a, s)
      → left s < left r
  round_less {A} m r {a} {s} h e = elim (h.at r) [
    | inl k ↦ subst (λ (x : Result A × Reader). left x.1 < left r) e k
    | inr (z, (d, k)) ↦ cc
  ]

  pub rest_less :
      {A : Type 0} (m : Decoder A) (r : Reader) {a : A}
      → IsProgress m
      → (m r).0 ≡ ok a
      → left (m r).1 < left r
  rest_less m r h e = round_less m r h (ap (λ x. (x, (m r).1)) e)

  -- So does one that fails with bytes to read.
  pub more_less :
      {A : Type 0} (m : Decoder A) (r : Reader)
      → IsProgress m
      → at_end r ≡ false
      → left (m r).1 < left r
  more_less m r h e = elim (h.at r) [
    | inl k ↦ k
    | inr (z, d) ↦ absurd (no_end (empty_at_end r (omega arith)))
  ]
    where
      no_end : at_end r ≡ true → ⊥
      no_end k = cc

  module _ {A : Type 0} {p : Bool} where
    while_fuel-Outcome :
        (fuel : ℕ) (body : A → Decoder A)
        → ((a : A) → IsTotal p (body a))
        → ((a : A) → IsProgress (body a))
        → (a : A) (r : Reader) → left r ≤ fuel
        → Outcome p (remaining r) (while_fuel fuel body a r)
    unfolding while_fuel
    while_fuel-Outcome zero body total progress a r h =
        rw (empty_at_end r h) (value (IsSuffix-refl _))
    while_fuel-Outcome (suc fuel) body total progress a r h = elim (Bool-cases (at_end r)) [
      | inl e ↦ rw e (value (IsSuffix-refl _))
      | inr e ↦ rw e (
          Outcome-continue (body a r) (while_fuel fuel body) ((total a).at r) (λ b s k.
            while_fuel-Outcome fuel body total progress b s
              (omega (arith, round_less (body a) r (progress a) k))))
    ]

    pub IsTotal-while_not_at_end :
        {body : A → Decoder A}
        → ((a : A) → IsTotal p (body a))
        → ((a : A) → IsProgress (body a))
        → (a : A) → IsTotal p (while_not_at_end body a)
    unfolding while_not_at_end
    IsTotal-while_not_at_end {body} total progress a = record {
      at = λ r. while_fuel-Outcome (left r) body total progress a r (omega arith);
    }
