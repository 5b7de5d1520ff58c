-- ===== src/SubjectName/IpAddress/Total.antt =====
-- src/subject_name/ip_address.rs: comparing an address with a network comes to an end.
use webpki.Prelude.{
  ℕ, zero, suc, ◌≤◌, ◌<◌, ◌≡◌, refl, ap, sym, ◌∙◌, arith, Bool, true, false, ◌&&◌, ◌||◌, inl, inr,
  Bool-cases, ◌==◌, if◌then◌else◌, length, is_empty, [], ◌∷◌,
}
use webpki.Error.{bad_der}
use webpki.Result.{Result, ok, err, panic, stuck}
use webpki.Untrusted.{Input, Untrusted, Reader, new, remaining, at_end, read_byte, read_bytes}
use webpki.Untrusted.Total.{
  Ends, returned, failed, panicked, Ends-if, Ends-bind, left, Outcome, value, error, panicking,
  IsTotal, IsTotal-Ends, IsTotal-bind, IsTotal-pure,
}
use webpki.Untrusted.Advance.{
  read_byte_or-IsTotal, read_byte_or-IsProgress, read_bytes-IsTotal, read_all-Ends,
}
use webpki.Untrusted.Loop.Rounds.{at_end-remaining}
use webpki.SubjectName.IpAddress.{
  unwrap, Round, go_on, answer, mask_round, after_mask_round, mask_loop, unwrap_bytes,
  compare_masked, presented_id_matches_constraint,
}

-- the round goes on, or its answer comes to an end
data RoundEnds : Round → Type 0 where
  going : {seen : Bool} → RoundEnds (go_on seen)
  answered : {r : Result Bool} → Ends true r → RoundEnds (answer r)

RoundEnds-if : (b : Bool) {x y : Round} → RoundEnds x → RoundEnds y → RoundEnds (if b then x else y)
RoundEnds-if true h k = h
RoundEnds-if false h k = k

mask_round-RoundEnds : (seen : Bool) (n a m : ℕ) → RoundEnds (mask_round seen n a m)
unfolding mask_round
mask_round-RoundEnds seen n a m = search (RoundEnds-if, going, answered, returned, failed) depth 8

unwrap-Ends : {A : Type 0} (r : Result A) → Ends true r → Ends true (unwrap r)
unwrap-Ends (ok a) h = returned
unwrap-Ends (err e) h = panicked refl
unwrap-Ends panic h = panicked refl
unwrap-Ends stuck h = elim h [ ]

module _ ⦃u : Untrusted⦄ where
  after_mask_round-Ends :
      (x : Round) (again : Bool → Result Bool)
      → RoundEnds x
      → ((seen : Bool) → Ends true (again seen))
      → Ends true (after_mask_round x again)
  unfolding after_mask_round
  after_mask_round-Ends (answer r) again (answered h) k = h
  after_mask_round-Ends (go_on seen) again h k = k seen

  more_left : (r : Reader) → at_end r ≡ false → 0 < left r
  more_left r e = nonempty (remaining r) (sym (at_end-remaining r) ∙ e)
    where
      nonempty : (i : Input) → is_empty i ≡ false → 0 < length i
      nonempty [] k = cc
      nonempty (b ∷ i) k = omega arith

  byte-Ends : (r : Reader) → Ends true (unwrap (read_byte r).0)
  byte-Ends r = unwrap-Ends (read_byte r).0 (IsTotal-Ends (read_byte_or-IsTotal bad_der) r)

  one_less : (r : Reader) → 0 < left r → left (read_byte r).1 < left r
  one_less r h = elim ((read_byte_or-IsProgress bad_der).at r) [
    | inl k ↦ k
    | inr (z, d) ↦ absurd (omega arith)
  ]

  mask_loop-Ends :
      (fuel : ℕ) (seen : Bool) (name address mask : Reader)
      → left name ≤ fuel
      → 0 < left name
      → Ends true (mask_loop fuel seen name address mask)
  unfolding mask_loop
  mask_loop-Ends zero seen name address mask h k = absurd (omega arith)
  mask_loop-Ends (suc fuel) seen name address mask h k = Ends-bind (byte-Ends name) (λ n.
      Ends-bind (byte-Ends address) (λ a. Ends-bind (byte-Ends mask) (λ m.
        after_mask_round-Ends _ _ (mask_round-RoundEnds seen n a m) (λ seen'.
          elim (Bool-cases (at_end (read_byte name).1)) [
            | inl e ↦ rw e returned
            | inr e ↦
                rw e
                  (mask_loop-Ends fuel seen' _ _ _ (omega (arith, one_less name k)) (more_left _ e))
          ]))))

  unwrap-Outcome :
      (i : Input) (x : Result Input × Reader) → Outcome false i x → Outcome true i (unwrap x.0, x.1)
  unwrap-Outcome i (ok a, r) (value h) = value h
  unwrap-Outcome i (err e, r) (error h) = panicking refl h
  unwrap-Outcome i (panic, r) (panicking e h) = panicking refl h
  unwrap-Outcome i (stuck, r) h = elim h [ ]

  unwrap_bytes-IsTotal : (n : ℕ) → IsTotal true (unwrap_bytes n)
  unfolding unwrap_bytes
  unwrap_bytes-IsTotal n = record {
    at = λ r. unwrap-Outcome (remaining r) (read_bytes n r) ((read_bytes-IsTotal n).at r);
  }

  compare_masked-Ends :
      (name constraint : Input) → 0 < length name → Ends true (compare_masked name constraint)
  unfolding compare_masked
  compare_masked-Ends name constraint h =
      Ends-bind
        (read_all-Ends constraint _ (
          IsTotal-bind (unwrap_bytes-IsTotal _) (λ address.
            IsTotal-bind (unwrap_bytes-IsTotal _) (λ mask. IsTotal-pure (address, mask)))))
        (λ (address, mask).
          mask_loop-Ends (length name) false (new name) (new address) (new mask)
            (omega (arith, ap (λ (i : Input). length i) (u.remaining-new name)))
            (omega (arith, ap (λ (i : Input). length i) (u.remaining-new name))))

  pub presented_id_matches_constraint-Ends :
      (name constraint : Input) → Ends true (presented_id_matches_constraint name constraint)
  unfolding presented_id_matches_constraint
  presented_id_matches_constraint-Ends name constraint =
      elim (Bool-cases (
        (length name == 4 && length constraint == 8)
        || (length name == 16 && length constraint == 32))) [
          | inl e ↦ rw e (compare_masked-Ends name constraint (ground (arith, e)))
          | inr e ↦ rw e (
              Ends-if
                ((length name == 4 && length constraint == 32)
                  || (length name == 16 && length constraint == 8))
                returned (Ends-if (length name == 4 || length name == 16) failed failed))
        ]
