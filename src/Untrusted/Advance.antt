-- ===== src/Untrusted/Advance.antt =====
-- The reader's own operations and the loops over it, by the rules for decoders that come to an end.
use webpki.Prelude.{
  ℕ, suc, ◌≤◌, ◌<◌, ◌≡◌, refl, sym, ap, ◌∙◌, arith, Bool, true, false, ◌⊎◌, inl, inr, Option, none,
  some, [], ◌∷◌, ◌++◌, length, drop, length-drop, append-nil,
}
use mathlib.Core.Path.{subst}
use native.Mathlib.Decide.{dec_le}
use webpki.Error.{Error, bad_der}
use webpki.Result.{Result, ok, err, panic, stuck}
use webpki.Exec.{Exec, map_err, replace_error, continue, ◌>>=◌}
use webpki.Untrusted.{
  Input, Untrusted, Reader, Decoder, new, remaining, at_end, peek, read_byte_or, read_bytes,
  read_bytes_to_end, read_partial, or_end, read_all, read_all_optional, at_end_optional, complete,
}
use webpki.Untrusted.Total.{
  Ends, returned, failed, panicked, Ends-if, IsSuffix-drop, left, Outcome, value, error, panicking,
  Outcome-Ends, IsTotal, IsProgress, IsTotal-forward,
}

module _ ⦃u : Untrusted⦄ where
  -- a claim on all readers is one on the readers over a byte slice
  pub by_slice : (P : Reader → Type 0) → ((i : Input) → P (new i)) → (r : Reader) → P r
  by_slice P h r = subst P (u.new-remaining r) (h (remaining r))

  module _ {p : Bool} where
    read_byte-Outcome :
        (e : Error) (i : Input) → Outcome p (remaining (new i)) (read_byte_or e (new i))
    read_byte-Outcome e [] = rw (u.read_byte-nil) (error (omega arith))
    read_byte-Outcome e (b ∷ i) =
        rw (u.read_byte-cons b i, u.remaining-new (b ∷ i))
          (value (rw (u.remaining-new i) (b ∷ [], refl)))

    pub read_byte_or-IsTotal : (e : Error) → IsTotal p (read_byte_or e)
    read_byte_or-IsTotal e = record {
      at = by_slice (λ r. Outcome p (remaining r) (read_byte_or e r)) (read_byte-Outcome e);
    }

    pub read_bytes_to_end-IsTotal : IsTotal p read_bytes_to_end
    read_bytes_to_end-IsTotal = record {
      at =
          by_slice (λ r. Outcome p (remaining r) (read_bytes_to_end r))
            (λ i.
              rw (u.read_bytes_to_end-new i, u.remaining-new i)
                (value (rw (u.remaining-new []) (i, sym (append-nil i)))));
    }

    or_end-Outcome :
        {A : Type 0} {j : Input} (x : Option A × Reader)
        → x.0 ≡ none
        → left x.1 ≤ length j
        → Outcome p j (or_end bad_der x)
    or_end-Outcome (none, s) e h = error h
    or_end-Outcome (some a, s) e h = cc

    read_bytes-Outcome : (n : ℕ) (i : Input) → Outcome p (remaining (new i)) (read_bytes n (new i))
    read_bytes-Outcome n i = elim (dec_le n (length i)) [
      | yes h ↦
          rw (u.read_bytes_enough n i h, u.remaining-new i)
            (value (rw (u.remaining-new (drop n i)) (IsSuffix-drop n i)))
      | no h ↦
          or_end-Outcome (u.read_bytes (new i) n) (u.read_bytes_short n i (omega arith))
            (u.read_bytes_forward n (new i))
    ]

    pub read_bytes-IsTotal : (n : ℕ) → IsTotal p (read_bytes n)
    read_bytes-IsTotal n = record {
      at = by_slice (λ r. Outcome p (remaining r) (read_bytes n r)) (read_bytes-Outcome n);
    }

    complete-Ends :
        {A : Type 0} (e : Error) (x : Result A × Reader) → Ends p x.0 → Ends p (complete at_end e x)
    complete-Ends e (ok a, r) h = Ends-if (at_end r) returned failed
    complete-Ends e (err d, r) h = failed
    complete-Ends e (panic, r) (panicked h) = panicked h
    complete-Ends e (stuck, r) h = elim h [ ]

    pub read_all-Ends_at :
        {A : Type 0} {m : Decoder A} (i : Input) (e : Error)
        → Ends p (m (new i)).0
        → Ends p (read_all i e m)
    read_all-Ends_at {A} {m} i e h = rw (u.read_all_lem A i e m) (complete-Ends e (m (new i)) h)

    pub read_all-Ends :
        {A : Type 0} {m : Decoder A} (i : Input) (e : Error) → IsTotal p m → Ends p (read_all i e m)
    read_all-Ends i e h = read_all-Ends_at i e (Outcome-Ends (h.at (new i)))

    -- inside an optional value
    optional_complete-Ends :
        {A : Type 0} (e : Error) (x : Result A × Option Reader)
        → Ends p x.0
        → Ends p (complete (at_end_optional at_end) e x)
    optional_complete-Ends e (ok a, r) h = Ends-if (at_end_optional at_end r) returned failed
    optional_complete-Ends e (err d, r) h = failed
    optional_complete-Ends e (panic, r) (panicked h) = panicked h
    optional_complete-Ends e (stuck, r) h = elim h [ ]

    pub read_all_optional-Ends :
        {A : Type 0} (i : Option Input) (e : Error) (m : Exec (Option Reader) A)
        → ((o : Option Reader) → Ends p (m o).0)
        → Ends p (read_all_optional i e m)
    read_all_optional-Ends {A} i e m h =
        rw (u.read_all_optional_lem A i e m) (optional_complete-Ends e (m _) (h _))

    partial-Outcome :
        {A : Type 0} (m : Decoder A) (r : Reader) (x : Result A × Reader)
        → m r ≡ x
        → Outcome false (remaining r) x
        → Outcome p (remaining r) (read_partial m r)
    partial-Outcome {A} m r (ok a, s) e (value (i, k)) =
        let split : r ≡ new (i ++ remaining s) = sym (u.new-remaining r) ∙ ap new k in
        let run : m (new (i ++ remaining s)) ≡ (ok a, new (remaining s)) =
          rw (sym split, u.new-remaining s) e in
        let partial : read_partial m r ≡ (ok (i, a), new (remaining s)) =
          ap (read_partial m) split ∙ u.read_partial-ok A m i (remaining s) a run in
        rw (partial, u.new-remaining s) (value (i, k))
    partial-Outcome {A} m r (err d, s) e (error h) = rw (u.read_partial-err A m r s d e) (error h)
    partial-Outcome m r (panic, s) e (panicking f h) = cc
    partial-Outcome m r (stuck, s) e h = elim h [ ]

    pub IsTotal-read_partial :
        {A : Type 0} {m : Decoder A} → IsTotal false m → IsTotal p (read_partial m)
    IsTotal-read_partial {A} {m} h = record { at = λ r. partial-Outcome m r (m r) refl (h.at r) }

  -- what the next byte of a reader may be
  abbrev pub NextByte : Reader → Type 0
  NextByte r =
      ((b : ℕ) × (s : Reader) × (u.read_byte r ≡ (some b, s)) × (left r ≡ suc (left s)))
      ⊎ ((s : Reader) × (u.read_byte r ≡ (none, s)) × (left r ≡ 0))

  slice_byte : (i : Input) → NextByte (new i)
  slice_byte [] = inr (new [], u.read_byte-nil, rw (u.remaining-new []) refl)
  slice_byte (b ∷ i) =
      inl (b, new i, u.read_byte-cons b i, rw (u.remaining-new i, u.remaining-new (b ∷ i)) refl)

  pub next_byte : (r : Reader) → NextByte r
  next_byte = by_slice NextByte slice_byte

  -- what skipping some bytes may give
  abbrev pub Skipped : ℕ → Reader → Type 0
  Skipped n r = ((s : Reader) × (u.skip r n ≡ (some tt, s)) × (left s ≤ left r)) ⊎ (left r < n)

  slice_skip : (n : ℕ) (i : Input) → Skipped n (new i)
  slice_skip n i = elim (dec_le n (length i)) [
    | yes h ↦ inl (
      new (drop n i),
      u.skip_enough n i h,
      rw (u.remaining-new i, u.remaining-new (drop n i)) (omega (arith, length-drop n i)),
    )
    | no h ↦ inr (rw (u.remaining-new i) (omega arith))
  ]

  pub skipped : (n : ℕ) (r : Reader) → Skipped n r
  skipped n = by_slice (Skipped n) (slice_skip n)

  slice_peek : (b : ℕ) (i : Input) → peek (new i) b ≡ true → 0 < left (new i)
  slice_peek b [] h = let none_there = u.peek-new [] b in cc
  slice_peek b (c ∷ i) h = rw (u.remaining-new (c ∷ i)) (omega arith)

  pub peek-left : (b : ℕ) (r : Reader) → peek r b ≡ true → 0 < left r
  peek-left b = by_slice (λ r. peek r b ≡ true → 0 < left r) (slice_peek b)

  read_byte-progress :
      (e : Error) (i : Input)
      → (left (read_byte_or e (new i)).1 < left (new i))
        ⊎ ((left (new i) ≡ 0) × ((d : Error) × ((read_byte_or e (new i)).0 ≡ err d)))
  read_byte-progress e [] = inr (rw (u.remaining-new []) refl, (e, rw (u.read_byte-nil) refl))
  read_byte-progress e (b ∷ i) =
      inl (rw (u.read_byte-cons b i, u.remaining-new i, u.remaining-new (b ∷ i)) (omega arith))

  pub read_byte_or-IsProgress : (e : Error) → IsProgress (read_byte_or e)
  read_byte_or-IsProgress e = record {
    at =
        by_slice
          (λ r.
            (left (read_byte_or e r).1 < left r)
            ⊎ ((left r ≡ 0) × ((d : Error) × ((read_byte_or e r).0 ≡ err d))))
          (read_byte-progress e);
  }

  module _ {A B : Type 0} {p : Bool} where
    continue_progress :
        (x : Result A × Reader) (f : A → Decoder B) (n : ℕ)
        → ((a : A) → IsTotal p (f a))
        → (left x.1 < n) ⊎ ((n ≡ 0) × ((d : Error) × (x.0 ≡ err d)))
        → (left (continue x.0 f x.1).1 < n)
          ⊎ ((n ≡ 0) × ((d : Error) × ((continue x.0 f x.1).0 ≡ err d)))
    continue_progress (ok a, s) f n h (inl k) = inl (omega (arith, IsTotal-forward (h a) s))
    continue_progress (ok a, s) f n h (inr (z, (d, e))) = cc
    continue_progress (err d, s) f n h (inl k) = inl k
    continue_progress (err d, s) f n h (inr (z, k)) = inr (z, (d, refl))
    continue_progress (panic, s) f n h (inl k) = inl k
    continue_progress (panic, s) f n h (inr (z, (d, e))) = cc
    continue_progress (stuck, s) f n h (inl k) = inl k
    continue_progress (stuck, s) f n h (inr (z, (d, e))) = cc

    pub IsProgress-bind :
        {m : Decoder A} {f : A → Decoder B}
        → IsProgress m
        → ((a : A) → IsTotal p (f a))
        → IsProgress (m >>= f)
    IsProgress-bind {m} {f} hm hf = record {
      at = λ r. continue_progress (m r) f (left r) hf (hm.at r);
    }

  module _ {A : Type 0} where
    map_err_progress :
        (d : Error) (x : Result A × Reader) (n : ℕ)
        → (left x.1 < n) ⊎ ((n ≡ 0) × ((e : Error) × (x.0 ≡ err e)))
        → (left x.1 < n) ⊎ ((n ≡ 0) × ((e : Error) × (replace_error d x.0 ≡ err e)))
    map_err_progress d x n (inl k) = inl k
    map_err_progress d x n (inr (z, (e, h))) = inr (z, (d, rw h refl))

    pub IsProgress-map_err : (d : Error) {m : Decoder A} → IsProgress m → IsProgress (map_err d m)
    IsProgress-map_err d {m} h = record { at = λ r. map_err_progress d (m r) (left r) (h.at r) }
