-- ===== src/Der/Flags.antt =====
-- src/der.rs: the lemmas on `bit_string_flags`.
use webpki.Prelude.{
  ℕ, ◌≡◌, ◌≢◌, ◌↔◌, refl, arith, Bool, true, false, not, ◌&&◌, ◌||◌, List, [], ◌∷◌, ltb, ◌==◌,
  if◌then◌else◌, is_empty,
}
use webpki.Error.{bad_der}
use webpki.Result.{Result, ok, err, panic, stuck}
use webpki.Exec.{raise, lift}
use webpki.Untrusted.{Input, Untrusted, new, complete}
use webpki.Der.{BitStringFlags, bit_string_flags, check_padding, last_byte}

last_byte-cons : (b : ℕ) (bs : List ℕ) → (l : ℕ) × (last_byte (b ∷ bs) ≡ ok l)
unfolding last_byte
last_byte-cons b [] = (b, refl)
last_byte-cons b (c ∷ bs) = last_byte-cons c bs

check_padding-ok : (bits : List ℕ) (padding l : ℕ) → check_padding bits padding (ok l) ≢ panic
unfolding check_padding
check_padding-ok bits padding l h = ground arith

module _ ⦃u : Untrusted⦄ where
  complete_end :
      (b : Bool) (r : Result BitStringFlags)
      → complete u.at_end bad_der ((if b then raise bad_der else lift r) (new []))
        ≡ (if b then err bad_der else r)
  complete_end true r = refl
  complete_end false (ok flags) = rw (u.at_end-new []) refl
  complete_end false (err e) = refl
  complete_end false panic = refl
  complete_end false stuck = refl

  flags-cons :
      (padding : ℕ) (bits : Input)
      → bit_string_flags (padding ∷ bits) ≡ (
          if ltb 7 padding || (is_empty bits && not (padding == 0))
          then err bad_der
          else check_padding bits padding (last_byte bits))
  unfolding bit_string_flags
  flags-cons padding bits =
      rw
        (
          u.read_all_lem _ (padding ∷ bits) bad_der _,
          u.read_byte-cons padding bits,
          u.read_bytes_to_end-new bits,
        )
        (complete_end (ltb 7 padding || is_empty bits && not (padding == 0))
          (check_padding bits padding (last_byte bits)))

  flags-nil : bit_string_flags [] ≡ err bad_der
  unfolding bit_string_flags
  flags-nil = rw (u.read_all_lem _ [] bad_der _, u.read_byte-nil) refl

  -- `bit_string_flags` panics on exactly one input: the single byte 0, a count of no padding bits with
  -- no bytes behind it.
  pub bit_string_flags-panic_iff :
      (input : Input) → (bit_string_flags input ≡ panic) ↔ (input ≡ 0 ∷ [])
  bit_string_flags-panic_iff [] = (λ h. cc flags-nil, λ h. cc)
  bit_string_flags-panic_iff (padding ∷ []) =
      unfold check_padding last_byte in ground (arith, flags-cons padding [])
  bit_string_flags-panic_iff (padding ∷ b ∷ bs) =
      let (l, last) = last_byte-cons b bs in
      (
        λ h.
            absurd
              (ground (arith, flags-cons padding (b ∷ bs), check_padding-ok (b ∷ bs) padding l)),
        λ h. cc,
      )
