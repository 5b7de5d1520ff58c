-- ===== src/SubjectName/DnsName/Total.antt =====
-- src/subject_name/dns_name.rs: checking and matching DNS names comes to an end.
use webpki.Prelude.{
  ℕ, zero, suc, ◌≤◌, ◌<◌, ◌≡◌, ◌≢◌, ltb→lt, ◌-◌, refl, sym, ap, arith, Bool, true, false, not, ◌&&◌,
  Option, none, some, inl, inr, Bool-cases, Option-cases, ltb, ◌==◌, if◌then◌else◌, length,
  is_empty,
}
use mathlib.Core.Path.{subst}
use webpki.Error.{malformed_dns_identifier}
use webpki.Result.{Result, ok, err, panic}
use webpki.Untrusted.{Input, Untrusted, Reader, new, at_end, peek}
use webpki.Untrusted.Total.{Ends, returned, failed, Ends-if, Ends-bind, Ends-bind_value, left}
use webpki.Untrusted.Advance.{next_byte, skipped, peek-left}
use webpki.SubjectName.DnsName.{
  allows, is_name_constraint, IdRole, reference, presented, name_constraint, AllowWildcards,
  wildcards, no_wildcards, matched, unmatched, unreachable, from, skip_prefix, after_dot, Scan,
  scan_byte, scan_loop, skip_wildcard, scan_from, is_valid_dns_id, Start, start, skip_label,
  ascii_lower, compare_loop, skip_dot, ended, absolute_end, assert_ended, after_compare,
  compare_names, compare_after_label, skip_star, wildcard_then_compare,
  presented_id_matches_reference_id_internal, presented_id_matches_reference_id,
  presented_id_matches_constraint,
}

module _ ⦃u : Untrusted⦄ where
  skip_wildcard-le : (r s : Reader) → skip_wildcard r ≡ some s → left s ≤ left r
  unfolding skip_wildcard
  skip_wildcard-le r s h = elim (next_byte r) [
    | inr (rest, e, z) ↦ absurd (ground (arith, e))
    | inl (b, rest, e, less) ↦ elim (next_byte rest) [
      | inr (rest', f, z) ↦ absurd (ground (arith, e, f))
      | inl (c, rest', f, less') ↦
          let same : rest' ≡ s = ground (arith, e, f) in rw (sym same) (omega arith)
    ]
  ]

  scanned_from :
      (hostname : Input) (is_wildcard : Bool) (r : Reader)
      → (if is_wildcard then skip_wildcard (new hostname) else some (new hostname)) ≡ some r
      → left r < suc (length hostname)
  scanned_from hostname true r h =
      let le = skip_wildcard-le (new hostname) r h in
      omega (arith, ap (λ (i : Input). length i) (u.remaining-new hostname))
  scanned_from hostname false r h =
      let same : new hostname ≡ r = cc in
      omega (
        arith,
        ap (λ (i : Input). length i) (u.remaining-new hostname),
        ap (λ (t : Reader). left t) same,
      )

  absolute_end-at_end :
      (role : IdRole) (ref r : Reader) → absolute_end role ref ≡ some r → at_end r ≡ true
  unfolding absolute_end ended
  absolute_end-at_end role ref r h = elim (Bool-cases (at_end ref)) [
    | inl e ↦ let same : ref ≡ r = ground arith in rw (sym same) e
    | inr e ↦ elim (Option-cases (skip_dot role ref)) [
      | inl f ↦ absurd (ground arith)
      | inr (s, f) ↦ elim (Bool-cases (at_end s)) [
        | inl g ↦ let same : s ≡ r = ground arith in rw (sym same) g
        | inr g ↦ absurd (ground arith)
      ]
    ]
  ]

  -- the presented name has been read to its end
  abbrev Ended : Option (Reader × Reader) → Type 0
  Ended none = Unit
  Ended (some (pres, ref)) = at_end pres ≡ true

  Ended-round :
      (same last dot : Bool) (pres ref : Reader) (again : Result (Option (Reader × Reader)))
      (rest : Option (Reader × Reader))
      → at_end pres ≡ last
      → (again ≡ ok rest → Ended rest)
      → (if not same
          then ok none
          else if last
          then (if dot then err malformed_dns_identifier else ok (some (pres, ref)))
          else again)
        ≡ ok rest
      → Ended rest
  Ended-round same last dot pres ref again none e k h = tt
  Ended-round false last dot pres ref again (some x) e k h = cc
  Ended-round true false dot pres ref again (some x) e k h = k h
  Ended-round true true true pres ref again (some x) e k h = cc
  Ended-round true true false pres ref again (some (p, r)) e k h =
      let same : pres ≡ p = ground arith in rw (sym same) e

  compare_loop-Ended :
      (fuel : ℕ) (pres ref : Reader) (rest : Option (Reader × Reader))
      → compare_loop fuel pres ref ≡ ok rest
      → Ended rest
  unfolding compare_loop
  compare_loop-Ended zero pres ref rest h = cc
  compare_loop-Ended (suc fuel) pres ref none h = tt
  compare_loop-Ended (suc fuel) pres ref (some x) h = elim (next_byte pres) [
    | inr (pres', e, z) ↦ absurd (ground (arith, e))
    | inl (b, pres', e, less) ↦ elim (next_byte ref) [
      | inr (ref', f, z) ↦ absurd (ground (arith, e, f))
      | inl (c, ref', f, less') ↦
          Ended-round (ascii_lower b == ascii_lower c) (at_end pres') (b == b'.') pres' ref'
            (compare_loop fuel pres' ref') (some x) refl
            (compare_loop-Ended fuel pres' ref' (some x))
            (rw (e, f) at (rw f at (rw (e, compare_loop) at h)))
    ]
  ]

  module _ {p : Bool} where
    scan_loop-Ends :
        (fuel : ℕ) (id_role : IdRole) (is_wildcard : Bool) (s : Scan) (input : Reader)
        → left input < fuel
        → Ends p (scan_loop fuel id_role is_wildcard s input)
    unfolding scan_loop
    scan_loop-Ends zero id_role is_wildcard s input h = absurd (omega arith)
    scan_loop-Ends (suc fuel) id_role is_wildcard s input h = elim (next_byte input) [
      | inr (rest, e, z) ↦ rw (e, scan_loop) returned
      | inl (b, rest, e, less) ↦
          rw (e, scan_loop)
            (elim (Option-cases (scan_byte id_role s b)) [
              | inl f ↦ rw f returned
              | inr (s', f) ↦ rw f (
                  rw e (
                    Ends-if (at_end rest) returned
                      (scan_loop-Ends fuel id_role is_wildcard s' rest (omega arith))))
            ])
    ]

    skip_label-Ends : (fuel : ℕ) (ref : Reader) → left ref < fuel → Ends p (skip_label fuel ref)
    unfolding skip_label
    skip_label-Ends zero ref h = absurd (omega arith)
    skip_label-Ends (suc fuel) ref h = elim (next_byte ref) [
      | inr (rest, e, z) ↦ rw (e, skip_label) returned
      | inl (b, rest, e, less) ↦
          rw (e, skip_label)
            (rw e (Ends-if (peek rest b'.') returned (skip_label-Ends fuel rest (omega arith))))
    ]

    compare_loop-Ends :
        (fuel : ℕ) (pres ref : Reader) → left pres < fuel → Ends p (compare_loop fuel pres ref)
    unfolding compare_loop
    compare_loop-Ends zero pres ref h = absurd (omega arith)
    compare_loop-Ends (suc fuel) pres ref h = elim (next_byte pres) [
      | inr (rest, e, z) ↦ rw (e, compare_loop) returned
      | inl (b, rest, e, less) ↦
          rw (e, compare_loop)
            (elim (next_byte ref) [
              | inr (rest', f, z) ↦ rw f returned
              | inl (c, rest', f, less') ↦ rw f (
                  rw (e, f)
                    (Ends-if _ returned (
                      Ends-if (at_end rest) (Ends-if (b == b'.') failed returned)
                        (compare_loop-Ends fuel rest rest' (omega arith)))))
            ])
    ]

    scan_from-Ends :
        (input : Option Reader) (fuel : ℕ) (id_role : IdRole) (is_wildcard : Bool)
        → ((r : Reader) → input ≡ some r → left r < fuel)
        → Ends p (scan_from input fuel id_role is_wildcard)
    unfolding scan_from
    scan_from-Ends none fuel id_role is_wildcard h = returned
    scan_from-Ends (some r) fuel id_role is_wildcard h =
        scan_loop-Ends fuel id_role is_wildcard _ r (h r refl)

    pub is_valid_dns_id-Ends :
        (hostname : Input) (id_role : IdRole) (allow_wildcards : AllowWildcards)
        → Ends p (is_valid_dns_id hostname id_role allow_wildcards)
    unfolding is_valid_dns_id
    is_valid_dns_id-Ends hostname id_role allow_wildcards =
        let input = new hostname in
        let is_wildcard = allows allow_wildcards && peek input b'*' in
        Ends-if (ltb 253 (length hostname)) returned (
          Ends-if (is_name_constraint id_role && at_end input) returned (
            scan_from-Ends (if is_wildcard then skip_wildcard input else some input)
              (suc (length hostname)) id_role is_wildcard (scanned_from hostname is_wildcard)))

    after_compare-Ends :
        (role : IdRole) (rest : Option (Reader × Reader))
        → Ended rest
        → Ends p (after_compare role rest)
    unfolding after_compare assert_ended
    after_compare-Ends role none h = returned
    after_compare-Ends role (some (pres, ref)) h = elim (Option-cases (absolute_end role ref)) [
      | inl e ↦ rw e returned
      | inr (r, e) ↦ rw e (let last = absolute_end-at_end role ref r e in rw h (rw last returned))
    ]

    compare_names-Ends :
        (role : IdRole) (fuel : ℕ) (pres ref : Reader)
        → left pres < fuel
        → Ends p (compare_names role fuel pres ref)
    unfolding compare_names
    compare_names-Ends role fuel pres ref h =
        Ends-bind_value (compare_loop-Ends fuel pres ref h)
          (λ rest e. after_compare-Ends role rest (compare_loop-Ended fuel pres ref rest e))

    compare_after_label-Ends :
        (role : IdRole) (n : ℕ) (pres : Reader) (label : Option Reader)
        → left pres ≤ n
        → Ends p (compare_after_label role n pres label)
    unfolding compare_after_label
    compare_after_label-Ends role n pres none h = returned
    compare_after_label-Ends role n pres (some ref) h =
        compare_names-Ends role (suc n) pres ref (omega arith)

    wildcard_then_compare-Ends :
        (role : IdRole) (n r : ℕ) (pres ref : Reader)
        → left pres ≤ n
        → left ref ≤ r
        → Ends p (wildcard_then_compare role n r pres ref)
    unfolding wildcard_then_compare skip_star
    wildcard_then_compare-Ends role n r pres ref h k = elim (Bool-cases (peek pres b'*')) [
      | inr e ↦ rw e (compare_names-Ends role (suc n) pres ref (omega arith))
      | inl e ↦ elim (skipped 1 pres) [
        | inl (s, f, le) ↦
            rw (e, f)
              (Ends-bind (skip_label-Ends (suc r) ref (omega arith))
                (λ label. compare_after_label-Ends role n s label (omega arith)))
        | inr short ↦ absurd (omega (arith, peek-left b'*' pres e))
      ]
    ]

  -- what is compared is what is left of the presented name
  abbrev Begins : ℕ → Start → Type 0
  Begins n matched = Unit
  Begins n unmatched = Unit
  Begins n unreachable = ⊥
  Begins n (from pres) = left pres ≤ n

  Begins-if :
      (n : ℕ) (b : Bool) (x y : Start) → Begins n x → Begins n y → Begins n (if b then x else y)
  Begins-if n true x y h k = h
  Begins-if n false x y h k = k

  skip_prefix-Begins :
      (n : ℕ) (pres : Reader) → n ≤ left pres → Begins (left pres) (skip_prefix pres n)
  unfolding skip_prefix
  skip_prefix-Begins n pres h = elim (skipped n pres) [
    | inl (s, e, le) ↦ rw (e, skip_prefix) (rw e le)
    | inr short ↦ absurd (omega arith)
  ]

  after_dot-Begins : (n : ℕ) (x : Start) → Begins n x → Begins n (after_dot x)
  unfolding after_dot
  after_dot-Begins n matched h = tt
  after_dot-Begins n unmatched h = tt
  after_dot-Begins n unreachable h = h
  after_dot-Begins n (from pres) h = elim (next_byte pres) [
    | inr (rest, e, z) ↦ rw (e, after_dot) tt
    | inl (b, rest, e, less) ↦
        rw (e, after_dot) (Begins-if n (b == b'.') _ _ (rw e (omega arith)) tt)
  ]

  left-new : (i : Input) → left (new i) ≡ length i
  left-new i = rw (u.remaining-new i) refl

  start-Begins :
      (role : IdRole) (presented_dns_id reference_dns_id : Input)
      → role ≢ presented
      → Begins (length presented_dns_id) (start role presented_dns_id reference_dns_id)
  unfolding start
  start-Begins reference i j h = omega (arith, left-new i)
  start-Begins presented i j h = absurd (h refl)
  start-Begins name_constraint i j h = elim (Bool-cases (ltb (length j) (length i))) [
    | inr e ↦ rw e (omega (arith, left-new i))
    | inl e ↦
        let less = ltb→lt (length j) (length i) e in
        rw e (
          Begins-if (length i) (is_empty j) _ _ tt (
            Begins-if (length i) (peek (new j) b'.') _ _
              (prefix i (length i - length j) (omega arith))
              (after_dot-Begins (length i) _ (prefix i (length i - length j - 1) (omega arith)))))
  ]
    where
      prefix : (i : Input) (n : ℕ) → n ≤ length i → Begins (length i) (skip_prefix (new i) n)
      prefix i n k =
          subst (λ t. Begins t (skip_prefix (new i) n)) (left-new i)
            (skip_prefix-Begins n (new i) (omega (arith, left-new i)))

  module _ {p : Bool} where
    internal-Ends :
        (presented_dns_id : Input) (role : IdRole) (reference_dns_id : Input)
        → role ≢ presented
        → Ends p (presented_id_matches_reference_id_internal presented_dns_id role reference_dns_id)
    unfolding presented_id_matches_reference_id_internal
    internal-Ends presented_dns_id role reference_dns_id h =
        Ends-bind (is_valid_dns_id-Ends presented_dns_id presented wildcards) (λ presented_valid.
          Ends-if (not presented_valid) failed (
            Ends-bind (is_valid_dns_id-Ends reference_dns_id role no_wildcards) (λ reference_valid.
              Ends-if (not reference_valid) failed (
                compared (start role presented_dns_id reference_dns_id)
                  (start-Begins role presented_dns_id reference_dns_id h)))))
      where
        compared :
            (x : Start)
            → Begins (length presented_dns_id) x
            → Ends p (elim x [
              | matched ↦ ok true
              | unmatched ↦ ok false
              | unreachable ↦ panic
              | from t ↦
                  wildcard_then_compare role
                    (length presented_dns_id)
                    (length reference_dns_id)
                    t
                    (new reference_dns_id)
            ])
        compared matched k = returned
        compared unmatched k = returned
        compared unreachable k = elim k [ ]
        compared (from t) k =
            wildcard_then_compare-Ends role _ _ t _ k (omega (arith, left-new reference_dns_id))

  pub presented_id_matches-Ends :
      {p : Bool} (presented_dns_id reference_dns_id : Input)
      → Ends p (presented_id_matches_reference_id presented_dns_id reference_dns_id)
        × Ends p (presented_id_matches_constraint presented_dns_id reference_dns_id)
  unfolding presented_id_matches_reference_id presented_id_matches_constraint
  presented_id_matches-Ends presented_dns_id reference_dns_id = (
    internal-Ends presented_dns_id reference reference_dns_id cc,
    internal-Ends presented_dns_id name_constraint reference_dns_id cc,
  )
