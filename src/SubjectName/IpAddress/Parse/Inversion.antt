-- ===== src/SubjectName/IpAddress/Parse/Inversion.antt =====
-- src/subject_name/ip_address.rs: what `parse_ipv4_address` has read at the end of an octet.
use webpki.Prelude.{
  ℕ, suc, ◌+◌, ◌-◌, ◌*◌, ◌<◌, ◌≤◌, ◌≡◌, ◌≢◌, ◌⊎◌, inl, inr, refl, sym, ◌∙◌, arith, Bool, true,
  false, not, ◌||◌, none, some, Option, List, [], ◌∷◌, ◌++◌, ◌==◌, length, is_empty, Bool-cases,
}
use webpki.Result.{Result, ok, err, panic, stuck, ◌>>=◌, >>=-eq-ok}
use webpki.Untrusted.{Input, Untrusted, first_is}
use webpki.SubjectName.IpAddress.Parse.{
  Ipv4Scan, ipv4_byte, ipv4_dot, ipv4_digit, ipv4_end, ipv4_loop, set_at, slice_to, expect_u8,
  radix10_to_octet, radix10_from,
}
use webpki.SubjectName.IpAddress.Parse.Ipv4.{scan, Value, run, after, loop_step, octet_text}

end_inv :
    (x y z size k n : ℕ) (octets os : List ℕ)
    → Value x y z size n
    → 1 ≤ size
    → ipv4_end (scan false x y z size k octets) ≡ ok (some os)
    → (n < 256) × (k ≡ 3) × (set_at octets k n ≡ ok os)
unfolding ipv4_end expect_u8
end_inv x y z size k n octets os (digits, taken, value) h e = ground arith

dot_inv :
    (x y z size k n : ℕ) (octets : List ℕ) (ends dot : Bool) (t : Ipv4Scan)
    → Value x y z size n
    → ipv4_byte (scan false x y z size k octets) b'.' ends dot ≡ ok (some t)
    → (n < 256)
      × (k ≢ 3)
      × (ends ≡ false)
      × (octets' : List ℕ) × (set_at octets k n ≡ ok octets')
      × (t ≡ scan false 0 0 0 0 (k + 1) octets')
unfolding ipv4_byte ipv4_dot expect_u8
dot_inv x y z size k n octets ends dot t (digits, taken, value) e =
    let small : n < 256 = ground arith in
    let fewer : k ≢ 3 = ground arith in
    let more : ends ≡ false = ground arith in
    let next : List ℕ → Result (Option Ipv4Scan) =
      λ octets'. ok (some (scan false 0 0 0 0 (k + 1) octets')) in
    let written : (set_at octets k n >>= next) ≡ ok (some t) = ground arith in
    let (octets', set, same) = >>=-eq-ok (set_at octets k n) next written in
    let is_next : t ≡ scan false 0 0 0 0 (k + 1) octets' = cc in
    (small, fewer, more, octets', set, is_next)

first_inv :
    (first : Bool) (k b : ℕ) (octets : List ℕ) (ends dot : Bool) (t : Ipv4Scan)
    → ipv4_byte (scan first 0 0 0 0 k octets) b ends dot ≡ ok (some t)
    → (d : ℕ) × (b ≡ b'0' + d)
      × (d < 10)
      × (t ≡ scan false d 0 0 1 k octets)
      × ((not (d == 0) || (dot || ends)) ≡ true)
unfolding ipv4_byte ipv4_dot ipv4_digit set_at
first_inv first k b octets ends dot t e =
    (b - b'0', ground arith, ground arith, ground arith, ground arith)

second_inv :
    (k x b : ℕ) (octets : List ℕ) (ends dot : Bool) (t : Ipv4Scan)
    → (b == b'.') ≡ false
    → ipv4_byte (scan false x 0 0 1 k octets) b ends dot ≡ ok (some t)
    → (d : ℕ) × (b ≡ b'0' + d) × (d < 10) × (t ≡ scan false x d 0 2 k octets)
unfolding ipv4_byte ipv4_digit set_at
second_inv k x b octets ends dot t h e = (b - b'0', ground arith, ground arith, ground arith)

third_inv :
    (k x y b : ℕ) (octets : List ℕ) (ends dot : Bool) (t : Ipv4Scan)
    → (b == b'.') ≡ false
    → ipv4_byte (scan false x y 0 2 k octets) b ends dot ≡ ok (some t)
    → (d : ℕ) × (b ≡ b'0' + d) × (d < 10) × (t ≡ scan false x y d 3 k octets)
unfolding ipv4_byte ipv4_digit set_at
third_inv k x y b octets ends dot t h e = (b - b'0', ground arith, ground arith, ground arith)

fourth_inv :
    (k x y z b : ℕ) (octets : List ℕ) (ends dot : Bool) (t : Ipv4Scan)
    → ipv4_byte (scan false x y z 3 k octets) b ends dot ≡ ok (some t)
    → (b == b'.') ≡ true
unfolding ipv4_byte ipv4_digit set_at
fourth_inv k x y z b octets ends dot t e = ground arith

value_of_one : (x : ℕ) → Value x 0 0 1 x
unfolding slice_to radix10_to_octet radix10_from
value_of_one x = (x ∷ [], refl, omega arith)

value_of_two : (x y : ℕ) → Value x y 0 2 (x * 10 + y)
unfolding slice_to radix10_to_octet radix10_from
value_of_two x y = (x ∷ y ∷ [], refl, omega arith)

value_of_three : (x y z : ℕ) → Value x y z 3 (x * 100 + y * 10 + z)
unfolding slice_to radix10_to_octet radix10_from
value_of_three x y z = (x ∷ y ∷ z ∷ [], refl, omega arith)

text_of_one : (x : ℕ) → x < 10 → octet_text x ≡ (b'0' + x) ∷ []
text_of_one x h = ground arith

text_of_two :
    (x y : ℕ) → 0 < x → x < 10 → y < 10 → octet_text (x * 10 + y) ≡ (b'0' + x) ∷ (b'0' + y) ∷ []
text_of_two x y low h k = ground arith

text_of_three :
    (x y z : ℕ)
    → 0 < x
    → x < 10
    → y < 10
    → z < 10
    → octet_text (x * 100 + y * 10 + z) ≡ (b'0' + x) ∷ (b'0' + y) ∷ (b'0' + z) ∷ []
text_of_three x y z low h k l = ground arith

begins_one : (b x : ℕ) (i : Input) → x < 10 → b ≡ b'0' + x → b ∷ i ≡ octet_text x ++ i
begins_one b x i h e = rw (e, text_of_one x h) refl

begins_two :
    (b c x y : ℕ) (i j : Input)
    → 0 < x
    → x < 10
    → y < 10
    → b ≡ b'0' + x
    → i ≡ c ∷ j
    → c ≡ b'0' + y
    → b ∷ i ≡ octet_text (x * 10 + y) ++ j
begins_two b c x y i j low h k e f g = rw (text_of_two x y low h k) (rw (f, e, g) refl)

begins_three :
    (b c d x y z : ℕ) (i j l : Input)
    → 0 < x
    → x < 10
    → y < 10
    → z < 10
    → b ≡ b'0' + x
    → i ≡ c ∷ j
    → c ≡ b'0' + y
    → j ≡ d ∷ l
    → d ≡ b'0' + z
    → b ∷ i ≡ octet_text (x * 100 + y * 10 + z) ++ l
begins_three b c d x y z i j l low h k m e f g e' f' =
    rw (text_of_three x y z low h k m) (rw (f, e', e, g, f') refl)

-- what a round that does not go on gives
abbrev given_up : Result (Option Ipv4Scan) → Result (Option (List ℕ))
given_up (ok next) = ok none
given_up (err e) = err e
given_up panic = panic
given_up stuck = stuck

stops :
    (rest : Ipv4Scan → Result (Option (List ℕ))) (x : Result (Option Ipv4Scan))
    → ((t : Ipv4Scan) → x ≢ ok (some t))
    → (x >>= λ next. elim next [ none ↦ ok none | some t ↦ rest t ]) ≡ given_up x
stops rest (ok none) k = refl
stops rest (ok (some t)) k = absurd (k t refl)
stops rest (err e) k = refl
stops rest panic k = refl
stops rest stuck k = refl

module _ ⦃u : Untrusted⦄ where
  run_stops :
      (s : Ipv4Scan) (b : ℕ) (i : Input) (x : Result (Option Ipv4Scan))
      → ipv4_byte s b (is_empty i) (first_is b'.' i) ≡ x
      → ((t : Ipv4Scan) → x ≢ ok (some t))
      → run s (b ∷ i) ≡ given_up x
  unfolding ipv4_loop
  run_stops s b i x h k =
      rw (u.read_byte-cons b i, ipv4_loop)
        (rw (u.read_byte-cons b i) (rw (u.at_end-new i, u.peek-new i b'.') (rw h (stops _ x k))))

  run_inv :
      (s : Ipv4Scan) (b : ℕ) (i : Input) (os : List ℕ)
      → run s (b ∷ i) ≡ ok (some os)
      → (t : Ipv4Scan) × (ipv4_byte s b (is_empty i) (first_is b'.' i) ≡ ok (some t))
        × (after t i ≡ ok (some os))
  run_inv s b i os h = by_round (ipv4_byte s b (is_empty i) (first_is b'.' i)) refl
    where
      by_round :
          (x : Result (Option Ipv4Scan))
          → ipv4_byte s b (is_empty i) (first_is b'.' i) ≡ x
          → (t : Ipv4Scan) × (ipv4_byte s b (is_empty i) (first_is b'.' i) ≡ ok (some t))
            × (after t i ≡ ok (some os))
      by_round (ok (some t)) e = (t, e, sym (loop_step (suc (length i)) s t b i e) ∙ h)
      by_round (ok none) e = let stops = run_stops s b i (ok none) e (λ t k. cc) in absurd (cc)
      by_round (err x) e = let stops = run_stops s b i (err x) e (λ t k. cc) in absurd (cc)
      by_round panic e = let stops = run_stops s b i panic e (λ t k. cc) in absurd (cc)
      by_round stuck e = let stops = run_stops s b i stuck e (λ t k. cc) in absurd (cc)

  run_nil : (s : Ipv4Scan) (os : List ℕ) → run s [] ≢ ok (some os)
  unfolding ipv4_loop
  run_nil s os h = let k = rw (u.read_byte-nil, ipv4_loop) at h in cc

  -- what comes behind an octet: the end, or a dot and the text of the next octet
  pub data Next (k n : ℕ) (octets os : List ℕ) : Input → Type 0 where
    ends : k ≡ 3 → set_at octets k n ≡ ok os → Next k n octets os []
    goes_on :
        (i : Input) (octets' : List ℕ)
        → k ≢ 3
        → set_at octets k n ≡ ok octets'
        → run (scan false 0 0 0 0 (k + 1) octets') i ≡ ok (some os)
        → Next k n octets os (b'.' ∷ i)

  pub record Reads (k : ℕ) (octets os : List ℕ) (i : Input) : Type 0 where
    pub n : ℕ
    pub j : Input
    pub small : n < 256
    pub text : i ≡ octet_text n ++ j
    pub next : Next k n octets os j

  -- behind the digits of a number the octet ends, or one more digit is read
  behind :
      (x y z size k n : ℕ) (octets os : List ℕ) (j : Input)
      → Value x y z size n
      → 1 ≤ size
      → after (scan false x y z size k octets) j ≡ ok (some os)
      → ((n < 256) × Next k n octets os j)
        ⊎ ((c : ℕ) × (j' : Input) × (t : Ipv4Scan) × (j ≡ c ∷ j')
            × ((c == b'.') ≡ false)
            × (ipv4_byte (scan false x y z size k octets) c (is_empty j') (first_is b'.' j')
                ≡ ok (some t))
            × (after t j' ≡ ok (some os)))
  behind x y z size k n octets os [] value h e =
      let (small, last, set) = end_inv x y z size k n octets os value h e in
      inl (small, ends last set)
  behind x y z size k n octets os (c ∷ j) value h e =
      let s = scan false x y z size k octets in
      let (t, round, rest) = run_inv s c j os e in
      elim (Bool-cases (c == b'.')) [
        | inr other ↦ inr (c, j, t, refl, other, round, rest)
        | inl dot ↦
            let is_dot : c ≡ b'.' = ground arith in
            let (small, fewer, more, octets', set, same) =
              dot_inv x y z size k n octets (is_empty j) (first_is b'.' j) t value
                (rw is_dot at round) in
            let goes : run (scan false 0 0 0 0 (k + 1) octets') j ≡ ok (some os) =
              rw more at (rw same at rest) in
            rw is_dot (inl (small, goes_on j octets' fewer set goes))
      ]

  pub reads :
      (first : Bool) (k : ℕ) (octets os : List ℕ) (i : Input)
      → run (scan first 0 0 0 0 k octets) i ≡ ok (some os)
      → Reads k octets os i
  reads first k octets os [] h = absurd (run_nil (scan first 0 0 0 0 k octets) os h)
  reads first k octets os (b ∷ i) h =
      let (t, round, rest) = run_inv (scan first 0 0 0 0 k octets) b i os h in
      let (x, is_x, small, same, zero_alone) =
        first_inv first k b octets (is_empty i) (first_is b'.' i) t round in
      elim (behind x 0 0 1 k x octets os i (value_of_one x) (omega arith) (rw same at rest)) [
        | inl (fits, next) ↦ record {
          n = x;
          j = i;
          small = fits;
          text = begins_one b x i small is_x;
          next = next;
        }
        | inr (c, i2, t2, is_c, other, round2, rest2) ↦
            let (y, is_y, small2, same2) =
              second_inv k x c octets (is_empty i2) (first_is b'.' i2) t2 other round2 in
            let low : 0 < x = ground arith in
            elim (behind x y 0 2 k (x * 10 + y) octets os i2 (value_of_two x y) (omega arith)
              (rw same2 at rest2)) [
                | inl (fits, next) ↦ record {
                  n = x * 10 + y;
                  j = i2;
                  small = fits;
                  text = begins_two b c x y i i2 low small small2 is_x is_c is_y;
                  next = next;
                }
                | inr (c3, i3, t3, is_c3, other3, round3, rest3) ↦
                    let (z, is_z, small3, same3) =
                      third_inv k x y c3 octets (is_empty i3) (first_is b'.' i3) t3 other3 round3 in
                    elim (behind x y z 3 k (x * 100 + y * 10 + z) octets os i3
                      (value_of_three x y z) (omega arith) (rw same3 at rest3)) [
                        | inl (fits, next) ↦ record {
                          n = x * 100 + y * 10 + z;
                          j = i3;
                          small = fits;
                          text =
                              begins_three b c c3 x y z i i2 i3 low small small2 small3 is_x is_c
                                is_y is_c3 is_z;
                          next = next;
                        }
                        | inr (c4, i4, t4, is_c4, other4, round4, rest4) ↦
                            let dot =
                              fourth_inv k x y z c4 octets (is_empty i4) (first_is b'.' i4) t4
                                round4 in
                            absurd (cc)
                      ]
              ]
      ]
