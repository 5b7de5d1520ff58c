-- ===== src/SubjectName/Verify/Iterator.antt =====
-- src/subject_name/verify.rs: `NameIterator` and the searches over it come to an end.
use webpki.Prelude.{
  ℕ, zero, suc, ◌+◌, ◌≤◌, ◌<◌, ◌≡◌, ap, arith, Bool, true, false, Option, none, some, inl, inr,
  Bool-cases, if◌then◌else◌, bytes_eq,
}
use webpki.Result.{Result, ok, err, panic, stuck}
use webpki.Untrusted.{Input, Untrusted, Reader, Decoder, new, remaining, at_end}
use webpki.Untrusted.Total.{
  Ends, returned, failed, panicked, left, IsTotal-Ends, IsTotal-forward, IsTotal-bind, IsTotal-pure,
  IsSuffix-refl, Outcome, Outcome-if, Outcome-continue, value,
}
use webpki.Untrusted.Loop.Rounds.{more_less, round_less, empty_at_end}
use webpki.Exec.{pure, ◌>>=◌}
use webpki.Der.{oid, set, sequence, utf8_string, expect_tag, read_tag_and_get_value}
use webpki.Der.Total.{
  expect_tag-IsTotal, expect_tag-IsProgress, read_tag_and_get_value-IsTotal, IsTotal-nested,
}
use webpki.SubjectName.GeneralName.{GeneralName, dns_name, general_name_from_der}
use webpki.SubjectName.GeneralName.Total.{
  general_name_from_der-IsTotal, general_name_from_der-IsProgress,
}
use webpki.SubjectName.Verify.{
  NameIterator, common_name_oid, common_name_loop, common_name, next_common_name, next_subject,
  next_alt_name, next, find_map, iterator_fuel, find_name,
}

-- an answer that comes to an end, if there is one
abbrev pub Answers : {B : Type 0} → Bool → Option (Result B) → Type 0
Answers p none = Unit
Answers p (some r) = Ends p r

abbrev one_if_set : {A : Type 0} → Option A → ℕ
one_if_set none = 0
one_if_set (some a) = 1

module _ ⦃u : Untrusted⦄ where
  -- what follows the identifier of an attribute
  attribute-Outcome :
      (p : Bool) (fuel : ℕ) (again : Decoder (Option Input))
      → ((s : Reader) → left s ≤ fuel → Outcome p (remaining s) (again s))
      → (is_common_name : Bool) (s : Reader) → left s ≤ fuel
      → Outcome p (remaining s) (
          (if is_common_name
              then (expect_tag utf8_string >>= λ name. pure (some name))
              else (read_tag_and_get_value >>= λ t. again))
            s)
  attribute-Outcome p fuel again h true s le =
      (IsTotal-bind (expect_tag-IsTotal utf8_string) (λ name. IsTotal-pure (some name))).at s
  attribute-Outcome p fuel again h false s le =
      Outcome-continue (read_tag_and_get_value s) (λ t. again) (read_tag_and_get_value-IsTotal.at s)
        (λ t s' e.
          let forward = IsTotal-forward (read_tag_and_get_value-IsTotal {p = p}) s in
          let same : left (read_tag_and_get_value s).1 ≡ left s' =
            ap (λ (x : Result (ℕ × Input) × Reader). left x.1) e in
          h s' (omega arith))

  common_name_loop-Outcome :
      (p : Bool) (fuel : ℕ) (tagged : Reader)
      → left tagged ≤ fuel
      → Outcome p (remaining tagged) (common_name_loop fuel tagged)
  unfolding common_name_loop
  common_name_loop-Outcome p zero tagged h = rw (empty_at_end tagged h) (value (IsSuffix-refl _))
  common_name_loop-Outcome p (suc fuel) tagged h =
      Outcome-if (at_end tagged) (value (IsSuffix-refl _)) (
        Outcome-continue (expect_tag oid tagged) _ ((expect_tag-IsTotal oid).at tagged)
          (λ name_oid s e.
            let less = round_less (expect_tag oid) tagged (expect_tag-IsProgress oid) e in
            attribute-Outcome p fuel (common_name_loop fuel) (common_name_loop-Outcome p fuel)
              (bytes_eq name_oid common_name_oid) s (omega arith)))

  module _ {p : Bool} where
    common_name-Ends : (input : Input) → Ends p (common_name input)
    unfolding common_name
    common_name-Ends input =
        IsTotal-Ends
          (IsTotal-nested set _ (
            IsTotal-nested sequence _
              (record { at = λ r. common_name_loop-Outcome p (left r) r (omega arith) })))
          (new input)

  abbrev iterator : Option Reader → Option Input → Option Input → NameIterator Reader
  iterator alt directory common = record {
    subject_alt_name = alt;
    subject_directory_name = directory;
    subject_common_name = common;
  }

  abbrev alt_weight : Option Reader → ℕ
  alt_weight none = 0
  alt_weight (some r) = left r + 1

  -- how many items an iterator may give yet, at most
  abbrev weight : NameIterator Reader → ℕ
  weight it =
      alt_weight it.subject_alt_name
      + one_if_set it.subject_directory_name
      + one_if_set it.subject_common_name

  -- what `next` may give
  abbrev Next : Bool → ℕ → Option (Result GeneralName) × NameIterator Reader → Type 0
  Next p n (none, it) = Unit
  Next p n (some r, it) = Ends p r × (weight it < n)

  -- what the search for the subject's common name may give
  common-Next :
      (p : Bool) (subject : Input) (r : Result (Option Input))
      → Ends p r
      → Next p 1 (elim r [
        | ok name ↦ elim name [
          | none ↦ (none, iterator none none none)
          | some cn ↦ (some (ok (dns_name cn)), iterator none none none)
        ]
        | err e ↦ (some (err e), iterator none none none)
        | panic ↦ (some panic, iterator none none none)
        | stuck ↦ (some stuck, iterator none none none)
      ])
  common-Next p subject (ok none) h = tt
  common-Next p subject (ok (some cn)) h = (returned, omega arith)
  common-Next p subject (err e) h = (failed, omega arith)
  common-Next p subject panic (panicked h) = (panicked h, omega arith)
  common-Next p subject stuck h = elim h [ ]

  Next-weaken :
      (p : Bool) (m n : ℕ) (x : Option (Result GeneralName) × NameIterator Reader)
      → m ≤ n
      → Next p m x
      → Next p n x
  Next-weaken p m n (none, it) le h = tt
  Next-weaken p m n (some r, it) le (h, k) = (h, omega arith)

  next_common_name-Next :
      (p : Bool) (common : Option Input)
      → Next p (one_if_set common) (next_common_name (iterator none none common))
  unfolding next_common_name
  next_common_name-Next p none = tt
  next_common_name-Next p (some subject) =
      common-Next p subject (common_name subject) (common_name-Ends subject)

  next_subject-Next :
      (p : Bool) (directory common : Option Input)
      → Next p
          (one_if_set directory + one_if_set common)
          (next_subject (iterator none directory common))
  unfolding next_subject
  next_subject-Next p none common =
      Next-weaken p (one_if_set common) _ (next_common_name (iterator none none common))
        (omega arith) (next_common_name-Next p common)
  next_subject-Next p (some name) common = (returned, omega arith)

  next_alt_name-Next :
      (p : Bool) (directory common : Option Input) (n : ℕ) (r : Reader)
      (x : Result GeneralName × Reader)
      → Ends p x.0
      → left x.1 < n
      → Next p
          (n + 1 + one_if_set directory + one_if_set common)
          (next_alt_name (iterator (some r) directory common) x)
  unfolding next_alt_name
  next_alt_name-Next p directory common n r (ok name, rest) h k = (returned, omega arith)
  next_alt_name-Next p directory common n r (err e, rest) h k = (failed, omega arith)
  next_alt_name-Next p directory common n r (panic, rest) h k = (h, omega arith)
  next_alt_name-Next p directory common n r (stuck, rest) h k = elim h [ ]

  next-Next : (p : Bool) (it : NameIterator Reader) → Next p (weight it) (next it)
  unfolding next
  next-Next p it =
      elim it.subject_alt_name
        as (λ o.
          Next p (weight (iterator o it.subject_directory_name it.subject_common_name))
            (next (iterator o it.subject_directory_name it.subject_common_name))) [
              | none ↦
                  Next-weaken p
                    (one_if_set it.subject_directory_name + one_if_set it.subject_common_name) _
                    (next_subject (iterator none it.subject_directory_name it.subject_common_name))
                    (omega arith)
                    (next_subject-Next p it.subject_directory_name it.subject_common_name)
              | some r ↦ elim (Bool-cases (at_end r)) [
                | inl e ↦
                    rw (e, next)
                      (Next-weaken p _ _ _ (omega arith)
                        (next_subject-Next p it.subject_directory_name it.subject_common_name))
                | inr e ↦
                    rw (e, next)
                      (next_alt_name-Next p it.subject_directory_name it.subject_common_name
                        (left r) r (general_name_from_der r)
                        (IsTotal-Ends general_name_from_der-IsTotal r)
                        (more_less general_name_from_der r general_name_from_der-IsProgress e))
              ]
            ]

  or_again-Answers :
      {B : Type 0} (p : Bool) (o again : Option (Result B))
      → Answers p o
      → Answers p again
      → Answers p (elim o [ none ↦ again | some b ↦ some b ])
  or_again-Answers p none again h k = k
  or_again-Answers p (some b) again h k = h

  found-Answers :
      {B : Type 0} (p : Bool) (n : ℕ) (x : Option (Result GeneralName) × NameIterator Reader)
      (f : Result GeneralName → Option (Result B)) (again : Option (Result B))
      → Next p n x
      → ((r : Result GeneralName) → Ends p r → Answers p (f r))
      → (weight x.1 < n → Answers p again)
      → Answers p
          (elim x.0 [ none ↦ none | some name ↦ elim (f name) [ none ↦ again | some b ↦ some b ] ])
  found-Answers p n (none, it) f again h hf k = tt
  found-Answers p n (some r, it) f again (h, less) hf k =
      or_again-Answers p (f r) again (hf r h) (k less)

  find_map-Answers :
      {B : Type 0} (p : Bool) (fuel : ℕ) (f : Result GeneralName → Option (Result B))
      (it : NameIterator Reader)
      → ((r : Result GeneralName) → Ends p r → Answers p (f r))
      → weight it < fuel
      → Answers p (find_map fuel f it)
  unfolding find_map
  find_map-Answers p zero f it h less = absurd (omega arith)
  find_map-Answers p (suc fuel) f it h less =
      found-Answers p (weight it) (next it) f (find_map fuel f (next it).1) (next-Next p it) h
        (λ k. find_map-Answers p fuel f (next it).1 h (omega arith))

  one_if_set-le : {A : Type 0} (o : Option A) → one_if_set o ≤ 1
  one_if_set-le none = omega arith
  one_if_set-le (some a) = omega arith

  pub find_name-Answers :
      {B : Type 0} (p : Bool) (f : Result GeneralName → Option (Result B))
      (it : NameIterator Reader)
      → ((r : Result GeneralName) → Ends p r → Answers p (f r))
      → Answers p (find_name f it)
  unfolding find_name iterator_fuel
  find_name-Answers p f it h =
      elim it.subject_alt_name
        as (λ o.
          Answers p (find_name f (iterator o it.subject_directory_name it.subject_common_name))) [
            | none ↦ find_map-Answers p 4 f _ h (
                omega (
                  arith,
                  one_if_set-le it.subject_directory_name,
                  one_if_set-le it.subject_common_name,
                ))
            | some r ↦ find_map-Answers p (left r + 4) f _ h (
                omega (
                  arith,
                  one_if_set-le it.subject_directory_name,
                  one_if_set-le it.subject_common_name,
                ))
          ]
