-- ===== src/SubjectName/DnsName.antt =====
-- src/subject_name/dns_name.rs: the syntax of DNS names, and the match of a presented name with a
-- reference name or a name constraint.
pub mod Total
use webpki.Prelude.{
  ℕ, zero, suc, ◌+◌, ◌-◌, Bool, true, false, not, ◌&&◌, ◌||◌, Option, none, some, ltb, leb, ◌==◌,
  if◌then◌else◌, length, is_empty,
}
use webpki.Error.{malformed_dns_identifier, malformed_name_constraint}
use webpki.Result.{Result, ok, err, panic, stuck, ◌>>=◌}
use webpki.Untrusted.{Input, Untrusted, Reader, new, at_end, peek, read_byte, skip}

pub data AllowWildcards : Type 0 where
  no_wildcards wildcards : AllowWildcards

pub data IdRole : Type 0 where
  reference presented name_constraint : IdRole

abbrev is_name_constraint : IdRole → Bool
is_name_constraint name_constraint = true
is_name_constraint _ = false

abbrev is_reference : IdRole → Bool
is_reference reference = true
is_reference _ = false

abbrev allows : AllowWildcards → Bool
allows wildcards = true
allows no_wildcards = false

pub ascii_lower : ℕ → ℕ
ascii_lower b = if leb b'A' b && leb b b'Z' then b + b'a' - b'A' else b

-- The variables of the loop of `is_valid_dns_id`.
pub record Scan : Type 0 where
  pub dot_count : ℕ
  pub label_length : ℕ
  pub label_is_all_numeric : Bool
  pub label_ends_with_hyphen : Bool
  pub is_first_byte : Bool

abbrev max_label_length : ℕ
max_label_length = 63

-- One round on the byte read; `none` is `return false`.
pub scan_byte : IdRole → Scan → ℕ → Option Scan
scan_byte id_role s b =
    if b == b'-'
    then (if s.label_length == 0 || ltb max_label_length (s.label_length + 1)
        then none
        else some (record s {
          label_is_all_numeric = false;
          label_ends_with_hyphen = true;
          label_length = s.label_length + 1;
          is_first_byte = false;
        }))
    else if leb b'0' b && leb b b'9'
    then (if ltb max_label_length (s.label_length + 1)
        then none
        else some (record s {
          label_is_all_numeric = if s.label_length == 0 then true else s.label_is_all_numeric;
          label_ends_with_hyphen = false;
          label_length = s.label_length + 1;
          is_first_byte = false;
        }))
    else if (leb b'a' b && leb b b'z') || (leb b'A' b && leb b b'Z') || b == b'_'
    then (if ltb max_label_length (s.label_length + 1)
        then none
        else some (record s {
          label_is_all_numeric = false;
          label_ends_with_hyphen = false;
          label_length = s.label_length + 1;
          is_first_byte = false;
        }))
    else if b == b'.'
    then (if s.label_length == 0 && (not (is_name_constraint id_role) || not s.is_first_byte)
        then none
        else if s.label_ends_with_hyphen
        then none
        else some
            (record s { dot_count = s.dot_count + 1; label_length = 0; is_first_byte = false }))
    else none

-- What follows the loop.
pub scan_end : IdRole → Bool → Scan → Bool
scan_end id_role is_wildcard s =
    if s.label_length == 0 && not (is_reference id_role)
    then false
    else if s.label_ends_with_hyphen
    then false
    else if s.label_is_all_numeric
    then false
    else if is_wildcard
    then not (ltb (if s.label_length == 0 then s.dot_count else s.dot_count + 1) 3)
    else true

-- `read == Ok(b)`
abbrev is_byte : ℕ → Result ℕ → Bool
is_byte b (ok c) = c == b
is_byte b _ = false

module _ ⦃u : Untrusted⦄ where
  -- The loop, with fuel for a round on each byte and one past the end.
  scan_loop : ℕ → IdRole → Bool → Scan → Reader → Result Bool
  scan_loop zero id_role is_wildcard s input = stuck
  scan_loop (suc fuel) id_role is_wildcard s input =
      let (got, rest) = read_byte input in
      elim got [
        | ok b ↦ elim (scan_byte id_role s b) [
          | none ↦ ok false
          | some s' ↦
              let again = scan_loop fuel id_role is_wildcard s' rest in
              if at_end rest then ok (scan_end id_role is_wildcard s') else again
        ]
        | _ ↦ ok false
      ]

  -- `input.read_byte() != Ok(b'*') || input.read_byte() != Ok(b'.')`, and its reader
  skip_wildcard : Reader → Option Reader
  skip_wildcard input =
      let (star, rest) = read_byte input in
      let (dot, rest') = read_byte rest in
      if is_byte b'*' star then (if is_byte b'.' dot then some rest' else none) else none

  scan_from : Option Reader → ℕ → IdRole → Bool → Result Bool
  scan_from none fuel id_role is_wildcard = ok false
  scan_from (some input) fuel id_role is_wildcard =
      scan_loop fuel id_role is_wildcard
        (record {
          dot_count = if is_wildcard then 1 else 0;
          label_length = 0;
          label_is_all_numeric = false;
          label_ends_with_hyphen = false;
          is_first_byte = not is_wildcard;
        })
        input

  pub is_valid_dns_id : Input → IdRole → AllowWildcards → Result Bool
  is_valid_dns_id hostname id_role allow_wildcards =
      let input = new hostname in
      let is_wildcard = allows allow_wildcards && peek input b'*' in
      if ltb 253 (length hostname)
      then ok false
      else if is_name_constraint id_role && at_end input
      then ok true
      else scan_from (if is_wildcard then skip_wildcard input else some input)
          (suc (length hostname)) id_role is_wildcard

  -- Where the comparison starts: the readers of the presented and of the reference name.
  pub data Start : Type 0 where
    matched unmatched unreachable : Start
    from : Reader → Start

  skip_prefix : Reader → ℕ → Start
  skip_prefix pres n =
      let (got, rest) = skip n pres in elim got [ ok t ↦ from rest | _ ↦ unreachable ]

  -- the byte before the suffix has to be a dot
  after_dot : Start → Start
  after_dot (from pres) =
      let (got, rest) = read_byte pres in
      elim got [ ok b ↦ if b == b'.' then from rest else unmatched | _ ↦ unmatched ]
  after_dot s = s

  -- the `match reference_dns_id_role`
  start : IdRole → Input → Input → Start
  start reference presented_dns_id reference_dns_id = from (new presented_dns_id)
  start name_constraint presented_dns_id reference_dns_id =
      let p = length presented_dns_id in
      let r = length reference_dns_id in
      if ltb r p
      then (if is_empty reference_dns_id
          then matched
          else if peek (new reference_dns_id) b'.'
          then skip_prefix (new presented_dns_id) (p - r)
          else after_dot (skip_prefix (new presented_dns_id) (p - r - 1)))
      else from (new presented_dns_id)
  start presented presented_dns_id reference_dns_id = unreachable

  -- The inner loop at a wildcard label: read the reference's first label, up to a dot.
  skip_label : ℕ → Reader → Result (Option Reader)
  skip_label zero ref = stuck
  skip_label (suc fuel) ref =
      let (got, rest) = read_byte ref in
      elim got [
        | ok b ↦
            let again = skip_label fuel rest in if peek rest b'.' then ok (some rest) else again
        | _ ↦ ok none
      ]

  -- The byte by byte comparison; the two readers where the loop is left, if all of the presented name
  -- was matched.
  compare_loop : ℕ → Reader → Reader → Result (Option (Reader × Reader))
  compare_loop zero pres ref = stuck
  compare_loop (suc fuel) pres ref =
      let (got, pres') = read_byte pres in
      elim got [
        | ok p ↦
            let (got, ref') = read_byte ref in
            elim got [
              | ok r ↦
                  let again = compare_loop fuel pres' ref' in
                  if not (ascii_lower p == ascii_lower r)
                  then ok none
                  else if at_end pres'
                  then (if p == b'.' then err malformed_dns_identifier else ok (some (pres', ref')))
                  else again
              | _ ↦ ok none
            ]
        | _ ↦ ok none
      ]

  -- an absolute reference name has a dot left, which a name constraint may not have
  skip_dot : IdRole → Reader → Option Reader
  skip_dot role ref =
      if is_name_constraint role
      then some ref
      else let (got, rest) = read_byte ref in
        elim got [ ok b ↦ if b == b'.' then some rest else none | _ ↦ none ]

  ended : Option Reader → Option Reader
  ended none = none
  ended (some ref) = if at_end ref then some ref else none

  -- the `if !reference.at_end()`; `none` is `return Ok(false)`
  absolute_end : IdRole → Reader → Option Reader
  absolute_end role ref = if at_end ref then some ref else ended (skip_dot role ref)

  -- the two `assert!`s at the end
  assert_ended : Reader → Option Reader → Result Bool
  assert_ended pres none = ok false
  assert_ended pres (some ref) =
      if not (at_end pres) then panic else if not (at_end ref) then panic else ok true

  after_compare : IdRole → Option (Reader × Reader) → Result Bool
  after_compare role none = ok false
  after_compare role (some (pres, ref)) = assert_ended pres (absolute_end role ref)

  compare_names : IdRole → ℕ → Reader → Reader → Result Bool
  compare_names role fuel pres ref = do rest ← compare_loop fuel pres ref; after_compare role rest

  compare_after_label : IdRole → ℕ → Reader → Option Reader → Result Bool
  compare_after_label role p pres none = ok false
  compare_after_label role p pres (some ref) = compare_names role (suc p) pres ref

  skip_star : IdRole → ℕ → ℕ → Result (Unit {0}) → Reader → Reader → Result Bool
  skip_star role p r (ok t) pres ref = do
    label ← skip_label (suc r) ref
    compare_after_label role p pres label
  skip_star role p r _ pres ref = panic

  wildcard_then_compare : IdRole → ℕ → ℕ → Reader → Reader → Result Bool
  wildcard_then_compare role p r pres ref =
      let (skipped, pres') = skip 1 pres in
      if peek pres b'*'
      then skip_star role p r skipped pres' ref
      else compare_names role (suc p) pres ref

  pub presented_id_matches_reference_id_internal : Input → IdRole → Input → Result Bool
  presented_id_matches_reference_id_internal presented_dns_id role reference_dns_id = do
    presented_valid ← is_valid_dns_id presented_dns_id presented wildcards
    if not presented_valid then err malformed_dns_identifier else do
      reference_valid ← is_valid_dns_id reference_dns_id role no_wildcards
      if not reference_valid
          then err (
              if is_name_constraint role
              then malformed_name_constraint
              else malformed_dns_identifier)
          else elim (start role presented_dns_id reference_dns_id) [
            | matched ↦ ok true
            | unmatched ↦ ok false
            | unreachable ↦ panic
            | from p ↦
                wildcard_then_compare role (length presented_dns_id) (length reference_dns_id) p
                  (new reference_dns_id)
          ]

  pub presented_id_matches_reference_id : Input → Input → Result Bool
  presented_id_matches_reference_id presented_dns_id reference_dns_id =
      presented_id_matches_reference_id_internal presented_dns_id reference reference_dns_id

  pub presented_id_matches_constraint : Input → Input → Result Bool
  presented_id_matches_constraint presented_dns_id reference_dns_id =
      presented_id_matches_reference_id_internal presented_dns_id name_constraint reference_dns_id

  -- `DnsNameRef::try_from_ascii` and `WildcardDnsNameRef::try_from_ascii`; `ok none` is
  -- `InvalidDnsNameError`.
  pub try_from_ascii : AllowWildcards → Input → Result (Option Input)
  try_from_ascii allow_wildcards dns_name = do
    valid ← is_valid_dns_id dns_name reference allow_wildcards
    ok (if valid then some dns_name else none)

unfoldable pub dns_name_code : Unit {0}
unfolding ascii_lower scan_byte scan_end scan_loop skip_wildcard scan_from is_valid_dns_id
    skip_prefix after_dot start skip_label compare_loop skip_dot ended absolute_end assert_ended
    after_compare compare_names compare_after_label skip_star wildcard_then_compare
    presented_id_matches_reference_id_internal presented_id_matches_reference_id
    presented_id_matches_constraint try_from_ascii
dns_name_code = tt
