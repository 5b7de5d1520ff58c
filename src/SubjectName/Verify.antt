-- ===== src/SubjectName/Verify.antt =====
-- src/subject_name/verify.rs: the names of a certificate against a reference name and against name
-- constraints.
pub mod Iterator
pub mod Total
pub mod Constraints
use webpki.Prelude.{
  ℕ, zero, suc, ◌+◌, Bool, true, false, not, ◌&&◌, Option, none, some, List, [], ◌∷◌, ◌++◌, ◌==◌,
  if◌then◌else◌, bytes_eq, length,
}
use webpki.Error.{
  DerTypeId, trailing_data, cert_not_valid_for_name, malformed_dns_identifier,
  name_constraint_violation,
}
use webpki.Result.{Result, ok, err, panic, stuck}
use webpki.Result
use webpki.Exec.{Exec, pure, lift, ◌>>=◌, ◌>>◌}
use webpki.Untrusted.{Input, Untrusted, Reader, Decoder, new, remaining, at_end, peek, read_all}
use webpki.Untrusted.Loop.{while_not_at_end}
use webpki.Der.{
  Tag, oid, set, sequence, utf8_string, context_specific_constructed0,
  context_specific_constructed1, tag_byte, expect_tag, nested, read_tag_and_get_value,
}
use webpki.Cert.{Cert, CertFields, end_entity, ca, fields}
use webpki.SubjectName.GeneralName.{
  GeneralName, dns_name, directory_name, ip_address, unsupported, general_name_from_der,
}
use webpki.SubjectName.DnsName
use webpki.SubjectName.IpAddress
use webpki.SubjectName.IpAddress.{IpAddrRef, v4, v6}
use webpki.SubjectName.IpAddress.Parse

pub data SubjectCommonNameContents : Type 0 where
  dns_contents ignore : SubjectCommonNameContents

pub data Subtrees : Type 0 where
  permitted_subtrees excluded_subtrees : Subtrees

-- `NameIterator`, over the readers `R`
pub record NameIterator (R : Type 0) : Type 0 where
  pub subject_alt_name : Option R
  pub subject_directory_name : Option Input
  pub subject_common_name : Option Input

abbrev common_name_oid : Input
common_name_oid = 85 ∷ 4 ∷ 3 ∷ []

module _ ⦃u : Untrusted⦄ where
  -- One round of the loop of `common_name`; once the name is found the closure returns, and the
  -- rounds that are left do nothing but end.
  common_name_loop : ℕ → Decoder (Option Input)
  common_name_loop zero tagged = (if at_end tagged then ok none else stuck, tagged)
  common_name_loop (suc fuel) tagged =
      let again =
        (do
          name_oid ← expect_tag oid
          if bytes_eq name_oid common_name_oid
              then (do name ← expect_tag utf8_string; pure (some name))
              else (do read_tag_and_get_value; common_name_loop fuel))
          tagged in
      if at_end tagged then (ok none, tagged) else again

  pub common_name : Input → Result (Option Input)
  common_name input =
      (nested set (trailing_data DerTypeId.common_name_outer)
        (nested sequence (trailing_data DerTypeId.common_name_inner)
          (λ tagged. common_name_loop (length (remaining tagged)) tagged))
        (new input)).0

  pub name_iterator : Option Input → Option Input → SubjectCommonNameContents → NameIterator Reader
  name_iterator subject subject_alt_name contents = record {
    subject_alt_name = elim subject_alt_name [ none ↦ none | some i ↦ some (new i) ];
    subject_directory_name = subject;
    subject_common_name = elim contents [ dns_contents ↦ subject | ignore ↦ none ];
  }

  next_common_name : NameIterator Reader → Option (Result GeneralName) × NameIterator Reader
  next_common_name it =
      let it' : NameIterator Reader = record it { subject_common_name = none } in
      elim it.subject_common_name [
        | none ↦ (none, it')
        | some subject ↦ elim (common_name subject) [
          | ok name ↦ elim name [ none ↦ (none, it') | some cn ↦ (some (ok (dns_name cn)), it') ]
          | err e ↦ (some (err e), it')
          | panic ↦ (some panic, it')
          | stuck ↦ (some stuck, it')
        ]
      ]

  next_subject : NameIterator Reader → Option (Result GeneralName) × NameIterator Reader
  next_subject it = elim it.subject_directory_name [
    | none ↦ next_common_name it
    | some name ↦ (some (ok (directory_name name)), record it { subject_directory_name = none })
  ]

  -- After an error nothing more is yielded.
  next_alt_name :
      NameIterator Reader
      → Result GeneralName × Reader
      → Option (Result GeneralName) × NameIterator Reader
  next_alt_name it (ok name, rest) = (some (ok name), record it { subject_alt_name = some rest })
  next_alt_name it (e, rest) = (
    some e,
    record { subject_alt_name = none; subject_directory_name = none; subject_common_name = none },
  )

  -- `NameIterator::next`
  pub next : NameIterator Reader → Option (Result GeneralName) × NameIterator Reader
  next it = elim it.subject_alt_name [
    | none ↦ next_subject it
    | some reader ↦
        if not (at_end reader)
        then next_alt_name it (general_name_from_der reader)
        else next_subject (record it { subject_alt_name = none })
  ]

  -- `find_map` on fuel; a closure that goes on returns `none`
  pub find_map :
      {B : Type 0}
      → ℕ
      → (Result GeneralName → Option (Result B))
      → NameIterator Reader
      → Option (Result B)
  find_map zero f it = some stuck
  find_map (suc fuel) f it =
      let (item, it') = next it in
      let again = find_map fuel f it' in
      elim item [ none ↦ none | some name ↦ elim (f name) [ none ↦ again | some b ↦ some b ] ]

  -- Each item takes a byte of the alternative names, or one of the subject's two names.
  pub iterator_fuel : NameIterator Reader → ℕ
  iterator_fuel it = elim it.subject_alt_name [
    | none ↦ 4
    | some reader ↦ length (remaining reader) + 4
  ]

  pub find_name :
      {B : Type 0}
      → (Result GeneralName → Option (Result B))
      → NameIterator Reader
      → Option (Result B)
  find_name f it = find_map (iterator_fuel it) f it

-- `.unwrap_or(Err(Error::CertNotValidForName))`
abbrev or_not_valid : Option (Result (Unit {0})) → Result (Unit {0})
or_not_valid none = err cert_not_valid_for_name
or_not_valid (some r) = r

-- what the closure of `verify_cert_dns_name` makes of a comparison
abbrev matched_name : Result Bool → Option (Result (Unit {0}))
matched_name (ok true) = some (ok tt)
matched_name (ok false) = none
matched_name (err malformed_dns_identifier) = none
matched_name (err e) = some (err e)
matched_name panic = some panic
matched_name stuck = some stuck

abbrev matched_address : Result Bool → Option (Result (Unit {0}))
matched_address (ok true) = some (ok tt)
matched_address (ok false) = none
matched_address (err e) = some (err e)
matched_address panic = some panic
matched_address stuck = some stuck

-- `SubjectNameRef`
pub data SubjectNameRef : Type 0 where
  dns : Input → SubjectNameRef
  ip : IpAddrRef → SubjectNameRef

module _ ⦃u : Untrusted⦄ where
  dns_closure : Input → Result GeneralName → Option (Result (Unit {0}))
  dns_closure reference (ok (dns_name presented)) =
      matched_name (DnsName.presented_id_matches_reference_id presented reference)
  dns_closure reference (ok _) = none
  dns_closure reference (err e) = some (err e)
  dns_closure reference panic = some panic
  dns_closure reference stuck = some stuck

  pub verify_cert_dns_name : Cert → Input → Result (Unit {0})
  verify_cert_dns_name cert reference = or_not_valid (
      find_name (dns_closure reference)
        (name_iterator (some (fields cert).subject) (fields cert).subject_alt_name ignore))

  ip_closure : List ℕ → Result GeneralName → Option (Result (Unit {0}))
  ip_closure octets (ok (ip_address presented)) =
      matched_address (IpAddress.presented_id_matches_reference_id presented octets)
  ip_closure octets (ok _) = none
  ip_closure octets (err e) = some (err e)
  ip_closure octets panic = some panic
  ip_closure octets stuck = some stuck

  verify_cert_ip_address : Cert → List ℕ → Result (Unit {0})
  verify_cert_ip_address cert octets =
      or_not_valid
        (find_name (ip_closure octets) (name_iterator none (fields cert).subject_alt_name ignore))

  pub verify_cert_subject_name : Cert → SubjectNameRef → Result (Unit {0})
  verify_cert_subject_name cert (dns name) = verify_cert_dns_name cert name
  verify_cert_subject_name cert (ip (v4 text octets)) = verify_cert_ip_address cert octets
  verify_cert_subject_name cert (ip (v6 text octets)) = verify_cert_ip_address cert octets

  -- `SubjectNameRef::try_from_ascii` of src/subject_name/name.rs; `ok none` is
  -- `InvalidSubjectNameError`.
  pub try_from_ascii : Input → Result (Option SubjectNameRef)
  try_from_ascii subject_name = Result.◌>>=◌ (Parse.parse_ipv4_address subject_name) λ four.
      elim four [
        | some address ↦ ok (some (ip address))
        | none ↦ Result.◌>>=◌ (Parse.parse_ipv6_address subject_name) λ six. elim six [
          | some address ↦ ok (some (ip address))
          | none ↦
              Result.◌>>=◌ (DnsName.try_from_ascii DnsName.no_wildcards subject_name)
                λ name. ok (elim name [ some n ↦ some (dns n) | none ↦ none ])
        ]
      ]

  general_subtree : Decoder GeneralName
  general_subtree = do
    subtree ← expect_tag sequence
    lift (read_all subtree (trailing_data DerTypeId.general_name) general_name_from_der)

  -- the `match (name, base)`; `none` is a constraint on another kind of name
  pub matches : Subtrees → GeneralName → GeneralName → Option (Result Bool)
  matches subtrees (dns_name name) (dns_name base) =
      some (DnsName.presented_id_matches_constraint name base)
  matches permitted_subtrees (directory_name name) (directory_name base) = some (ok false)
  matches excluded_subtrees (directory_name name) (directory_name base) = some (ok true)
  matches subtrees (ip_address name) (ip_address base) =
      some (IpAddress.presented_id_matches_constraint name base)
  matches subtrees (unsupported name_tag) (unsupported base_tag) =
      if name_tag == base_tag then some (err name_constraint_violation) else none
  matches subtrees _ _ = none

-- `has_permitted_subtrees_match` and `has_permitted_subtrees_mismatch`
pub record Seen : Type 0 where
  pub matched : Bool
  pub mismatched : Bool

-- the `match (subtrees, matches)`
pub note : Subtrees → Option (Result Bool) → Seen → Result Seen
note subtrees none s = ok s
note permitted_subtrees (some (ok true)) s = ok (record s { matched = true })
note permitted_subtrees (some (ok false)) s = ok (record s { mismatched = true })
note excluded_subtrees (some (ok true)) s = err name_constraint_violation
note excluded_subtrees (some (ok false)) s = ok s
note subtrees (some (err e)) s = err e
note subtrees (some panic) s = panic
note subtrees (some stuck) s = stuck

module _ ⦃u : Untrusted⦄ where
  constraint_round : Subtrees → GeneralName → Seen → Decoder Seen
  constraint_round subtrees name s = do
    base ← general_subtree
    lift (note subtrees (matches subtrees name base) s)

  -- One turn of the `for`; `err` is `return Some(Err(..))`.
  check_subtrees : Subtrees → GeneralName → Option Input → Result (Unit {0})
  check_subtrees subtrees name none = ok tt
  check_subtrees subtrees name (some constraints) =
      Result.◌>>=◌
        (while_not_at_end (constraint_round subtrees name)
          (record { matched = false; mismatched = false }) (new constraints)).0
        λ s. if s.mismatched && not s.matched then err name_constraint_violation else ok tt

  -- `none` of the source is `ok` here, and `Some(Err(e))` is `err e`.
  pub check_presented_id_conforms_to_constraints :
      GeneralName → Option Input → Option Input → Result (Unit {0})
  check_presented_id_conforms_to_constraints name permitted excluded =
      Result.◌>>=◌ (check_subtrees permitted_subtrees name permitted)
        λ _. check_subtrees excluded_subtrees name excluded

  abbrev failed : Result (Unit {0}) → Option (Result (Unit {0}))
  failed (ok t) = none
  failed r = some r

  constraint_closure : Option Input → Option Input → Result GeneralName → Option (Result (Unit {0}))
  constraint_closure permitted excluded (ok name) =
      failed (check_presented_id_conforms_to_constraints name permitted excluded)
  constraint_closure permitted excluded (err e) = some (err e)
  constraint_closure permitted excluded panic = some panic
  constraint_closure permitted excluded stuck = some stuck

  or_conforms : Option (Result (Unit {0})) → Result (Unit {0})
  or_conforms none = ok tt
  or_conforms (some r) = r

  -- the names of one certificate
  pub check_names :
      Option Input → Option Input → SubjectCommonNameContents → CertFields → Result (Unit {0})
  check_names permitted excluded contents c = or_conforms (
      find_name (constraint_closure permitted excluded)
        (name_iterator (some c.subject) c.subject_alt_name contents))

  -- the loop down the chain to the leaf
  pub check_chain_names :
      Option Input → Option Input → SubjectCommonNameContents → Cert → Result (Unit {0})
  check_chain_names permitted excluded contents (end_entity c) =
      check_names permitted excluded contents c
  check_chain_names permitted excluded contents (ca c child) =
      Result.◌>>=◌ (check_names permitted excluded contents c)
        λ _. check_chain_names permitted excluded contents child

  parse_subtrees : Tag → Decoder (Option Input)
  parse_subtrees subtrees_tag inner =
      let read = (do subtrees ← expect_tag subtrees_tag; pure (some subtrees)) inner in
      if not (peek inner (tag_byte subtrees_tag)) then (ok none, inner) else read

  constrain : SubjectCommonNameContents → Cert → Decoder (Unit {0})
  constrain contents subordinate_certs = do
    permitted ← parse_subtrees context_specific_constructed0
    excluded ← parse_subtrees context_specific_constructed1
    lift (check_chain_names permitted excluded contents subordinate_certs)

  pub check_name_constraints : SubjectCommonNameContents → Cert → Exec (Option Reader) (Unit {0})
  check_name_constraints contents subordinate_certs none = (ok tt, none)
  check_name_constraints contents subordinate_certs (some input) =
      let (r, rest) = constrain contents subordinate_certs input in (r, some rest)

  -- a name to push: the valid DNS name that a general name holds, if any
  listed : GeneralName → Result (List Input)
  listed (dns_name presented) =
      Result.◌>>=◌ (DnsName.try_from_ascii DnsName.no_wildcards presented) λ plain.
        Result.◌>>=◌ (DnsName.try_from_ascii DnsName.wildcards presented) λ wildcard.
          ok (elim plain [ some n ↦ n ∷ [] | none ↦ elim wildcard [ some n ↦ n ∷ [] | none ↦ [] ] ])
  listed _ = ok []

  -- `list_cert_dns_names`, on fuel: the names that are valid DNS names, with or without a wildcard.
  list_names : ℕ → NameIterator Reader → List Input → Result (List Input)
  list_names zero it names = stuck
  list_names (suc fuel) it names =
      let (item, it') = next it in
      elim item [
        | none ↦ ok names
        | some name ↦
            Result.◌>>=◌ name
              λ general. Result.◌>>=◌ (listed general) λ found. list_names fuel it' (names ++ found)
      ]

  pub list_cert_dns_names : Cert → Result (List Input)
  list_cert_dns_names cert =
      let it =
        name_iterator (some (fields cert).subject) (fields cert).subject_alt_name dns_contents in
      list_names (iterator_fuel it) it []

unfoldable pub verify_code : Unit {0}
unfolding common_name_loop common_name name_iterator next_common_name next_subject next_alt_name
    next find_map iterator_fuel find_name dns_closure verify_cert_dns_name ip_closure
    verify_cert_ip_address verify_cert_subject_name try_from_ascii general_subtree matches note
    constraint_round check_subtrees check_presented_id_conforms_to_constraints constraint_closure
    or_conforms check_names check_chain_names parse_subtrees constrain check_name_constraints listed
    list_names list_cert_dns_names
verify_code = tt
