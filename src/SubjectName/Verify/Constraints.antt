-- ===== src/SubjectName/Verify/Constraints.antt =====
-- src/subject_name/verify.rs: checking name constraints comes to an end.
use webpki.Prelude.{◌&&◌, Bool, true, false, not, Option, none, some, ◌==◌, if◌then◌else◌, refl}
use webpki.Error.{name_constraint_violation}
use webpki.Result.{Result, ok, err, panic, stuck}
use webpki.Untrusted.{Input, Untrusted, Reader, new, peek}
use webpki.Untrusted.Total.{
  Ends, returned, failed, panicked, Ends-if, Ends-bind, IsTotal, IsProgress, IsTotal-Ends,
  IsTotal-lift, IsTotal-pure, IsTotal-bind, IsTotal-branch,
}
use webpki.Untrusted.Advance.{read_all-Ends, IsProgress-bind}
use webpki.Untrusted.Loop.Rounds.{IsTotal-while_not_at_end}
use webpki.Der.{
  Tag, tag_byte, sequence, context_specific_constructed0, context_specific_constructed1,
}
use webpki.Der.Total.{expect_tag-IsTotal, expect_tag-IsProgress}
use webpki.Cert.{Cert, CertFields, end_entity, ca}
use webpki.SubjectName.GeneralName.{GeneralName, dns_name, directory_name, ip_address, unsupported}
use webpki.SubjectName.GeneralName.Total.{general_name_from_der-IsTotal}
use webpki.SubjectName.DnsName.Total.{presented_id_matches-Ends}
use webpki.SubjectName.IpAddress.Total.{presented_id_matches_constraint-Ends}
use webpki.SubjectName.Verify.Iterator.{Answers, find_name-Answers}
use webpki.SubjectName.Verify.{
  SubjectCommonNameContents, Subtrees, permitted_subtrees, excluded_subtrees, Seen, matches, note,
  general_subtree, constraint_round, check_subtrees, check_presented_id_conforms_to_constraints,
  constraint_closure, or_conforms, check_names, check_chain_names, parse_subtrees, constrain,
  check_name_constraints,
}
use webpki.SubjectName.Verify

same_tag :
    (t : Bool) → Answers {B = Bool} true (if t then some (err name_constraint_violation) else none)
same_tag true = failed
same_tag false = tt

note-Ends :
    (subtrees : Subtrees) (o : Option (Result Bool)) (s : Seen)
    → Answers true o
    → Ends true (note subtrees o s)
unfolding note
note-Ends subtrees none s h = returned
note-Ends permitted_subtrees (some (ok true)) s h = returned
note-Ends permitted_subtrees (some (ok false)) s h = returned
note-Ends excluded_subtrees (some (ok true)) s h = failed
note-Ends excluded_subtrees (some (ok false)) s h = returned
note-Ends subtrees (some (err e)) s h = failed
note-Ends subtrees (some panic) s h = panicked refl
note-Ends subtrees (some stuck) s h = elim h [ ]

module _ ⦃u : Untrusted⦄ where
  general_subtree-IsTotal : {p : Bool} → IsTotal p general_subtree
  unfolding general_subtree
  general_subtree-IsTotal =
      IsTotal-bind (expect_tag-IsTotal sequence)
        (λ subtree. IsTotal-lift (read_all-Ends subtree _ general_name_from_der-IsTotal))

  general_subtree-IsProgress : IsProgress general_subtree
  unfolding general_subtree
  general_subtree-IsProgress =
      IsProgress-bind {p = true} (expect_tag-IsProgress sequence)
        (λ subtree. IsTotal-lift (read_all-Ends subtree _ general_name_from_der-IsTotal))

  -- a comparison of a name with a constraint, on each kind of name
  matches-Answers :
      (subtrees : Subtrees) (name base : GeneralName) → Answers true (matches subtrees name base)
  unfolding matches
  matches-Answers permitted_subtrees (dns_name name) (dns_name base) =
      (presented_id_matches-Ends name base).1
  matches-Answers excluded_subtrees (dns_name name) (dns_name base) =
      (presented_id_matches-Ends name base).1
  matches-Answers permitted_subtrees (directory_name name) (directory_name base) = returned
  matches-Answers excluded_subtrees (directory_name name) (directory_name base) = returned
  matches-Answers permitted_subtrees (ip_address name) (ip_address base) =
      presented_id_matches_constraint-Ends name base
  matches-Answers excluded_subtrees (ip_address name) (ip_address base) =
      presented_id_matches_constraint-Ends name base
  matches-Answers permitted_subtrees (unsupported a) (unsupported b) = same_tag (a == b)
  matches-Answers excluded_subtrees (unsupported a) (unsupported b) = same_tag (a == b)
  matches-Answers _ _ _ = tt

  constraint_round-IsTotal :
      (subtrees : Subtrees) (name : GeneralName) (s : Seen)
      → IsTotal true (constraint_round subtrees name s)
  unfolding constraint_round
  constraint_round-IsTotal subtrees name s =
      IsTotal-bind general_subtree-IsTotal
        (λ base. IsTotal-lift (note-Ends subtrees _ s (matches-Answers subtrees name base)))

  constraint_round-IsProgress :
      (subtrees : Subtrees) (name : GeneralName) (s : Seen)
      → IsProgress (constraint_round subtrees name s)
  unfolding constraint_round
  constraint_round-IsProgress subtrees name s =
      IsProgress-bind {p = true} general_subtree-IsProgress
        (λ base. IsTotal-lift (note-Ends subtrees _ s (matches-Answers subtrees name base)))

  check_subtrees-Ends :
      (subtrees : Subtrees) (name : GeneralName) (o : Option Input)
      → Ends true (check_subtrees subtrees name o)
  unfolding check_subtrees
  check_subtrees-Ends subtrees name none = returned
  check_subtrees-Ends subtrees name (some constraints) =
      Ends-bind
        (IsTotal-Ends
          (IsTotal-while_not_at_end (constraint_round-IsTotal subtrees name)
            (constraint_round-IsProgress subtrees name) _)
          (new constraints))
        (λ s. Ends-if (s.mismatched && not s.matched) failed returned)

  check_presented_id-Ends :
      (name : GeneralName) (permitted excluded : Option Input)
      → Ends true (check_presented_id_conforms_to_constraints name permitted excluded)
  unfolding check_presented_id_conforms_to_constraints
  check_presented_id-Ends name permitted excluded =
      Ends-bind (check_subtrees-Ends permitted_subtrees name permitted)
        (λ t. check_subtrees-Ends excluded_subtrees name excluded)

  failed-Answers : (r : Result (Unit {0})) → Ends true r → Answers true (Verify.failed r)
  failed-Answers (ok t) h = tt
  failed-Answers (err e) h = failed
  failed-Answers panic h = panicked refl
  failed-Answers stuck h = elim h [ ]

  constraint_closure-Answers :
      (permitted excluded : Option Input) (r : Result GeneralName)
      → Ends true r
      → Answers true (constraint_closure permitted excluded r)
  unfolding constraint_closure
  constraint_closure-Answers permitted excluded (ok name) h =
      failed-Answers _ (check_presented_id-Ends name permitted excluded)
  constraint_closure-Answers permitted excluded (err e) h = failed
  constraint_closure-Answers permitted excluded panic h = panicked refl
  constraint_closure-Answers permitted excluded stuck h = elim h [ ]

  or_conforms-Ends : (o : Option (Result (Unit {0}))) → Answers true o → Ends true (or_conforms o)
  unfolding or_conforms
  or_conforms-Ends none h = returned
  or_conforms-Ends (some r) h = h

  check_names-Ends :
      (permitted excluded : Option Input) (contents : SubjectCommonNameContents) (c : CertFields)
      → Ends true (check_names permitted excluded contents c)
  unfolding check_names
  check_names-Ends permitted excluded contents c = or_conforms-Ends _ (
      find_name-Answers true (constraint_closure permitted excluded) _
        (constraint_closure-Answers permitted excluded))

  check_chain_names-Ends :
      (permitted excluded : Option Input) (contents : SubjectCommonNameContents) (cert : Cert)
      → Ends true (check_chain_names permitted excluded contents cert)
  unfolding check_chain_names
  check_chain_names-Ends permitted excluded contents (end_entity c) =
      check_names-Ends permitted excluded contents c
  check_chain_names-Ends permitted excluded contents (ca c child) =
      Ends-bind (check_names-Ends permitted excluded contents c)
        (λ t. check_chain_names-Ends permitted excluded contents child)

  parse_subtrees-IsTotal : {p : Bool} (tag : Tag) → IsTotal p (parse_subtrees tag)
  unfolding parse_subtrees
  parse_subtrees-IsTotal tag =
      IsTotal-branch (λ inner. not (peek inner (tag_byte tag))) (IsTotal-pure none)
        (IsTotal-bind (expect_tag-IsTotal tag) (λ subtrees. IsTotal-pure (some subtrees)))

  constrain-IsTotal :
      (contents : SubjectCommonNameContents) (cert : Cert) → IsTotal true (constrain contents cert)
  unfolding constrain
  constrain-IsTotal contents cert =
      IsTotal-bind (parse_subtrees-IsTotal context_specific_constructed0) (λ permitted.
        IsTotal-bind (parse_subtrees-IsTotal context_specific_constructed1)
          (λ excluded. IsTotal-lift (check_chain_names-Ends permitted excluded contents cert)))

  -- Checking the names of every certificate down a chain against the name constraints in any bytes
  -- comes to an end, unless a call panics: each loop has rounds enough.
  pub check_name_constraints-Ends :
      (contents : SubjectCommonNameContents) (cert : Cert) (o : Option Reader)
      → Ends true (check_name_constraints contents cert o).0
  unfolding check_name_constraints
  check_name_constraints-Ends contents cert none = returned
  check_name_constraints-Ends contents cert (some input) =
      IsTotal-Ends (constrain-IsTotal contents cert) input
