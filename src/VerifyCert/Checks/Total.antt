-- ===== src/VerifyCert/Checks/Total.antt =====
-- src/verify_cert.rs: the checks on one certificate come to an end.
use webpki.Prelude.{ℕ, zero, suc, ◌<◌, arith, Bool, true, false, not, Option, none, some, ltb}
use webpki.Untrusted.{Untrusted, Reader, at_end, skip_to_end}
use webpki.Untrusted.Total.{
  Ends, returned, failed, Ends-if, Ends-if_pair, continue-Ends, choice-Ends, Ends-bind, left,
  IsTotal, IsTotal-Ends, IsTotal-pure, IsTotal-branch, IsTotal-bind,
}
use webpki.Untrusted.Advance.{read_all-Ends, read_all_optional-Ends}
use webpki.Untrusted.Loop.Rounds.{round_less}
use webpki.Der.{oid, expect_tag}
use webpki.Der.Total.{
  total_rules, expect_tag-IsTotal, expect_tag-IsProgress, bool_from_der-IsTotal,
  u8_from_der-IsTotal,
}
use webpki.Time.{Time}
use webpki.Time.Total.{time_from_der-IsTotal}
use webpki.Cert.{Cert, fields}
use webpki.VerifyCert.Checks.{
  UsedAsCa, yes_ca, no_ca, ExtendedKeyUsage, required, required_if_present, key_purpose_id_equals,
  within_validity, basic_constraints_allow, check_validity, read_path_len, read_basic_constraints,
  check_basic_constraints, eku_loop, check_eku, check_issuer_independent_properties,
}

module _ {p : Bool} where
  within_validity-Ends :
      (not_before not_after time : Time) → Ends p (within_validity not_before not_after time)
  unfolding within_validity
  within_validity-Ends not_before not_after time = search (Ends-if, returned, failed)

  basic_constraints_allow-Ends :
      (role : UsedAsCa) (is_ca : Bool) (len : Option ℕ) (n : ℕ)
      → Ends p (basic_constraints_allow role is_ca len n)
  unfolding basic_constraints_allow
  basic_constraints_allow-Ends no_ca true len n = failed
  basic_constraints_allow-Ends no_ca false len n = returned
  basic_constraints_allow-Ends yes_ca false len n = failed
  basic_constraints_allow-Ends yes_ca true none n = returned
  basic_constraints_allow-Ends yes_ca true (some l) n = Ends-if (ltb l n) failed returned

  module _ ⦃u : Untrusted⦄ where
    check_validity-IsTotal : (time : Time) → IsTotal p (check_validity time)
    unfolding check_validity
    check_validity-IsTotal time = search (total_rules, time_from_der-IsTotal, within_validity-Ends)

    read_path_len-IsTotal : IsTotal p read_path_len
    unfolding read_path_len
    read_path_len-IsTotal =
        IsTotal-branch (λ r. not (at_end r))
          (IsTotal-bind u8_from_der-IsTotal (λ len. IsTotal-pure (some len))) (IsTotal-pure none)

    read_basic_constraints-IsTotal :
        (role : UsedAsCa) (n : ℕ) → IsTotal p (read_basic_constraints role n)
    unfolding read_basic_constraints
    read_basic_constraints-IsTotal role n =
        search
          (total_rules, bool_from_der-IsTotal, read_path_len-IsTotal, basic_constraints_allow-Ends)

    check_basic_constraints-Ends :
        (role : UsedAsCa) (n : ℕ) (o : Option Reader) → Ends p (check_basic_constraints role n o).0
    unfolding check_basic_constraints
    check_basic_constraints-Ends role n none = basic_constraints_allow-Ends role false none n
    check_basic_constraints-Ends role n (some r) =
        IsTotal-Ends (read_basic_constraints-IsTotal role n) r

    eku_loop-Ends :
        (fuel : ℕ) (eku : ExtendedKeyUsage) (r : Reader)
        → left r < fuel
        → Ends p (eku_loop fuel eku r).0
    unfolding eku_loop
    eku_loop-Ends zero eku r h = absurd (omega arith)
    eku_loop-Ends (suc fuel) eku r h =
        continue-Ends (expect_tag oid r) _ (IsTotal-Ends (expect_tag-IsTotal oid) r) (λ v s e.
          let less = round_less (expect_tag oid) r (expect_tag-IsProgress oid) e in
          choice-Ends (key_purpose_id_equals eku v) skip_to_end _ s returned
            (Ends-if_pair (at_end s) _ _ failed (eku_loop-Ends fuel eku s (omega arith))))

    check_eku-Ends : (eku : ExtendedKeyUsage) (o : Option Reader) → Ends p (check_eku eku o).0
    unfolding check_eku
    check_eku-Ends (required_if_present oid_value) none = returned
    check_eku-Ends (required oid_value) none = failed
    check_eku-Ends (required_if_present oid_value) (some r) = eku_loop-Ends _ _ r (omega arith)
    check_eku-Ends (required oid_value) (some r) = eku_loop-Ends _ _ r (omega arith)

    -- The checks that do not depend on the issuer succeed or fail, whatever bytes the validity, the
    -- basic constraints and the extended key usage are: no call panics and no loop runs out of fuel.
    pub check_issuer_independent_properties-Ends :
        (cert : Cert) (time : Time) (role : UsedAsCa) (n : ℕ) (eku : ExtendedKeyUsage)
        → Ends p (check_issuer_independent_properties cert time role n eku)
    unfolding check_issuer_independent_properties
    check_issuer_independent_properties-Ends cert time role n eku =
        Ends-bind (read_all-Ends (fields cert).validity _ (check_validity-IsTotal time)) (λ t.
          Ends-bind
            (read_all_optional-Ends (fields cert).basic_constraints _ _
              (check_basic_constraints-Ends role n))
            (λ t'. read_all_optional-Ends (fields cert).eku _ _ (check_eku-Ends eku)))
