-- ===== src/SubjectName/GeneralName/Total.antt =====
-- src/subject_name/verify.rs: reading a general name comes to an end.
use webpki.Prelude.{Bool, true}
use webpki.Untrusted.{Untrusted}
use webpki.Untrusted.Total.{IsTotal, IsProgress, IsTotal-bind}
use webpki.Untrusted.Advance.{IsProgress-bind}
use webpki.Der.Total.{
  total_rules, read_tag_and_get_value-IsTotal, read_tag_and_get_value-IsProgress,
}
use webpki.SubjectName.GeneralName.{general_name_from_der}

module _ ⦃u : Untrusted⦄ where
  pub general_name_from_der-IsTotal : {p : Bool} → IsTotal p general_name_from_der
  unfolding general_name_from_der
  general_name_from_der-IsTotal =
      IsTotal-bind read_tag_and_get_value-IsTotal (λ (tag, value). search (total_rules) depth 10)

  pub general_name_from_der-IsProgress : IsProgress general_name_from_der
  unfolding general_name_from_der
  general_name_from_der-IsProgress =
      IsProgress-bind {p = true} read_tag_and_get_value-IsProgress
        (λ (tag, value). search (total_rules) depth 10)
