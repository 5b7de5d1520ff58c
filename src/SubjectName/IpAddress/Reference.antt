-- ===== src/SubjectName/IpAddress/Reference.antt =====
-- The match of a presented address with the address that is asked for.
use webpki.Prelude.{
  ◌≡◌, arith, ◌&&◌, ◌||◌, [], ◌∷◌, ◌==◌, length, bytes_eq, bytes_eq_refl, bytes_eq-cons,
  bytes_eq-length,
}
use webpki.Result.{ok}
use webpki.Untrusted.{Input, Untrusted, new}
use webpki.SubjectName.IpAddress.{compare_bytes, presented_id_matches_reference_id}

module _ ⦃u : Untrusted⦄ where
  compare_same_length :
      (p r : Input)
      → length p ≡ length r
      → compare_bytes (length p) (new p) (new r) ≡ ok (bytes_eq p r)
  unfolding compare_bytes
  compare_same_length [] [] h = rw u.at_end-new (ground (arith, bytes_eq_refl []))
  compare_same_length [] (y ∷ r) h = absurd (omega arith)
  compare_same_length (x ∷ p) [] h = absurd (omega arith)
  compare_same_length (x ∷ p) (y ∷ r) h =
      rw (u.read_byte-cons x p, u.read_byte-cons y r, u.at_end-new)
        (ground (arith, compare_same_length p r, bytes_eq-cons x y p r))

  -- A presented address matches the reference address where both are the same four or sixteen bytes;
  -- the comparison returns an answer on all inputs.
  pub presented_id_matches_reference_id-bytes_eq :
      (presented reference : Input)
      → presented_id_matches_reference_id presented reference
        ≡ ok ((length presented == 4 || length presented == 16) && bytes_eq presented reference)
  unfolding presented_id_matches_reference_id
  presented_id_matches_reference_id-bytes_eq p r =
      ground (arith, compare_same_length p r, bytes_eq-length p r)
