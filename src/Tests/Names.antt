-- ===== src/Tests/Names.antt =====
-- IP addresses.
use webpki.Prelude.{
  some, none, true, ◌≡◌, refl, arith, inl, ◌&&◌, ◌||◌, ◌==◌, [], ◌∷◌, ◌++◌, length, bytes_eq,
}
use webpki.Result.{ok}
use webpki.Untrusted.{Input, new}
use webpki.Untrusted.Slice.{slice}
use webpki.SubjectName.DnsName
use webpki.SubjectName.DnsName.{dns_name_code}
use webpki.SubjectName.GeneralName.{dns_name, general_name_from_der, general_name_code}
use webpki.Der.{der_code}
use webpki.SubjectName.IpAddress.{
  v4, presented_id_matches_reference_id, presented_id_matches_constraint,
}
use webpki.SubjectName.IpAddress.Parse.{parse_ipv4_address, parse_ipv6_address, parse_code}
use webpki.SubjectName.IpAddress.Parse.Ipv4.{ipv4_text}
use webpki.SubjectName.IpAddress.Parse.Accepts.{IsIpv4, parse_ipv4_address-eq-ok_iff}
use webpki.Prelude.{◌↔◌}
use webpki.SubjectName.IpAddress.Parse.Total.{parse_address-Ends}
use webpki.Untrusted.Total.{Ends}
use webpki.Prelude.{false}
use webpki.SubjectName.IpAddress.{v6}
use webpki.SubjectName.IpAddress.Reference.{presented_id_matches_reference_id-bytes_eq}
use webpki.SubjectName.IpAddress.Mask.{
  IsNetmask, full, last, masked_equal, presented_id_matches_constraint-masked,
}

abbrev address : Input
address = 192 ∷ 0 ∷ 2 ∷ 77 ∷ []

abbrev network : Input
network = 192 ∷ 0 ∷ 2 ∷ 64 ∷ []

-- 26 ones
abbrev mask : Input
mask = 255 ∷ 255 ∷ 255 ∷ 192 ∷ []

presented_id_matches_reference_id-bytes_eq_example :
    presented_id_matches_reference_id ⦃u = slice⦄ address network
    ≡ ok ((length address == 4 || length address == 16) && bytes_eq address network)
presented_id_matches_reference_id-bytes_eq_example =
    presented_id_matches_reference_id-bytes_eq ⦃u = slice⦄ address network

mask-IsNetmask : IsNetmask mask
mask-IsNetmask = full (full (full (last 6 (omega arith) refl tt)))

presented_id_matches_constraint-masked_example :
    presented_id_matches_constraint ⦃u = slice⦄ address (network ++ mask)
    ≡ ok (masked_equal address network mask)
presented_id_matches_constraint-masked_example =
    presented_id_matches_constraint-masked ⦃u = slice⦄ address network mask (inl refl) refl refl
      mask-IsNetmask

-- "*.a.bc" presented for "X.A.bc"
wildcard_match :
    DnsName.presented_id_matches_reference_id ⦃u = slice⦄
      (b'*' ∷ b'.' ∷ b'a' ∷ b'.' ∷ b'b' ∷ b'c' ∷ [])
      (b'X' ∷ b'.' ∷ b'A' ∷ b'.' ∷ b'b' ∷ b'c' ∷ [])
    ≡ ok true
unfolding dns_name_code
wildcard_match = refl

-- "x.a.bc" against the constraint ".bc"
constraint_match :
    DnsName.presented_id_matches_constraint ⦃u = slice⦄
      (b'x' ∷ b'.' ∷ b'a' ∷ b'.' ∷ b'b' ∷ b'c' ∷ [])
      (b'.' ∷ b'b' ∷ b'c' ∷ [])
    ≡ ok true
unfolding dns_name_code
constraint_match = refl

-- "192.0.2.77"
parsed_address :
    parse_ipv4_address ⦃u = slice⦄
      (b'1' ∷ b'9' ∷ b'2' ∷ b'.' ∷ b'0' ∷ b'.' ∷ b'2' ∷ b'.' ∷ b'7' ∷ b'7' ∷ [])
    ≡ ok (
        some
          (v4 (b'1' ∷ b'9' ∷ b'2' ∷ b'.' ∷ b'0' ∷ b'.' ∷ b'2' ∷ b'.' ∷ b'7' ∷ b'7' ∷ []) address))
unfolding parse_code
parsed_address = refl

-- a leading zero
refused_address :
    parse_ipv4_address ⦃u = slice⦄ (b'0' ∷ b'1' ∷ b'.' ∷ b'0' ∷ b'.' ∷ b'2' ∷ b'.' ∷ b'7' ∷ [])
    ≡ ok none
unfolding parse_code
refused_address = refl

general_name :
    (general_name_from_der ⦃u = slice⦄ (new ⦃u = slice⦄ (0x82 ∷ 1 ∷ b'a' ∷ []))).0
    ≡ ok (dns_name (b'a' ∷ []))
unfolding general_name_code der_code
general_name = refl

abbrev text : Input
text = b'1' ∷ b'9' ∷ b'2' ∷ b'.' ∷ b'0' ∷ b'.' ∷ b'2' ∷ b'.' ∷ b'7' ∷ b'7' ∷ []

parse_ipv4_address-eq-ok_iff_example :
    (parse_ipv4_address ⦃u = slice⦄ text ≡ ok (some (v4 text address))) ↔ IsIpv4 text address
parse_ipv4_address-eq-ok_iff_example = parse_ipv4_address-eq-ok_iff ⦃u = slice⦄ text address

printed : ipv4_text 192 0 2 77 ≡ text
printed = refl

parse_address-Ends_example :
    Ends false (parse_ipv4_address ⦃u = slice⦄ text)
    × Ends false (parse_ipv6_address ⦃u = slice⦄ text)
parse_address-Ends_example = parse_address-Ends ⦃u = slice⦄ text

-- 2001:0db8:0000:0000:0000:0000:0000:00Ff
abbrev text6 : Input
text6 =
    b'2' ∷ b'0' ∷ b'0' ∷ b'1' ∷ b':' ∷ b'0' ∷ b'd' ∷ b'b' ∷ b'8' ∷ b':' ∷ b'0' ∷ b'0' ∷ b'0' ∷ b'0'
    ∷ b':' ∷ b'0' ∷ b'0' ∷ b'0' ∷ b'0' ∷ b':' ∷ b'0' ∷ b'0' ∷ b'0' ∷ b'0' ∷ b':' ∷ b'0' ∷ b'0'
    ∷ b'0' ∷ b'0' ∷ b':' ∷ b'0' ∷ b'0' ∷ b'0' ∷ b'0' ∷ b':' ∷ b'0' ∷ b'0' ∷ b'F' ∷ b'f' ∷ []

parsed6 :
    parse_ipv6_address ⦃u = slice⦄ text6
    ≡ ok (
        some (
          v6 text6
            (0x20 ∷ 0x01 ∷ 0x0d ∷ 0xb8 ∷ 0 ∷ 0 ∷ 0 ∷ 0 ∷ 0 ∷ 0 ∷ 0 ∷ 0 ∷ 0 ∷ 0 ∷ 0 ∷ 0xff ∷ [])))
unfolding parse_code
parsed6 = refl
