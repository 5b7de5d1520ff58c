-- ===== src/SubjectName/IpAddress/Parse/Accepts.antt =====
-- src/subject_name/ip_address.rs: the texts that `parse_ipv4_address` accepts.
use webpki.Prelude.{
  ℕ, ◌+◌, ◌<◌, ◌≡◌, ◌≢◌, ◌↔◌, append-nil, inl, inr, refl, sym, ap, ◌∙◌, arith, true, false, some,
  List, [], ◌∷◌, ◌++◌, Option-cases,
}
use mathlib.Core.Path.{subst}
use webpki.Result.{ok, >>=-eq-ok}
use webpki.Untrusted.{Input, Untrusted}
use webpki.SubjectName.IpAddress.{v4}
use webpki.SubjectName.IpAddress.Parse.{parse_ipv4_address, set_at}
use webpki.SubjectName.IpAddress.Parse.Ipv4.{
  scan, run, octet_text, ipv4_text, parse_ipv4_address-ipv4_text,
}
use webpki.SubjectName.IpAddress.Parse.Inversion.{Next, ends, goes_on, reads}

-- Four octets, each in decimal with no leading zeros, with dots between.
pub record IsIpv4 (t : Input) (os : List ℕ) : Type 0 where
  pub a : ℕ
  pub b : ℕ
  pub c : ℕ
  pub d : ℕ
  pub a_small : a < 256
  pub b_small : b < 256
  pub c_small : c < 256
  pub d_small : d < 256
  pub text : t ≡ ipv4_text a b c d
  pub octets : os ≡ a ∷ b ∷ c ∷ d ∷ []

module _ (w x y z v : ℕ) (ys : List ℕ) where
  set_first : set_at (w ∷ x ∷ y ∷ z ∷ []) 0 v ≡ ok ys → ys ≡ v ∷ x ∷ y ∷ z ∷ []
  unfolding set_at
  set_first h = cc

  set_second : set_at (w ∷ x ∷ y ∷ z ∷ []) 1 v ≡ ok ys → ys ≡ w ∷ v ∷ y ∷ z ∷ []
  unfolding set_at
  set_second h = cc

  set_third : set_at (w ∷ x ∷ y ∷ z ∷ []) 2 v ≡ ok ys → ys ≡ w ∷ x ∷ v ∷ z ∷ []
  unfolding set_at
  set_third h = cc

  set_fourth : set_at (w ∷ x ∷ y ∷ z ∷ []) 3 v ≡ ok ys → ys ≡ w ∷ x ∷ y ∷ v ∷ []
  unfolding set_at
  set_fourth h = cc

v4_octets :
    {text : Input} {xs ys : List ℕ} → ok (some (v4 text xs)) ≡ ok (some (v4 text ys)) → xs ≡ ys
v4_octets e = cc

module _ ⦃u : Untrusted⦄ where
  dotted :
      (k n : ℕ) (octets os : List ℕ) (i j : Input)
      → Next k n octets os j
      → i ≡ octet_text n ++ j
      → k ≢ 3
      → (i' : Input) × (octets' : List ℕ) × (i ≡ octet_text n ++ b'.' ∷ i')
        × (set_at octets k n ≡ ok octets')
        × (run (scan false 0 0 0 0 (k + 1) octets') i' ≡ ok (some os))
  dotted k n octets os i _ (ends last set) e h = absurd (h last)
  dotted k n octets os i _ (goes_on i' octets' fewer set rest) e h = (i', octets', e, set, rest)

  finished :
      (k n : ℕ) (octets os : List ℕ) (i j : Input)
      → Next k n octets os j
      → i ≡ octet_text n ++ j
      → k ≡ 3
      → (i ≡ octet_text n) × (set_at octets k n ≡ ok os)
  finished k n octets os i _ (ends last set) e h = (e ∙ append-nil (octet_text n), set)
  finished k n octets os i _ (goes_on i' octets' fewer set rest) e h = absurd (fewer h)

  from_fourth :
      (a b c : ℕ) (i : Input) (os : List ℕ)
      → run (scan false 0 0 0 0 3 (a ∷ b ∷ c ∷ 0 ∷ [])) i ≡ ok (some os)
      → (d : ℕ) × (d < 256) × (i ≡ octet_text d) × (os ≡ a ∷ b ∷ c ∷ d ∷ [])
  from_fourth a b c i os h =
      let r = reads false 3 (a ∷ b ∷ c ∷ 0 ∷ []) os i h in
      let (text, set) = finished 3 r.n _ os i r.j r.next r.text refl in
      (r.n, r.small, text, set_fourth a b c 0 r.n os set)

  from_third :
      (a b : ℕ) (i : Input) (os : List ℕ)
      → run (scan false 0 0 0 0 2 (a ∷ b ∷ 0 ∷ 0 ∷ [])) i ≡ ok (some os)
      → (c : ℕ) × (d : ℕ) × (c < 256)
        × (d < 256)
        × (i ≡ octet_text c ++ b'.' ∷ octet_text d)
        × (os ≡ a ∷ b ∷ c ∷ d ∷ [])
  from_third a b i os h =
      let r = reads false 2 (a ∷ b ∷ 0 ∷ 0 ∷ []) os i h in
      let (i', octets, text, set, rest) =
        dotted 2 r.n (a ∷ b ∷ 0 ∷ 0 ∷ []) os i r.j r.next r.text (omega arith) in
      let same = set_third a b 0 0 r.n octets set in
      let (d, small, text', whole) =
        from_fourth a b r.n i' os
          (subst (λ xs. run (scan false 0 0 0 0 3 xs) i' ≡ ok (some os)) same rest) in
      (r.n, d, r.small, small, text ∙ ap (λ t. octet_text r.n ++ b'.' ∷ t) text', whole)

  from_second :
      (a : ℕ) (i : Input) (os : List ℕ)
      → run (scan false 0 0 0 0 1 (a ∷ 0 ∷ 0 ∷ 0 ∷ [])) i ≡ ok (some os)
      → (b : ℕ) × (c : ℕ) × (d : ℕ) × (b < 256)
        × (c < 256)
        × (d < 256)
        × (i ≡ octet_text b ++ b'.' ∷ (octet_text c ++ b'.' ∷ octet_text d))
        × (os ≡ a ∷ b ∷ c ∷ d ∷ [])
  from_second a i os h =
      let r = reads false 1 (a ∷ 0 ∷ 0 ∷ 0 ∷ []) os i h in
      let (i', octets, text, set, rest) =
        dotted 1 r.n (a ∷ 0 ∷ 0 ∷ 0 ∷ []) os i r.j r.next r.text (omega arith) in
      let same = set_second a 0 0 0 r.n octets set in
      let (c, d, c_small, d_small, text', whole) =
        from_third a r.n i' os
          (subst (λ xs. run (scan false 0 0 0 0 2 xs) i' ≡ ok (some os)) same rest) in
      (
        r.n,
        c,
        d,
        r.small,
        c_small,
        d_small,
        text ∙ ap (λ t. octet_text r.n ++ b'.' ∷ t) text',
        whole,
      )

  four_octets :
      (text : Input) (os : List ℕ)
      → run (scan true 0 0 0 0 0 (0 ∷ 0 ∷ 0 ∷ 0 ∷ [])) text ≡ ok (some os)
      → IsIpv4 text os
  four_octets i os h =
      let r = reads true 0 (0 ∷ 0 ∷ 0 ∷ 0 ∷ []) os i h in
      let (i', octets, text, set, rest) =
        dotted 0 r.n (0 ∷ 0 ∷ 0 ∷ 0 ∷ []) os i r.j r.next r.text (omega arith) in
      let same = set_first 0 0 0 0 r.n octets set in
      let (b, c, d, b_small, c_small, d_small, text', whole) =
        from_second r.n i' os
          (subst (λ xs. run (scan false 0 0 0 0 1 xs) i' ≡ ok (some os)) same rest) in
      record {
        a = r.n;
        b = b;
        c = c;
        d = d;
        a_small = r.small;
        b_small = b_small;
        c_small = c_small;
        d_small = d_small;
        text = text ∙ ap (λ t. octet_text r.n ++ b'.' ∷ t) text';
        octets = whole;
      }

  of_text :
      (text : Input) (octets : List ℕ)
      → IsIpv4 text octets
      → parse_ipv4_address text ≡ ok (some (v4 text octets))
  of_text text octets v =
      let read =
        parse_ipv4_address-ipv4_text v.a v.b v.c v.d v.a_small v.b_small v.c_small v.d_small in
      rw v.octets (
        subst (λ t. parse_ipv4_address t ≡ ok (some (v4 t (v.a ∷ v.b ∷ v.c ∷ v.d ∷ []))))
          (sym v.text) read)

  -- A text is read as an address exactly where it is four octets, each in decimal with no leading
  -- zeros, with dots between; the address is then of this text and of these octets.
  pub parse_ipv4_address-eq-ok_iff :
      (text : Input) (octets : List ℕ)
      → (parse_ipv4_address text ≡ ok (some (v4 text octets))) ↔ IsIpv4 text octets
  unfolding parse_ipv4_address
  parse_ipv4_address-eq-ok_iff text octets = (
    (λ h.
        let (parsed, read, made) =
          >>=-eq-ok (run (scan true 0 0 0 0 0 (0 ∷ 0 ∷ 0 ∷ 0 ∷ [])) text) _ h in
        elim (Option-cases parsed) [
          | inl nothing ↦ absurd (ground arith)
          | inr (os, e) ↦
              let same : os ≡ octets = v4_octets (rw e at made) in
              subst (IsIpv4 text) same (four_octets text os (rw e at read))
        ]),
    (λ v. of_text text octets v),
  )
