-- ===== src/Der/Gives.antt =====
-- src/der.rs: what is known of the values that nested decoders give.
use webpki.Prelude.{ℕ, zero, suc, ap, length}
use webpki.Error.{Error}
use webpki.Untrusted.{Input, Untrusted, Decoder, remaining, at_end, read_all}
use webpki.Untrusted.Gives.{
  Ensures, Gives, Gives-lift, Gives-pure, Gives-branch, Gives-bind, Gives-bind_value,
}
use webpki.Der.{Tag, nested_limited, nested, nested_loop, nested_of_mut}
use webpki.Der.Inversion.{read_all-eq-ok}

module _ ⦃u : Untrusted⦄ {A : Type 0} {Q : A → Type 0} where
  pub read_all-Ensures :
      {m : Decoder A} (i : Input) (e : Error) → Gives Q m → Ensures Q (read_all i e m)
  read_all-Ensures {m} i e h a run =
      let (r, ran, done) = read_all-eq-ok i e m run in h.at _ a (ap (λ x. x.0) ran)

  pub Gives-nested : {m : Decoder A} (tag : Tag) (e : Error) → Gives Q m → Gives Q (nested tag e m)
  unfolding nested nested_limited
  Gives-nested tag e h = Gives-bind _ (λ value. Gives-lift (read_all-Ensures value e h))

  Gives-nested_loop :
      (fuel : ℕ) (tag : Tag) (e : Error) (decoder : A → Decoder A)
      → ((a : A) → Q a → Gives Q (decoder a))
      → (a : A) → Q a
      → Gives Q (nested_loop fuel tag e decoder a)
  unfolding nested_loop
  Gives-nested_loop zero tag e decoder h a q = record { at = λ r b k. cc }
  Gives-nested_loop (suc fuel) tag e decoder h a q =
      Gives-bind_value (Gives-nested tag e (h a q))
        (λ b p. Gives-branch at_end (Gives-pure p) (Gives-nested_loop fuel tag e decoder h b p))

  -- what each round keeps
  pub Gives-nested_of_mut :
      (outer_tag inner_tag : Tag) (e : Error) (decoder : A → Decoder A)
      → ((a : A) → Q a → Gives Q (decoder a))
      → (a : A) → Q a
      → Gives Q (nested_of_mut outer_tag inner_tag e decoder a)
  unfolding nested_of_mut
  Gives-nested_of_mut outer_tag inner_tag e decoder h a q = Gives-nested outer_tag e (record {
    at = λ r. (Gives-nested_loop (suc (length (remaining r))) inner_tag e decoder h a q).at r;
  })
