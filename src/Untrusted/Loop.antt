-- ===== src/Untrusted/Loop.antt =====
-- The loops `while !reader.at_end() { .. }` of the decoders, on fuel.
pub mod Rounds
use webpki.Prelude.{ℕ, zero, suc, if◌then◌else◌, length}
use webpki.Result.{ok, stuck}
use webpki.Exec.{◌>>=◌}
use webpki.Untrusted.{Untrusted, Decoder, remaining, at_end}

module _ ⦃u : Untrusted⦄ where
  pub while_fuel : {A : Type 0} → ℕ → (A → Decoder A) → A → Decoder A
  while_fuel zero body a = λ r. (if at_end r then ok a else stuck, r)
  while_fuel (suc fuel) body a =
      λ r. let again = (body a >>= while_fuel fuel body) r in if at_end r then (ok a, r) else again

  -- The bodies below read a tag and a length in each round, so as many rounds as there are
  -- bytes are enough.
  pub while_not_at_end : {A : Type 0} → (A → Decoder A) → A → Decoder A
  while_not_at_end body a r = while_fuel (length (remaining r)) body a r

-- What a run at a concrete input has to see through.
unfoldable pub loop_code : Unit {0}
unfolding while_fuel while_not_at_end
loop_code = tt
