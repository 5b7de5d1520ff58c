-- ===== src/VerifyCert/Limit.antt =====
-- src/verify_cert.rs: the limit of `check_signatures` on the count of signatures.
use webpki.Prelude.{ℕ, ◌≤◌, ◌<◌, ◌≡◌}
use webpki.Error.{Error}
use webpki.Result.{ok}
use webpki.Exec.{Exec}
use webpki.Untrusted.{Untrusted}
use webpki.Time.{Time}
use webpki.Cert.{Cert}

-- A success has counted a signature at least, and has not passed the limit.
pub record Spends {A : Type 0} (m : Exec ℕ A) : Type 0 where
  pub at : (s t : ℕ) (a : A) → m s ≡ (ok a, t) → (s < t) × (t ≤ 100)
