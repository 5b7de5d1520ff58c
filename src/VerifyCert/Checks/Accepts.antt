-- ===== src/VerifyCert/Checks/Accepts.antt =====
-- src/verify_cert.rs: the outcomes of the checks on validity and role.
use webpki.Prelude.{ℕ, ◌≤◌, ◌≡◌, ◌↔◌, refl, arith, Bool, true, false, Option, none, some}
use webpki.Result.{ok}
use webpki.Time.{Time}
use webpki.VerifyCert.Checks.{UsedAsCa, yes_ca, no_ca, within_validity, basic_constraints_allow}

-- A time is accepted exactly where it lies between the two ends of the validity, both included.
pub within_validity_iff :
    (not_before not_after time : Time)
    → (within_validity not_before not_after time ≡ ok tt)
      ↔ ((not_before ≤ time) × (time ≤ not_after))
unfolding within_validity
within_validity_iff not_before not_after time = ground arith

-- A CA certificate is allowed as an issuer, with at most as many issuers below it as its path length
-- says, and any other as a leaf only.
pub data Allowed : UsedAsCa → Bool → Option ℕ → ℕ → Type 0 where
  as_leaf : {path_len : Option ℕ} {n : ℕ} → Allowed no_ca false path_len n
  as_issuer : {n : ℕ} → Allowed yes_ca true none n
  as_bounded_issuer : {len n : ℕ} → n ≤ len → Allowed yes_ca true (some len) n

allow-Allowed :
    (role : UsedAsCa) (is_ca : Bool) (path_len : Option ℕ) (n : ℕ)
    → basic_constraints_allow role is_ca path_len n ≡ ok tt
    → Allowed role is_ca path_len n
unfolding basic_constraints_allow
allow-Allowed no_ca true path_len n h = cc
allow-Allowed no_ca false path_len n h = as_leaf
allow-Allowed yes_ca true none n h = as_issuer
allow-Allowed yes_ca true (some len) n h = as_bounded_issuer (ground arith)
allow-Allowed yes_ca false path_len n h = cc

Allowed-allow :
    {role : UsedAsCa} {is_ca : Bool} {path_len : Option ℕ} {n : ℕ}
    → Allowed role is_ca path_len n
    → basic_constraints_allow role is_ca path_len n ≡ ok tt
unfolding basic_constraints_allow
Allowed-allow as_leaf = refl
Allowed-allow as_issuer = refl
Allowed-allow (as_bounded_issuer le) = ground arith

-- The basic constraints allow a certificate exactly where it is a CA's used as an issuer, with no
-- more issuers below it than its path length if it has one, or is not a CA's and used as a leaf.
pub basic_constraints_allow_iff :
    (role : UsedAsCa) (is_ca : Bool) (path_len : Option ℕ) (n : ℕ)
    → (basic_constraints_allow role is_ca path_len n ≡ ok tt) ↔ Allowed role is_ca path_len n
basic_constraints_allow_iff role is_ca path_len n =
    (allow-Allowed role is_ca path_len n, Allowed-allow)
