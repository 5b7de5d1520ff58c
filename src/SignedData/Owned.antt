-- ===== src/SignedData/Owned.antt =====
-- src/signed_data.rs: the owned form of a signed structure.
use webpki.Prelude.{◌≡◌, refl}
use webpki.SignedData.{SignedData, borrow, to_owned}

pub borrow-to_owned : (signed_data : SignedData) → borrow (to_owned signed_data) ≡ signed_data
unfolding borrow to_owned
borrow-to_owned signed_data = refl
