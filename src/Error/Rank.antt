-- ===== src/Error/Rank.antt =====
-- src/error.rs: the order of errors by specificity.
use webpki.Prelude.{◌≤◌, arith}
use webpki.Error.{Error, rank, most_specific}

pub most_specific-left : (a b : Error) → rank a ≤ rank (most_specific a b)
unfolding most_specific
most_specific-left a b = ground arith

pub most_specific-right : (a b : Error) → rank b ≤ rank (most_specific a b)
unfolding most_specific
most_specific-right a b = ground arith
