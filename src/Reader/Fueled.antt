-- ===== src/Reader/Fueled.antt =====
-- The operations of `Reader` have no loop that could run out of fuel.
use iptsd_android.Prelude.{ℕ, ◌*◌, IsFueled, arith}
use iptsd_android.Reader.{Reader, skip, gsl_subspan, subspan, sub, read}

pub skip-IsFueled : (n : ℕ) (r : Reader) → IsFueled (skip n r)
unfolding skip
skip-IsFueled n r e = ground arith

pub subspan-IsFueled : (w n : ℕ) (r : Reader) → IsFueled (subspan w n r)
unfolding subspan gsl_subspan
subspan-IsFueled w n r e = ground (arith, skip-IsFueled (n * w) r)

pub read-IsFueled : (n : ℕ) (r : Reader) → IsFueled (read n r)
unfolding read
read-IsFueled n r e = ground (arith, subspan-IsFueled 1 n r)

pub sub-IsFueled : (n : ℕ) (r : Reader) → IsFueled (sub n r)
unfolding sub
sub-IsFueled n r e = ground (arith, subspan-IsFueled 1 n r)
