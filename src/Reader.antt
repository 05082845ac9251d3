-- ===== src/Reader.antt =====
-- `iptsd::Reader` of src/common/reader.hpp: a cursor over a span of bytes. A span is the list of
-- its bytes. An operation returns what it reads and the moved reader, or what it throws.
-- Positions and lengths do not wrap: a span has less than 2 ^ 64 bytes.
pub mod Bounds
pub mod Slices
pub mod Fueled
pub mod Ahead
use iptsd_android.Prelude.{
  ℕ, ◌+◌, ◌-◌, ◌*◌, List, Result, ok, err, ◌>>=◌, ◌>>◌, guard, end_of_buffer, contract, length,
  take, drop, leb, ltb, not,
}

pub record Reader : Type 0 where
  pub bytes : List ℕ
  pub index : ℕ

unfoldable pub init : List ℕ → Reader
init bytes = record { bytes = bytes; index = 0 }

-- `size()`
unfoldable pub size : Reader → ℕ
size r = length r.bytes - r.index

unfoldable pub skip : ℕ → Reader → Result Reader
unfolding size
skip n r = do
  guard (not (ltb (size r) n)) (end_of_buffer n (size r))
  ok (record r { index = r.index + n })

-- `gsl::span::subspan(offset, count)`, whose precondition ends the process.
unfoldable pub gsl_subspan : ℕ → ℕ → List ℕ → Result (List ℕ)
gsl_subspan offset count bytes = do
  guard (leb offset (length bytes)) contract
  guard (leb count (length bytes - offset)) contract
  ok (take count (drop offset bytes))

-- `subspan<T>(count)` at a type of `width` bytes: the check compares elements with bytes.
unfoldable pub subspan : ℕ → ℕ → Reader → Result (List ℕ × Reader)
subspan width count r = do
  guard (not (ltb (size r) count)) (end_of_buffer count (size r))
  chunk ← gsl_subspan r.index (count * width) r.bytes
  r' ← skip (count * width) r
  ok (chunk, r')

-- `sub(size)`
unfoldable pub sub : ℕ → Reader → Result (Reader × Reader)
sub n r = do (chunk, r') ← subspan 1 n r; ok (init chunk, r')

-- `read(dest)` with a destination of `n` bytes, and so `read<T>()` at a type of that size.
unfoldable pub read : ℕ → Reader → Result (List ℕ × Reader)
read n r = do
  guard (not (ltb (size r) n)) (end_of_buffer n (size r))
  (chunk, r') ← subspan 1 n r
  ok (chunk, r')
