-- ===== src/Reader/Slices.antt =====
-- Reads of `Reader` compose, and a reader that was split off stays inside its chunk.
use iptsd_android.Prelude.{ℕ, ◌+◌, ◌≤◌, ◌≡◌, ◌++◌, ok, drop, arith, take-add, drop-add}
use iptsd_android.Reader.{Reader, init, size, read, sub}
use iptsd_android.Reader.Bounds.{
  IsValid, chunk, advance, length-chunk, advance-IsValid, size-advance, size-init, read-ok, sub-ok,
}

pub chunk-add : (n m : ℕ) (r : Reader) → chunk (n + m) r ≡ chunk n r ++ chunk m (advance n r)
chunk-add n m r = rw (take-add n m (drop r.index r.bytes), drop-add r.index n r.bytes)

-- Where a valid reader has enough bytes, one read of `n + m` bytes returns the bytes of a read of `n` and
-- then of a read of `m`, and all three leave the reader at the same place.
pub read-add :
    (n m : ℕ) (r : Reader)
    → IsValid r
    → n + m ≤ size r
    → (read n r ≡ ok (chunk n r, advance n r))
      × (read m (advance n r) ≡ ok (chunk m (advance n r), advance (n + m) r))
      × (read (n + m) r ≡ ok (chunk n r ++ chunk m (advance n r), advance (n + m) r))
read-add n m r v h =
    (read-ok n r v (omega arith), second, rw (← chunk-add n m r) (read-ok (n + m) r v h))
  where
    left : m ≤ size (advance n r)
    left = omega (arith, size-advance n r)

    second : read m (advance n r) ≡ ok (chunk m (advance n r), advance (n + m) r)
    second = ground (arith, read-ok m (advance n r) (advance-IsValid n r v (omega arith)) left)

-- Where a valid reader has enough bytes, `sub n` splits off a valid reader over exactly the next `n` bytes, and moves the reader behind them.
pub sub_splits :
    (n : ℕ) (r : Reader)
    → IsValid r
    → n ≤ size r
    → (sub n r ≡ ok (init (chunk n r), advance n r))
      × IsValid (init (chunk n r))
      × (size (init (chunk n r)) ≡ n)
      × (size (advance n r) + n ≡ size r)
unfolding init
sub_splits n r v h = (
  sub-ok n r v h,
  omega arith,
  omega (arith, size-init (chunk n r), length-chunk n r h),
  omega (arith, size-advance n r),
)
