-- ===== src/Reader/Bounds.antt =====
-- When the operations of `Reader` succeed, and what they do then.
use iptsd_android.Prelude.{
  ℕ, ◌+◌, ◌-◌, ◌*◌, ◌≤◌, ◌<◌, ◌≡◌, ◌⊎◌, inl, inr, List, ok, err, end_of_buffer, contract, length,
  take, drop, arith, ltb, length-take, length-drop, Bool-cases, ltb→lt, ltb-false, subst,
}
use iptsd_android.Reader.{Reader, init, size, skip, gsl_subspan, subspan, sub, read}

-- The cursor lies inside the span.
abbrev pub IsValid : Reader → Type 0
IsValid r = r.index ≤ length r.bytes

-- The next `n` bytes, and the reader behind them.
abbrev pub chunk : ℕ → Reader → List ℕ
chunk n r = take n (drop r.index r.bytes)

abbrev pub advance : ℕ → Reader → Reader
advance n r = record r { index = r.index + n }

pub size-init : (bs : List ℕ) → size (init bs) ≡ length bs
unfolding size init
size-init bs = omega arith

pub init-IsValid : (bs : List ℕ) → IsValid (init bs)
unfolding init
init-IsValid bs = omega arith

pub size-advance : (n : ℕ) (r : Reader) → size (advance n r) ≡ size r - n
unfolding size
size-advance n r = omega arith

pub advance-IsValid : (n : ℕ) (r : Reader) → IsValid r → n ≤ size r → IsValid (advance n r)
unfolding size
advance-IsValid n r v h = omega arith

pub length-chunk : (n : ℕ) (r : Reader) → n ≤ size r → length (chunk n r) ≡ n
unfolding size
length-chunk n r h =
    omega (arith, length-take n (drop r.index r.bytes), length-drop r.index r.bytes)

pub skip-ok : (n : ℕ) (r : Reader) → n ≤ size r → skip n r ≡ ok (advance n r)
unfolding skip
skip-ok n r h = ground arith

pub skip-err : (n : ℕ) (r : Reader) → size r < n → skip n r ≡ err (end_of_buffer n (size r))
unfolding skip
skip-err n r h = ground arith

gsl_subspan-ok :
    (n : ℕ) (r : Reader) → IsValid r → n ≤ size r → gsl_subspan r.index n r.bytes ≡ ok (chunk n r)
unfolding gsl_subspan size
gsl_subspan-ok n r v h = ground arith

gsl_subspan-err :
    (n : ℕ) (r : Reader) → IsValid r → size r < n → gsl_subspan r.index n r.bytes ≡ err contract
unfolding gsl_subspan size
gsl_subspan-err n r v h = ground arith

pub subspan-ok :
    (w n : ℕ) (r : Reader)
    → IsValid r
    → n ≤ size r
    → n * w ≤ size r
    → subspan w n r ≡ ok (chunk (n * w) r, advance (n * w) r)
unfolding subspan
subspan-ok w n r v h k = ground (arith, gsl_subspan-ok (n * w) r v k, skip-ok (n * w) r k)

pub subspan-err :
    (w n : ℕ) (r : Reader) → size r < n → subspan w n r ≡ err (end_of_buffer n (size r))
unfolding subspan
subspan-err w n r h = ground arith

-- A chunk of single bytes.
subspan_bytes :
    (n : ℕ) (r : Reader) → IsValid r → n ≤ size r → subspan 1 n r ≡ ok (chunk n r, advance n r)
subspan_bytes n r v h =
    subst (λ k. subspan 1 n r ≡ ok (chunk k r, advance k r)) (omega arith)
      (subspan-ok 1 n r v h (omega arith))

-- A chunk that has as many elements as there are bytes left, or fewer, but more bytes, passes the
-- check of `subspan` and breaks the precondition of `gsl::span::subspan` instead.
pub subspan_contract :
    (w n : ℕ) (r : Reader) → IsValid r → n ≤ size r → size r < n * w → subspan w n r ≡ err contract
unfolding subspan
subspan_contract w n r v h k = ground (arith, gsl_subspan-err (n * w) r v k)

pub read-ok : (n : ℕ) (r : Reader) → IsValid r → n ≤ size r → read n r ≡ ok (chunk n r, advance n r)
unfolding read
read-ok n r v h = ground (arith, subspan_bytes n r v h)

pub read-err : (n : ℕ) (r : Reader) → size r < n → read n r ≡ err (end_of_buffer n (size r))
unfolding read
read-err n r h = ground arith

-- `read` of any length, by a valid reader, ends in one of two ways: it returns the next bytes and moves behind them, or
-- it throws because the span is too short.
pub read_cases :
    (n : ℕ) (r : Reader)
    → IsValid r
    → ((n ≤ size r) × (read n r ≡ ok (chunk n r, advance n r)))
      ⊎ ((size r < n) × (read n r ≡ err (end_of_buffer n (size r))))
read_cases n r v = elim (Bool-cases (ltb (size r) n)) [
  | inl short ↦ inr (ltb→lt _ _ short, read-err n r (ltb→lt _ _ short))
  | inr enough ↦ inl (ground arith, read-ok n r v (ground arith))
]

pub sub-ok :
    (n : ℕ) (r : Reader) → IsValid r → n ≤ size r → sub n r ≡ ok (init (chunk n r), advance n r)
unfolding sub
sub-ok n r v h = ground (arith, subspan_bytes n r v h)

pub sub-err : (n : ℕ) (r : Reader) → size r < n → sub n r ≡ err (end_of_buffer n (size r))
unfolding sub subspan
sub-err n r h = ground arith

-- A read that succeeds moves a valid reader forward by what it returns.
pub read_moves :
    (n : ℕ) (r : Reader) {bs : List ℕ} {r' : Reader}
    → IsValid r
    → read n r ≡ ok (bs, r')
    → IsValid r' × (size r' + n ≡ size r) × (length bs ≡ n) × (r' ≡ advance n r)
read_moves n r v e = elim (read_cases n r v) [
  | inl (h, f) ↦ ground (arith, advance-IsValid n r v h, size-advance n r, length-chunk n r h)
  | inr (h, f) ↦ absurd (ground arith)
]

pub skip_cases :
    (n : ℕ) (r : Reader)
    → ((n ≤ size r) × (skip n r ≡ ok (advance n r)))
      ⊎ ((size r < n) × (skip n r ≡ err (end_of_buffer n (size r))))
skip_cases n r = elim (Bool-cases (ltb (size r) n)) [
  | inl short ↦ inr (ltb→lt _ _ short, skip-err n r (ltb→lt _ _ short))
  | inr enough ↦ inl (ltb-false _ _ enough, skip-ok n r (ltb-false _ _ enough))
]

pub sub_cases :
    (n : ℕ) (r : Reader)
    → IsValid r
    → ((n ≤ size r) × (sub n r ≡ ok (init (chunk n r), advance n r)))
      ⊎ ((size r < n) × (sub n r ≡ err (end_of_buffer n (size r))))
sub_cases n r v = elim (Bool-cases (ltb (size r) n)) [
  | inl short ↦ inr (ltb→lt _ _ short, sub-err n r (ltb→lt _ _ short))
  | inr enough ↦ inl (ltb-false _ _ enough, sub-ok n r v (ltb-false _ _ enough))
]

-- For a valid reader, `subspan` of `n` elements of `w` bytes returns them if they are there. Otherwise it throws only if
-- there are fewer bytes than elements; in between it breaks the precondition of the span.
pub subspan_cases :
    (w n : ℕ) (r : Reader)
    → IsValid r
    → ((n ≤ size r) × (n * w ≤ size r) × (subspan w n r ≡ ok (chunk (n * w) r, advance (n * w) r)))
      ⊎ ((size r < n) × (subspan w n r ≡ err (end_of_buffer n (size r))))
      ⊎ ((n ≤ size r) × (size r < n * w) × (subspan w n r ≡ err contract))
subspan_cases w n r v = elim (Bool-cases (ltb (size r) n)) [
  | inl short ↦ inr (inl (ltb→lt _ _ short, subspan-err w n r (ltb→lt _ _ short)))
  | inr enough ↦
      let h = ltb-false _ _ enough in
      elim (Bool-cases (ltb (size r) (n * w))) [
        | inl over ↦ inr (inr (h, ltb→lt _ _ over, subspan_contract w n r v h (ltb→lt _ _ over)))
        | inr fits ↦ inl (h, ltb-false _ _ fits, subspan-ok w n r v h (ltb-false _ _ fits))
      ]
]
