-- ===== src/Reader/Ahead.antt =====
-- What lies ahead of a reader, when the bytes of the span are known.
use iptsd_android.Prelude.{
  ℕ, ◌≤◌, ◌≡◌, refl, ◌∙◌, ap, subst, List, ◌++◌, ok, length, length-append, take, drop, take-append,
  drop-append, drop-add, length-drop, arith,
}
use iptsd_android.Reader.{Reader, init, size, read, sub, subspan}
use iptsd_android.Reader.Bounds.{
  IsValid, advance, chunk, advance-IsValid, init-IsValid, read-ok, sub-ok, subspan-ok,
}

-- The bytes that the reader has not read yet.
pub record Ahead (rest : List ℕ) (r : Reader) : Type 0 where
  pub valid : IsValid r
  pub bytes : drop r.index r.bytes ≡ rest

pub init-Ahead : (bs : List ℕ) → Ahead bs (init bs)
unfolding init
init-Ahead bs = record { valid = init-IsValid bs; bytes = refl }

pub size-Ahead : (rest : List ℕ) (r : Reader) → Ahead rest r → size r ≡ length rest
unfolding size
size-Ahead rest r h = omega (arith, length-drop r.index r.bytes, ap length h.bytes)

enough : (xs post : List ℕ) (r : Reader) → Ahead (xs ++ post) r → length xs ≤ size r
enough xs post r h = omega (arith, size-Ahead (xs ++ post) r h, length-append xs post)

chunk-Ahead : (xs post : List ℕ) (r : Reader) → Ahead (xs ++ post) r → chunk (length xs) r ≡ xs
chunk-Ahead xs post r h = ap (take (length xs)) h.bytes ∙ take-append xs post

advance-Ahead :
    (xs post : List ℕ) (r : Reader) → Ahead (xs ++ post) r → Ahead post (advance (length xs) r)
advance-Ahead xs post r h = record {
  valid = advance-IsValid (length xs) r (h.valid) (enough xs post r h);
  bytes =
      drop-add r.index (length xs) r.bytes ∙ ap (drop (length xs)) h.bytes ∙ drop-append xs post;
}

-- A read of the next bytes returns them, and the others lie ahead then.
pub read-Ahead :
    (xs post : List ℕ) (n : ℕ) (r : Reader)
    → length xs ≡ n
    → Ahead (xs ++ post) r
    → (read n r ≡ ok (xs, advance n r)) × Ahead post (advance n r)
read-Ahead xs post n r e h =
    subst (λ k. (read k r ≡ ok (xs, advance k r)) × Ahead post (advance k r)) e
      (
        read-ok (length xs) r (h.valid) (enough xs post r h)
            ∙ ap (λ bs. ok (bs, advance (length xs) r)) (chunk-Ahead xs post r h),
        advance-Ahead xs post r h,
      )

pub sub-Ahead :
    (xs post : List ℕ) (n : ℕ) (r : Reader)
    → length xs ≡ n
    → Ahead (xs ++ post) r
    → (sub n r ≡ ok (init xs, advance n r)) × Ahead post (advance n r)
sub-Ahead xs post n r e h =
    subst (λ k. (sub k r ≡ ok (init xs, advance k r)) × Ahead post (advance k r)) e
      (
        sub-ok (length xs) r (h.valid) (enough xs post r h)
            ∙ ap (λ bs. ok (init bs, advance (length xs) r)) (chunk-Ahead xs post r h),
        advance-Ahead xs post r h,
      )

-- A span of single bytes.
pub subspan-Ahead :
    (xs post : List ℕ) (n : ℕ) (r : Reader)
    → length xs ≡ n
    → Ahead (xs ++ post) r
    → subspan 1 n r ≡ ok (xs, advance n r)
subspan-Ahead xs post n r e h =
    subst (λ k. subspan 1 k r ≡ ok (xs, advance k r)) e
      (single ∙ ap (λ bs. ok (bs, advance (length xs) r)) (chunk-Ahead xs post r h))
  where
    single : subspan 1 (length xs) r ≡ ok (chunk (length xs) r, advance (length xs) r)
    single =
        subst (λ k. subspan 1 (length xs) r ≡ ok (chunk k r, advance k r)) (omega arith)
          (subspan-ok 1 (length xs) r (h.valid) (enough xs post r h)
            (omega (arith, enough xs post r h)))
