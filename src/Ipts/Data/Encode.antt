-- ===== src/Ipts/Data/Encode.antt =====
-- The rows of a DFT window, written by an independent description of the packed struct.
use iptsd_android.Prelude.{
  ℕ, zero, suc, ◌+◌, ◌-◌, ◌*◌, ◌/◌, ◌%◌, ◌<◌, ◌≡◌, refl, ◌∙◌, ap, subst, List, [], ◌∷◌, ◌++◌, All,
  length, length-append, get_or, get_or-drop, take, drop, drop-add, take-append, drop-append, arith,
}
use iptsd_android.Prelude.Int.{ℤ, pos, negsuc}
use iptsd_android.Prelude.Word.{u16_at, signed8, signed16, le32, le32_lem}
use iptsd_android.Ipts.Data.{Row, i16_list, row, rows, row_width, num_components}

-- Two's complement.
abbrev word16 : ℤ → ℕ
word16 (pos n) = n
word16 (negsuc n) = 65535 - n

abbrev word8 : ℤ → ℕ
word8 (pos n) = n
word8 (negsuc n) = 255 - n

abbrev pub IsI16 : ℤ → Type 0
IsI16 (pos n) = n < 32768
IsI16 (negsuc n) = n < 32768

abbrev IsI8 : ℤ → Type 0
IsI8 (pos n) = n < 128
IsI8 (negsuc n) = n < 128

abbrev le16s : List ℤ → List ℕ
le16s [] = []
le16s (c ∷ cs) = word16 c % 256 ∷ word16 c / 256 ∷ le16s cs

abbrev tail_bytes : Row → List ℕ
tail_bytes r = word8 r.first ∷ word8 r.last ∷ word8 r.mid ∷ word8 r.zero_index ∷ []

abbrev row_bytes : Row → List ℕ
row_bytes r =
    le32 r.frequency ++ (le32 r.magnitude ++ (le16s r.real ++ (le16s r.imag ++ tail_bytes r)))

abbrev pub rows_bytes : List Row → List ℕ
rows_bytes [] = []
rows_bytes (r ∷ rs) = row_bytes r ++ rows_bytes rs

-- The values that the fields of a row can have.
pub record IsRow (r : Row) : Type 0 where
  pub frequency : r.frequency < 4294967296
  pub magnitude : r.magnitude < 4294967296
  pub real : All IsI16 r.real
  pub imag : All IsI16 r.imag
  pub real_count : length r.real ≡ num_components
  pub imag_count : length r.imag ≡ num_components
  pub first : IsI8 r.first
  pub last : IsI8 r.last
  pub mid : IsI8 r.mid
  pub zero_index : IsI8 r.zero_index

signed16-word16 : (c : ℤ) → IsI16 c → signed16 (word16 c % 256 + 256 * (word16 c / 256)) ≡ c
signed16-word16 (pos n) h =
    let e : n % 256 + 256 * (n / 256) ≡ n = omega arith in rw e (ground (arith, h))
signed16-word16 (negsuc n) h =
    let e : (65535 - n) % 256 + 256 * ((65535 - n) / 256) ≡ 65535 - n = omega arith in
    rw e (ground (arith, h))

signed8-word8 : (c : ℤ) → IsI8 c → signed8 (word8 c) ≡ c
signed8-word8 (pos n) h = ground (arith, h)
signed8-word8 (negsuc n) h = ground (arith, h)

length-le16s : (cs : List ℤ) → length (le16s cs) ≡ length cs * 2
length-le16s [] = refl
length-le16s (c ∷ cs) = omega (arith, length-le16s cs)

u16_at-drop : (k j : ℕ) (bs : List ℕ) → u16_at bs (k + j) ≡ u16_at (drop k bs) j
u16_at-drop k j bs =
    let e : k + j + 1 ≡ k + (j + 1) = omega arith in
    rw e (rw (get_or-drop k j bs 0, get_or-drop k (j + 1) bs 0) refl)

i16_list-drop : (n k j : ℕ) (bs : List ℕ) → i16_list n (k + j) bs ≡ i16_list n j (drop k bs)
unfolding i16_list
i16_list-drop zero k j bs = refl
i16_list-drop (suc n) k j bs =
    let e : k + j + 2 ≡ k + (j + 2) = omega arith in
    λ t.
      signed16 (u16_at-drop k j bs t)
      ∷ (ap (λ m. i16_list n m bs) e ∙ i16_list-drop n k (j + 2) bs) t

i16_list-le16s :
    (cs : List ℤ) (post : List ℕ) → All IsI16 cs → i16_list (length cs) 0 (le16s cs ++ post) ≡ cs
unfolding i16_list
i16_list-le16s [] post h = refl
i16_list-le16s (c ∷ cs) post (h, hs) =
    let next = i16_list-drop (length cs) 2 0 (le16s (c ∷ cs) ++ post) ∙ i16_list-le16s cs post hs in
    λ t. signed16-word16 c h t ∷ next t

-- Where the arrays of a row lie in its bytes, before more bytes.
drop_real :
    (cs : List ℤ) (post : List ℕ) → length cs ≡ num_components → drop 18 (le16s cs ++ post) ≡ post
drop_real cs post h =
    let e : length (le16s cs) ≡ 18 = omega (arith, length-le16s cs, h) in
    subst (λ n. drop n (le16s cs ++ post) ≡ post) e (drop-append (le16s cs) post)

-- The bytes behind the two words.
abbrev arrays : Row → List ℕ
arrays r = le16s r.real ++ (le16s r.imag ++ tail_bytes r)

drop_26 : (r : Row) → IsRow r → drop 26 (row_bytes r) ≡ le16s r.imag ++ tail_bytes r
drop_26 r h = drop_real r.real (le16s r.imag ++ tail_bytes r) h.real_count

drop_44 : (r : Row) → IsRow r → drop 44 (row_bytes r) ≡ tail_bytes r
drop_44 r h =
    drop-add 26 18 (row_bytes r)
    ∙ ap (drop 18) (drop_26 r h)
    ∙ drop_real r.imag (tail_bytes r) h.imag_count

tail_at : (r : Row) (i : ℕ) → IsRow r → get_or (row_bytes r) (44 + i) 0 ≡ get_or (tail_bytes r) i 0
tail_at r i h = get_or-drop 44 i (row_bytes r) 0 ∙ ap (λ bs. get_or bs i 0) (drop_44 r h)

array_lem :
    (cs : List ℤ) (post bs : List ℕ) (k : ℕ)
    → All IsI16 cs
    → length cs ≡ num_components
    → drop k bs ≡ le16s cs ++ post
    → i16_list num_components (k + 0) bs ≡ cs
array_lem cs post bs k h n e =
    i16_list-drop num_components k 0 bs
    ∙ ap (i16_list num_components 0) e
    ∙ subst (λ m. i16_list m 0 (le16s cs ++ post) ≡ cs) n (i16_list-le16s cs post h)

row-row_bytes : (r : Row) → IsRow r → row (row_bytes r) ≡ r
unfolding row
row-row_bytes r h = λ t. record {
  frequency = le32_lem r.frequency t;
  magnitude = le32_lem r.magnitude t;
  real = array_lem r.real (le16s r.imag ++ tail_bytes r) (row_bytes r) 8 h.real h.real_count refl t;
  imag = array_lem r.imag (tail_bytes r) (row_bytes r) 26 h.imag h.imag_count (drop_26 r h) t;
  first = (ap signed8 (tail_at r 0 h) ∙ signed8-word8 r.first h.first) t;
  last = (ap signed8 (tail_at r 1 h) ∙ signed8-word8 r.last h.last) t;
  mid = (ap signed8 (tail_at r 2 h) ∙ signed8-word8 r.mid h.mid) t;
  zero_index = (ap signed8 (tail_at r 3 h) ∙ signed8-word8 r.zero_index h.zero_index) t;
}

length-row_bytes : (r : Row) → IsRow r → length (row_bytes r) ≡ row_width
length-row_bytes r h = omega (
  arith,
  length-append (le16s r.real) (le16s r.imag ++ tail_bytes r),
  length-append (le16s r.imag) (tail_bytes r),
  length-le16s r.real,
  length-le16s r.imag,
  h.real_count,
  h.imag_count,
)

-- Rows whose fields are in the ranges of their types, with nine components on either part, written
-- one after the other as little-endian structs in two's complement, are read back as they were.
pub rows-rows_bytes : (rs : List Row) → All IsRow rs → rows (length rs) (rows_bytes rs) ≡ rs
unfolding rows
rows-rows_bytes [] h = refl
rows-rows_bytes (r ∷ rs) (h, hs) =
    let e = length-row_bytes r h in
    let head =
      subst (λ n. take n (rows_bytes (r ∷ rs)) ≡ row_bytes r) e
        (take-append (row_bytes r) (rows_bytes rs)) in
    let rest =
      subst (λ n. drop n (rows_bytes (r ∷ rs)) ≡ rows_bytes rs) e
        (drop-append (row_bytes r) (rows_bytes rs)) in
    λ t.
      (ap row head ∙ row-row_bytes r h) t ∷ (ap (rows (length rs)) rest ∙ rows-rows_bytes rs hs) t
