-- ===== src/Contacts/Convolution/Bodies.antt =====
-- What a body of the unrolled routines computes: the terms of the generic routine, at a pixel that is
-- as far from the border as the body takes it to be.
use iptsd_android.Prelude.{
  ℕ, ◌+◌, ◌-◌, ◌*◌, ◌<◌, ◌≡◌, refl, ◌∙◌, ap, Bool, true, ◌&&◌, arith, ltb, leb, if◌then◌else◌, List,
  [], ◌∷◌,
}
use iptsd_android.Prelude.Float.{Float}
use iptsd_android.Contacts.Convolution.{
  at_most, gain, Offset, m2, m1, o0, p1, p2, ahead, back, Term, t, sum, d,
}

-- An offset cut off `l` pixels before and `r` pixels behind.
abbrev pub lim : (l r : ℕ) → Offset → Offset
lim l r m2 = if ltb 1 l then m2 else if ltb 0 l then m1 else o0
lim l r m1 = if ltb 0 l then m1 else o0
lim l r o0 = o0
lim l r p1 = if ltb 0 r then p1 else o0
lim l r p2 = if ltb 1 r then p2 else if ltb 0 r then p1 else o0

abbrev pub smaller : ℕ → ℕ → ℕ
smaller a b = if ltb b a then b else a

-- The offset is one of a kernel with this radius.
abbrev pub fits : ℕ → Offset → Bool
fits radius o = leb (back o) radius && leb (ahead o) radius

-- A place of an axis with `n` pixels that has `l` of the `radius` pixels before it, and `r` behind it.
abbrev pub IsPlace : (radius n x l r : ℕ) → Type 0
IsPlace radius n x l r = (x < n) × (l ≡ smaller radius x) × (r ≡ smaller radius (n - 1 - x))

lim-at_most :
    (radius n x l r : ℕ) (o : Offset)
    → IsPlace radius n x l r
    → fits radius o ≡ true
    → x + ahead (lim l r o)
      ≡ at_most n (x + (ahead o + radius - back o) - radius) + back (lim l r o)
lim-at_most radius n x l r m2 (h, el, er) f = ground arith
lim-at_most radius n x l r m1 (h, el, er) f = ground arith
lim-at_most radius n x l r o0 (h, el, er) f = ground arith
lim-at_most radius n x l r p1 (h, el, er) f = ground arith
lim-at_most radius n x l r p2 (h, el, er) f = ground arith

-- Offsets on both axes, in the index of a pixel.
index_lem :
    (cols y x y' x' ay by ax bx : ℕ)
    → y + ay ≡ y' + by
    → x + ax ≡ x' + bx
    → y * cols + x + ay * cols + ax - (by * cols + bx) ≡ y' * cols + x'
index_lem cols y x y' x' ay by ax bx hy hx =
    let e : (y + ay) * cols ≡ (y' + by) * cols = ap (λ n. n * cols) hy in grind arith

-- The offsets of a kernel, in the order of the code: column first.
abbrev pub clamped : (l r u d : ℕ) → List (Offset × Offset) → List Term
clamped l r u d [] = []
clamped l r u d ((kx, ky) ∷ offsets) = t (lim l r kx) (lim u d ky) kx ky ∷ clamped l r u d offsets

abbrev pub all_fit : ℕ → List (Offset × Offset) → Bool
all_fit radius [] = true
all_fit radius ((kx, ky) ∷ offsets) = fits radius kx && fits radius ky && all_fit radius offsets

module _ {F : Type 0} ⦃fl : Float F⦄ (img : ℕ → F) (kernel : ℕ → ℕ → F) (rows cols radius : ℕ) where
  abbrev pub gains : List (Offset × Offset) → (y x : ℕ) → F → F
  gains [] y x v = v
  gains ((kx, ky) ∷ offsets) y x v = gains offsets y x (
      fl.add v (
        gain img kernel rows cols radius radius (ahead ky + radius - back ky)
          (ahead kx + radius - back kx) y x))

  pub sum-clamped :
      (y x l r u b : ℕ) (offsets : List (Offset × Offset)) (v : F)
      → IsPlace radius cols x l r
      → IsPlace radius rows y u b
      → all_fit radius offsets ≡ true
      → sum img kernel cols radius (clamped l r u b offsets) (y * cols + x) v ≡ gains offsets y x v
  sum-clamped y x l r u b [] v px py f = refl
  sum-clamped y x l r u b ((kx, ky) ∷ offsets) v px py f =
      let hx = lim-at_most radius cols x l r kx px (ground (arith, f)) in
      let hy = lim-at_most radius rows y u b ky py (ground (arith, f)) in
      let ky' = ahead ky + radius - back ky in
      let kx' = ahead kx + radius - back kx in
      ap
        (λ j.
          sum img kernel cols radius (clamped l r u b offsets) (y * cols + x)
            (fl.add v (fl.mul (img j) (kernel ky' kx'))))
        (index_lem cols y x _ _ _ _ _ _ hy hx)
      ∙ sum-clamped y x l r u b offsets _ px py (ground (arith, f))
