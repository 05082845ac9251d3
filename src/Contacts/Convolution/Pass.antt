-- ===== src/Contacts/Convolution/Pass.antt =====
-- The generic convolution adds up, for each pixel, one term for each entry of the kernel, in the
-- order of the kernel's rows.
use iptsd_android.Prelude.{
  ℕ, zero, suc, ◌+◌, ◌<◌, ◌≡◌, refl, ◌∙◌, ap, inl, inr, ◌&&◌, arith, ltb, leb, ◌==◌, if◌then◌else◌,
  Bool-cases,
}
use iptsd_android.Prelude.Float.{Float}
use iptsd_android.Contacts.Convolution.{
  Grid, put, gain, pass_row, pass_rows, kernel_row, kernel_rows,
}

module _ {F : Type 0} ⦃fl : Float F⦄ (img : ℕ → F) (kernel : ℕ → ℕ → F) (rows cols dy dx : ℕ) where
  abbrev more : (ky kx v u : ℕ) → F → F
  more ky kx v u value = fl.add value (gain img kernel rows cols dy dx ky kx v u)

  pass_row-at :
      (ky kx oy ox left : ℕ) (out : Grid F) (v u : ℕ)
      → pass_row img kernel rows cols dy dx ky kx oy ox left out v u
        ≡ (if v == oy && (leb ox u && ltb u (ox + left)) then more ky kx v u (out v u) else out v u)
  unfolding pass_row
  pass_row-at ky kx oy ox zero out v u = ground arith
  pass_row-at ky kx oy ox (suc left) out v u =
      let next = put oy ox (more ky kx oy ox (out oy ox)) out in
      let rest = pass_row-at ky kx oy (ox + 1) left next v u in
      elim (Bool-cases (v == oy && u == ox)) [
        | inl hit ↦
            let e : oy ≡ v = ground (arith, hit) in
            let f : ox ≡ u = ground (arith, hit) in
            let same : more ky kx oy ox (out oy ox) ≡ more ky kx v u (out v u) = rw (e, f) refl in
            ground (arith, rest, hit, same)
        | inr miss ↦ ground (arith, rest, miss)
      ]

  pass_rows-at :
      (ky kx oy left : ℕ) (out : Grid F) (v u : ℕ)
      → u < cols
      → pass_rows img kernel rows cols dy dx ky kx oy left out v u
        ≡ (if leb oy v && ltb v (oy + left) then more ky kx v u (out v u) else out v u)
  unfolding pass_rows
  pass_rows-at ky kx oy zero out v u h = ground arith
  pass_rows-at ky kx oy (suc left) out v u h = ground (
    arith,
    pass_rows-at ky kx (oy + 1) left (pass_row img kernel rows cols dy dx ky kx oy 0 cols out) v u
        h,
    pass_row-at ky kx oy 0 cols out v u,
  )

  -- The terms of a pixel for a row of the kernel, and for all of its rows.
  abbrev pub sums_row : (ky kx left v u : ℕ) → F → F
  sums_row ky kx zero v u value = value
  sums_row ky kx (suc left) v u value = sums_row ky (kx + 1) left v u (more ky kx v u value)

  abbrev pub sums : (width ky left v u : ℕ) → F → F
  sums width ky zero v u value = value
  sums width ky (suc left) v u value = sums width (ky + 1) left v u (sums_row ky 0 width v u value)

  kernel_row-at :
      (ky kx left : ℕ) (out : Grid F) (v u : ℕ)
      → v < rows
      → u < cols
      → kernel_row img kernel rows cols dy dx ky kx left out v u ≡ sums_row ky kx left v u (out v u)
  unfolding kernel_row
  kernel_row-at ky kx zero out v u hv hu = refl
  kernel_row-at ky kx (suc left) out v u hv hu =
      kernel_row-at ky (kx + 1) left (pass_rows img kernel rows cols dy dx ky kx 0 rows out) v u hv
        hu
      ∙ ap (sums_row ky (kx + 1) left v u) (ground (arith, pass_rows-at ky kx 0 rows out v u hu))

  pub kernel_rows-at :
      (width ky left : ℕ) (out : Grid F) (v u : ℕ)
      → v < rows
      → u < cols
      → kernel_rows img kernel rows cols dy dx width ky left out v u
        ≡ sums width ky left v u (out v u)
  unfolding kernel_rows
  kernel_rows-at width ky zero out v u hv hu = refl
  kernel_rows-at width ky (suc left) out v u hv hu =
      kernel_rows-at width (ky + 1) left (kernel_row img kernel rows cols dy dx ky 0 width out) v u
        hv hu
      ∙ ap (sums width (ky + 1) left v u) (kernel_row-at ky 0 width out v u hv hu)
