-- ===== src/Contacts/Convolution/Equal.antt =====
-- The routine for kernels of 3x3 computes what the generic one computes, to the last bit.
use iptsd_android.Prelude.{
  ℕ, ◌+◌, ◌-◌, ◌*◌, ◌≤◌, ◌<◌, ◌≡◌, refl, sym, ◌∙◌, subst, arith, List, [], ◌∷◌,
}
use iptsd_android.Prelude.Float.{Float}
use iptsd_android.Contacts.Convolution.{
  Offset, m1, o0, p1, Term, Pixels, body, while_below, run_generic,
}
use iptsd_android.Contacts.Convolution.Tables.Three.{
  top_left_3, top_middle_3, top_right_3, inner_left_3, inner_middle_3, inner_right_3, bottom_left_3,
  bottom_middle_3, bottom_right_3,
}
use iptsd_android.Contacts.Convolution.Small.{row_3x3, run_3x3}
use iptsd_android.Contacts.Convolution.Pass.{kernel_rows-at}
use iptsd_android.Contacts.Convolution.Grid.{IsAt, IsAt-next, while_rows-IsAt}
use iptsd_android.Contacts.Convolution.Bodies.{IsPlace, clamped}
use iptsd_android.Contacts.Convolution.Unrolled.{pixel, body-IsAt, loop-IsAt}

abbrev offsets_3 : List (Offset × Offset)
offsets_3 =
    (m1, m1)
    ∷ (o0, m1)
    ∷ (p1, m1)
    ∷ (m1, o0)
    ∷ (o0, o0)
    ∷ (p1, o0)
    ∷ (m1, p1)
    ∷ (o0, p1)
    ∷ (p1, p1)
    ∷ []

module _ {F : Type 0} ⦃fl : Float F⦄ (img : ℕ → F) (kernel : ℕ → ℕ → F) (rows cols : ℕ) where
  abbrev IsAt3 : (y x : ℕ) → Pixels F → Type 0
  IsAt3 = IsAt cols (pixel img kernel rows cols 1 offsets_3)

  run_generic-pixel_3 :
      (y x : ℕ)
      → y < rows
      → x < cols
      → run_generic img kernel rows cols 3 3 y x ≡ pixel img kernel rows cols 1 offsets_3 y x
  unfolding run_generic
  run_generic-pixel_3 y x hy hx =
      kernel_rows-at img kernel rows cols 1 1 3 0 3 (λ v u. fl.of_nat 0) y x hy hx

  row_3-IsAt :
      (left middle right : List Term) (y u b : ℕ) (s : Pixels F)
      → left ≡ clamped 0 1 u b offsets_3
      → middle ≡ clamped 1 1 u b offsets_3
      → right ≡ clamped 1 0 u b offsets_3
      → 2 ≤ cols
      → IsPlace 1 rows y u b
      → IsAt3 y 0 s
      → IsAt3 (y + 1) 0 (row_3x3 img kernel cols left middle right s)
  unfolding row_3x3
  row_3-IsAt left middle right y u b s el em er hc py a =
      let s₁ = body img kernel cols 1 left s in
      let first =
        body-IsAt img kernel rows cols 1 offsets_3 left y 0 0 1 u b s refl el
          (omega arith, ground arith, ground arith) py a in
      let n = s₁.i + cols - 2 in
      let s₂ = while_below n n (body img kernel cols 1 middle) s₁ in
      let second =
        loop-IsAt img kernel rows cols 1 offsets_3 middle y 1 (cols - 1) u b n n s₁ refl em
          (λ j l h. (omega arith, ground arith, ground arith)) py (omega arith) (omega arith)
          (omega (arith, first.0)) first in
      let s₃ = body img kernel cols 1 right s₂ in
      let third =
        body-IsAt img kernel rows cols 1 offsets_3 right y (cols - 1) 1 0 u b s₂ refl er
          (omega arith, ground arith, ground arith) py second in
      let end : cols - 1 + 1 ≡ cols = omega arith in
      IsAt-next cols (pixel img kernel rows cols 1 offsets_3) y s₃
        (subst (λ n. IsAt3 y n s₃) end third)

  run_3-IsAt : (out : ℕ → F) → 2 ≤ rows → 2 ≤ cols → IsAt3 rows 0 (run_3x3 img kernel rows cols out)
  unfolding run_3x3
  run_3-IsAt out hr hc =
      let n = cols * (rows - 1) in
      let inner = row_3x3 img kernel cols inner_left_3 inner_middle_3 inner_right_3 in
      let s₀ : Pixels F = record { i = 0; out = out } in
      let s₁ = row_3x3 img kernel cols top_left_3 top_middle_3 top_right_3 s₀ in
      let top =
        row_3-IsAt top_left_3 top_middle_3 top_right_3 0 0 1 s₀ refl refl refl hc
          (omega arith, ground arith, ground arith)
          (omega arith, λ v u hu h. absurd (omega (arith, h))) in
      let s₂ = while_below n n inner s₁ in
      let middle =
        while_rows-IsAt cols (pixel img kernel rows cols 1 offsets_3) n 1 (rows - 1) n inner s₁
          (omega arith) (grind arith) (omega arith) (grind arith) top
          λ j p l h q.
            row_3-IsAt inner_left_3 inner_middle_3 inner_right_3 j 1 1 p refl refl refl hc
              (omega arith, ground arith, ground arith) q in
      let end : rows - 1 + 1 ≡ rows = omega arith in
      subst
        (λ y. IsAt3 y 0 (row_3x3 img kernel cols bottom_left_3 bottom_middle_3 bottom_right_3 s₂))
        end
        (row_3-IsAt bottom_left_3 bottom_middle_3 bottom_right_3 (rows - 1) 1 0 s₂ refl refl refl hc
          (omega arith, ground arith, ground arith) middle)

  -- For a kernel of 3x3 and an image of two rows and two columns or more, the unrolled routine leaves
  -- in every pixel the value that the generic routine computes there, whatever the output held before.
  pub run_3x3-run_generic :
      (out : ℕ → F) (y x : ℕ)
      → 2 ≤ rows
      → 2 ≤ cols
      → y < rows
      → x < cols
      → (run_3x3 img kernel rows cols out).out (y * cols + x)
        ≡ run_generic img kernel rows cols 3 3 y x
  run_3x3-run_generic out y x hr hc hy hx =
      let (i, done) = run_3-IsAt out hr hc in
      done y x hx (grind (arith, i)) ∙ sym (run_generic-pixel_3 y x hy hx)
