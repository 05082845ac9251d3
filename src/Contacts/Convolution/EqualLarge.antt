-- ===== src/Contacts/Convolution/EqualLarge.antt =====
-- The routine for kernels of 5x5 computes what the generic one computes, to the last bit, where the
-- image has as many rows as columns.
use iptsd_android.Prelude.{
  ℕ, ◌+◌, ◌-◌, ◌*◌, ◌≤◌, ◌<◌, ◌≡◌, refl, sym, ◌∙◌, subst, arith, List, [], ◌∷◌,
}
use iptsd_android.Prelude.Float.{Float}
use iptsd_android.Contacts.Convolution.{
  Offset, m2, m1, o0, p1, p2, Term, Pixels, body, while_below, run_generic,
}
use iptsd_android.Contacts.Convolution.Tables.FiveFirst.{
  row_first_first, row_first_second, row_first_middle, row_first_next_last, row_first_last,
}
use iptsd_android.Contacts.Convolution.Tables.FiveSecond.{
  row_second_first, row_second_second, row_second_middle, row_second_next_last, row_second_last,
}
use iptsd_android.Contacts.Convolution.Tables.FiveMiddle.{
  row_middle_first, row_middle_second, row_middle_middle, row_middle_next_last, row_middle_last,
}
use iptsd_android.Contacts.Convolution.Tables.FiveNextLast.{
  row_next_last_first, row_next_last_second, row_next_last_middle, row_next_last_next_last,
  row_next_last_last,
}
use iptsd_android.Contacts.Convolution.Tables.FiveLast.{
  row_last_first, row_last_second, row_last_middle, row_last_next_last, row_last_last,
}
use iptsd_android.Contacts.Convolution.Large.{row_5x5, run_5x5}
use iptsd_android.Contacts.Convolution.Pass.{kernel_rows-at}
use iptsd_android.Contacts.Convolution.Grid.{IsAt, IsAt-next, while_rows-IsAt}
use iptsd_android.Contacts.Convolution.Bodies.{IsPlace, clamped}
use iptsd_android.Contacts.Convolution.Unrolled.{pixel, body-IsAt, loop-IsAt}

abbrev offsets_5 : List (Offset × Offset)
offsets_5 =
    (m2, m2)
    ∷ (m1, m2)
    ∷ (o0, m2)
    ∷ (p1, m2)
    ∷ (p2, m2)
    ∷ (m2, m1)
    ∷ (m1, m1)
    ∷ (o0, m1)
    ∷ (p1, m1)
    ∷ (p2, m1)
    ∷ (m2, o0)
    ∷ (m1, o0)
    ∷ (o0, o0)
    ∷ (p1, o0)
    ∷ (p2, o0)
    ∷ (m2, p1)
    ∷ (m1, p1)
    ∷ (o0, p1)
    ∷ (p1, p1)
    ∷ (p2, p1)
    ∷ (m2, p2)
    ∷ (m1, p2)
    ∷ (o0, p2)
    ∷ (p1, p2)
    ∷ (p2, p2)
    ∷ []

next_last-IsPlace : (n : ℕ) → 4 ≤ n → IsPlace 2 n (n - 2) 2 1
next_last-IsPlace n h = (omega arith, ground arith, ground arith)

last-IsPlace : (n : ℕ) → 4 ≤ n → IsPlace 2 n (n - 2 + 1) 2 0
last-IsPlace n h = (omega arith, ground arith, ground arith)

second-IsPlace : (n : ℕ) → 4 ≤ n → IsPlace 2 n 1 1 2
second-IsPlace n h = (omega arith, ground arith, ground arith)

first-IsPlace : (n : ℕ) → 4 ≤ n → IsPlace 2 n 0 0 2
first-IsPlace n h = (omega arith, ground arith, ground arith)

middle-IsPlace : (n j : ℕ) → 2 ≤ j → j < n - 2 → IsPlace 2 n j 2 2
middle-IsPlace n j l k = (omega arith, ground arith, ground arith)

module _ {F : Type 0} ⦃fl : Float F⦄ (img : ℕ → F) (kernel : ℕ → ℕ → F) (n : ℕ) where
  abbrev IsAt5 : (y x : ℕ) → Pixels F → Type 0
  IsAt5 = IsAt n (pixel img kernel n n 2 offsets_5)

  run_generic-pixel_5 :
      (y x : ℕ)
      → y < n
      → x < n
      → run_generic img kernel n n 5 5 y x ≡ pixel img kernel n n 2 offsets_5 y x
  unfolding run_generic
  run_generic-pixel_5 y x hy hx =
      kernel_rows-at img kernel n n 2 2 5 0 5 (λ v u. fl.of_nat 0) y x hy hx

  step_5-IsAt :
      (terms : List Term) (y x l r u b : ℕ) (s : Pixels F)
      → terms ≡ clamped l r u b offsets_5
      → IsPlace 2 n x l r
      → IsPlace 2 n y u b
      → IsAt5 y x s
      → IsAt5 y (x + 1) (body img kernel n 2 terms s)
  step_5-IsAt terms y x l r u b s e px py a =
      body-IsAt img kernel n n 2 offsets_5 terms y x l r u b s refl e px py a

  row_5-IsAt :
      (first second middle next_last last : List Term) (y u b : ℕ) (s : Pixels F)
      → first ≡ clamped 0 2 u b offsets_5
      → second ≡ clamped 1 2 u b offsets_5
      → middle ≡ clamped 2 2 u b offsets_5
      → next_last ≡ clamped 2 1 u b offsets_5
      → last ≡ clamped 2 0 u b offsets_5
      → 4 ≤ n
      → IsPlace 2 n y u b
      → IsAt5 y 0 s
      → IsAt5 (y + 1) 0 (row_5x5 img kernel n n first second middle next_last last s)
  unfolding row_5x5
  row_5-IsAt first second middle next_last last y u b s e₁ e₂ e₃ e₄ e₅ h py a =
      let s₁ = body img kernel n 2 first s in
      let a₁ = step_5-IsAt first y 0 0 2 u b s e₁ (first-IsPlace n h) py a in
      let s₂ = body img kernel n 2 second s₁ in
      let a₂ = step_5-IsAt second y 1 1 2 u b s₁ e₂ (second-IsPlace n h) py a₁ in
      let q = s₂.i + n - 4 in
      let s₃ = while_below q q (body img kernel n 2 middle) s₂ in
      let a₃ =
        loop-IsAt img kernel n n 2 offsets_5 middle y 2 (n - 2) u b q q s₂ refl e₃
          (middle-IsPlace n) py (omega arith) (omega arith) (omega (arith, a₂.0)) a₂ in
      let s₄ = body img kernel n 2 next_last s₃ in
      let a₄ = step_5-IsAt next_last y (n - 2) 2 1 u b s₃ e₄ (next_last-IsPlace n h) py a₃ in
      let s₅ = body img kernel n 2 last s₄ in
      let a₅ = step_5-IsAt last y (n - 2 + 1) 2 0 u b s₄ e₅ (last-IsPlace n h) py a₄ in
      let end : n - 2 + 1 + 1 ≡ n = omega arith in
      IsAt-next n (pixel img kernel n n 2 offsets_5) y s₅ (subst (λ x. IsAt5 y x s₅) end a₅)

  run_5-IsAt : (out : ℕ → F) → 4 ≤ n → IsAt5 n 0 (run_5x5 img kernel n n out)
  unfolding run_5x5
  run_5-IsAt out h =
      let row = row_5x5 img kernel n n in
      let s₀ : Pixels F = record { i = 0; out = out } in
      let s₁ =
        row row_first_first row_first_second row_first_middle row_first_next_last row_first_last
          s₀ in
      let a₁ =
        row_5-IsAt row_first_first row_first_second row_first_middle row_first_next_last
          row_first_last 0 0 2 s₀ refl refl refl refl refl h (first-IsPlace n h)
          (omega arith, λ v u hu k. absurd (omega (arith, k))) in
      let s₂ =
        row row_second_first row_second_second row_second_middle row_second_next_last
          row_second_last s₁ in
      let a₂ =
        row_5-IsAt row_second_first row_second_second row_second_middle row_second_next_last
          row_second_last 1 1 2 s₁ refl refl refl refl refl h (second-IsPlace n h) a₁ in
      let q = n * (n - 2) in
      let inner =
        row row_middle_first row_middle_second row_middle_middle row_middle_next_last
          row_middle_last in
      let s₃ = while_below q q inner s₂ in
      let a₃ =
        while_rows-IsAt n (pixel img kernel n n 2 offsets_5) q 2 (n - 2) q inner s₂ (omega arith)
          (grind arith) (omega arith) (grind arith) a₂
          λ j p l k a.
            row_5-IsAt row_middle_first row_middle_second row_middle_middle row_middle_next_last
              row_middle_last j 2 2 p refl refl refl refl refl h
              (omega arith, ground arith, ground arith) a in
      let s₄ =
        row row_next_last_first row_next_last_second row_next_last_middle row_next_last_next_last
          row_next_last_last s₃ in
      let a₄ =
        row_5-IsAt row_next_last_first row_next_last_second row_next_last_middle
          row_next_last_next_last row_next_last_last (n - 2) 2 1 s₃ refl refl refl refl refl h
          (next_last-IsPlace n h) a₃ in
      let end : n - 2 + 1 + 1 ≡ n = omega arith in
      subst
        (λ y.
          IsAt5 y 0 (
            row row_last_first row_last_second row_last_middle row_last_next_last row_last_last s₄))
        end
        (row_5-IsAt row_last_first row_last_second row_last_middle row_last_next_last row_last_last
          (n - 2 + 1) 2 0 s₄ refl refl refl refl refl h (last-IsPlace n h) a₄)

  -- For a kernel of 5x5 and an image of as many rows as columns, four or more, the unrolled routine
  -- leaves in every pixel the value that the generic routine computes there, whatever the output held
  -- before.
  pub run_5x5-run_generic :
      (out : ℕ → F) (y x : ℕ)
      → 4 ≤ n
      → y < n
      → x < n
      → (run_5x5 img kernel n n out).out (y * n + x) ≡ run_generic img kernel n n 5 5 y x
  run_5x5-run_generic out y x h hy hx =
      let (i, done) = run_5-IsAt out h in
      done y x hx (grind (arith, i)) ∙ sym (run_generic-pixel_5 y x hy hx)
