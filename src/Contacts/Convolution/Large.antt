-- ===== src/Contacts/Convolution/Large.antt =====
-- `run_5x5` of src/contacts/detection/algorithms/optimized/convolution.5x5-extend.hpp, with the access
-- helper that checks. The limit of a row is computed from the number of rows, as in the code.
use iptsd_android.Prelude.{ℕ, ◌+◌, ◌-◌, ◌*◌, List}
use iptsd_android.Prelude.Float.{Float}
use iptsd_android.Contacts.Convolution.{Term, Pixels, body, while_below}
use iptsd_android.Contacts.Convolution.Tables.FiveFirst.{
  row_first_first, row_first_second, row_first_middle, row_first_next_last, row_first_last,
}
use iptsd_android.Contacts.Convolution.Tables.FiveSecond.{
  row_second_first, row_second_second, row_second_middle, row_second_next_last, row_second_last,
}
use iptsd_android.Contacts.Convolution.Tables.FiveMiddle.{
  row_middle_first, row_middle_second, row_middle_middle, row_middle_next_last, row_middle_last,
}
use iptsd_android.Contacts.Convolution.Tables.FiveNextLast.{
  row_next_last_first, row_next_last_second, row_next_last_middle, row_next_last_next_last,
  row_next_last_last,
}
use iptsd_android.Contacts.Convolution.Tables.FiveLast.{
  row_last_first, row_last_second, row_last_middle, row_last_next_last, row_last_last,
}

module _ {F : Type 0} ⦃fl : Float F⦄ (img : ℕ → F) (kernel : ℕ → ℕ → F) (rows cols : ℕ) where
  -- The parts of a row: x = 0, x = 1, the loop, x = n - 2, x = n - 1.
  unfoldable pub row_5x5 : (first second middle next_last last : List Term) → Pixels F → Pixels F
  row_5x5 first second middle next_last last s =
      let s₂ = body img kernel cols 2 second (body img kernel cols 2 first s) in
      let limit = s₂.i + rows - 4 in
      body img kernel cols 2 last (
        body img kernel cols 2 next_last
          (while_below limit limit (body img kernel cols 2 middle) s₂))

module _ {F : Type 0} ⦃fl : Float F⦄ where
  unfoldable pub run_5x5 : (img : ℕ → F) (kernel : ℕ → ℕ → F) (rows cols : ℕ) → (ℕ → F) → Pixels F
  unfolding row_5x5
  run_5x5 img kernel rows cols out =
      let row = row_5x5 img kernel rows cols in
      let s₁ =
        row row_first_first row_first_second row_first_middle row_first_next_last row_first_last
          (record { i = 0; out = out }) in
      let s₂ =
        row row_second_first row_second_second row_second_middle row_second_next_last
          row_second_last s₁ in
      let limit = rows * (cols - 2) in
      let s₃ =
        while_below limit limit
          (row row_middle_first row_middle_second row_middle_middle row_middle_next_last
            row_middle_last)
          s₂ in
      let s₄ =
        row row_next_last_first row_next_last_second row_next_last_middle row_next_last_next_last
          row_next_last_last s₃ in
      row row_last_first row_last_second row_last_middle row_last_next_last row_last_last s₄
