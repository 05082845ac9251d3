-- ===== src/Contacts/Convolution/Small.antt =====
-- `run_3x3` of src/contacts/detection/algorithms/optimized/convolution.3x3-extend.hpp.
use iptsd_android.Prelude.{ℕ, ◌+◌, ◌-◌, ◌*◌, List}
use iptsd_android.Prelude.Float.{Float}
use iptsd_android.Contacts.Convolution.{Term, Pixels, body, while_below}
use iptsd_android.Contacts.Convolution.Tables.Three.{
  top_left_3, top_middle_3, top_right_3, inner_left_3, inner_middle_3, inner_right_3, bottom_left_3,
  bottom_middle_3, bottom_right_3,
}

module _ {F : Type 0} ⦃fl : Float F⦄ (img : ℕ → F) (kernel : ℕ → ℕ → F) (cols : ℕ) where
  -- The three parts of a row: x = 0, 0 < x < n, x = n - 1.
  unfoldable pub row_3x3 : (left middle right : List Term) → Pixels F → Pixels F
  row_3x3 left middle right s =
      let s₁ = body img kernel cols 1 left s in
      let limit = s₁.i + cols - 2 in
      body img kernel cols 1 right (while_below limit limit (body img kernel cols 1 middle) s₁)

module _ {F : Type 0} ⦃fl : Float F⦄ where
  -- The rows y = 0, 0 < y < n, y = n - 1, from what `out` holds before.
  unfoldable pub run_3x3 : (img : ℕ → F) (kernel : ℕ → ℕ → F) (rows cols : ℕ) → (ℕ → F) → Pixels F
  unfolding row_3x3
  run_3x3 img kernel rows cols out =
      let top =
        row_3x3 img kernel cols top_left_3 top_middle_3 top_right_3 (record { i = 0; out = out }) in
      let limit = cols * (rows - 1) in
      row_3x3 img kernel cols bottom_left_3 bottom_middle_3 bottom_right_3 (
        while_below limit limit (row_3x3 img kernel cols inner_left_3 inner_middle_3 inner_right_3)
          top)
