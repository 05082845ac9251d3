-- ===== src/Contacts/Detection/Maximas.antt =====
-- `maximas::find` of src/contacts/detection/algorithms/maximas.hpp.
pub mod Peaks
pub mod Local
use iptsd_android.Prelude.{
  ℕ, zero, suc, ◌+◌, ◌-◌, Bool, true, false, not, ◌&&◌, List, [], ◌∷◌, ◌++◌, ltb, if◌then◌else◌,
}
use iptsd_android.Prelude.Float.{Float}

-- A `Point`, column first.
pub record Point : Type 0 where
  pub x : ℕ
  pub y : ℕ

abbrev pub Image : Type 0 → Type 0
Image F = ℕ → ℕ → F

-- `if (can) max &= test;`
abbrev pub when : Bool → Bool → Bool
when can test = if can then test else true

module _ {F : Type 0} ⦃fl : Float F⦄ where
  -- The comparison of a pixel with its neighbours inside the image.
  unfoldable pub is_max : Image F → (rows cols y x : ℕ) → Bool
  is_max img rows cols y x =
      let value = img y x in
      let can_up = ltb 0 y in
      let can_down = ltb (y + 1) rows in
      let can_left = ltb 0 x in
      let can_right = ltb (x + 1) cols in
      when can_left (fl.lt (img y (x - 1)) value)
      && when can_right (fl.le (img y (x + 1)) value)
      && when can_up (
          fl.lt (img (y - 1) x) value
          && when can_left (fl.lt (img (y - 1) (x - 1)) value)
          && when can_right (fl.le (img (y - 1) (x + 1)) value))
      && when can_down (
          fl.le (img (y + 1) x) value
          && when can_left (fl.lt (img (y + 1) (x - 1)) value)
          && when can_right (fl.le (img (y + 1) (x + 1)) value))

  -- Whether a pixel is reported.
  unfoldable pub is_reported : Image F → F → (rows cols y x : ℕ) → Bool
  is_reported img threshold rows cols y x =
      not (fl.le (img y x) threshold) && is_max img rows cols y x

  -- The loop over the columns of a row, with `left` columns to go.
  unfoldable pub find_in_row : Image F → F → (rows cols y x left : ℕ) → List Point
  find_in_row img threshold rows cols y x zero = []
  find_in_row img threshold rows cols y x (suc left) =
      let rest = find_in_row img threshold rows cols y (x + 1) left in
      if is_reported img threshold rows cols y x then record { x = x; y = y } ∷ rest else rest

  unfoldable pub find_rows : Image F → F → (rows cols y left : ℕ) → List Point
  find_rows img threshold rows cols y zero = []
  find_rows img threshold rows cols y (suc left) =
      find_in_row img threshold rows cols y 0 cols ++ find_rows img threshold rows cols (y + 1) left

  unfoldable pub find : Image F → F → (rows cols : ℕ) → List Point
  unfolding find_rows find_in_row
  find img threshold rows cols = find_rows img threshold rows cols 0 rows
