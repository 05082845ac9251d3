-- ===== src/Tests/Rows.antt =====
-- Rows of a DFT window, written and read back.
use iptsd_android.Prelude.{◌≡◌, refl, List, [], ◌∷◌, arith, All}
use iptsd_android.Prelude.Int.{ℤ, pos, negsuc}
use iptsd_android.Ipts.Data.{Row, rows}
use iptsd_android.Ipts.Data.Encode.{IsI16, IsRow, rows_bytes, rows-rows_bytes}

abbrev components : List ℤ
components =
    pos 0 ∷ negsuc 0 ∷ pos 300 ∷ negsuc 400 ∷ pos 32767 ∷ negsuc 32767 ∷ pos 3 ∷ pos 2 ∷ pos 1 ∷ []

abbrev a_row : Row
a_row = record {
  frequency = 70000;
  magnitude = 4000000000;
  real = components;
  imag = components;
  first = negsuc 0;
  last = pos 8;
  mid = pos 4;
  zero_index = pos 0;
}

a_row-IsRow : IsRow a_row
a_row-IsRow = record {
  frequency = omega arith;
  magnitude = omega arith;
  real = in_range;
  imag = in_range;
  real_count = refl;
  imag_count = refl;
  first = omega arith;
  last = omega arith;
  mid = omega arith;
  zero_index = omega arith;
}
  where
    in_range : All IsI16 components
    in_range = (
      omega arith,
      (
        omega arith,
        (
          omega arith,
          (
            omega arith,
            (omega arith, (omega arith, (omega arith, (omega arith, (omega arith, tt))))),
          ),
        ),
      ),
    )

rows-rows_bytes_example : rows 2 (rows_bytes (a_row ∷ a_row ∷ [])) ≡ a_row ∷ a_row ∷ []
rows-rows_bytes_example = rows-rows_bytes (a_row ∷ a_row ∷ []) (a_row-IsRow, (a_row-IsRow, tt))
