-- ===== src/Tests/Images.antt =====
-- Runs of the search for maximas.
use iptsd_android.Prelude.{ℕ, ◌<◌, ◌≡◌, refl, ◌↔◌, inr, true, false, [], ◌∷◌, get_or, arith, ap}
use iptsd_android.Contacts.Detection.Maximas.{
  Image, is_max, is_reported, find_in_row, find_rows, find,
}
use iptsd_android.Contacts.Detection.Maximas.Peaks.{holds, Touches, Peak, find_iff, find_apart}
use iptsd_android.Tests.Numbers.{numbers, numbers-IsOrdered}

-- Two equal pixels side by side, in a row of three.
abbrev plateau : Image ℕ
plateau y x = get_or (9 ∷ 9 ∷ 1 ∷ []) x 0

find_run : find plateau 2 1 3 ≡ record { x = 0; y = 0 } ∷ []
unfolding find find_rows find_in_row is_reported is_max
find_run = refl

find_iff_example :
    (holds 0 0 (find plateau 2 1 3) ≡ true)
    ↔ ((0 < 1) × (0 < 3) × (numbers.le (plateau 0 0) 2 ≡ false) × Peak plateau 1 3 0 0)
find_iff_example = find_iff plateau 2 1 3 0 0

find_apart_example : holds 1 0 (find plateau 2 1 3) ≡ false
find_apart_example =
    find_apart numbers-IsOrdered plateau 2 1 3 0 0 0 1 refl refl touching_pixels
      (ap (holds 0 0) find_run)
  where
    touching_pixels : Touches 0 0 0 1
    touching_pixels = (omega arith, omega arith, omega arith, omega arith, inr (λ e. omega arith))
