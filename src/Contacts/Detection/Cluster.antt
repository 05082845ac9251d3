-- ===== src/Contacts/Detection/Cluster.antt =====
-- `cluster::span` of src/contacts/detection/algorithms/cluster.hpp. The recursion has fuel, one unit
-- for each pixel and one more; a box without pixels is `none`. The pixel of a row and a column stands
-- at `row * cols + column` in the list of visited pixels.
pub mod Marks
pub mod Steps
pub mod Region
pub mod Hull
pub mod Local
use iptsd_android.Prelude.{
  ℕ, zero, suc, ◌+◌, ◌-◌, ◌*◌, Bool, true, false, not, ◌&&◌, ◌||◌, Option, none, some, List, [],
  ◌∷◌, Result, ok, err, ◌>>=◌, out_of_fuel, ltb, leb, if◌then◌else◌, get_or, set,
}
use iptsd_android.Prelude.Float.{Float}
use iptsd_android.Contacts.Detection.Maximas.{Image}
use iptsd_android.Contacts.Detection.Overlaps.{Box, merged}

-- The cluster and the visited pixels, which all calls share.
pub record Spanned : Type 0 where
  pub cluster : Option Box
  pub visited : List Bool

-- A box of one pixel, and `AlignedBox::extend`.
abbrev pub single : (y x : ℕ) → Box
single y x = record { x_min = x; x_max = x; y_min = y; y_max = y }

abbrev pub extend : Option Box → (y x : ℕ) → Option Box
extend none y x = some (single y x)
extend (some b) y x = some (merged b (single y x))

abbrev pub contains : Option Box → (y x : ℕ) → Bool
contains none y x = false
contains (some b) y x = leb b.x_min x && leb x b.x_max && (leb b.y_min y && leb y b.y_max)

-- `if (!cluster.contains(position)) cluster.extend(position);`
abbrev pub include : Option Box → (y x : ℕ) → Option Box
include cluster y x = if contains cluster y x then cluster else extend cluster y x

abbrev pub is_visited : (cols : ℕ) → Spanned → (y x : ℕ) → Bool
is_visited cols s y x = get_or s.visited (y * cols + x) true

abbrev pub visit : (cols y x : ℕ) → Spanned → Spanned
visit cols y x s = record {
  cluster = include s.cluster y x;
  visited = set s.visited (y * cols + x) true;
}

unfoldable pub unvisited : ℕ → List Bool
unvisited zero = []
unvisited (suc n) = false ∷ unvisited n

module _ {F : Type 0} ⦃fl : Float F⦄ (img : Image F) (rows cols : ℕ)
    (activation deactivation : F) where
  -- Whether the search goes on at a pixel, from one with the value `previous`.
  abbrev pub passes : (previous value : F) → Bool
  passes previous value =
      not (fl.le value deactivation) && not (fl.le previous activation && fl.lt previous value)

  unfoldable pub span_recursive : (fuel y x : ℕ) → (previous : F) → Spanned → Result Spanned
  span_recursive zero y x previous s = err out_of_fuel
  span_recursive (suc fuel) y x previous s =
      let value = img y x in
      elim (passes previous value && not (is_visited cols s y x)) [
        | false ↦ ok s
        | true ↦ do
          right ← elim (ltb x (cols - 1)) [
            | true ↦ span_recursive fuel y (x + 1) value (visit cols y x s)
            | false ↦ ok (visit cols y x s)
          ]
          left ← elim (ltb 0 x) [
            | true ↦ span_recursive fuel y (x - 1) value right
            | false ↦ ok right
          ]
          down ← elim (ltb y (rows - 1)) [
            | true ↦ span_recursive fuel (y + 1) x value left
            | false ↦ ok left
          ]
          elim (ltb 0 y) [ true ↦ span_recursive fuel (y - 1) x value down | false ↦ ok down ]
      ]

  -- `span(heatmap, position, …)`, where `highest` is `std::numeric_limits<T>::max()`.
  unfoldable pub span : (highest : F) (y x : ℕ) → Result (Option Box)
  unfolding span_recursive
  span highest y x = if leb cols x || leb rows y then ok none else do
    let pixels = rows * cols
    s ←
        span_recursive (pixels + 1) y x highest
          (record { cluster = none; visited = unvisited pixels })
    ok s.cluster
