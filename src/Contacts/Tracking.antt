-- ===== src/Contacts/Tracking.antt =====
-- `Tracker` of src/contacts/tracking/tracker.hpp and the distances of src/contacts/tracking/distances.hpp.
-- The position of the least entry of a matrix, `minCoeff(&y, &x)`, is a parameter.
pub mod Fresh
pub mod Marks
pub mod Uniqueness
use iptsd_android.Prelude.{
  ℕ, zero, suc, ◌+◌, Bool, ◌||◌, Option, none, some, List, [], ◌∷◌, Result, ok, err, ◌>>=◌,
  out_of_fuel, length, ltb, ◌==◌, if◌then◌else◌,
}
use iptsd_android.Prelude.Float.{Float}
use iptsd_android.Contacts.Contact.{Contact, find_in_frame}

pub record Tracker (F : Type 0) : Type 0 where
  pub last : List (Contact F)

unfoldable pub reset : {F : Type 0} → Tracker F → Tracker F
reset t = record t { last = [] }

-- `std::min`
abbrev pub smaller : ℕ → ℕ → ℕ
smaller a b = if ltb b a then b else a

-- A matrix, by row and column.
abbrev pub Matrix : Type 0 → Type 0
Matrix F = ℕ → ℕ → F

-- The index of the contact at a place of the frame.
abbrev pub index_at : {F : Type 0} → ℕ → List (Contact F) → Option ℕ
index_at i [] = none
index_at zero (c ∷ frame) = c.index
index_at (suc i) (c ∷ frame) = index_at i frame

abbrev pub set_index : {F : Type 0} → ℕ → Option ℕ → List (Contact F) → List (Contact F)
set_index i m [] = []
set_index zero m (c ∷ frame) = record c { index = m } ∷ frame
set_index (suc i) m (c ∷ frame) = c ∷ set_index i m frame

-- The mean of the contact at a place of the frame.
abbrev pub position_at : {F : Type 0} → ℕ → List (Contact F) → Option (F × F)
position_at i [] = none
position_at zero (c ∷ frame) = some (c.mean_x, c.mean_y)
position_at (suc i) (c ∷ frame) = position_at i frame

-- Above every index of a frame; it bounds the rounds of `find_new_index`.
abbrev pub index_bound : {F : Type 0} → List (Contact F) → ℕ
index_bound [] = 0
index_bound (c ∷ frame) =
    let rest = index_bound frame in
    elim c.index [ none ↦ rest | some i ↦ if ltb i rest then rest else i + 1 ]

module _ {F : Type 0} where
  -- The loop of `find_new_index`.
  unfoldable pub search_index : (fuel min : ℕ) → List (Contact F) → Result ℕ
  search_index zero min last = err out_of_fuel
  search_index (suc fuel) min last =
      let later = search_index fuel (min + 1) last in
      elim (find_in_frame min last) [ none ↦ ok min | some c ↦ later ]

  unfoldable pub find_new_index : ℕ → List (Contact F) → Result ℕ
  unfolding search_index
  find_new_index min last = search_index (index_bound last + 1) min last

  -- The loop that gives every contact of the frame a new index.
  unfoldable pub assign : ℕ → List (Contact F) → List (Contact F) → Result (List (Contact F))
  unfolding find_new_index
  assign counter last [] = ok []
  assign counter last (c ∷ frame) = do
    index ← find_new_index counter last
    frame' ← assign (index + 1) last frame
    ok (record c { index = some index } ∷ frame')

module _ {F : Type 0} ⦃fl : Float F⦄ where
  abbrev pub distance_of : Option (F × F) → Option (F × F) → F
  distance_of (some (ax, ay)) (some (bx, by)) = fl.hypot (fl.sub ax bx) (fl.sub ay by)
  distance_of _ _ = fl.infinity

  -- `distances::calculate`: a row for each contact of the last frame.
  unfoldable pub calculate : (frame last : List (Contact F)) → Matrix F
  calculate frame last y x = distance_of (position_at x frame) (position_at y last)

  -- Sets a row and a column to infinity.
  abbrev pub invalidate : (y x : ℕ) → Matrix F → Matrix F
  invalidate y x m v u = if v == y || u == x then fl.infinity else m v u

  -- The loop that copies the old indices back, with `left` rounds to go.
  unfoldable pub copy_indices :
      (min_coeff : (rows cols : ℕ) → Matrix F → ℕ × ℕ)
      → (left : ℕ) → (last : List (Contact F)) → Matrix F
      → List (Contact F)
      → List (Contact F)
  copy_indices min_coeff zero last m frame = frame
  copy_indices min_coeff (suc left) last m frame =
      let (y, x) = min_coeff (length last) (length frame) m in
      copy_indices min_coeff left last (invalidate y x m) (set_index x (index_at y last) frame)

  -- `track(frame)`: the frame with its indices, and the tracker that remembers it.
  unfoldable pub track :
      (min_coeff : (rows cols : ℕ) → Matrix F → ℕ × ℕ)
      → List (Contact F)
      → Tracker F
      → Result (List (Contact F) × Tracker F)
  unfolding assign copy_indices calculate
  track min_coeff frame t = do
    fresh ← assign 0 t.last frame
    let tracked =
        copy_indices min_coeff (smaller (length frame) (length t.last)) t.last
          (calculate fresh t.last) fresh
    ok (tracked, record t { last = tracked })
