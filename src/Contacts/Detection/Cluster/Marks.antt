-- ===== src/Contacts/Detection/Cluster/Marks.antt =====
-- Marks on a list of pixels, how many are left, and the box around the marked ones.
use iptsd_android.Prelude.{
  ℕ, zero, suc, ◌+◌, ◌≤◌, ◌<◌, ◌≡◌, refl, Bool, true, false, Option, none, some, List, [], ◌∷◌,
  arith, if◌then◌else◌, get_or, set,
}
use iptsd_android.Contacts.Detection.Overlaps.{Box, merged}
use iptsd_android.Contacts.Detection.Cluster.{single, contains, include, unvisited}

-- How many pixels are not marked.
abbrev pub count : List Bool → ℕ
count [] = 0
count (true ∷ xs) = count xs
count (false ∷ xs) = suc (count xs)

pub get-set_same : (xs : List Bool) (i : ℕ) → get_or (set xs i true) i true ≡ true
get-set_same [] i = refl
get-set_same (x ∷ xs) zero = refl
get-set_same (x ∷ xs) (suc i) = get-set_same xs i

pub get-set_kept :
    (xs : List Bool) (i j : ℕ) → get_or xs j true ≡ true → get_or (set xs i true) j true ≡ true
get-set_kept [] i j h = refl
get-set_kept (x ∷ xs) zero zero h = refl
get-set_kept (x ∷ xs) zero (suc j) h = h
get-set_kept (x ∷ xs) (suc i) zero h = h
get-set_kept (x ∷ xs) (suc i) (suc j) h = get-set_kept xs i j h

-- A new mark is the one that was set.
pub get-set_new :
    (xs : List Bool) (i j : ℕ)
    → get_or xs j true ≡ false
    → get_or (set xs i true) j true ≡ true
    → i ≡ j
get-set_new [] i j h k = cc
get-set_new (x ∷ xs) zero zero h k = refl
get-set_new (x ∷ xs) zero (suc j) h k = cc
get-set_new (x ∷ xs) (suc i) zero h k = cc
get-set_new (x ∷ xs) (suc i) (suc j) h k = omega (arith, get-set_new xs i j h k)

pub count-set :
    (xs : List Bool) (i : ℕ) → get_or xs i true ≡ false → count (set xs i true) + 1 ≡ count xs
count-set [] i h = cc
count-set (false ∷ xs) zero h = omega arith
count-set (true ∷ xs) zero h = cc
count-set (false ∷ xs) (suc i) h = omega (arith, count-set xs i h)
count-set (true ∷ xs) (suc i) h = count-set xs i h

pub count-unvisited : (n : ℕ) → count (unvisited n) ≡ n
unfolding unvisited
count-unvisited zero = refl
count-unvisited (suc n) = omega (arith, count-unvisited n)

pub get-unvisited : (n i : ℕ) → i < n → get_or (unvisited n) i true ≡ false
unfolding unvisited
get-unvisited zero i h = absurd (omega (arith, h))
get-unvisited (suc n) zero h = refl
get-unvisited (suc n) (suc i) h = get-unvisited n i (omega (arith, h))

-- Every pixel of the first box is one of the second.
abbrev pub Within : Option Box → Box → Type 0
Within none b = Unit
Within (some a) b =
    (b.x_min ≤ a.x_min) × (a.x_max ≤ b.x_max) × (b.y_min ≤ a.y_min) × (a.y_max ≤ b.y_max)

pub include_same : (c : Option Box) (y x : ℕ) → contains (include c y x) y x ≡ true
include_same none y x = ground arith
include_same (some b) y x = ground arith

pub include_kept :
    (c : Option Box) (y x v u : ℕ) → contains c v u ≡ true → contains (include c y x) v u ≡ true
include_kept none y x v u h = cc
include_kept (some b) y x v u h = ground (arith, h)

pub include-Within :
    (c : Option Box) (b : Box) (y x : ℕ)
    → Within c b
    → contains (some b) y x ≡ true
    → Within (include c y x) b
include-Within none b y x w h =
    (ground (arith, h), ground (arith, h), ground (arith, h), ground (arith, h))
include-Within (some a) b y x w h = go (contains (some a) y x)
  where
    go : (t : Bool) → Within (if t then some a else some (merged a (single y x))) b
    go true = w
    go false = (
      ground (arith, w.0, h),
      ground (arith, w.1, h),
      ground (arith, w.2, h),
      ground (arith, w.3, h),
    )
