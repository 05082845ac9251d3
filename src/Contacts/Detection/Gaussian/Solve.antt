-- ===== src/Contacts/Detection/Gaussian/Solve.antt =====
-- `ge_solve` of src/contacts/detection/algorithms/gaussian.hpp. An entry of a matrix is `a column row`,
-- as the code reads it.
use iptsd_android.Prelude.{ℕ, zero, suc, ◌+◌, ◌-◌, ◌&&◌, Option, none, some, ◌==◌, if◌then◌else◌}
use iptsd_android.Prelude.Float.{Float}

abbrev pub Matrix : Type 0 → Type 0
Matrix F = ℕ → ℕ → F

abbrev pub Vector : Type 0 → Type 0
Vector F = ℕ → F

abbrev pub set_entry : {F : Type 0} → Matrix F → (column row : ℕ) → F → Matrix F
set_entry a column row v k r = if k == column && r == row then v else a k r

abbrev pub set_at : {F : Type 0} → Vector F → ℕ → F → Vector F
set_at b i v k = if k == i then v else b k

-- Swaps the rows `r` and `c`, in `n` columns from `i` on.
unfoldable pub swap_rows : {F : Type 0} → (r c i n : ℕ) → Matrix F → Matrix F
swap_rows r c i zero a = a
swap_rows r c i (suc n) a =
    swap_rows r c (suc i) n (set_entry (set_entry a i r (a i c)) i c (a i r))

abbrev pub swap_at : {F : Type 0} → (r c : ℕ) → Vector F → Vector F
swap_at r c b = set_at (set_at b r (b c)) c (b r)

module _ {F : Type 0} ⦃fl : Float F⦄ (eps : F) where
  -- The row, of the `n` from `i` on, with the largest absolute value in column `c`, and the value.
  unfoldable pub pivot : Matrix F → (c i n : ℕ) → ℕ × F → ℕ × F
  pivot a c i zero best = best
  pivot a c i (suc n) best =
      let vi = fl.abs (a c i) in pivot a c (suc i) n (if fl.lt best.1 vi then (i, vi) else best)

  -- `a(k, r) -= v * a(k, c)` in `n` columns from `k` on.
  unfoldable pub subtract_row : (v : F) (r c k n : ℕ) → Matrix F → Matrix F
  subtract_row v r c k zero a = a
  subtract_row v r c k (suc n) a =
      subtract_row v r c (suc k) n (set_entry a k r (fl.sub (a k r) (fl.mul v (a k c))))

  -- The elimination step in the `n` rows from `r` on.
  unfoldable pub eliminate : (c r n : ℕ) → Matrix F × Vector F → Matrix F × Vector F
  unfolding subtract_row
  eliminate c r zero (a, b) = (a, b)
  eliminate c r (suc n) (a, b) =
      let v = fl.div (a c r) (a c c) in
      eliminate c (suc r) n
        (subtract_row v r c (c + 1) (5 - c) a, set_at b r (fl.sub (b r) (fl.mul v (b c))))

  abbrev pub permuted : (r c : ℕ) → Matrix F × Vector F → Matrix F × Vector F
  permuted r c (a, b) = if r == c then (a, b) else (swap_rows r c c (6 - c) a, swap_at r c b)

  -- Gaussian elimination in the `n` columns from `c` on.
  unfoldable pub reduce : (c n : ℕ) → Matrix F × Vector F → Option (Matrix F × Vector F)
  unfolding pivot eliminate swap_rows
  reduce c zero system = some system
  reduce c (suc n) system =
      let (r, v) = pivot system.0 c c (6 - c) (0, fl.of_nat 0) in
      let rest = reduce (suc c) n (eliminate c (c + 1) (5 - c) (permuted r c system)) in
      if fl.le v eps then none else rest

  -- Backwards substitution.
  unfoldable pub substitute : Matrix F → Vector F → Vector F
  substitute a b =
      let less = λ (v : F) (k r : ℕ) (x : F). fl.sub v (fl.mul (a k r) x) in
      let x5 = fl.div (b 5) (a 5 5) in
      let x4 = fl.div (less (b 4) 5 4 x5) (a 4 4) in
      let x3 = fl.div (less (less (b 3) 5 3 x5) 4 3 x4) (a 3 3) in
      let x2 = fl.div (less (less (less (b 2) 5 2 x5) 4 2 x4) 3 2 x3) (a 2 2) in
      let x1 = fl.div (less (less (less (less (b 1) 5 1 x5) 4 1 x4) 3 1 x3) 2 1 x2) (a 1 1) in
      let x0 =
        fl.div (less (less (less (less (less (b 0) 5 0 x5) 4 0 x4) 3 0 x3) 2 0 x2) 1 0 x1)
          (a 0 0) in
      λ i.
        if i == 0
        then x0
        else if i == 1
        then x1
        else if i == 2
        then x2
        else if i == 3
        then x3
        else if i == 4
        then x4
        else x5

  abbrev pub solved : Option (Matrix F × Vector F) → Option (Vector F)
  solved none = none
  solved (some (a, b)) = if fl.le (fl.abs (a 5 5)) eps then none else some (substitute a b)

  -- `ge_solve(a, b, x)`: none where it returns false.
  unfoldable pub ge_solve : Matrix F → Vector F → Option (Vector F)
  unfolding reduce substitute
  ge_solve a b = solved (reduce 0 5 (a, b))
