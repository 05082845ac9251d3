-- ===== src/Contacts/Detection/Kernels.antt =====
-- src/contacts/detection/algorithms/kernels.hpp, at a type that `casts::to` reaches without loss.
use iptsd_android.Prelude.{ℕ, zero, suc, ◌-◌}
use iptsd_android.Prelude.Float.{Float}

module _ {F : Type 0} ⦃fl : Float F⦄ (rows cols : ℕ) (sigma : F) where
  -- The distance of an index from the middle of `n`.
  abbrev pub from_middle : (n i : ℕ) → F
  from_middle n i = fl.sub (fl.of_nat i) (fl.div (fl.of_nat (n - 1)) (fl.of_nat 2))

  abbrev pub kernel_value : (y x : ℕ) → F
  kernel_value y x =
      let vy = fl.div (from_middle rows y) sigma in
      let vx = fl.div (from_middle cols x) sigma in
      let norm = fl.add (fl.mul vy vy) (fl.mul vx vx) in
      fl.exp (fl.mul (fl.neg (fl.div (fl.of_nat 1) (fl.of_nat 2))) norm)

  -- The sum of `n` values of a row from `x` on, and of `n` rows from `y` on.
  unfoldable pub add_values : (y x n : ℕ) → F → F
  add_values y x zero sum = sum
  add_values y x (suc n) sum = add_values y (suc x) n (fl.add sum (kernel_value y x))

  unfoldable pub add_rows : (y n : ℕ) → F → F
  unfolding add_values
  add_rows y zero sum = sum
  add_rows y (suc n) sum = add_rows (suc y) n (add_values y 0 cols sum)

  -- `gaussian<T, Rows, Cols>(sigma)`
  unfoldable pub gaussian : ℕ → ℕ → F
  unfolding add_rows
  gaussian y x = fl.div (kernel_value y x) (add_rows 0 rows (fl.of_nat 0))
