-- ===== src/Contacts/Convolution.antt =====
-- src/contacts/detection/algorithms/convolution.hpp, and what the optimized routines for kernels of
-- 3x3 and 5x5 share. An image is its pixels row by row, the pixel of a row and a column at
-- `row * cols + column`. The result of the generic routine is a function of row and column.
pub mod Tables
pub mod Small
pub mod Large
pub mod Pass
pub mod Grid
pub mod Bodies
pub mod Unrolled
pub mod Equal
pub mod EqualLarge
pub mod Run
use iptsd_android.Prelude.{
  ℕ, zero, suc, ◌+◌, ◌-◌, ◌*◌, ◌/◌, Bool, ◌&&◌, List, [], ◌∷◌, ltb, ◌==◌, if◌then◌else◌,
}
use iptsd_android.Prelude.Float.{Float}

-- `std::clamp(s, 0, n - 1)`, for an `s` below 0 that was cut off at 0.
abbrev pub at_most : ℕ → ℕ → ℕ
at_most n s = if ltb (n - 1) s then n - 1 else s

abbrev pub Grid : Type 0 → Type 0
Grid F = ℕ → ℕ → F

abbrev pub put : {F : Type 0} → (y x : ℕ) → F → Grid F → Grid F
put y x value out v u = if v == y && u == x then value else out v u

module _ {F : Type 0} ⦃fl : Float F⦄ (img : ℕ → F) (kernel : ℕ → ℕ → F) (rows cols dy dx : ℕ) where
  -- What a pixel gains for one entry of the kernel.
  abbrev pub gain : (ky kx oy ox : ℕ) → F
  gain ky kx oy ox =
      fl.mul (img (at_most rows (oy + ky - dy) * cols + at_most cols (ox + kx - dx))) (kernel ky kx)

  -- `for (ox = …) out(oy, ox) += in(iy, ix) * kern`, with `left` columns to go.
  unfoldable pub pass_row : (ky kx oy ox left : ℕ) → Grid F → Grid F
  pass_row ky kx oy ox zero out = out
  pass_row ky kx oy ox (suc left) out =
      pass_row ky kx oy (ox + 1) left (put oy ox (fl.add (out oy ox) (gain ky kx oy ox)) out)

  unfoldable pub pass_rows : (ky kx oy left : ℕ) → Grid F → Grid F
  unfolding pass_row
  pass_rows ky kx oy zero out = out
  pass_rows ky kx oy (suc left) out = pass_rows ky kx (oy + 1) left (pass_row ky kx oy 0 cols out)

  -- The loops over the columns and the rows of the kernel.
  unfoldable pub kernel_row : (ky kx left : ℕ) → Grid F → Grid F
  unfolding pass_rows
  kernel_row ky kx zero out = out
  kernel_row ky kx (suc left) out = kernel_row ky (kx + 1) left (pass_rows ky kx 0 rows out)

  unfoldable pub kernel_rows : (kernel_cols ky left : ℕ) → Grid F → Grid F
  unfolding kernel_row
  kernel_rows kernel_cols ky zero out = out
  kernel_rows kernel_cols ky (suc left) out =
      kernel_rows kernel_cols (ky + 1) left (kernel_row ky 0 kernel_cols out)

module _ {F : Type 0} ⦃fl : Float F⦄ where
  unfoldable pub run_generic :
      (img : ℕ → F) (kernel : ℕ → ℕ → F) (rows cols kernel_rows kernel_cols : ℕ) → Grid F
  run_generic img kernel rows cols kernel_height kernel_width =
      kernel_rows img kernel rows cols ((kernel_height - 1) / 2) ((kernel_width - 1) / 2)
        kernel_width 0 kernel_height λ y x. fl.of_nat 0

-- The offsets -2, …, 2 of the unrolled routines.
pub data Offset : Type 0 where
  m2 m1 o0 p1 p2 : Offset

abbrev pub ahead : Offset → ℕ
ahead p1 = 1
ahead p2 = 2
ahead _ = 0

abbrev pub back : Offset → ℕ
back m1 = 1
back m2 = 2
back _ = 0

-- `v += d(i, dx, dy) * k(kx, ky)`
pub data Term : Type 0 where
  t : (dx dy kx ky : Offset) → Term

-- The index and the pixels that have been written.
pub record Pixels (F : Type 0) : Type 0 where
  pub i : ℕ
  pub out : ℕ → F

abbrev pub store : {F : Type 0} → ℕ → F → (ℕ → F) → ℕ → F
store i value out j = if j == i then value else out j

module _ {F : Type 0} ⦃fl : Float F⦄ (img : ℕ → F) (kernel : ℕ → ℕ → F) (cols radius : ℕ) where
  -- The access helpers `d` and `k`: `i + dy * cols + dx` is not negative where the code reads.
  abbrev pub d : ℕ → (dx dy : Offset) → F
  d i dx dy = img (i + ahead dy * cols + ahead dx - (back dy * cols + back dx))

  abbrev pub k : (dx dy : Offset) → F
  k dx dy = kernel (ahead dy + radius - back dy) (ahead dx + radius - back dx)

  -- The terms of a body, in their order, from the value `v` on.
  abbrev pub sum : List Term → ℕ → F → F
  sum [] i v = v
  sum (t dx dy kx ky ∷ terms) i v = sum terms i (fl.add v (fl.mul (d i dx dy) (k kx ky)))

  -- A body: `auto v = 0; …; out(i++) = v;`
  abbrev pub body : List Term → Pixels F → Pixels F
  body terms s = record { i = s.i + 1; out = store s.i (sum terms s.i (fl.of_nat 0)) s.out }

-- `while (i < limit) step`, where each step writes a pixel at least: as many rounds as the limit has.
unfoldable pub while_below :
    {F : Type 0} → (fuel limit : ℕ) → (Pixels F → Pixels F) → Pixels F → Pixels F
while_below zero limit step s = s
while_below (suc fuel) limit step s =
    let rest = while_below fuel limit step (step s) in if ltb s.i limit then rest else s
