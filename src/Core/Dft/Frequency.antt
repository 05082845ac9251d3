-- ===== src/Core/Dft/Frequency.antt =====
-- `interpolate_frequency` of src/core/generic/dft.hpp: where the frequency of the strongest row lies.
use iptsd_android.Prelude.{
  ℕ, zero, suc, ◌+◌, ◌-◌, ◌*◌, ◌%◌, Result, ok, ◌>>=◌, ltb, if◌then◌else◌, List,
}
use iptsd_android.Prelude.Int.{ℤ, pos, ◌+ℤ◌, ◌-ℤ◌, ◌*ℤ◌}
use iptsd_android.Prelude.Word.{u64_mod}
use iptsd_android.Prelude.Float.{Float, clamp}
use iptsd_android.Ipts.Data.{DftWindow, num_components}
use iptsd_android.Core.Dft.{row_at, component, add_u32, wrap_i32}

-- `for (u8 i = 0; i < rows; i++)`, with `left` rows to go: the first of the strongest rows, if any
-- row is stronger than `maxm`.
unfoldable pub max_row : DftWindow → (left i maxi maxm : ℕ) → Result (ℕ × ℕ)
max_row w zero i maxi maxm = ok (maxi, maxm)
max_row w (suc left) i maxi maxm = do
  x ← row_at w.x i
  y ← row_at w.y i
  let m = add_u32 x.magnitude y.magnitude
  let better = max_row w left (i + 1) i m
  let rest = max_row w left (i + 1) maxi maxm
  if ltb maxm m then better else rest

-- The sum of the components of two rows, which fits its `i32`.
unfoldable pub sum_components : (left j : ℕ) (x y : List ℤ) → ℤ
sum_components zero j x y = pos 0
sum_components (suc left) j x y = component x j +ℤ component y j +ℤ sum_components left (j + 1) x y

abbrev pub total : (List ℤ × List ℤ) → ℤ
total (x, y) = sum_components num_components 0 x y

-- `(ra * rb + ia * ib) / casts::to<f64>(rb * rb + ib * ib)`, of the sums of three rows.
unfoldable pub estimate : {F : Type 0} ⦃fl : Float F⦄ → (r₀ r₁ r₂ i₀ i₁ i₂ : ℤ) → F
estimate ⦃fl = fl⦄ r₀ r₁ r₂ i₀ i₁ i₂ =
    let ra = r₀ -ℤ r₂ in
    let rb = pos 2 *ℤ r₁ -ℤ r₀ -ℤ r₂ in
    let ia = i₀ -ℤ i₂ in
    let ib = pos 2 *ℤ i₁ -ℤ i₀ -ℤ i₂ in
    fl.div (fl.of_int (wrap_i32 (wrap_i32 (ra *ℤ rb) +ℤ wrap_i32 (ia *ℤ ib))))
      (fl.of_int (wrap_i32 (wrap_i32 (rb *ℤ rb) +ℤ wrap_i32 (ib *ℤ ib))))

module _ {F : Type 0} ⦃fl : Float F⦄ where
  -- The middle one of the three rows, and the limits of the estimate.
  abbrev pub middle_row : (rows maxi : ℕ) → ℕ × F × F
  middle_row rows maxi =
      let half = fl.div (fl.of_nat 1) (fl.of_nat 2) in
      if ltb maxi 1
      then (1, fl.neg (fl.of_nat 1), half)
      else if ltb (rows - 2) maxi
      then (rows - 2, fl.neg half, fl.of_nat 1)
      else (maxi, fl.neg half, half)

  -- The rows around the middle one, and the estimate from them.
  unfoldable pub estimate_at : DftWindow → (rows : ℕ) → ℕ × F × F → Result F
  estimate_at w rows (maxi, mind, maxd) = do
    x₀ ← row_at w.x (maxi - 1)
    y₀ ← row_at w.y (maxi - 1)
    x₁ ← row_at w.x maxi
    y₁ ← row_at w.y maxi
    x₂ ← row_at w.x (maxi + 1)
    y₂ ← row_at w.y (maxi + 1)
    let d =
        estimate (total (x₀.real, y₀.real)) (total (x₁.real, y₁.real)) (total (x₂.real, y₂.real))
          (total (x₀.imag, y₀.imag)) (total (x₁.imag, y₁.imag)) (total (x₂.imag, y₂.imag))
    ok (fl.div (fl.add (fl.of_nat maxi) (clamp d mind maxd)) (fl.of_nat (rows - 1)))

  unfoldable pub interpolate_frequency : (freq_min_mag : ℕ) → DftWindow → (rows : ℕ) → Result F
  interpolate_frequency freq_min_mag w rows = if ltb rows 3 then ok fl.nan else do
    (maxi, maxm) ← max_row w rows 0 0 0
    if ltb maxm (2 * freq_min_mag % u64_mod)
        then ok fl.nan
        else estimate_at w rows (middle_row rows maxi)
