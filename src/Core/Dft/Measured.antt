-- ===== src/Core/Dft/Measured.antt =====
-- The frequency is measured without leaving the rows of a window.
use iptsd_android.Prelude.{
  ℕ, zero, suc, ◌+◌, ◌-◌, ◌*◌, ◌%◌, ◌≤◌, ◌<◌, refl, inl, inr, Bool, true, false, Result, ok, err,
  ◌>>=◌, length, arith, ltb, ltb-false, Bool-cases, if◌then◌else◌,
}
use iptsd_android.Prelude.Word.{u64_mod}
use iptsd_android.Prelude.Float.{Float}
use iptsd_android.Ipts.Data.{Row, DftWindow}
use iptsd_android.Core.Dft.{row_at, add_u32}
use iptsd_android.Core.Dft.Frequency.{max_row, middle_row, estimate_at, interpolate_frequency}
use iptsd_android.Core.Dft.Rules.{Returns, row_at-Returns}

>>=-Returns :
    {A B : Type 0} (m : Result A) (f : A → Result B)
    → Returns m
    → ((a : A) → Returns (f a))
    → Returns (m >>= f)
>>=-Returns (ok a) f r h = h a
>>=-Returns (err e) f (a, r) h = cc

pub if-Returns :
    {A : Type 0} (b : Bool) (m n : Result A) → Returns m → Returns n → Returns (if b then m else n)
if-Returns true m n hm hn = hm
if-Returns false m n hm hn = hn

module _ (w : DftWindow) where
  -- A read of a row of both axes.
  both-Returns :
      {B : Type 0} (i : ℕ) (f : Row → Row → Result B)
      → i < length w.x
      → i < length w.y
      → ((x y : Row) → Returns (f x y))
      → Returns (row_at w.x i >>= λ x. row_at w.y i >>= λ y. f x y)
  both-Returns i f hx hy h =
      >>=-Returns (row_at w.x i) (λ x. row_at w.y i >>= λ y. f x y) (row_at-Returns w.x i hx)
        λ x. >>=-Returns (row_at w.y i) (f x) (row_at-Returns w.y i hy) (h x)

  max_row-Returns :
      (left i maxi maxm : ℕ)
      → i + left ≤ length w.x
      → i + left ≤ length w.y
      → Returns (max_row w left i maxi maxm)
  unfolding max_row
  max_row-Returns zero i maxi maxm hx hy = ((maxi, maxm), refl)
  max_row-Returns (suc left) i maxi maxm hx hy = both-Returns i _ (omega arith) (omega arith) λ x y.
      if-Returns (ltb maxm (add_u32 x.magnitude y.magnitude)) _ _
        (max_row-Returns left (i + 1) i (add_u32 x.magnitude y.magnitude) (omega arith)
          (omega arith))
        (max_row-Returns left (i + 1) maxi maxm (omega arith) (omega arith))

module _ {F : Type 0} ⦃fl : Float F⦄ (w : DftWindow) where
  estimate_at-Returns :
      (rows m : ℕ) (lo hi : F)
      → m + 1 < length w.x
      → m + 1 < length w.y
      → Returns (estimate_at w rows (m, lo, hi))
  unfolding estimate_at
  estimate_at-Returns rows m lo hi hx hy =
      both-Returns w (m - 1) _ (omega arith) (omega arith) λ x₀ y₀.
        both-Returns w m _ (omega arith) (omega arith)
          λ x₁ y₁. both-Returns w (m + 1) _ hx hy λ x₂ y₂. (_, refl)

  -- The middle row has a row on either side.
  middle-Returns :
      (rows maxi : ℕ)
      → 3 ≤ rows
      → rows ≤ length w.x
      → rows ≤ length w.y
      → Returns (estimate_at w rows (middle_row {F = F} rows maxi))
  middle-Returns rows maxi h hx hy = elim (Bool-cases (ltb maxi 1)) [
    | inl low ↦ rw low (estimate_at-Returns rows 1 _ _ (omega arith) (omega arith))
    | inr above ↦ elim (Bool-cases (ltb (rows - 2) maxi)) [
      | inl high ↦
          rw (above, high) (estimate_at-Returns rows (rows - 2) _ _ (omega arith) (omega arith))
      | inr inside ↦
          let fits = ltb-false (rows - 2) maxi inside in
          rw (above, inside)
            (estimate_at-Returns rows maxi _ _ (omega (arith, fits)) (omega (arith, fits)))
    ]
  ]

  pub interpolate_frequency-Returns :
      (min_mag rows : ℕ)
      → 3 ≤ rows
      → rows ≤ length w.x
      → rows ≤ length w.y
      → Returns (interpolate_frequency {F = F} min_mag w rows)
  unfolding interpolate_frequency
  interpolate_frequency-Returns min_mag rows h hx hy =
      if-Returns (ltb rows 3) _ _ (_, refl)
        (>>=-Returns (max_row w rows 0 0 0) _
          (max_row-Returns w rows 0 0 0 (omega arith) (omega arith))
          λ out.
            if-Returns (ltb out.1 (2 * min_mag % u64_mod)) _ _ (_, refl)
              (middle-Returns rows out.0 h hx hy))
