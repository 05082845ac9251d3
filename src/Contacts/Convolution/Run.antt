-- ===== src/Contacts/Convolution/Run.antt =====
-- `convolution::run`: the choice of a routine by the size of the kernel.
use iptsd_android.Prelude.{
  ℕ, ◌+◌, ◌*◌, ◌≤◌, ◌<◌, ◌≡◌, refl, ap, ◌∙◌, Bool, true, false, ◌&&◌, arith, ◌==◌, if◌then◌else◌,
}
use iptsd_android.Prelude.Float.{Float}
use iptsd_android.Contacts.Convolution.{Grid, run_generic}
use iptsd_android.Contacts.Convolution.Small.{run_3x3}
use iptsd_android.Contacts.Convolution.Large.{run_5x5}
use iptsd_android.Contacts.Convolution.Equal.{run_3x3-run_generic}
use iptsd_android.Contacts.Convolution.EqualLarge.{run_5x5-run_generic}

either_routine :
    {F : Type 0} (b c : Bool) (u v w : F)
    → (b ≡ true → u ≡ w)
    → (c ≡ true → v ≡ w)
    → (if b then u else if c then v else w) ≡ w
either_routine true c u v w h k = h refl
either_routine false true u v w h k = k refl
either_routine false false u v w h k = refl

module _ {F : Type 0} ⦃fl : Float F⦄ (img : ℕ → F) (kernel : ℕ → ℕ → F) where
  unfoldable pub run : (rows cols kernel_rows kernel_cols : ℕ) → (ℕ → F) → Grid F
  run rows cols kernel_rows kernel_cols out y x =
      if kernel_rows == 3 && kernel_cols == 3
      then (run_3x3 img kernel rows cols out).out (y * cols + x)
      else if kernel_rows == 5 && kernel_cols == 5
      then (run_5x5 img kernel rows cols out).out (y * cols + x)
      else run_generic img kernel rows cols kernel_rows kernel_cols y x

  -- On an image of as many rows as columns, four or more, the result does not depend on the choice:
  -- for a kernel of any size, every pixel is the one that the generic routine computes, whatever the
  -- output held before.
  pub run-run_generic :
      (n kernel_rows kernel_cols : ℕ) (out : ℕ → F) (y x : ℕ)
      → 4 ≤ n
      → y < n
      → x < n
      → run n n kernel_rows kernel_cols out y x
        ≡ run_generic img kernel n n kernel_rows kernel_cols y x
  unfolding run
  run-run_generic n kernel_rows kernel_cols out y x h hy hx =
      let small = run_3x3-run_generic img kernel n n out y x (omega arith) (omega arith) hy hx in
      let large = run_5x5-run_generic img kernel n out y x h hy hx in
      either_routine (kernel_rows == 3 && kernel_cols == 3) (kernel_rows == 5 && kernel_cols == 5) _
        _ _ (λ e. small ∙ sized 3 3 (ground (arith, e)) (ground (arith, e)))
        λ e. large ∙ sized 5 5 (ground (arith, e)) (ground (arith, e))
    where
      sized :
          (a b : ℕ)
          → a ≡ kernel_rows
          → b ≡ kernel_cols
          → run_generic img kernel n n a b y x
            ≡ run_generic img kernel n n kernel_rows kernel_cols y x
      sized a b e f =
          ap (λ r. run_generic img kernel n n r b y x) e
          ∙ ap (λ c. run_generic img kernel n n kernel_rows c y x) f
