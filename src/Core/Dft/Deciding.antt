-- ===== src/Core/Dft/Deciding.antt =====
-- Reads of the rows that a window has, and the decisions from their magnitudes.
use iptsd_android.Prelude.{ℕ, ◌<◌, List, length, arith}
use iptsd_android.Prelude.Float.{Float}
use iptsd_android.Prelude.Act.{Act, ◌>>=◌, modify, lift}
use iptsd_android.Ipts.Data.{Row, DftWindow}
use iptsd_android.Core.Dft.{DftStylus, row_at, add_u32}
use iptsd_android.Core.Dft.Input.{magnitude_at}
use iptsd_android.Core.Dft.Rules.{
  Holds, >>=-Holds, pure-Holds, modify-Holds, lift-Holds, row_at-Returns,
}
use iptsd_android.Core.Dft.Valid.{IsEven}

module _ {F : Type 0} ⦃fl : Float F⦄ (P : DftStylus F → Type 0) where
  -- A row that the window has.
  pub row-Holds :
      {A : Type 0} (rows : List Row) (i : ℕ) (f : Row → Act (DftStylus F) A)
      → i < length rows
      → ((r : Row) → Holds P (f r))
      → Holds P (lift (row_at rows i) >>= f)
  row-Holds rows i f h k =
      >>=-Holds P (lift (row_at rows i)) f (lift-Holds P (row_at rows i) (row_at-Returns rows i h))
        k

  pub magnitude_at-Holds :
      (w : DftWindow) (i : ℕ) → i < length w.x → i < length w.y → Holds P (magnitude_at w i)
  unfolding magnitude_at
  magnitude_at-Holds w i hx hy =
      row-Holds w.x i _ hx
        λ x. row-Holds w.y i _ hy λ y. pure-Holds P (add_u32 x.magnitude y.magnitude)

  -- The sums of two rows, and what is decided from them.
  pub deciding-Holds :
      (w : DftWindow) (i j : ℕ) (f : ℕ → ℕ → DftStylus F → DftStylus F)
      → IsEven w
      → i < length w.x
      → j < length w.x
      → ((a b : ℕ) (s : DftStylus F) → P s → P (f a b s))
      → Holds P (magnitude_at w i >>= λ a. magnitude_at w j >>= λ b. modify (f a b))
  deciding-Holds w i j f even hi hj h =
      >>=-Holds P (magnitude_at w i) (λ a. magnitude_at w j >>= λ b. modify (f a b))
        (magnitude_at-Holds w i hi (omega (arith, hi, even)))
        λ a.
          >>=-Holds P (magnitude_at w j) (λ b. modify (f a b))
            (magnitude_at-Holds w j hj (omega (arith, hj, even)))
            λ b. modify-Holds P (f a b) (h a b)
