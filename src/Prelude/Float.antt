-- ===== src/Prelude/Float.antt =====
-- The arithmetic of `f64` that the program gets from the machine and from libm: a parameter of the
-- models. Nothing is assumed of it here; a theorem that needs a law takes it as a hypothesis.
use Prim.Native.Nat.{ℕ}
use mathlib.Core.Path.{◌≡◌}
use mathlib.Core.Bool.{Bool, true, false, not, ◌||◌}
use mathlib.Core.Option.{Option}
use iptsd_android.Prelude.Tests.{if◌then◌else◌}
use iptsd_android.Prelude.Int.{ℤ}

pub record Float (F : Type 0) : Type 0 where
  -- Conversions of unsigned and of signed integers.
  pub of_nat : ℕ → F
  pub of_int : ℤ → F
  pub pi : F
  pub nan : F
  pub infinity : F
  pub neg : F → F
  pub add : F → F → F
  pub sub : F → F → F
  pub mul : F → F → F
  pub div : F → F → F
  -- The comparisons `<`, `<=` and `==`, and `std::isnan`.
  pub lt : F → F → Bool
  pub le : F → F → Bool
  pub eq : F → F → Bool
  pub is_nan : F → Bool
  pub abs : F → F
  pub exp : F → F
  pub log : F → F
  pub sqrt : F → F
  pub floor : F → F
  pub ceil : F → F
  pub sin : F → F
  pub cos : F → F
  pub asin : F → F
  pub atan2 : F → F → F
  pub hypot : F → F → F
  pub pow : F → F → F
  pub fmod : F → F → F
  -- `maxCoeff()` and `minCoeff()` of a vector of two numbers, and `std::min`
  -- and `std::max`.
  pub max_coeff : F → F → F
  pub min_coeff : F → F → F
  pub fmin : F → F → F
  pub fmax : F → F → F
  -- `casts::to<i32>(std::round(x))`: none where `gsl::narrow` throws.
  pub round_i32 : F → Option ℤ
  -- `casts::to<usize>(std::round(x))`, likewise.
  pub round_usize : F → Option ℕ

-- `std::clamp`
abbrev pub clamp : {F : Type 0} ⦃fl : Float F⦄ → F → F → F → F
clamp ⦃fl⦄ x lo hi = if fl.lt x lo then lo else if fl.lt hi x then hi else x

-- What IEEE 754 says of `<` and `<=` on values that are not NaN, as far as theorems use it.
pub record IsOrdered (F : Type 0) ⦃fl : Float F⦄ : Type 0 where
  pub lt-eq-not-le :
      (a b : F) → fl.is_nan a ≡ false → fl.is_nan b ≡ false → fl.lt a b ≡ not (fl.le b a)
  pub le_total :
      (a b : F) → fl.is_nan a ≡ false → fl.is_nan b ≡ false → (fl.le a b || fl.le b a) ≡ true
  pub le_trans : (a b c : F) → fl.le a b ≡ true → fl.le b c ≡ true → fl.le a c ≡ true
