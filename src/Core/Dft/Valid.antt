-- ===== src/Core/Dft/Valid.antt =====
-- What is expected of the state of the stylus, and that every change keeps it.
use iptsd_android.Prelude.{
  ℕ, ◌<◌, ◌≡◌, refl, Bool, true, false, ◌&&◌, ◌||◌, Option, none, some, ok, length, arith, ◌==◌,
  if◌then◌else◌, ◌⊎◌, inl, inr, Bool-cases,
}
use iptsd_android.Prelude.Int.{ℤ, pos, negsuc, ltb_ℤ}
use iptsd_android.Prelude.Float.{Float, IsOrdered, clamp}
use iptsd_android.Ipts.Data.{StylusData, Row, DftWindow, Metadata}
use iptsd_android.Core.Dft.{DftConfig, DftStylus, lift_dft}
use iptsd_android.Core.Dft.Position.{to_u8, extent, set_angles, set_tilt}
use iptsd_android.Core.Dft.Input.{phase, set_by_phase, set_pressure}
use iptsd_android.Core.Dft.Rules.{Returns, Holds}
use iptsd_android.Core.Dft.Measured.{if-Returns}

-- What IEEE 754 says of `<` and `<=`, and of the numbers 0 and 1: a number is less only than a number.
pub record HasUnits (F : Type 0) ⦃fl : Float F⦄ : Type 0 where
  pub order : IsOrdered F
  pub lt-not_nan : (a b : F) → fl.lt a b ≡ true → fl.is_nan b ≡ false
  pub zero_number : fl.is_nan (fl.of_nat 0) ≡ false
  pub one_number : fl.is_nan (fl.of_nat 1) ≡ false
  pub zero-le-one : fl.le (fl.of_nat 0) (fl.of_nat 1) ≡ true

-- A number from 0 to 1.
abbrev pub IsFraction : {F : Type 0} → ⦃fl : Float F⦄ → F → Type 0
IsFraction ⦃fl⦄ x = (fl.le (fl.of_nat 0) x ≡ true) × (fl.le x (fl.of_nat 1) ≡ true)

-- A number from 0 to 1, or NaN.
abbrev pub IsFractionOrNan : {F : Type 0} → ⦃fl : Float F⦄ → F → Type 0
IsFractionOrNan ⦃fl⦄ x = (fl.is_nan x ≡ true) ⊎ IsFraction x

-- A stylus with one of its ends held at most, whose pressure is a part of its range, and whose
-- coordinates are parts of theirs or NaN. With one row or column of antennas an interpolated position
-- of 0 is divided by 0, and `std::clamp` keeps the NaN.
pub record IsStylus (F : Type 0) ⦃fl : Float F⦄ (d : StylusData F) : Type 0 where
  pub ends : (d.button && d.rubber) ≡ false
  pub x : IsFractionOrNan d.x
  pub y : IsFractionOrNan d.y
  pub pressure : IsFraction d.pressure

-- The window has as many rows on both axes.
abbrev pub IsEven : DftWindow → Type 0
IsEven w = length w.x ≡ length w.y

-- The antennas that the metadata tells of can be counted in a byte.
abbrev pub HasExtent : Option Metadata → Type 0
HasExtent none = Unit
HasExtent (some m) = (m.columns < 256) × (m.rows < 256)

pub extent-Returns :
    (metadata : Option Metadata) (w : DftWindow) → HasExtent metadata → Returns (extent metadata w)
unfolding extent
extent-Returns none w h = ((w.width, w.height), refl)
extent-Returns (some m) w (hc, hr) =
    let fits : to_u8 m.columns m.rows ≡ ok (m.columns, m.rows) = ground (arith, hc, hr) in
    if-Returns (w.width == 0 || w.height == 0) (to_u8 m.columns m.rows) (ok (w.width, w.height))
      (_, fits) (_, refl)

one_end : (v : ℤ) → (ltb_ℤ v (pos 0) && ltb_ℤ (pos 0) v) ≡ false
one_end (pos n) = ground arith
one_end (negsuc n) = ground arith

if-keeps : {S : Type 0} (P : S → Type 0) (b : Bool) (s u : S) → P s → P u → P (if b then s else u)
if-keeps P true s u p q = p
if-keeps P false s u p q = q

module _ {F : Type 0} ⦃fl : Float F⦄ (units : HasUnits F) where
  pub zero-IsFraction : IsFraction {F = F} (fl.of_nat 0)
  zero-IsFraction =
      let total =
        units.order.le_total (fl.of_nat 0) (fl.of_nat 0) units.zero_number units.zero_number in
      (ground (arith, total), units.zero-le-one)

  one-IsFraction : IsFraction {F = F} (fl.of_nat 1)
  one-IsFraction =
      let total =
        units.order.le_total (fl.of_nat 1) (fl.of_nat 1) units.one_number units.one_number in
      (units.zero-le-one, ground (arith, total))

  unclamped :
      (p : F)
      → fl.is_nan p ≡ false
      → fl.lt p (fl.of_nat 0) ≡ false
      → fl.lt (fl.of_nat 1) p ≡ false
      → IsFraction p
  unclamped p number e f =
      let below = units.order.lt-eq-not-le p (fl.of_nat 0) number units.zero_number in
      let above = units.order.lt-eq-not-le (fl.of_nat 1) p units.one_number number in
      (ground (arith, below, e), ground (arith, above, f))

  pub clamp-IsFraction :
      (p : F) → fl.is_nan p ≡ false → IsFraction (clamp p (fl.of_nat 0) (fl.of_nat 1))
  clamp-IsFraction p number = go (fl.lt p (fl.of_nat 0)) (fl.lt (fl.of_nat 1) p) refl refl
    where
      go :
          (a b : Bool)
          → fl.lt p (fl.of_nat 0) ≡ a
          → fl.lt (fl.of_nat 1) p ≡ b
          → IsFraction (if a then fl.of_nat 0 else if b then fl.of_nat 1 else p)
      go true b e f = zero-IsFraction
      go false true e f = one-IsFraction
      go false false e f = unclamped p number e f

  pub clamp-IsFractionOrNan : (p : F) → IsFractionOrNan (clamp p (fl.of_nat 0) (fl.of_nat 1))
  clamp-IsFractionOrNan p = elim (Bool-cases (fl.is_nan p)) [
    | inl nan ↦ go nan (fl.lt p (fl.of_nat 0)) (fl.lt (fl.of_nat 1) p)
    | inr number ↦ inr (clamp-IsFraction p number)
  ]
    where
      go :
          fl.is_nan p ≡ true
          → (a b : Bool) → IsFractionOrNan (if a then fl.of_nat 0 else if b then fl.of_nat 1 else p)
      go nan true b = inr zero-IsFraction
      go nan false true = inr one-IsFraction
      go nan false false = inl nan

  abbrev pub Valid : DftStylus F → Type 0
  Valid s = IsStylus F s.stylus

  pub lift_dft-Holds : Holds Valid (lift_dft {F = F})
  lift_dft-Holds s i = (record { ends = refl; x = i.x; y = i.y; pressure = i.pressure }, (tt, refl))

  pub set_tilt-Valid :
      (config : DftConfig F) (width height : ℕ) (x y xt yt : F) (s : DftStylus F)
      → Valid s
      → Valid (set_tilt config width height x y xt yt s)
  unfolding set_tilt set_angles
  set_tilt-Valid config width height x y xt yt s i =
      if-keeps Valid (fl.is_nan xt || fl.is_nan yt) _ _ i
        (record { ends = i.ends; x = i.x; y = i.y; pressure = i.pressure })

  pub set_by_phase-Valid : (x y : Row) (s : DftStylus F) → Valid s → Valid (set_by_phase x y s)
  unfolding set_by_phase
  set_by_phase-Valid x y s i = record {
    ends = one_end (phase x y s);
    x = i.x;
    y = i.y;
    pressure = i.pressure;
  }

  pub set_pressure-Valid : (p : F) (s : DftStylus F) → Valid s → Valid (set_pressure p s)
  unfolding set_pressure
  set_pressure-Valid p s i = elim (Bool-cases (fl.lt (fl.of_nat 0) p)) [
    | inl more ↦
        let part = clamp-IsFraction p (units.lt-not_nan (fl.of_nat 0) p more) in
        rw more (record { ends = i.ends; x = i.x; y = i.y; pressure = part })
    | inr none_left ↦
        rw none_left (record { ends = i.ends; x = i.x; y = i.y; pressure = zero-IsFraction })
  ]
