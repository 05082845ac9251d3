-- ===== src/Core/Dft/Position.antt =====
-- The position windows of src/core/generic/dft.hpp: `handle_position` and `interpolate_position`.
use iptsd_android.Prelude.{
  ℕ, ◌+◌, ◌-◌, Bool, true, false, ◌&&◌, ◌||◌, Option, none, some, Result, err, ok, narrowing,
  length, ltb, leb, ◌==◌, if◌then◌else◌,
}
use iptsd_android.Prelude.Int.{ℤ, pos, negsuc, ◌+ℤ◌, ◌-ℤ◌}
use iptsd_android.Prelude.Float.{Float, clamp}
use iptsd_android.Prelude.Act.{◌>>=◌, ◌>>◌, pure, modify, lift}
use iptsd_android.Ipts.Data.{Row, DftWindow, Metadata}
use iptsd_android.Core.Dft.{DftConfig, DftStylus, Method, row_at, component, lift_dft}

abbrev pub is_zero : ℤ → Bool
is_zero (pos n) = n == 0
is_zero (negsuc n) = false

-- `casts::to<u8>` of both dimensions.
abbrev pub to_u8 : (columns rows : ℕ) → Result (ℕ × ℕ)
to_u8 columns rows = if ltb columns 256 && ltb rows 256 then ok (columns, rows) else err narrowing

-- The size of the antenna array: that of the window, or else that of the device.
unfoldable pub extent : Option Metadata → DftWindow → Result (ℕ × ℕ)
extent none w = ok (w.width, w.height)
extent (some m) w =
    if w.width == 0 || w.height == 0 then to_u8 m.columns m.rows else ok (w.width, w.height)

module _ {F : Type 0} ⦃fl : Float F⦄ where
  -- The component in the middle, and the limits of the peak around it.
  abbrev pub centre : Row → ℕ × F × F
  centre row =
      let half = fl.div (fl.of_nat 1) (fl.of_nat 2) in
      if is_zero (component row.real 3) && is_zero (component row.imag 3)
      then (5, fl.neg (fl.of_nat 1), half)
      else if is_zero (component row.real 5) && is_zero (component row.imag 5)
      then (3, fl.neg half, fl.of_nat 1)
      else (4, fl.neg half, half)

  -- The peak of the parabola through three amplitudes, at the offsets -1, 0 and 1.
  abbrev pub vertex : (x₀ x₁ x₂ : F) → F
  vertex x₀ x₁ x₂ =
      let two = fl.of_nat 2 in
      fl.div (fl.sub x₀ x₂) (fl.mul two (fl.add (fl.sub x₀ (fl.mul two x₁)) x₂))

  abbrev pub peak : DftConfig F → Row → ℕ × F × F → F
  peak config row (maxi, mind, maxd) =
      let re = λ (i : ℕ). fl.of_int (component row.real i) in
      let im = λ (i : ℕ). fl.of_int (component row.imag i) in
      let amp = fl.hypot (re maxi) (im maxi) in
      let sin = fl.div (re maxi) amp in
      let cos = fl.div (im maxi) amp in
      let aligned = λ (i : ℕ). fl.add (fl.mul sin (re i)) (fl.mul cos (im i)) in
      let x₀ = fl.pow (aligned (maxi - 1)) config.position_exp in
      let x₁ = fl.pow amp config.position_exp in
      let x₂ = fl.pow (aligned (maxi + 1)) config.position_exp in
      if fl.lt amp (fl.of_nat config.position_min_amp)
        || fl.le (fl.add x₀ x₂) (fl.mul (fl.of_nat 2) x₁)
      then fl.nan
      else fl.add (fl.of_int (row.first +ℤ pos maxi)) (clamp (vertex x₀ x₁ x₂) mind maxd)

  unfoldable pub interpolate_position : DftConfig F → Row → F
  interpolate_position config row = peak config row (centre row)

  -- A position on an axis with `n` antennas, as a part of the axis.
  abbrev pub scaled : (inverted : Bool) → ℕ → F → F
  scaled inverted n x =
      let part = fl.div x (fl.of_int (pos n -ℤ pos 1)) in
      if inverted then fl.sub (fl.of_nat 1) part else part

  -- The angles from the vector between the two transmitters.
  unfoldable pub set_angles : DftConfig F → (xt yt : F) → DftStylus F → DftStylus F
  set_angles config xt yt s =
      let two_pi = fl.mul (fl.of_nat 2) fl.pi in
      let one = fl.of_nat 1 in
      let distance = fl.hypot xt yt in
      record s {
        stylus = record s.stylus {
          azimuth = fl.fmod (fl.add (fl.atan2 (fl.neg yt) xt) two_pi) two_pi;
          altitude = fl.asin (if fl.lt distance one then distance else one);
        };
      }

  unfoldable pub set_tilt :
      DftConfig F → (width height : ℕ) → (x y xt yt : F) → DftStylus F → DftStylus F
  unfolding set_angles
  set_tilt config width height x y xt yt s =
      if fl.is_nan xt || fl.is_nan yt
      then s
      else set_angles config
          (fl.mul (fl.sub (scaled config.invert_x width xt) x)
            (fl.div config.width config.tilt_distance))
          (fl.mul (fl.sub (scaled config.invert_y height yt) y)
            (fl.div config.height config.tilt_distance))
          s

  -- The tilt, where the rows of the second transmitter are strong enough.
  unfoldable pub tilt : DftConfig F → DftWindow → (width height : ℕ) → (x y : F) → Method F
  tilt config w width height x y = do
    x₁ ← lift (row_at w.x 1)
    if ltb config.tilt_min_mag x₁.magnitude
        then (do
          y₁ ← lift (row_at w.y 1)
          if ltb config.tilt_min_mag y₁.magnitude
              then modify (
                  set_tilt config width height x y (interpolate_position config x₁)
                    (interpolate_position config y₁))
              else pure tt)
        else pure tt

  abbrev pub set_proximity : DftStylus F → DftStylus F
  set_proximity s = record s { stylus = record s.stylus { proximity = true } }

  abbrev pub set_position : (x y : F) → DftStylus F → DftStylus F
  set_position x y s = record s {
    stylus = record s.stylus {
      x = clamp x (fl.of_nat 0) (fl.of_nat 1);
      y = clamp y (fl.of_nat 0) (fl.of_nat 1);
    };
  }

  -- The group and the phase that a button is compared with.
  abbrev pub set_reference : Option ℕ → Row → Row → DftStylus F → DftStylus F
  set_reference group x y s = record s {
    group = group;
    real = component x.real 4 +ℤ component y.real 4;
    imag = component x.imag 4 +ℤ component y.imag 4;
  }

  -- What follows once both positions are known.
  unfoldable pub move_to : DftConfig F → DftWindow → (width height : ℕ) → (x y : F) → Method F
  move_to config w width height x y = if fl.is_nan x || fl.is_nan y then lift_dft else do
    let px = scaled config.invert_x width x
    let py = scaled config.invert_y height y
    modify set_proximity
    tilt config w width height px py
    modify (set_position px py)

  unfoldable pub handle_position : DftConfig F → Option Metadata → DftWindow → Method F
  handle_position config metadata w = if leb (length w.x) 1 then lift_dft else do
    x₀ ← lift (row_at w.x 0)
    if leb x₀.magnitude config.position_min_mag then lift_dft else do
      y₀ ← lift (row_at w.y 0)
      if leb y₀.magnitude config.position_min_mag then lift_dft else do
        (width, height) ← lift (extent metadata w)
        modify (set_reference w.group x₀ y₀)
        move_to config w width height (interpolate_position config x₀)
            (interpolate_position config y₀)
