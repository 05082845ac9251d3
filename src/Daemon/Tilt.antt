-- ===== src/Daemon/Tilt.antt =====
-- `calculate_tilt` of src/apps/daemon/stylus.hpp.
use iptsd_android.Prelude.{Result, ok, ◌>>=◌, if◌then◌else◌}
use iptsd_android.Prelude.Int.{ℤ, pos, ◌-ℤ◌}
use iptsd_android.Prelude.Float.{Float}
use iptsd_android.Daemon.Input.{rounded}

-- The angle on one axis, in units of which 9000 are a right angle: `atan * 4500 / M_PI_4`.
abbrev pub tilt_units : {F : Type 0} ⦃fl : Float F⦄ → F → Result ℤ
tilt_units ⦃fl⦄ angle =
    rounded (fl.div (fl.mul angle (fl.of_nat 4500)) (fl.div fl.pi (fl.of_nat 4)))

unfoldable pub calculate_tilt :
    {F : Type 0} ⦃fl : Float F⦄ → (altitude azimuth : F) → Result (ℤ × ℤ)
calculate_tilt ⦃fl⦄ altitude azimuth =
    let sin_alt = fl.sin altitude in
    let sin_azm = fl.sin azimuth in
    let cos_alt = fl.cos altitude in
    let cos_azm = fl.cos azimuth in
    if fl.le altitude (fl.of_nat 0) then ok (pos 0, pos 0) else (do
      tx ← tilt_units (fl.atan2 cos_alt (fl.mul sin_alt cos_azm))
      ty ← tilt_units (fl.atan2 cos_alt (fl.mul sin_alt sin_azm))
      ok (pos 9000 -ℤ tx, ty -ℤ pos 9000))
