-- ===== src/Daemon/Uinput/Nodes.antt =====
-- The constructors of `TouchDevice` (src/apps/daemon/touch.hpp) and of `StylusDevice`
-- (src/apps/daemon/stylus.hpp), as far as they set up a node.
use iptsd_android.Prelude.{ℕ, Result, ok, ◌>>=◌}
use iptsd_android.Prelude.Int.{ℤ, pos, negsuc}
use iptsd_android.Prelude.Float.{Float}
use iptsd_android.Daemon.Input.{
  rounded, btn_touch, btn_stylus, btn_tool_pen, btn_tool_rubber, abs_x, abs_y, abs_pressure,
  abs_misc, abs_tilt_x, abs_tilt_y, abs_mt_slot, abs_mt_tracking_id, abs_mt_position_x,
  abs_mt_position_y, abs_mt_orientation, abs_mt_touch_major, abs_mt_touch_minor,
}
use iptsd_android.Daemon.Uinput.{
  UinputDevice, opened, ev_key, ev_abs, input_prop_direct, input_prop_pointer, set_evbit,
  set_propbit, set_keybit, set_absinfo, create, set_ids,
}

-- From the first call to the last.
infixl 5 ◌|>◌
abbrev ◌|>◌ : UinputDevice → (UinputDevice → UinputDevice) → UinputDevice
u |> f = f u

module _ {F : Type 0} ⦃fl : Float F⦄ where
  -- The units for a length in centimeters, for each millimeter.
  abbrev pub resolution : (units : ℕ) → F → Result ℤ
  resolution units length = rounded (fl.div (fl.of_nat units) (fl.mul length (fl.of_nat 10)))

  unfoldable pub touch_node : (width height : F) (vendor product : ℕ) → Result UinputDevice
  unfolding set_evbit set_propbit set_keybit set_absinfo create
  touch_node width height vendor product = do
    res_x ← resolution 9600 width
    res_y ← resolution 7200 height
    res_d ← resolution 12000 (fl.hypot width height)
    ok (
        set_ids "IPTS Touch" vendor product opened
        |> set_evbit ev_abs
        |> set_evbit ev_key
        |> set_propbit input_prop_direct
        |> set_keybit btn_touch
        |> set_absinfo abs_mt_slot (pos 0) (pos 16) (pos 0)
        |> set_absinfo abs_mt_tracking_id (pos 0) (pos 16) (pos 0)
        |> set_absinfo abs_mt_position_x (pos 0) (pos 9600) res_x
        |> set_absinfo abs_mt_position_y (pos 0) (pos 7200) res_y
        |> set_absinfo abs_mt_orientation (pos 0) (pos 180) (pos 0)
        |> set_absinfo abs_mt_touch_major (pos 0) (pos 12000) res_d
        |> set_absinfo abs_mt_touch_minor (pos 0) (pos 12000) res_d
        |> set_absinfo abs_x (pos 0) (pos 9600) res_x
        |> set_absinfo abs_y (pos 0) (pos 7200) res_y
        |> create)

  unfoldable pub stylus_node : (width height : F) (vendor product : ℕ) → Result UinputDevice
  unfolding set_evbit set_propbit set_keybit set_absinfo create
  stylus_node width height vendor product = do
    res_x ← resolution 9600 width
    res_y ← resolution 7200 height
    res_tilt ← rounded (fl.div (fl.of_nat 18000) fl.pi)
    ok (
        set_ids "IPTS Stylus" vendor product opened
        |> set_evbit ev_key
        |> set_evbit ev_abs
        |> set_propbit input_prop_direct
        |> set_propbit input_prop_pointer
        |> set_keybit btn_touch
        |> set_keybit btn_stylus
        |> set_keybit btn_tool_pen
        |> set_keybit btn_tool_rubber
        |> set_absinfo abs_x (pos 0) (pos 9600) res_x
        |> set_absinfo abs_y (pos 0) (pos 7200) res_y
        |> set_absinfo abs_pressure (pos 0) (pos 4096) (pos 0)
        |> set_absinfo abs_tilt_x (negsuc 8999) (pos 9000) res_tilt
        |> set_absinfo abs_tilt_y (negsuc 8999) (pos 9000) res_tilt
        |> set_absinfo abs_misc (pos 0) (pos 65535) (pos 0)
        |> create)
