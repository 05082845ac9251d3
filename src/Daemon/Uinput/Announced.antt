-- ===== src/Daemon/Uinput/Announced.antt =====
-- Which events the readers of a node get: those whose codes its setup has announced to the kernel.
use iptsd_android.Prelude.{
  ℕ, ◌≡◌, refl, ap, subst, Bool, true, false, ◌||◌, List, [], ◌∷◌, Result, ok, err, any, ◌==◌,
  >>=-eq-ok,
}
use iptsd_android.Prelude.Float.{Float}
use iptsd_android.Daemon.Input.{Code, InputEvent, event, syn_report}
use iptsd_android.Daemon.Input
use iptsd_android.Daemon.Uinput.{UinputDevice, Request, ui_set_keybit, ui_abs_setup}
use iptsd_android.Daemon.Uinput.Nodes.{resolution, touch_node}

-- The number of a code, to compare codes by.
abbrev code_number : Code → ℕ
code_number Input.btn_touch = 0
code_number Input.btn_stylus = 1
code_number Input.btn_tool_pen = 2
code_number Input.btn_tool_rubber = 3
code_number Input.abs_x = 4
code_number Input.abs_y = 5
code_number Input.abs_pressure = 6
code_number Input.abs_misc = 7
code_number Input.abs_tilt_x = 8
code_number Input.abs_tilt_y = 9
code_number Input.abs_mt_slot = 10
code_number Input.abs_mt_tracking_id = 11
code_number Input.abs_mt_position_x = 12
code_number Input.abs_mt_position_y = 13
code_number Input.abs_mt_orientation = 14
code_number Input.abs_mt_touch_major = 15
code_number Input.abs_mt_touch_minor = 16
code_number Input.syn_report = 17

abbrev announces : Code → Request → Bool
announces code (ui_set_keybit key) = code_number key == code_number code
announces code (ui_abs_setup axis minimum maximum resolution) = code_number axis == code_number code
announces code _ = false

-- Whether events with a code reach the readers of a node; a report always does.
abbrev pub is_announced : UinputDevice → Code → Bool
is_announced u code = code_number code == code_number syn_report || any (announces code) u.requests

abbrev pub AreAnnounced : UinputDevice → List InputEvent → Type 0
AreAnnounced u [] = Unit
AreAnnounced u (event code value ∷ events) = (is_announced u code ≡ true) × AreAnnounced u events

-- The codes of the touch device.
pub record IsTouchNode (u : UinputDevice) : Type 0 where
  pub touch : is_announced u Input.btn_touch ≡ true
  pub x : is_announced u Input.abs_x ≡ true
  pub y : is_announced u Input.abs_y ≡ true
  pub slot : is_announced u Input.abs_mt_slot ≡ true
  pub tracking_id : is_announced u Input.abs_mt_tracking_id ≡ true
  pub position_x : is_announced u Input.abs_mt_position_x ≡ true
  pub position_y : is_announced u Input.abs_mt_position_y ≡ true
  pub orientation : is_announced u Input.abs_mt_orientation ≡ true
  pub touch_major : is_announced u Input.abs_mt_touch_major ≡ true
  pub touch_minor : is_announced u Input.abs_mt_touch_minor ≡ true

node_or : UinputDevice → Result UinputDevice → UinputDevice
node_or v (ok u) = u
node_or v (err e) = v

pub touch_node-IsTouchNode :
    {F : Type 0} ⦃fl : Float F⦄
    → (width height : F) (vendor product : ℕ) (u : UinputDevice)
    → touch_node width height vendor product ≡ ok u
    → IsTouchNode u
unfolding touch_node node_or
touch_node-IsTouchNode ⦃fl = fl⦄ width height vendor product u e =
    let (res_x, _, e1) = >>=-eq-ok (resolution 9600 width) _ e in
    let (res_y, _, e2) = >>=-eq-ok (resolution 7200 height) _ e1 in
    let (res_d, _, e3) = >>=-eq-ok (resolution 12000 (fl.hypot width height)) _ e2 in
    subst IsTouchNode (ap (node_or u) e3) (record {
      touch = refl;
      x = refl;
      y = refl;
      slot = refl;
      tracking_id = refl;
      position_x = refl;
      position_y = refl;
      orientation = refl;
      touch_major = refl;
      touch_minor = refl;
    })
