-- ===== src/Tests/Nodes.antt =====
-- Runs of the setup of the uinput nodes.
use iptsd_android.Prelude.{ℕ, ◌≡◌, refl, [], ◌∷◌, ok}
use iptsd_android.Prelude.Int.{pos}
use iptsd_android.Daemon.Input.{
  Code, btn_touch, abs_x, abs_y, abs_mt_slot, abs_mt_tracking_id, abs_mt_position_x,
  abs_mt_position_y, abs_mt_orientation, abs_mt_touch_major, abs_mt_touch_minor,
}
use iptsd_android.Daemon.Touch.Defs.{init, update}
use iptsd_android.Daemon.Uinput.{
  UinputDevice, Request, ui_set_evbit, ui_set_propbit, ui_set_keybit, ui_abs_setup, ui_dev_setup,
  ui_dev_create, ev_key, ev_abs, input_prop_direct, set_evbit, set_propbit, set_keybit, set_absinfo,
  create,
}
use iptsd_android.Daemon.Uinput.Nodes.{touch_node}
use iptsd_android.Daemon.Uinput.Announced.{AreAnnounced}
use iptsd_android.Daemon.Uinput.Writes.{update-AreAnnounced}
use iptsd_android.Tests.Numbers.{numbers}
use iptsd_android.Tests.Devices.{a_config, finger}

abbrev axis : Code → (highest resolution : ℕ) → Request
axis code highest resolution = ui_abs_setup code (pos 0) (pos highest) (pos resolution)

abbrev a_node : UinputDevice
a_node = record {
  name = "IPTS Touch";
  vendor = 1118;
  product = 3167;
  version = 0;
  requests =
      ui_set_evbit ev_abs
      ∷ ui_set_evbit ev_key
      ∷ ui_set_propbit input_prop_direct
      ∷ ui_set_keybit btn_touch
      ∷ axis abs_mt_slot 16 0
      ∷ axis abs_mt_tracking_id 16 0
      ∷ axis abs_mt_position_x 9600 48
      ∷ axis abs_mt_position_y 7200 72
      ∷ axis abs_mt_orientation 180 0
      ∷ axis abs_mt_touch_major 12000 40
      ∷ axis abs_mt_touch_minor 12000 40
      ∷ axis abs_x 9600 48
      ∷ axis abs_y 7200 72
      ∷ ui_dev_setup "IPTS Touch" 1118 3167 0
      ∷ ui_dev_create
      ∷ [];
}

a_node_run : touch_node {F = ℕ} 20 10 1118 3167 ≡ ok a_node
unfolding touch_node set_evbit set_propbit set_keybit set_absinfo create
a_node_run = refl

update-AreAnnounced_example : AreAnnounced a_node (update (finger ∷ []) (init a_config)).0.written
unfolding init
update-AreAnnounced_example =
    update-AreAnnounced 20 10 1118 3167 a_node (finger ∷ []) (init a_config) a_node_run tt
