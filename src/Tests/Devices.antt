-- ===== src/Tests/Devices.antt =====
-- Runs of the touch device.
use iptsd_android.Prelude.{List, ℕ, ◌≡◌, refl, true, false, some, [], ◌∷◌, All, ok, any, arith}
use iptsd_android.Contacts.Contact.{Contact}
use iptsd_android.Daemon.Input.{touching, pressed}
use iptsd_android.Daemon.Touch.Defs.{
  Config, TouchDevice, init, member, disable, update, update_enabled, search_lifted, is_blocked,
  process, process_contacts, process_contact, process_indexed, is_lifted, emit_multitouch, emit,
  lift_singletouch, sync,
}
use iptsd_android.Prelude.Act.{each}
use iptsd_android.Daemon.Touch.Process.{has_index, IsEmittable}
use iptsd_android.Daemon.Touch.Lifts.{Inv, update-Inv, disable-Inv}
use iptsd_android.Ipts.Data.{StylusData}
use iptsd_android.Daemon.Tilt.{calculate_tilt}
use iptsd_android.Daemon.Stylus as Stylus
use iptsd_android.Daemon.Stylus.{StylusDevice}
use iptsd_android.Daemon.Stylus.Keys.{IsWritable, AreKeys, update-AreKeys, disable-AreKeys}
use iptsd_android.Daemon.Handlers.{Daemon, Call, contacts_call, stylus_call, handle_all}
use iptsd_android.Daemon.Handlers.Arbitration.{handle_all-Inv}
use iptsd_android.Daemon.Handlers.Arbitration as Handlers
use iptsd_android.Prelude.Act.{◌>>◌}
use iptsd_android.Daemon.Handlers.{on_contacts, on_stylus}
use iptsd_android.Daemon.Handlers.Release.{on_contacts-on_stylus}
use iptsd_android.Tests.Numbers.{numbers}

abbrev pub a_config : Config ℕ
a_config = record { touch_disable_on_palm = false; touch_overshoot = 1; width = 20; height = 10 }

abbrev pub finger : Contact ℕ
finger = record {
  mean_x = 1;
  mean_y = 0;
  size_x = 1;
  size_y = 1;
  orientation = 0;
  normalized = true;
  index = some 5;
  valid = some true;
  stable = some true;
}

-- A device that has one finger down.
abbrev held : TouchDevice ℕ
held = (update (finger ∷ []) (init a_config)).0

finger-IsEmittable : All IsEmittable (finger ∷ [])
finger-IsEmittable = (
  (
    λ i e. ground arith,
    record {
      x = (_, refl);
      y = (_, refl);
      angle = (_, refl);
      major = (_, refl);
      minor = (_, refl);
    },
  ),
  tt,
)

fresh-Inv : Inv (init a_config)
unfolding init
fresh-Inv = record { slots = λ j e. cc; key = λ e. cc; bounded = tt; old_bounded = tt }

update_run : touching held.written 5 ≡ true
unfolding update init update_enabled search_lifted is_blocked process process_contacts
    process_contact process_indexed is_lifted emit_multitouch emit each lift_singletouch sync
update_run = refl

update-Inv_example :
    ((update (finger ∷ []) (init a_config)).1 ≡ ok tt)
    × Inv (update (finger ∷ []) (init a_config)).0
    × ((j : ℕ)
        → member j (update (finger ∷ []) (init a_config)).0.current
          ≡ any (has_index j) (finger ∷ []))
    × ((update (finger ∷ []) (init a_config)).0.enabled ≡ true)
unfolding init
update-Inv_example = update-Inv (finger ∷ []) (init a_config) refl fresh-Inv finger-IsEmittable

held-Inv : Inv held
held-Inv = update-Inv_example.1

disable-Inv_example :
    ((disable held).1 ≡ ok tt)
    × Inv (disable held).0
    × ((disable held).0.enabled ≡ false)
    × ((j : ℕ) → touching (disable held).0.written j ≡ false)
    × (pressed (disable held).0.written ≡ false)
disable-Inv_example = disable-Inv held held-Inv

abbrev a_sample : StylusData ℕ
a_sample = record {
  proximity = true;
  contact = true;
  button = false;
  rubber = false;
  timestamp = 7;
  x = 1;
  y = 0;
  pressure = 1;
  altitude = 0;
  azimuth = 0;
  serial = 3;
}

a_sample-IsWritable : IsWritable a_sample
unfolding calculate_tilt
a_sample-IsWritable = record {
  tilt = (_, refl);
  x = (_, refl);
  y = (_, refl);
  pressure = (_, refl);
}

abbrev idle : StylusDevice ℕ
idle = Stylus.init

update-AreKeys_example :
    let out = Stylus.update a_sample idle in
    (out.1 ≡ ok tt)
    × (out.0.active ≡ Stylus.is_active a_sample idle)
    × (out.0.last ≡ a_sample)
    × (out.0.enabled ≡ idle.enabled)
    × AreKeys out.0.active a_sample out.0.written
update-AreKeys_example = update-AreKeys a_sample idle a_sample-IsWritable

disable-AreKeys_example :
    let out = Stylus.disable (Stylus.update a_sample idle).0 in
    (out.1 ≡ ok tt)
    × (out.0.enabled ≡ false)
    × (out.0.active ≡ false)
    × AreKeys false a_sample out.0.written
disable-AreKeys_example = disable-AreKeys a_sample (Stylus.update a_sample idle).0

abbrev a_daemon : Daemon ℕ
a_daemon = record {
  touch_disable = false;
  stylus_disable = false;
  touch_disable_on_stylus = true;
  touch = held;
  stylus = idle;
}

held-enabled : held.enabled ≡ true
held-enabled = update-Inv_example.3

a_daemon-Inv : Handlers.Inv a_daemon
unfolding Stylus.init
a_daemon-Inv = record { device = held-Inv; quiet = λ e. cc held-enabled; arbitrated = λ e f. cc }

-- A finger is down, then the stylus comes near, and another frame of the finger follows.
abbrev three_calls : List (Call ℕ)
three_calls = contacts_call (finger ∷ []) ∷ stylus_call a_sample ∷ contacts_call (finger ∷ []) ∷ []

handle_all-Inv_example :
    ((handle_all three_calls a_daemon).1 ≡ ok tt) × Handlers.Inv (handle_all three_calls a_daemon).0
handle_all-Inv_example =
    handle_all-Inv three_calls a_daemon a_daemon-Inv
      (finger-IsEmittable, (a_sample-IsWritable, (finger-IsEmittable, tt)))

-- The stylus has gone.
abbrev away : StylusData ℕ
away = record a_sample { proximity = false }

away-IsWritable : IsWritable away
away-IsWritable = record {
  tilt = a_sample-IsWritable.tilt;
  x = a_sample-IsWritable.x;
  y = a_sample-IsWritable.y;
  pressure = a_sample-IsWritable.pressure;
}

on_contacts-on_stylus_example :
    (((on_stylus away >> on_contacts (finger ∷ [])) a_daemon).1 ≡ ok tt)
    × (((on_stylus away >> on_contacts (finger ∷ [])) a_daemon).0.touch.enabled ≡ true)
on_contacts-on_stylus_example =
    on_contacts-on_stylus away (finger ∷ []) a_daemon a_daemon-Inv away-IsWritable
      finger-IsEmittable refl refl refl refl
