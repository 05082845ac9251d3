-- ===== src/Daemon/Stylus.antt =====
-- `StylusDevice` of src/apps/daemon/stylus.hpp. Without the constructor, whose calls set up the
-- uinput node.
pub mod Keys
use iptsd_android.Prelude.{ℕ, Bool, true, false, not, List, [], ◌∷◌, Result, ok, if◌then◌else◌}
use iptsd_android.Prelude.Act.{Act, ◌>>=◌, ◌>>◌, modify, get, lift}
use iptsd_android.Prelude.Int.{ℤ, pos}
use iptsd_android.Prelude.Float.{Float}
use iptsd_android.Ipts.Data.{StylusData}
use iptsd_android.Daemon.Tilt.{calculate_tilt}
use iptsd_android.Daemon.Input.{
  Code, InputEvent, event, rounded, switch, btn_touch, btn_stylus, btn_tool_pen, btn_tool_rubber,
  abs_x, abs_y, abs_pressure, abs_misc, abs_tilt_x, abs_tilt_y, syn_report,
}

pub record StylusDevice (F : Type 0) : Type 0 where
  pub enabled : Bool
  pub active : Bool
  pub last : StylusData F
  pub written : List InputEvent

-- `==` on `bool`.
abbrev pub bool_eq : Bool → Bool → Bool
bool_eq true b = b
bool_eq false b = not b

abbrev pub Method : Type 0 → Type 0
Method F = Act (StylusDevice F) (Unit {0})

module _ {F : Type 0} where
  unfoldable pub emit : Code → ℤ → Method F
  emit code value = modify λ d. record d { written = event code value ∷ d.written }

  unfoldable pub lift_stylus : Method F
  lift_stylus = do
    emit btn_touch (pos 0)
    emit btn_tool_pen (pos 0)
    emit btn_tool_rubber (pos 0)
    emit btn_stylus (pos 0)

  unfoldable pub sync : Method F
  sync = emit syn_report (pos 0)

  unfoldable pub disable : Method F
  disable = do modify λ d. record d { enabled = false; active = false }; lift_stylus; sync

  unfoldable pub enable : StylusDevice F → StylusDevice F
  enable d = record d { enabled = true }

-- The device before its first sample: `StylusData` starts with zeros.
unfoldable pub init : {F : Type 0} ⦃fl : Float F⦄ → StylusDevice F
init ⦃fl⦄ =
    let zero_f = fl.of_nat 0 in
    record {
      enabled = true;
      active = false;
      last = record {
        proximity = false;
        contact = false;
        button = false;
        rubber = false;
        timestamp = 0;
        x = zero_f;
        y = zero_f;
        pressure = zero_f;
        altitude = zero_f;
        azimuth = zero_f;
        serial = 0;
      };
      written = [];
    }

module _ {F : Type 0} ⦃fl : Float F⦄ where
  -- The branch of `update` for an active stylus.
  unfoldable pub emit_stylus : StylusData F → Method F
  emit_stylus sample = do
    tilt ← lift (calculate_tilt sample.altitude sample.azimuth)
    x ← lift (rounded (fl.mul sample.x (fl.of_nat 9600)))
    y ← lift (rounded (fl.mul sample.y (fl.of_nat 7200)))
    pressure ← lift (rounded (fl.mul sample.pressure (fl.of_nat 4096)))
    emit btn_touch (switch sample.contact)
    emit btn_tool_pen (switch (not sample.rubber))
    emit btn_tool_rubber (switch sample.rubber)
    emit btn_stylus (switch sample.button)
    emit abs_x x
    emit abs_y y
    emit abs_pressure pressure
    emit abs_misc (pos sample.timestamp)
    emit abs_tilt_x tilt.0
    emit abs_tilt_y tilt.1

  -- Whether a sample leaves the stylus active: it is near, and the tool has not changed.
  abbrev pub is_active : StylusData F → StylusDevice F → Bool
  is_active sample d = if bool_eq d.last.rubber sample.rubber then sample.proximity else false

  unfoldable pub update : StylusData F → Method F
  update sample = do
    modify λ d. record d { active = is_active sample d }
    d ← get
    if d.active then emit_stylus sample else lift_stylus
    modify λ d'. record d' { last = sample }
    sync
