-- ===== src/Daemon/Input.antt =====
-- The events of src/apps/daemon/uinput-device.hpp, and what the kernel makes of them. The type of an
-- event (EV_KEY, EV_ABS or EV_SYN) follows from its code. Writes to the uinput node are taken to
-- succeed; the events that were written are kept, the newest first.
use iptsd_android.Prelude.{
  ℕ, Bool, true, false, none, some, List, [], ◌∷◌, Result, ok, err, narrowing, ◌==◌, ltb,
  if◌then◌else◌, ◌^◌,
}
use iptsd_android.Prelude.Int.{ℤ, pos, negsuc}
use iptsd_android.Prelude.Float.{Float}

pub data Code : Type 0 where
  btn_touch btn_stylus btn_tool_pen btn_tool_rubber : Code
  abs_x abs_y abs_pressure abs_misc abs_tilt_x abs_tilt_y : Code
  abs_mt_slot abs_mt_tracking_id abs_mt_position_x abs_mt_position_y : Code
  abs_mt_orientation abs_mt_touch_major abs_mt_touch_minor : Code
  syn_report : Code

pub data InputEvent : Type 0 where
  event : Code → ℤ → InputEvent

-- `casts::to<i32>` of a `usize`.
abbrev pub index_i32 : ℕ → Result ℤ
index_i32 i = if ltb i (2 ^ 31) then ok (pos i) else err narrowing

-- `casts::to<i32>(std::round(x))`
abbrev pub rounded : {F : Type 0} ⦃fl : Float F⦄ → F → Result ℤ
rounded ⦃fl⦄ x = elim (fl.round_i32 x) [ none ↦ err narrowing | some z ↦ ok z ]

abbrev pub switch : Bool → ℤ
switch true = pos 1
switch false = pos 0

-- The kernel's view of multitouch protocol B: the slot that events go to, and the slots that carry
-- a contact, after the events of a list.
abbrev pub slot : List InputEvent → ℤ
slot [] = pos 0
slot (event abs_mt_slot v ∷ es) = v
slot (event _ v ∷ es) = slot es

abbrev pub same_slot : ℤ → ℕ → Bool
same_slot (pos n) i = n == i
same_slot (negsuc n) i = false

abbrev pub is_id : ℤ → Bool
is_id (pos n) = true
is_id (negsuc n) = false

abbrev pub touching : List InputEvent → ℕ → Bool
touching [] i = false
touching (event abs_mt_tracking_id v ∷ es) i =
    if same_slot (slot es) i then is_id v else touching es i
touching (event _ v ∷ es) i = touching es i

abbrev pub is_on : ℤ → Bool
is_on (pos n) = ltb 0 n
is_on (negsuc n) = true

-- Whether a key is down.
abbrev pub pressed : List InputEvent → Bool
pressed [] = false
pressed (event btn_touch v ∷ es) = is_on v
pressed (event _ v ∷ es) = pressed es

-- The keys of the stylus.
abbrev pub is_touch : Code → Bool
is_touch btn_touch = true
is_touch _ = false

abbrev pub is_pen : Code → Bool
is_pen btn_tool_pen = true
is_pen _ = false

abbrev pub is_rubber : Code → Bool
is_rubber btn_tool_rubber = true
is_rubber _ = false

abbrev pub is_button : Code → Bool
is_button btn_stylus = true
is_button _ = false

-- Whether the key that a test picks out is down.
abbrev pub key_down : (Code → Bool) → List InputEvent → Bool
key_down key [] = false
key_down key (event code v ∷ es) = if key code then is_on v else key_down key es
