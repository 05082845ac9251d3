-- ===== src/Daemon/Uinput.antt =====
-- `UinputDevice` of src/apps/daemon/uinput-device.hpp up to `create`: the requests that the kernel gets,
-- in their order. They are taken to succeed. The name fits the field for it.
pub mod Nodes
pub mod Announced
pub mod Writes
use Prim.Native.String.{String}
use iptsd_android.Prelude.{ℕ, Bool, true, false, ◌||◌, List, [], ◌∷◌, ◌++◌}
use iptsd_android.Prelude.Int.{ℤ}
use iptsd_android.Daemon.Input.{Code}

pub data EventType : Type 0 where
  ev_key ev_abs : EventType

pub data Property : Type 0 where
  input_prop_direct input_prop_pointer : Property

-- The requests of `ioctl`, with what they pass on.
pub data Request : Type 0 where
  ui_set_evbit : EventType → Request
  ui_set_propbit : Property → Request
  ui_set_keybit : Code → Request
  ui_abs_setup : (code : Code) (minimum maximum resolution : ℤ) → Request
  ui_dev_setup : (name : String) (vendor product version : ℕ) → Request
  ui_dev_create : Request

pub record UinputDevice : Type 0 where
  pub name : String
  pub vendor : ℕ
  pub product : ℕ
  pub version : ℕ
  pub requests : List Request

abbrev pub opened : UinputDevice
opened = record { name = ""; vendor = 0; product = 0; version = 0; requests = [] }

abbrev pub request : Request → UinputDevice → UinputDevice
request r u = record u { requests = u.requests ++ r ∷ [] }

unfoldable pub set_evbit : EventType → UinputDevice → UinputDevice
set_evbit ev = request (ui_set_evbit ev)

unfoldable pub set_propbit : Property → UinputDevice → UinputDevice
set_propbit prop = request (ui_set_propbit prop)

unfoldable pub set_keybit : Code → UinputDevice → UinputDevice
set_keybit key = request (ui_set_keybit key)

unfoldable pub set_absinfo : Code → (min max res : ℤ) → UinputDevice → UinputDevice
set_absinfo code min max res = request (ui_abs_setup code min max res)

unfoldable pub create : UinputDevice → UinputDevice
create u = request ui_dev_create (request (ui_dev_setup u.name u.vendor u.product u.version) u)

abbrev pub set_ids : String → (vendor product : ℕ) → UinputDevice → UinputDevice
set_ids name vendor product u = record u { name = name; vendor = vendor; product = product }
