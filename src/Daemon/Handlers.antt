-- ===== src/Daemon/Handlers.antt =====
-- `Daemon` of src/apps/daemon/daemon.hpp: the callbacks of the application, and which of the two
-- devices is allowed to write.
pub mod Arbitration
pub mod Release
use iptsd_android.Prelude.{Bool, true, false, not, ◌&&◌, List, Result, ok, err, if◌then◌else◌}
use iptsd_android.Prelude.Act.{Act, ◌>>=◌, ◌>>◌, get, pure, modify, each}
use iptsd_android.Prelude.Float.{Float}
use iptsd_android.Ipts.Data.{StylusData}
use iptsd_android.Contacts.Contact.{Contact}
use iptsd_android.Daemon.Touch.Defs.{TouchDevice}
use iptsd_android.Daemon.Touch.Defs as Touch
use iptsd_android.Daemon.Stylus.{StylusDevice}
use iptsd_android.Daemon.Stylus as Stylus

pub record Daemon (F : Type 0) : Type 0 where
  pub touch_disable : Bool
  pub stylus_disable : Bool
  pub touch_disable_on_stylus : Bool
  pub touch : TouchDevice F
  pub stylus : StylusDevice F

module _ {F : Type 0} where
  -- A method of one of the devices.
  unfoldable pub on_touch_device : Act (TouchDevice F) (Unit {0}) → Act (Daemon F) (Unit {0})
  on_touch_device m d = let (touch', out) = m d.touch in (record d { touch = touch' }, out)

  unfoldable pub on_stylus_device : Act (StylusDevice F) (Unit {0}) → Act (Daemon F) (Unit {0})
  on_stylus_device m d = let (stylus', out) = m d.stylus in (record d { stylus = stylus' }, out)

module _ {F : Type 0} ⦃fl : Float F⦄ where
  unfoldable pub on_contacts : List (Contact F) → Act (Daemon F) (Unit {0})
  on_contacts contacts = do
    d ← get
    if d.touch_disable then pure tt else (do
      if d.touch_disable_on_stylus && not d.stylus.active && not d.touch.enabled
          then modify (λ d'. record d' { touch = Touch.enable d'.touch })
          else pure tt
      on_touch_device (Touch.update contacts))

  unfoldable pub on_stylus : StylusData F → Act (Daemon F) (Unit {0})
  on_stylus sample = do
    d ← get
    if d.stylus_disable then pure tt else (do
      if d.touch_disable_on_stylus && d.touch.enabled
          then on_touch_device Touch.disable
          else pure tt
      on_stylus_device (Stylus.update sample))

-- A call of one of the callbacks, by the application's loop.
pub data Call (F : Type 0) : Type 0 where
  contacts_call : List (Contact F) → Call F
  stylus_call : StylusData F → Call F

module _ {F : Type 0} ⦃fl : Float F⦄ where
  abbrev pub handle : Call F → Act (Daemon F) (Unit {0})
  handle (contacts_call contacts) = on_contacts contacts
  handle (stylus_call sample) = on_stylus sample

  abbrev pub handle_all : List (Call F) → Act (Daemon F) (Unit {0})
  handle_all = each handle
