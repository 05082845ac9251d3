-- ===== src/Contacts/Stability.antt =====
-- `Stabilizer` of src/contacts/stability/stabilizer.hpp. `stabilize_size` and `stabilize_orientation`,
-- whose calls are commented out, are in a module of their own.
pub mod Kept
pub mod Still
pub mod Unused
use iptsd_android.Prelude.{Bool, true, false, Option, none, some, List, [], ◌∷◌, if◌then◌else◌}
use iptsd_android.Prelude.Float.{Float}
use iptsd_android.Contacts.Contact.{Contact, find_in_frame}

-- A threshold of a slow and of a fast change.
pub record Threshold (F : Type 0) : Type 0 where
  pub x : F
  pub y : F

pub record Stabilizer (F : Type 0) : Type 0 where
  pub position_threshold : Option (Threshold F)
  pub last : List (Contact F)

unfoldable pub reset : {F : Type 0} → Stabilizer F → Stabilizer F
reset s = record s { last = [] }

module _ {F : Type 0} ⦃fl : Float F⦄ where
  unfoldable pub stabilize_position : Threshold F → (current last : Contact F) → Contact F
  stabilize_position thresh current last =
      let distance =
        fl.hypot (fl.sub current.mean_x last.mean_x) (fl.sub current.mean_y last.mean_y) in
      if fl.lt distance thresh.x
      then record current { mean_x = last.mean_x; mean_y = last.mean_y }
      else if fl.lt thresh.y distance
      then record current { stable = some false }
      else current

  -- What `stabilize_contact` does to a contact that is in the last frame, if anything.
  unfoldable pub stabilize_against : Stabilizer F → Option (Contact F) → Contact F → Contact F
  unfolding stabilize_position
  stabilize_against s none contact = contact
  stabilize_against s (some last) contact = elim s.position_threshold [
    | none ↦ contact
    | some thresh ↦ stabilize_position thresh contact last
  ]

  unfoldable pub stabilize_contact : Stabilizer F → Contact F → Contact F
  unfolding stabilize_against
  stabilize_contact s contact = elim contact.index [
    | none ↦ contact
    | some index ↦
        stabilize_against s (find_in_frame index s.last) (record contact { stable = some true })
  ]

  -- The loop over a frame.
  unfoldable pub stabilized : Stabilizer F → List (Contact F) → List (Contact F)
  stabilized s [] = []
  stabilized s (contact ∷ frame) = stabilize_contact s contact ∷ stabilized s frame

  -- `stabilize(frame)`: the stabilized frame, and the stabilizer that remembers it.
  unfoldable pub stabilize : List (Contact F) → Stabilizer F → List (Contact F) × Stabilizer F
  stabilize frame s = let frame' = stabilized s frame in (frame', record s { last = frame' })
