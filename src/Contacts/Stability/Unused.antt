-- ===== src/Contacts/Stability/Unused.antt =====
-- `stabilize_size` and `stabilize_orientation` of src/contacts/stability/stabilizer.hpp, whose calls
-- are commented out.
use iptsd_android.Prelude.{Bool, false, Option, none, some, if◌then◌else◌}
use iptsd_android.Prelude.Float.{Float}
use iptsd_android.Contacts.Contact.{Contact}
use iptsd_android.Contacts.Stability.{Threshold}

module _ {F : Type 0} ⦃fl : Float F⦄ where
  -- What a change of one dimension of the size does to it, and to the stability.
  abbrev pub size_after : Threshold F → (current last : F) → F
  size_after thresh current last =
      if fl.lt (fl.abs (fl.sub current last)) thresh.x then last else current

  abbrev pub is_too_fast : Threshold F → (delta : F) → Bool
  is_too_fast thresh delta = if fl.lt delta thresh.x then false else fl.lt thresh.y delta

  abbrev pub unstable_if : Bool → Contact F → Contact F
  unstable_if b c = if b then record c { stable = some false } else c

  unfoldable pub stabilize_size : Option (Threshold F) → (current last : Contact F) → Contact F
  stabilize_size none current last = current
  stabilize_size (some thresh) current last =
      unstable_if (is_too_fast thresh (fl.abs (fl.sub current.size_y last.size_y))) (
        unstable_if (is_too_fast thresh (fl.abs (fl.sub current.size_x last.size_x)))
          (record current {
            size_x = size_after thresh current.size_x last.size_x;
            size_y = size_after thresh current.size_y last.size_y;
          }))

  -- The smaller of the angle differences in both directions.
  abbrev pub turned_by : (current last : Contact F) → F
  turned_by current last =
      let highest = if current.normalized then fl.of_nat 1 else fl.pi in
      let d1 = fl.abs (fl.sub current.orientation last.orientation) in
      fl.fmin d1 (fl.sub highest d1)

  unfoldable pub stabilize_orientation :
      Option (Threshold F) → (current last : Contact F) → Contact F
  stabilize_orientation none current last = current
  stabilize_orientation (some thresh) current last =
      let aspect =
        fl.div (fl.max_coeff current.size_x current.size_y)
          (fl.min_coeff current.size_x current.size_y) in
      let delta = turned_by current last in
      if fl.lt aspect (fl.div (fl.of_nat 11) (fl.of_nat 10))
      then record current { orientation = fl.of_nat 0 }
      else if fl.lt delta thresh.x
      then record current { orientation = last.orientation }
      else if fl.lt thresh.y delta
      then record current { stable = some false }
      else current
