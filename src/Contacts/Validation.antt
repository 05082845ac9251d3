-- ===== src/Contacts/Validation.antt =====
-- `Validator` of src/contacts/validation/validator.hpp.
pub mod Sticky
use iptsd_android.Prelude.{
  Bool, true, false, not, ◌&&◌, Option, none, some, List, [], ◌∷◌, if◌then◌else◌,
}
use iptsd_android.Prelude.Float.{Float}
use iptsd_android.Contacts.Contact.{Contact, or_true, find_in_frame}

pub record Limits (F : Type 0) : Type 0 where
  pub x : F
  pub y : F

pub record Config (F : Type 0) : Type 0 where
  pub track_validity : Bool
  pub size_limits : Option (Limits F)
  pub aspect_limits : Option (Limits F)

pub record Validator (F : Type 0) : Type 0 where
  pub config : Config F
  pub last : List (Contact F)

unfoldable pub reset : {F : Type 0} → Validator F → Validator F
reset v = record v { last = [] }

module _ {F : Type 0} where
  -- Whether a contact was valid in the last frame, if it was there.
  unfoldable pub check_temporal : Validator F → Contact F → Bool
  check_temporal v contact = elim contact.index [
    | none ↦ true
    | some index ↦ elim (find_in_frame index v.last) [
      | none ↦ true
      | some last ↦ or_true last.valid
    ]
  ]

module _ {F : Type 0} ⦃fl : Float F⦄ where
  abbrev pub within_limits : F → Limits F → Bool
  within_limits value limit =
      fl.le (fl.min_coeff limit.x limit.y) value && fl.le value (fl.max_coeff limit.x limit.y)

  unfoldable pub check_size : Validator F → Contact F → Bool
  check_size v contact = elim v.config.size_limits [
    | none ↦ true
    | some limit ↦ within_limits (fl.max_coeff contact.size_x contact.size_y) limit
  ]

  unfoldable pub check_aspect : Validator F → Contact F → Bool
  check_aspect v contact = elim v.config.aspect_limits [
    | none ↦ true
    | some limit ↦
        within_limits
          (fl.div (fl.max_coeff contact.size_x contact.size_y)
            (fl.min_coeff contact.size_x contact.size_y))
          limit
  ]

  unfoldable pub check_contact : Validator F → Contact F → Bool
  unfolding check_temporal check_size check_aspect
  check_contact v contact =
      if not (or_true contact.stable)
      then true
      else if v.config.track_validity && not (check_temporal v contact)
      then false
      else if not (check_size v contact)
      then false
      else check_aspect v contact

  -- The loop over a frame.
  unfoldable pub checked : Validator F → List (Contact F) → List (Contact F)
  checked v [] = []
  checked v (contact ∷ frame) =
      record contact { valid = some (check_contact v contact) } ∷ checked v frame

  -- `validate(frame)`: the frame with its results, and the validator that remembers it.
  unfoldable pub validate : List (Contact F) → Validator F → List (Contact F) × Validator F
  validate frame v = let frame' = checked v frame in (frame', record v { last = frame' })
