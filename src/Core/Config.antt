-- ===== src/Core/Config.antt =====
-- The options of src/core/generic/config.hpp that the detection of contacts reads, and `contacts()`,
-- which makes the configuration of its parts from them. A string is its bytes.
pub mod Options
use iptsd_android.Prelude.{
  ℕ, Bool, true, false, ◌&&◌, Option, some, List, [], ◌∷◌, Result, ok, err, ◌>>=◌,
  invalid_neutral_value_algorithm, ◌==◌, if◌then◌else◌,
}
use iptsd_android.Prelude.Float.{Float}
use iptsd_android.Contacts.Detection.Detector.{DetectionConfig}
use iptsd_android.Contacts.Detection.Neutral.{Algorithm, mode, average, constant}
use iptsd_android.Contacts.Stability.{Threshold}
use iptsd_android.Contacts.Validation
use iptsd_android.Contacts.Validation.{Limits}

pub record ContactOptions (F : Type 0) : Type 0 where
  pub width : F
  pub height : F
  pub contacts_neutral : List ℕ
  pub contacts_neutral_value : F
  pub contacts_activation_threshold : F
  pub contacts_deactivation_threshold : F
  pub contacts_size_thresh_min : F
  pub contacts_size_thresh_max : F
  pub contacts_position_thresh_min : F
  pub contacts_position_thresh_max : F
  pub contacts_orientation_thresh_min : F
  pub contacts_orientation_thresh_max : F
  pub contacts_size_min : F
  pub contacts_size_max : F
  pub contacts_aspect_min : F
  pub contacts_aspect_max : F

-- The thresholds of src/contacts/stability/config.hpp and the parts of src/contacts/config.hpp.
pub record StabilityConfig (F : Type 0) : Type 0 where
  pub size_threshold : Option (Threshold F)
  pub position_threshold : Option (Threshold F)
  pub orientation_threshold : Option (Threshold F)

pub record ContactsConfig (F : Type 0) : Type 0 where
  pub detection : DetectionConfig F
  pub validation : Validation.Config F
  pub stability : StabilityConfig F

abbrev pub mode_name : List ℕ
mode_name = 109 ∷ 111 ∷ 100 ∷ 101 ∷ []

abbrev pub average_name : List ℕ
average_name = 97 ∷ 118 ∷ 101 ∷ 114 ∷ 97 ∷ 103 ∷ 101 ∷ []

abbrev pub constant_name : List ℕ
constant_name = 99 ∷ 111 ∷ 110 ∷ 115 ∷ 116 ∷ 97 ∷ 110 ∷ 116 ∷ []

unfoldable pub string_eq : List ℕ → List ℕ → Bool
string_eq [] [] = true
string_eq (a ∷ s) (b ∷ t) = a == b && string_eq s t
string_eq [] (b ∷ t) = false
string_eq (a ∷ s) [] = false

unfoldable pub neutral_algorithm : List ℕ → Result Algorithm
unfolding string_eq
neutral_algorithm name =
    if string_eq name mode_name
    then ok mode
    else if string_eq name average_name
    then ok average
    else if string_eq name constant_name
    then ok constant
    else err invalid_neutral_value_algorithm

-- `contacts()`
unfoldable pub contacts : {F : Type 0} ⦃fl : Float F⦄ → ContactOptions F → Result (ContactsConfig F)
unfolding neutral_algorithm
contacts ⦃fl = fl⦄ o = do
  algorithm ← neutral_algorithm o.contacts_neutral
  let diagonal = fl.hypot o.width o.height
  ok (record {
    detection = record {
      normalize = true;
      neutral_value_algorithm = algorithm;
      neutral_value_offset = fl.div o.contacts_neutral_value (fl.of_nat 255);
      neutral_value_backoff = 16;
      activation_threshold = fl.div o.contacts_activation_threshold (fl.of_nat 255);
      deactivation_threshold = fl.div o.contacts_deactivation_threshold (fl.of_nat 255);
    };
    validation = record {
      track_validity = true;
      size_limits = some (record {
        x = fl.div o.contacts_size_min diagonal;
        y = fl.div o.contacts_size_max diagonal;
      });
      aspect_limits = some (record { x = o.contacts_aspect_min; y = o.contacts_aspect_max });
    };
    stability = record {
      size_threshold = some (record {
        x = fl.div o.contacts_size_thresh_min diagonal;
        y = fl.div o.contacts_size_thresh_max diagonal;
      });
      position_threshold = some (record {
        x = fl.div o.contacts_position_thresh_min diagonal;
        y = fl.div o.contacts_position_thresh_max diagonal;
      });
      orientation_threshold = some (record {
        x = fl.div o.contacts_orientation_thresh_min (fl.of_nat 180);
        y = fl.div o.contacts_orientation_thresh_max (fl.of_nat 180);
      });
    };
  })
