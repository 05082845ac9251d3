-- ===== src/Tests/Contacts.antt =====
-- Runs of the steps that a frame of contacts goes through.
use iptsd_android.Prelude.{
  ℕ, ◌≡◌, refl, ◌⊎◌, true, false, none, some, List, [], ◌∷◌, ok, err, arith,
  invalid_cluster_overlap,
}
use iptsd_android.Contacts.Contact.{Contact, find_in_frame}
use iptsd_android.Contacts.Validation.{Validator, validate}
use iptsd_android.Contacts.Validation.Sticky.{is_invalid, validate-is_invalid}
use iptsd_android.Contacts.Stability.{Stabilizer, stabilize}
use iptsd_android.Contacts.Stability.Kept.{IsAt, Kept, stabilize-Kept}
use iptsd_android.Contacts.Stability.Still.{after_frames, after_frames-IsAt}
use iptsd_android.Contacts.Detection.Overlaps.{Box, search, merge}
use iptsd_android.Contacts.Detection.Overlaps.Rounds.{merge_cases}
use iptsd_android.Tests.Numbers.{numbers}

abbrev palm : Contact ℕ
palm = record {
  mean_x = 4;
  mean_y = 4;
  size_x = 9;
  size_y = 3;
  orientation = 0;
  normalized = true;
  index = some 2;
  valid = some false;
  stable = some true;
}

abbrev a_validator : Validator ℕ
a_validator = record {
  config = record { track_validity = true; size_limits = none; aspect_limits = none };
  last = palm ∷ [];
}

-- The palm again, a bit further, and smaller.
abbrev moved_palm : Contact ℕ
moved_palm = record palm { mean_x = 5; size_x = 3; valid = none }

validate-is_invalid_example :
    (is_invalid 2 (validate (moved_palm ∷ []) a_validator).0 ≡ true)
    × ((validate (moved_palm ∷ []) a_validator).1.last ≡ (validate (moved_palm ∷ []) a_validator).0)
    × ((validate (moved_palm ∷ []) a_validator).1.config ≡ a_validator.config)
unfolding find_in_frame
validate-is_invalid_example = validate-is_invalid a_validator 2 (moved_palm ∷ []) refl refl refl

abbrev a_stabilizer : Stabilizer ℕ
a_stabilizer = record { position_threshold = some (record { x = 2; y = 5 }); last = palm ∷ [] }

stabilize-Kept_example :
    (d : Contact ℕ) × (find_in_frame 2 (stabilize (moved_palm ∷ []) a_stabilizer).0 ≡ some d)
    × Kept a_stabilizer.position_threshold (find_in_frame 2 a_stabilizer.last) moved_palm d
unfolding find_in_frame
stabilize-Kept_example = stabilize-Kept a_stabilizer 2 (moved_palm ∷ []) moved_palm refl

-- The palm to the right and to the left of where it was.
abbrev trembling : List (List (Contact ℕ))
trembling = (moved_palm ∷ []) ∷ (record moved_palm { mean_x = 3 } ∷ []) ∷ []

after_frames-IsAt_example :
    (d : Contact ℕ) × (find_in_frame 2 (after_frames trembling a_stabilizer).last ≡ some d)
    × IsAt d palm
unfolding find_in_frame
after_frames-IsAt_example =
    after_frames-IsAt (record { x = 2; y = 5 }) 2 palm palm trembling a_stabilizer refl refl
      (refl, refl) ((moved_palm, refl, refl), ((record moved_palm { mean_x = 3 }, refl, refl), tt))

abbrev left_box : Box
left_box = record { x_min = 0; x_max = 3; y_min = 0; y_max = 3 }

-- The same box, but for a row of pixels.
abbrev lower_box : Box
lower_box = record { x_min = 0; x_max = 3; y_min = 1; y_max = 3 }

merge_cases_example :
    ((out : List Box) × (merge ℕ (left_box ∷ lower_box ∷ []) 5 ≡ ok out) × (search ℕ out ≡ ok []))
    ⊎ (merge ℕ (left_box ∷ lower_box ∷ []) 5 ≡ err invalid_cluster_overlap)
merge_cases_example = merge_cases ℕ (left_box ∷ lower_box ∷ []) 5 (omega arith) (omega arith)
