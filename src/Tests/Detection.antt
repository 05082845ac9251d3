-- ===== src/Tests/Detection.antt =====
-- Runs of the detection of contacts, and of an application.
use iptsd_android.Prelude.{
  ℕ, ◌+◌, ◌*◌, ◌≤◌, ◌≡◌, IsFueled, refl, Bool, true, false, ◌&&◌, ltb, if◌then◌else◌, Result, err,
  narrowing, none, some, List, [], ◌∷◌, ok, All, get_or, arith,
}
use iptsd_android.Contacts.Detection.Maximas.{Point, Image}
use iptsd_android.Contacts.Detection.Maximas.Local.{Agree}
use iptsd_android.Contacts.Detection.Overlaps.{Box}
use iptsd_android.Contacts.Detection.Neutral.{mode, statistical_mode}
use iptsd_android.Contacts.Detection.Neutral.Common.{IsNumber, occurrences, statistical_mode-most}
use iptsd_android.Contacts.Detection.Detector.{DetectionConfig, search_clusters}
use iptsd_android.Contacts.Detection.Detector.Points.{IsPixel, IsSized, search_clusters-Sized}
use iptsd_android.Core.Application.{Application, Output, Setup, process}
use iptsd_android.Core.Application.Stylus.{Ready}
use iptsd_android.Core.Application.Create.{
  Reachable, new_application, create, created, processed, Reachable-Ready,
}
use iptsd_android.Core.Application.Fueled.{process-IsFueled}
use iptsd_android.Core.Config.{ContactOptions, mode_name, contacts, neutral_algorithm, string_eq}
use iptsd_android.Tests.Numbers.{numbers, numbers-IsOrdered, numbers-HasUnits}
use iptsd_android.Tests.Dft.{options}
use iptsd_android.Tests.Frames.{touch_data}

statistical_mode-most_example :
    (occurrences {F = ℕ} 4 (4 ∷ 5 ∷ 5 ∷ [])
      ≤ occurrences {F = ℕ} (statistical_mode (4 ∷ 5 ∷ 5 ∷ [])) (4 ∷ 5 ∷ 5 ∷ []))
    × IsNumber {F = ℕ} (statistical_mode (4 ∷ 5 ∷ 5 ∷ []))
statistical_mode-most_example =
    statistical_mode-most numbers-IsOrdered (4 ∷ 5 ∷ 5 ∷ []) 4 refl (refl, (refl, (refl, tt))) refl
      (omega arith)

abbrev thresholds : DetectionConfig ℕ
thresholds = record {
  normalize = true;
  neutral_value_algorithm = mode;
  neutral_value_offset = 0;
  neutral_value_backoff = 16;
  activation_threshold = 5;
  deactivation_threshold = 3;
}

-- One hill on three rows and three columns.
abbrev a_hill : Image ℕ
a_hill y x = get_or (1 ∷ 4 ∷ 1 ∷ 4 ∷ 9 ∷ 4 ∷ 1 ∷ 4 ∷ 1 ∷ []) (y * 3 + x) 0

abbrev the_top : List Point
the_top = record { x = 1; y = 1 } ∷ []

-- The hill on a ground that begins where the three rows and columns end.
abbrev a_ground : Image ℕ
a_ground y x = if ltb y 3 && ltb x 3 then a_hill y x else 8

a_hill-Agree : Agree 3 3 a_hill a_ground
a_hill-Agree y x hy hx = inside (ltb y 3 && ltb x 3) (ground (arith, hy, hx))
  where
    inside : (b : Bool) → b ≡ true → a_hill y x ≡ (if b then a_hill y x else 8)
    inside true h = refl
    inside false h = absurd (cc)

search_clusters-Sized_example :
    (out : List Point × List Box) × (search_clusters thresholds 100 a_hill 3 3 the_top ≡ ok out)
    × (search_clusters thresholds 100 a_ground 3 3 the_top ≡ ok out)
    × All (IsPixel 3 3) out.0
    × All (IsSized 3 3) out.1
search_clusters-Sized_example =
    search_clusters-Sized thresholds 100 a_hill 3 3 a_ground the_top a_hill-Agree
      ((omega arith, omega arith), tt)

-- A handler that throws at each call but the first.
abbrev refusing : List (Output ℕ) → Output ℕ → Result (Unit {0})
refusing [] o = ok tt
refusing (p ∷ ps) o = err narrowing

abbrev pub a_setup : Setup ℕ
a_setup = record {
  dft_config = options;
  stylus_tip_distance = 0;
  metadata = none;
  means = record {
    config = thresholds;
    highest = 100;
    mean = λ pixels. get_or pixels 0 0;
    eps = 0;
    solver = record {
      inverse = λ m. m;
      compute_direct =
          λ m. record { value_x = m.m_00; value_y = m.m_11; vector_x = 1; vector_y = 0 };
    };
    min_coeff = λ rows cols distances. (0, 0);
  };
  handler = refusing;
}

abbrev pub contact_options : ContactOptions ℕ
contact_options = record {
  width = 26;
  height = 17;
  contacts_neutral = mode_name;
  contacts_neutral_value = 0;
  contacts_activation_threshold = 24;
  contacts_deactivation_threshold = 20;
  contacts_size_thresh_min = 1;
  contacts_size_thresh_max = 5;
  contacts_position_thresh_min = 1;
  contacts_position_thresh_max = 2;
  contacts_orientation_thresh_min = 1;
  contacts_orientation_thresh_max = 5;
  contacts_size_min = 1;
  contacts_size_max = 2;
  contacts_aspect_min = 1;
  contacts_aspect_max = 2;
}

abbrev pub an_application : Application ℕ
an_application = new_application (record {
  detection = record thresholds { activation_threshold = 0; deactivation_threshold = 0 };
  validation = record {
    track_validity = true;
    size_limits = some (record { x = 0; y = 0 });
    aspect_limits = some (record { x = 1; y = 2 });
  };
  stability = record {
    size_threshold = some (record { x = 0; y = 0 });
    position_threshold = some (record { x = 0; y = 0 });
    orientation_threshold = some (record { x = 0; y = 0 });
  };
})

pub create_run : create contact_options ≡ ok an_application
unfolding create contacts neutral_algorithm string_eq
create_run = refl

-- The second frame of contacts is refused by the handler.
abbrev used_application : Application ℕ
used_application = (process a_setup touch_data an_application).0

used_application-Reachable : Reachable a_setup used_application
used_application-Reachable =
    processed touch_data an_application (created contact_options an_application create_run)

process-IsFueled_example : IsFueled (process a_setup touch_data used_application).1
process-IsFueled_example =
    process-IsFueled numbers-HasUnits a_setup touch_data used_application refusing-IsFueled tt
      used_application-Reachable
  where
    refusing-IsFueled : (before : List (Output ℕ)) (o : Output ℕ) → IsFueled (refusing before o)
    refusing-IsFueled [] o = λ p. cc
    refusing-IsFueled (b ∷ before) o = λ p. cc

Reachable-Ready_example :
    Ready numbers-HasUnits a_setup (process a_setup touch_data used_application).0
Reachable-Ready_example =
    Reachable-Ready numbers-HasUnits a_setup (process a_setup touch_data used_application).0 tt
      (processed touch_data used_application used_application-Reachable)
