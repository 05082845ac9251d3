-- ===== src/Tests/Loading.antt =====
-- Runs of the loader of the configuration.
use iptsd_android.Prelude.{
  ℕ, ◌≡◌, ◌==◌, refl, inr, arith, if◌then◌else◌, true, false, none, some, [], ◌∷◌, ok, err, ◌>>=◌,
  narrowing,
}
use Prim.Native.String.{String, len}
use iptsd_android.Prelude.Int.{ℤ, pos, negsuc}
use iptsd_android.Core.Config.Options.{Config, defaults}
use iptsd_android.Core.Linux.ConfigLoader.{
  Ini, Files, load_file, load_device, is_meant, load_entries, load_dir, load_main, with_metadata,
  config_loader,
}
use iptsd_android.Core.Linux.ConfigLoader.Presets.{
  load_all, irregular, foreign, own, finished, config_loader-Presets,
}
use iptsd_android.Core.Linux.ConfigLoader.AspectMin.{config_loader-aspect_min}
use iptsd_android.Tests.Numbers.{numbers}
use iptsd_android.Tests.Runs.{an_info}

-- A file with 7 for each real and 5 for each integer.
abbrev sevens : Ini ℕ
sevens = record {
  failed = false;
  get_boolean = λ section name value. true;
  get_integer = λ section name value. pos 5;
  get_real = λ section name value. 7;
  get_string = λ section name value. value;
}

-- A file with -1 for each integer.
abbrev negatives : Ini ℕ
negatives = record sevens { get_integer = λ section name value. negsuc 0 }

abbrev some_files : Files ℕ
some_files = record {
  preset_dir = some (record { is_regular_file = true; ini = sevens } ∷ []);
  local_presets = none;
  env_file = none;
  config_file = some sevens;
  config_dir = some (record { is_regular_file = false; ini = sevens } ∷ []);
}

abbrev loaded : Config ℕ
loaded = record {
  invert_x = true;
  invert_y = true;
  width = 7;
  height = 7;
  touch_disable = true;
  touch_disable_on_palm = true;
  touch_disable_on_stylus = true;
  touch_overshoot = 7;
  contacts_neutral = (defaults {F = ℕ}).contacts_neutral;
  contacts_neutral_value = 7;
  contacts_activation_threshold = 7;
  contacts_deactivation_threshold = 7;
  contacts_size_thresh_min = 7;
  contacts_size_thresh_max = 7;
  contacts_position_thresh_min = 7;
  contacts_position_thresh_max = 7;
  contacts_orientation_thresh_min = 7;
  contacts_orientation_thresh_max = 7;
  contacts_size_min = 7;
  contacts_size_max = 7;
  contacts_aspect_min = 1;
  contacts_aspect_max = 7;
  stylus_disable = true;
  stylus_tip_distance = 7;
  dft_position_min_amp = 5;
  dft_position_min_mag = 5;
  dft_position_exp = 7;
  dft_button_min_mag = 5;
  dft_freq_min_mag = 5;
  dft_tilt_min_mag = 5;
  dft_mpp2_button_min_mag = 5;
  dft_mpp2_contact_min_mag = 5;
  dft_tilt_distance = 7;
}

loaded_run : config_loader an_info none some_files ≡ ok loaded
unfolding config_loader load_file load_dir load_entries is_meant load_device
loaded_run = refl

-- A negative threshold wraps, and the next file that is read throws.
negatives_run : (load_file negatives loaded >>= load_file sevens) ≡ err narrowing
unfolding load_file
negatives_run = refl

config_loader-aspect_min_example : loaded.contacts_aspect_min ≡ 1
config_loader-aspect_min_example =
    config_loader-aspect_min an_info none some_files loaded loaded_run

-- What a file with a vendor and a product answers: of the two names, `Vendor` is the one of six bytes.
abbrev number_of : (vendor product : ℕ) → String → ℤ
number_of vendor product name = if len name == 6 then pos vendor else pos product

abbrev named : (vendor product : ℕ) → Ini ℕ
named vendor product = record sevens {
  get_integer = λ section name value. number_of vendor product name;
}

abbrev preset_files : Files ℕ
preset_files = record some_files {
  preset_dir = some (
      record { is_regular_file = true; ini = named 1118 5 }
      ∷ record { is_regular_file = false; ini = sevens }
      ∷ record { is_regular_file = true; ini = named 1118 3167 }
      ∷ []);
}

config_loader-Presets_example : config_loader an_info none preset_files ≡ (
    load_all (named 1118 3167 ∷ []) (with_metadata none defaults) >>= λ c.
    load_all [] c >>= load_main an_info preset_files)
config_loader-Presets_example =
    config_loader-Presets an_info none preset_files (named 1118 3167 ∷ []) []
      (foreign _ _ _ 1118 5
        (record {
          regular = refl;
          parsed = refl;
          vendor_read = refl;
          product_read = refl;
          vendor_fits = omega arith;
          product_fits = omega arith;
        })
        (inr (omega arith))
        (irregular _ _ _ refl (
          own _ _ _
            (record {
              regular = refl;
              parsed = refl;
              vendor_read = refl;
              product_read = refl;
              vendor_fits = omega arith;
              product_fits = omega arith;
            })
            finished)))
      refl
