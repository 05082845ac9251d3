-- ===== src/Core/Linux/ConfigLoader.antt =====
-- `ConfigLoader` of src/core/linux/config-loader.hpp. A file is what `INIReader` answers about it; the
-- directories, the environment and the paths are what the loader finds there.
pub mod Presets
pub mod AspectMin
use Prim.Native.String.{String}
use iptsd_android.Prelude.{
  ℕ, ◌-◌, ◌+◌, ◌%◌, ◌^◌, Bool, true, false, ◌&&◌, ◌||◌, not, Option, none, some, List, [], ◌∷◌,
  Result, ok, err, ◌>>=◌, ◌>>◌, guard, narrowing, parsing_failed, ltb, leb, ◌==◌, drop,
  if◌then◌else◌,
}
use iptsd_android.Prelude.Int.{ℤ, pos, negsuc}
use iptsd_android.Prelude.Word.{u32_at, u16_mod, u64_mod}
use iptsd_android.Prelude.Float.{Float}
use iptsd_android.Ipts.Data.{Metadata}
use iptsd_android.Core.Device.{DeviceInfo}
use iptsd_android.Core.Config.Options.{Config, defaults}

-- `INIReader`: whether parsing failed, and the value of an option, or the default if there is none.
pub record Ini (F : Type 0) : Type 0 where
  pub failed : Bool
  pub get_boolean : (section name : String) → Bool → Bool
  pub get_integer : (section name : String) → ℤ → ℤ
  pub get_real : (section name : String) → F → F
  pub get_string : (section name : String) → List ℕ → List ℕ

pub record Entry (F : Type 0) : Type 0 where
  pub is_regular_file : Bool
  pub ini : Ini F

-- What exists: the two directories with presets, the file that the environment names, the main file,
-- and the directory with its overlays. Entries come in the order of the directory iterator.
pub record Files (F : Type 0) : Type 0 where
  pub preset_dir : Option (List (Entry F))
  pub local_presets : Option (List (Entry F))
  pub env_file : Option (Ini F)
  pub config_file : Option (Ini F)
  pub config_dir : Option (List (Entry F))

-- `casts::to<long>` of a `usize`, and `casts::to<usize>` of a `long`, which is a plain conversion.
abbrev pub to_long : ℕ → Result ℤ
to_long n = if ltb n (2 ^ 63) then ok (pos n) else err narrowing

abbrev pub to_usize : ℤ → ℕ
to_usize (pos n) = n % u64_mod
to_usize (negsuc n) = u64_mod - 1 - n % u64_mod

-- `casts::to<u16>` of a `long`.
abbrev pub to_u16 : ℤ → Result ℕ
to_u16 (pos n) = if ltb n u16_mod then ok n else err narrowing
to_u16 (negsuc n) = err narrowing

-- `< 0` on the `f32` at an offset.
abbrev pub is_negative : List ℕ → ℕ → Bool
is_negative bytes i = let w = u32_at bytes i in ltb (2 ^ 31) w && leb w (2 ^ 31 + 2139095040)

module _ {F : Type 0} where
  -- `get` at `usize` and at `u16`.
  abbrev pub get_usize : Ini F → (section name : String) → ℕ → Result ℕ
  get_usize ini section name value = do
    v ← to_long value
    ok (to_usize (ini.get_integer section name v))

  abbrev pub get_u16 : Ini F → (section name : String) → ℕ → Result ℕ
  get_u16 ini section name value = to_u16 (ini.get_integer section name (pos value))

  unfoldable pub load_device : Ini F → Result (ℕ × ℕ)
  load_device ini = do
    guard (not ini.failed) parsing_failed
    vendor ← get_u16 ini "Device" "Vendor" 0
    product ← get_u16 ini "Device" "Product" 0
    ok (vendor, product)

  -- The options of a file that can be read without an exception. The last two are legacy options.
  abbrev pub with_values : Ini F → Config F → Config F
  with_values ini c =
      let tip_distance = ini.get_real "Stylus" "TipDistance" c.stylus_tip_distance in
      let size_thresh_max = ini.get_real "Contacts" "SizeThresholdMax" c.contacts_size_thresh_max in
      let aspect = ini.get_real "Contacts" "AspectMin" c.contacts_aspect_max in
      record c {
        invert_x = ini.get_boolean "Config" "InvertX" c.invert_x;
        invert_y = ini.get_boolean "Config" "InvertY" c.invert_y;
        width = ini.get_real "Config" "Width" c.width;
        height = ini.get_real "Config" "Height" c.height;
        touch_disable = ini.get_boolean "Touch" "Disable" c.touch_disable;
        touch_disable_on_palm = ini.get_boolean "Touch" "DisableOnPalm" c.touch_disable_on_palm;
        touch_disable_on_stylus =
            ini.get_boolean "Touch" "DisableOnStylus" c.touch_disable_on_stylus;
        touch_overshoot = ini.get_real "Touch" "Overshoot" c.touch_overshoot;
        contacts_neutral = ini.get_string "Contacts" "Neutral" c.contacts_neutral;
        contacts_neutral_value = ini.get_real "Contacts" "NeutralValue" c.contacts_neutral_value;
        contacts_activation_threshold =
            ini.get_real "Contacts" "ActivationThreshold" c.contacts_activation_threshold;
        contacts_deactivation_threshold =
            ini.get_real "Contacts" "DeactivationThreshold" c.contacts_deactivation_threshold;
        contacts_size_thresh_min =
            ini.get_real "Contacts" "SizeThresholdMin" c.contacts_size_thresh_min;
        contacts_size_thresh_max = ini.get_real "Contacts" "SizeThreshold" size_thresh_max;
        contacts_position_thresh_min =
            ini.get_real "Contacts" "PositionThresholdMin" c.contacts_position_thresh_min;
        contacts_position_thresh_max =
            ini.get_real "Contacts" "PositionThresholdMax" c.contacts_position_thresh_max;
        contacts_orientation_thresh_min =
            ini.get_real "Contacts" "OrientationThresholdMin" c.contacts_orientation_thresh_min;
        contacts_orientation_thresh_max =
            ini.get_real "Contacts" "OrientationThresholdMax" c.contacts_orientation_thresh_max;
        contacts_size_min = ini.get_real "Contacts" "SizeMin" c.contacts_size_min;
        contacts_size_max = ini.get_real "Contacts" "SizeMax" c.contacts_size_max;
        contacts_aspect_max = ini.get_real "Contacts" "AspectMax" aspect;
        stylus_disable = ini.get_boolean "Stylus" "Disable" c.stylus_disable;
        stylus_tip_distance = ini.get_real "DFT" "TipDistance" tip_distance;
        dft_position_exp = ini.get_real "DFT" "PositionExp" c.dft_position_exp;
        dft_tilt_distance = ini.get_real "DFT" "TiltDistance" c.dft_tilt_distance;
      }

  unfoldable pub load_file : Ini F → Config F → Result (Config F)
  load_file ini c = do
    guard (not ini.failed) parsing_failed
    position_min_amp ← get_usize ini "DFT" "PositionMinAmp" c.dft_position_min_amp
    position_min_mag ← get_usize ini "DFT" "PositionMinMag" c.dft_position_min_mag
    button_min_mag ← get_usize ini "DFT" "ButtonMinMag" c.dft_button_min_mag
    freq_min_mag ← get_usize ini "DFT" "FreqMinMag" c.dft_freq_min_mag
    tilt_min_mag ← get_usize ini "DFT" "TiltMinMag" c.dft_tilt_min_mag
    contact_min_mag ← get_usize ini "DFT" "Mpp2ContactMinMag" c.dft_mpp2_contact_min_mag
    mpp2_button_min_mag ← get_usize ini "DFT" "Mpp2ButtonMinMag" c.dft_mpp2_button_min_mag
    ok (record (with_values ini c) {
      dft_position_min_amp = position_min_amp;
      dft_position_min_mag = position_min_mag;
      dft_button_min_mag = button_min_mag;
      dft_freq_min_mag = freq_min_mag;
      dft_tilt_min_mag = tilt_min_mag;
      dft_mpp2_contact_min_mag = contact_min_mag;
      dft_mpp2_button_min_mag = mpp2_button_min_mag;
    })

  -- Whether an entry is loaded, which may throw.
  unfoldable pub is_meant : DeviceInfo → (check_device : Bool) → Entry F → Result Bool
  unfolding load_device
  is_meant i check_device e =
      if not e.is_regular_file
      then ok false
      else if check_device
      then (do
        (vendor, product) ← load_device e.ini
        ok (i.vendor == vendor && i.product == product))
      else ok true

  abbrev pub load_if : Bool → Ini F → Config F → Result (Config F)
  load_if b ini c = if b then load_file ini c else ok c

  unfoldable pub load_entries :
      DeviceInfo → (check_device : Bool) → List (Entry F) → Config F → Result (Config F)
  load_entries i check_device [] c = ok c
  load_entries i check_device (e ∷ entries) c = do
    meant ← is_meant i check_device e
    c' ← load_if meant e.ini c
    load_entries i check_device entries c'

  unfoldable pub load_dir :
      DeviceInfo → (check_device : Bool) → Option (List (Entry F)) → Config F → Result (Config F)
  load_dir i check_device none c = ok c
  load_dir i check_device (some entries) c = load_entries i check_device entries c

  abbrev pub load_if_exists : Option (Ini F) → Config F → Result (Config F)
  load_if_exists none c = ok c
  load_if_exists (some ini) c = load_file ini c

module _ {F : Type 0} ⦃fl : Float F⦄ where
  abbrev pub with_metadata : Option Metadata → Config F → Config F
  with_metadata none c = c
  with_metadata (some m) c = record c {
    width = fl.div (fl.of_nat m.width) (fl.of_nat 1000);
    height = fl.div (fl.of_nat m.height) (fl.of_nat 1000);
    invert_x = is_negative m.transform 0;
    invert_y = is_negative m.transform 16;
  }

  -- The main file and its overlays, unless the environment names another file.
  abbrev pub load_main : DeviceInfo → Files F → Config F → Result (Config F)
  load_main i files c = elim files.env_file [
    | some ini ↦ load_file ini c
    | none ↦ do c' ← load_if_exists files.config_file c; load_dir i false files.config_dir c'
  ]

  -- The constructor, and `config()`.
  unfoldable pub config_loader : DeviceInfo → Option Metadata → Files F → Result (Config F)
  unfolding load_file load_dir
  config_loader i metadata files = do
    c ← load_dir i true files.preset_dir (with_metadata metadata defaults)
    c' ← load_dir i true files.local_presets c
    load_main i files c'
