-- ===== src/Core/Config/Options.antt =====
-- `Config` of src/core/generic/config.hpp with all options and their defaults, and what the parts of the
-- program take of it.
use iptsd_android.Prelude.{ℕ, Bool, false, List}
use iptsd_android.Prelude.Float.{Float}
use iptsd_android.Core.Config.{ContactOptions, mode_name}
use iptsd_android.Core.Dft.{DftConfig}
use iptsd_android.Daemon.Touch.Defs as Touch

pub record Config (F : Type 0) : Type 0 where
  pub invert_x : Bool
  pub invert_y : Bool
  pub width : F
  pub height : F
  pub touch_disable : Bool
  pub touch_disable_on_palm : Bool
  pub touch_disable_on_stylus : Bool
  pub touch_overshoot : F
  pub contacts_neutral : List ℕ
  pub contacts_neutral_value : F
  pub contacts_activation_threshold : F
  pub contacts_deactivation_threshold : F
  pub contacts_size_thresh_min : F
  pub contacts_size_thresh_max : F
  pub contacts_position_thresh_min : F
  pub contacts_position_thresh_max : F
  pub contacts_orientation_thresh_min : F
  pub contacts_orientation_thresh_max : F
  pub contacts_size_min : F
  pub contacts_size_max : F
  pub contacts_aspect_min : F
  pub contacts_aspect_max : F
  pub stylus_disable : Bool
  pub stylus_tip_distance : F
  pub dft_position_min_amp : ℕ
  pub dft_position_min_mag : ℕ
  pub dft_position_exp : F
  pub dft_button_min_mag : ℕ
  pub dft_freq_min_mag : ℕ
  pub dft_tilt_min_mag : ℕ
  pub dft_mpp2_button_min_mag : ℕ
  pub dft_mpp2_contact_min_mag : ℕ
  pub dft_tilt_distance : F

module _ {F : Type 0} ⦃fl : Float F⦄ where
  -- A decimal literal: the quotient of its digits and a power of ten, rounded once.
  abbrev pub decimal : (digits power : ℕ) → F
  decimal digits power = fl.div (fl.of_nat digits) (fl.of_nat power)

  -- The initial values of the members.
  abbrev pub defaults : Config F
  defaults = record {
    invert_x = false;
    invert_y = false;
    width = fl.of_nat 0;
    height = fl.of_nat 0;
    touch_disable = false;
    touch_disable_on_palm = false;
    touch_disable_on_stylus = false;
    touch_overshoot = decimal 5 10;
    contacts_neutral = mode_name;
    contacts_neutral_value = fl.of_nat 0;
    contacts_activation_threshold = fl.of_nat 24;
    contacts_deactivation_threshold = fl.of_nat 20;
    contacts_size_thresh_min = decimal 1 10;
    contacts_size_thresh_max = decimal 5 10;
    contacts_position_thresh_min = decimal 4 100;
    contacts_position_thresh_max = fl.of_nat 2;
    contacts_orientation_thresh_min = fl.of_nat 1;
    contacts_orientation_thresh_max = fl.of_nat 5;
    contacts_size_min = decimal 2 10;
    contacts_size_max = fl.of_nat 2;
    contacts_aspect_min = fl.of_nat 1;
    contacts_aspect_max = decimal 25 10;
    stylus_disable = false;
    stylus_tip_distance = fl.of_nat 0;
    dft_position_min_amp = 50;
    dft_position_min_mag = 2000;
    dft_position_exp = fl.neg (decimal 7 10);
    dft_button_min_mag = 1000;
    dft_freq_min_mag = 10000;
    dft_tilt_min_mag = 10000;
    dft_mpp2_button_min_mag = 50000;
    dft_mpp2_contact_min_mag = 50000;
    dft_tilt_distance = decimal 6 10;
  }

-- What the contact detection, the stylus and the touch device take of the options.
abbrev pub contact_options : {F : Type 0} → Config F → ContactOptions F
contact_options c = record {
  width = c.width;
  height = c.height;
  contacts_neutral = c.contacts_neutral;
  contacts_neutral_value = c.contacts_neutral_value;
  contacts_activation_threshold = c.contacts_activation_threshold;
  contacts_deactivation_threshold = c.contacts_deactivation_threshold;
  contacts_size_thresh_min = c.contacts_size_thresh_min;
  contacts_size_thresh_max = c.contacts_size_thresh_max;
  contacts_position_thresh_min = c.contacts_position_thresh_min;
  contacts_position_thresh_max = c.contacts_position_thresh_max;
  contacts_orientation_thresh_min = c.contacts_orientation_thresh_min;
  contacts_orientation_thresh_max = c.contacts_orientation_thresh_max;
  contacts_size_min = c.contacts_size_min;
  contacts_size_max = c.contacts_size_max;
  contacts_aspect_min = c.contacts_aspect_min;
  contacts_aspect_max = c.contacts_aspect_max;
}

abbrev pub dft_config : {F : Type 0} → Config F → DftConfig F
dft_config c = record {
  invert_x = c.invert_x;
  invert_y = c.invert_y;
  width = c.width;
  height = c.height;
  position_min_amp = c.dft_position_min_amp;
  position_min_mag = c.dft_position_min_mag;
  position_exp = c.dft_position_exp;
  button_min_mag = c.dft_button_min_mag;
  freq_min_mag = c.dft_freq_min_mag;
  tilt_min_mag = c.dft_tilt_min_mag;
  mpp2_button_min_mag = c.dft_mpp2_button_min_mag;
  mpp2_contact_min_mag = c.dft_mpp2_contact_min_mag;
  tilt_distance = c.dft_tilt_distance;
}

abbrev pub touch_config : {F : Type 0} → Config F → Touch.Config F
touch_config c = record {
  touch_disable_on_palm = c.touch_disable_on_palm;
  touch_overshoot = c.touch_overshoot;
  width = c.width;
  height = c.height;
}
