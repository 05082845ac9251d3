-- ===== src/Core/Dft.antt =====
-- `DftStylus` of src/core/generic/dft.hpp. The configuration and the metadata of the device never
-- change: they are parameters of the methods. A sum or a product of `u32` or `u64` wraps around, and so
-- is taken to do one of `i32` that overflows, which the language leaves open.
pub mod Frequency
pub mod Position
pub mod Input
pub mod Rules
pub mod Measured
pub mod Valid
pub mod Deciding
pub mod Safe
pub mod Once
use iptsd_android.Prelude.{
  ℕ, ◌+◌, ◌-◌, ◌*◌, ◌%◌, ◌^◌, Bool, false, Option, none, some, List, Result, err, ok, contract,
  get_elem?, get_or, ltb, ◌==◌, if◌then◌else◌,
}
use iptsd_android.Prelude.Int.{ℤ, pos, negsuc}
use iptsd_android.Prelude.Word.{u32_mod}
use iptsd_android.Prelude.Float.{Float}
use iptsd_android.Prelude.Act.{Act}
use iptsd_android.Ipts.Data.{StylusData, Row}

-- The options of src/core/generic/config.hpp that the stylus reads.
pub record DftConfig (F : Type 0) : Type 0 where
  pub invert_x : Bool
  pub invert_y : Bool
  pub width : F
  pub height : F
  pub position_min_amp : ℕ
  pub position_min_mag : ℕ
  pub position_exp : F
  pub button_min_mag : ℕ
  pub freq_min_mag : ℕ
  pub tilt_min_mag : ℕ
  pub mpp2_button_min_mag : ℕ
  pub mpp2_contact_min_mag : ℕ
  pub tilt_distance : F

pub record DftStylus (F : Type 0) : Type 0 where
  pub stylus : StylusData F
  pub real : ℤ
  pub imag : ℤ
  pub group : Option ℕ
  pub mppv2_binary_group : Option ℕ
  pub mppv2_button_or_eraser : Option Bool
  pub mppv2_in_contact : Option Bool

abbrev pub Method : Type 0 → Type 0
Method F = Act (DftStylus F) (Unit {0})

-- `dft.x[i]`, with the bounds check of `gsl::span`.
unfoldable pub row_at : List Row → ℕ → Result Row
row_at rows i = elim (get_elem? rows i) [ none ↦ err contract | some r ↦ ok r ]

-- An entry of one of the arrays of a row, which are longer than any index of the code.
abbrev pub component : List ℤ → ℕ → ℤ
component values i = get_or values i (pos 0)

-- The sum of two `u32`.
abbrev pub add_u32 : ℕ → ℕ → ℕ
add_u32 a b = (a + b) % u32_mod

-- What is left of an integer in an `i32`.
abbrev pub signed32 : ℕ → ℤ
signed32 w = if ltb w (2 ^ 31) then pos w else negsuc (2 ^ 32 - w - 1)

unfoldable pub wrap_i32 : ℤ → ℤ
wrap_i32 (pos n) = signed32 (n % u32_mod)
wrap_i32 (negsuc n) = signed32 (u32_mod - 1 - n % u32_mod)

-- Two groups that are known and the same.
abbrev pub same_group : Option ℕ → Option ℕ → Bool
same_group (some a) (some b) = a == b
same_group _ _ = false

-- `lift`
abbrev pub lift_dft : {F : Type 0} → Method F
lift_dft s = (
  record s {
    stylus = record s.stylus { proximity = false; contact = false; button = false; rubber = false };
    mppv2_in_contact = none;
    mppv2_button_or_eraser = none;
  },
  ok tt,
)

-- The stylus before its first window.
abbrev pub init : {F : Type 0} ⦃fl : Float F⦄ → DftStylus F
init ⦃fl = fl⦄ =
    let zero_f = fl.of_nat 0 in
    record {
      stylus = record {
        proximity = false;
        contact = false;
        button = false;
        rubber = false;
        timestamp = 0;
        x = zero_f;
        y = zero_f;
        pressure = zero_f;
        altitude = zero_f;
        azimuth = zero_f;
        serial = 0;
      };
      real = pos 0;
      imag = pos 0;
      group = none;
      mppv2_binary_group = none;
      mppv2_button_or_eraser = none;
      mppv2_in_contact = none;
    }
