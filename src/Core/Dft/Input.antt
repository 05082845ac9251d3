-- ===== src/Core/Dft/Input.antt =====
-- The other windows of src/core/generic/dft.hpp: buttons, pressure, and the binary signals of the
-- second version of the protocol; and `input`, which takes every window.
use iptsd_android.Prelude.{
  ℕ, ◌*◌, ◌%◌, Bool, true, false, not, ◌&&◌, ◌||◌, Option, none, some, length, ltb, leb, ◌==◌,
  if◌then◌else◌,
}
use iptsd_android.Prelude.Int.{ℤ, pos, ◌+ℤ◌, ◌*ℤ◌, ltb_ℤ}
use iptsd_android.Prelude.Word.{u64_mod}
use iptsd_android.Prelude.Float.{Float, clamp}
use iptsd_android.Prelude.Act.{Act, ◌>>=◌, ◌>>◌, pure, modify, get, lift}
use iptsd_android.Ipts.Data.{Row, DftWindow, Metadata}
use iptsd_android.Core.Dft.{
  DftConfig, DftStylus, Method, row_at, component, add_u32, wrap_i32, same_group,
}
use iptsd_android.Core.Dft.Frequency.{interpolate_frequency}
use iptsd_android.Core.Dft.Position.{handle_position}

-- `value_or`
abbrev pub value_or : Option Bool → Bool → Bool
value_or none b = b
value_or (some a) b = a

abbrev pub is_some : Option ℕ → Bool
is_some none = false
is_some (some n) = true

abbrev pub pressure_rows : ℕ
pressure_rows = 6

-- The decision from the magnitudes of two rows, or none where both are too weak.
abbrev pub decide : (threshold a b : ℕ) → Option Bool
decide threshold a b = if ltb a threshold && ltb b threshold then none else some (ltb a b)

module _ {F : Type 0} ⦃fl : Float F⦄ where
  abbrev pub set_buttons : (button rubber : Bool) → DftStylus F → DftStylus F
  set_buttons button rubber s = record s {
    stylus = record s.stylus { button = button; rubber = rubber };
  }

  -- The phase of the button's signal against that of the position: the sign of an `i32`.
  abbrev pub phase : Row → Row → DftStylus F → ℤ
  phase x y s =
      let real = component x.real 4 +ℤ component y.real 4 in
      let imag = component x.imag 4 +ℤ component y.imag 4 in
      wrap_i32 (wrap_i32 (s.real *ℤ real) +ℤ wrap_i32 (s.imag *ℤ imag))

  unfoldable pub set_by_phase : Row → Row → DftStylus F → DftStylus F
  set_by_phase x y s = set_buttons (ltb_ℤ (phase x y s) (pos 0)) (ltb_ℤ (pos 0) (phase x y s)) s

  unfoldable pub set_pressure : (p : F) → DftStylus F → DftStylus F
  set_pressure p s =
      if fl.lt (fl.of_nat 0) p
      then record s {
        stylus = record s.stylus { contact = true; pressure = clamp p (fl.of_nat 0) (fl.of_nat 1) };
      }
      else record s {
        stylus = record s.stylus {
          contact = value_or s.mppv2_in_contact false;
          pressure = fl.of_nat 0;
        };
      }

  -- `dft.x[i].magnitude + dft.y[i].magnitude`
  unfoldable pub magnitude_at : DftWindow → ℕ → Act (DftStylus F) ℕ
  magnitude_at w i = do
    x ← lift (row_at w.x i)
    y ← lift (row_at w.y i)
    pure (add_u32 x.magnitude y.magnitude)

  -- The group is noted, and the last decision forgotten.
  abbrev pub start_group : Option ℕ → DftStylus F → DftStylus F
  start_group group s = record s { mppv2_binary_group = group; mppv2_button_or_eraser = none }

  abbrev pub forget_contact : DftStylus F → DftStylus F
  forget_contact s = record s { mppv2_in_contact = none }

module _ {F : Type 0} ⦃fl : Float F⦄ (config : DftConfig F) where
  -- Whether the first rows of both axes are stronger than the button's minimum.
  unfoldable pub is_strong : DftWindow → Act (DftStylus F) Bool
  is_strong w = do
    x ← lift (row_at w.x 0)
    if ltb config.button_min_mag x.magnitude
        then (do y ← lift (row_at w.y 0); pure (ltb config.button_min_mag y.magnitude))
        else pure false

  unfoldable pub handle_button : DftWindow → Method F
  handle_button w = do
    s ← get
    if length w.x == 0 || not (same_group s.group w.group) then pure tt else do
      strong ← is_strong w
      if value_or s.mppv2_button_or_eraser strong
          then (do x ← lift (row_at w.x 0); y ← lift (row_at w.y 0); modify (set_by_phase x y))
          else modify (set_buttons false false)

  unfoldable pub handle_pressure : DftWindow → Method F
  handle_pressure w = if ltb (length w.x) pressure_rows then pure tt else do
    q ← lift (interpolate_frequency config.freq_min_mag w pressure_rows)
    modify (set_pressure (fl.sub (fl.of_nat 1) q))

  abbrev pub decide_button : (mag_4 mag_5 : ℕ) → DftStylus F → DftStylus F
  decide_button mag_4 mag_5 s = record s {
    mppv2_button_or_eraser = decide (2 * config.mpp2_button_min_mag % u64_mod) mag_4 mag_5;
  }

  unfoldable pub handle_dft_binary_mpp_2 : DftWindow → Method F
  handle_dft_binary_mpp_2 w = do
    s ← get
    if leb (length w.x) 5 || (not (is_some w.group) || same_group s.mppv2_binary_group w.group)
        then pure tt
        else do
          modify (start_group w.group)
          mag_4 ← magnitude_at w 4
          mag_5 ← magnitude_at w 5
          modify (decide_button mag_4 mag_5)

  abbrev pub decide_contact : (mag_2 mag_3 : ℕ) → DftStylus F → DftStylus F
  decide_contact mag_2 mag_3 s = record s {
    mppv2_in_contact = decide (2 * config.mpp2_contact_min_mag % u64_mod) mag_2 mag_3;
  }

  unfoldable pub handle_position_mpp_2 : DftWindow → Method F
  handle_position_mpp_2 w = do
    modify forget_contact
    if leb (length w.x) 3 then pure tt else do
      mag_2 ← magnitude_at w 2
      mag_3 ← magnitude_at w 3
      modify (decide_contact mag_2 mag_3)

  -- The window by its type; every other type is ignored.
  unfoldable pub input : Option Metadata → DftWindow → Method F
  input metadata w =
      if w.type == 6
      then handle_position config metadata w
      else if w.type == 9
      then handle_button w
      else if w.type == 11
      then handle_pressure w
      else if w.type == 7
      then handle_position_mpp_2 w
      else if w.type == 10
      then handle_dft_binary_mpp_2 w
      else pure tt
