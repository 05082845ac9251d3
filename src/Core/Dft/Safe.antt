-- ===== src/Core/Dft/Safe.antt =====
-- The stylus stays valid through every sequence of windows, and no window is read out of bounds.
use iptsd_android.Prelude.{
  ℕ, ◌<◌, ◌≤◌, ◌≡◌, refl, Bool, true, false, not, ◌||◌, Option, List, All, length, arith, ltb, leb,
  ◌==◌, if◌then◌else◌, ltb-false,
}
use iptsd_android.Prelude.Float.{Float}
use iptsd_android.Prelude.Act.{Act, modify, each}
use iptsd_android.Ipts.Data.{DftWindow, Metadata}
use iptsd_android.Core.Dft.{DftConfig, DftStylus, same_group}
use iptsd_android.Core.Dft.Position.{
  extent, set_proximity, set_position, set_reference, interpolate_position, scaled, set_tilt, tilt,
  move_to, handle_position,
}
use iptsd_android.Core.Dft.Input.{
  start_group, forget_contact, decide_button, decide_contact, is_strong, set_buttons, set_by_phase,
  handle_button, set_pressure, handle_pressure, handle_dft_binary_mpp_2, handle_position_mpp_2,
  input, pressure_rows, is_some, value_or,
}
use iptsd_android.Core.Dft.Rules.{
  Returns, Holds, >>=-Holds, pure-Holds, modify-Holds, lift-Holds, if-Holds, each-Holds,
}
use iptsd_android.Core.Dft.Measured.{interpolate_frequency-Returns}
use iptsd_android.Core.Dft.Valid.{
  HasUnits, IsStylus, IsEven, HasExtent, extent-Returns, Valid, clamp-IsFractionOrNan,
  lift_dft-Holds, set_tilt-Valid, set_by_phase-Valid, set_pressure-Valid,
}
use iptsd_android.Core.Dft.Deciding.{row-Holds, deciding-Holds}

module _ {F : Type 0} ⦃fl : Float F⦄ (units : HasUnits F) (config : DftConfig F) where
  abbrev Keeps : {A : Type 0} → Act (DftStylus F) A → Type 0
  Keeps = Holds (Valid units)

  tilt-Keeps :
      (w : DftWindow) (width height : ℕ) (x y : F)
      → 1 < length w.x
      → 1 < length w.y
      → Keeps (tilt config w width height x y)
  unfolding tilt
  tilt-Keeps w width height x y hx hy = row-Holds (Valid units) w.x 1 _ hx λ x₁.
      if-Holds (Valid units) (ltb config.tilt_min_mag x₁.magnitude) _ _
        (λ _. row-Holds (Valid units) w.y 1 _ hy λ y₁.
          if-Holds (Valid units) (ltb config.tilt_min_mag y₁.magnitude) _ _
            (λ _.
              let xt = interpolate_position config x₁ in
              let yt = interpolate_position config y₁ in
              modify-Holds (Valid units) (set_tilt config width height x y xt yt)
                (set_tilt-Valid units config width height x y xt yt))
            λ _. pure-Holds (Valid units) tt)
        λ _. pure-Holds (Valid units) tt

  move_to-Keeps :
      (w : DftWindow) (width height : ℕ) (x y : F)
      → 1 < length w.x
      → 1 < length w.y
      → Keeps (move_to config w width height x y)
  unfolding move_to
  move_to-Keeps w width height x y hx hy =
      if-Holds (Valid units) (fl.is_nan x || fl.is_nan y) _ _ (λ _. lift_dft-Holds units)
        λ _ s i.
          let px = scaled config.invert_x width x in
          let py = scaled config.invert_y height y in
          let moved : Valid units (set_proximity s) = record {
            ends = i.ends;
            x = i.x;
            y = i.y;
            pressure = i.pressure;
          } in
          >>=-Holds (Valid units) (tilt config w width height px py)
            (λ _. modify (set_position px py)) (tilt-Keeps w width height px py hx hy)
            (λ _. modify-Holds (Valid units) (set_position px py) λ t j. record {
              ends = j.ends;
              x = clamp-IsFractionOrNan units px;
              y = clamp-IsFractionOrNan units py;
              pressure = j.pressure;
            })
            (set_proximity s) moved

  -- A branch of a test.
  abbrev on :
      {A : Type 0} (b : Bool) (m n : Act (DftStylus F) A)
      → (b ≡ true → Keeps m)
      → (b ≡ false → Keeps n)
      → Keeps (if b then m else n)
  on = if-Holds (Valid units)

  handle_position-Keeps :
      (metadata : Option Metadata) (w : DftWindow)
      → HasExtent metadata
      → IsEven w
      → Keeps (handle_position config metadata w)
  unfolding handle_position
  handle_position-Keeps metadata w hm even =
      on (leb (length w.x) 1) _ _ (λ _. lift_dft-Holds units)
        λ e.
          let hx : 1 < length w.x = ground (arith, e) in
          let hy : 1 < length w.y = omega (arith, hx, even) in
          row-Holds (Valid units) w.x 0 _ (omega (arith, hx)) λ x₀.
            on (leb x₀.magnitude config.position_min_mag) _ _ (λ _. lift_dft-Holds units)
              λ _. row-Holds (Valid units) w.y 0 _ (omega (arith, hy)) λ y₀.
                on (leb y₀.magnitude config.position_min_mag) _ _ (λ _. lift_dft-Holds units)
                  λ _.
                    >>=-Holds (Valid units) _ _
                      (lift-Holds (Valid units) (extent metadata w) (extent-Returns metadata w hm))
                      λ size s i.
                        move_to-Keeps w size.0 size.1 (interpolate_position config x₀)
                          (interpolate_position config y₀) hx hy (set_reference w.group x₀ y₀ s)
                          (record { ends = i.ends; x = i.x; y = i.y; pressure = i.pressure })

  handle_button-Keeps : (w : DftWindow) → IsEven w → Keeps (handle_button config w)
  unfolding handle_button is_strong
  handle_button-Keeps w even s₀ i₀ =
      on (length w.x == 0 || not (same_group s₀.group w.group)) _ _
        (λ _. pure-Holds (Valid units) tt)
        (λ e.
          let hx : 0 < length w.x = ground (arith, e) in
          let hy : 0 < length w.y = omega (arith, hx, even) in
          >>=-Holds (Valid units) _ _
            (row-Holds (Valid units) w.x 0 _ hx λ x.
              on (ltb config.button_min_mag x.magnitude) _ _
                (λ _.
                  row-Holds (Valid units) w.y 0 _ hy
                    λ y. pure-Holds (Valid units) (ltb config.button_min_mag y.magnitude))
                λ _. pure-Holds (Valid units) false)
            λ strong.
              on (value_or s₀.mppv2_button_or_eraser strong) _ _
                (λ _. row-Holds (Valid units) w.x 0 _ hx λ x.
                  row-Holds (Valid units) w.y 0 _ hy λ y.
                    modify-Holds (Valid units) (set_by_phase x y) (set_by_phase-Valid units x y))
                λ _.
                  modify-Holds (Valid units) (set_buttons false false)
                    λ s i. record { ends = refl; x = i.x; y = i.y; pressure = i.pressure })
        s₀ i₀

  handle_pressure-Keeps : (w : DftWindow) → IsEven w → Keeps (handle_pressure config w)
  unfolding handle_pressure
  handle_pressure-Keeps w even =
      on (ltb (length w.x) pressure_rows) _ _ (λ _. pure-Holds (Valid units) tt)
        λ e.
          let hx : pressure_rows ≤ length w.x = ltb-false _ _ e in
          >>=-Holds (Valid units) _ _
            (lift-Holds (Valid units) _ (
              interpolate_frequency-Returns w config.freq_min_mag pressure_rows (omega arith) hx
                (omega (arith, hx, even))))
            λ q.
              modify-Holds (Valid units) (set_pressure (fl.sub (fl.of_nat 1) q))
                (set_pressure-Valid units (fl.sub (fl.of_nat 1) q))

  handle_dft_binary_mpp_2-Keeps :
      (w : DftWindow) → IsEven w → Keeps (handle_dft_binary_mpp_2 config w)
  unfolding handle_dft_binary_mpp_2
  handle_dft_binary_mpp_2-Keeps w even s₀ i₀ =
      on (leb (length w.x) 5 || (not (is_some w.group) || same_group s₀.mppv2_binary_group w.group))
        _ _ (λ _. pure-Holds (Valid units) tt)
        (λ e s i.
          let h : 5 < length w.x = ground (arith, e) in
          deciding-Holds (Valid units) w 4 5 (decide_button config) even (omega (arith, h)) h
            (λ a b t j. j) (start_group w.group s) i)
        s₀ i₀

  handle_position_mpp_2-Keeps : (w : DftWindow) → IsEven w → Keeps (handle_position_mpp_2 config w)
  unfolding handle_position_mpp_2
  handle_position_mpp_2-Keeps w even s₀ i₀ =
      on (leb (length w.x) 3) _ _ (λ _. pure-Holds (Valid units) tt)
        (λ e.
          let h : 3 < length w.x = ground (arith, e) in
          deciding-Holds (Valid units) w 2 3 (decide_contact config) even (omega (arith, h)) h
            λ a b t j. j)
        (forget_contact s₀) i₀

  pub input-Keeps :
      (metadata : Option Metadata) (w : DftWindow)
      → HasExtent metadata
      → IsEven w
      → Keeps (input config metadata w)
  unfolding input
  input-Keeps metadata w hm even =
      on (w.type == 6) _ _ (λ _. handle_position-Keeps metadata w hm even)
        λ _.
          on (w.type == 9) _ _ (λ _. handle_button-Keeps w even)
            λ _.
              on (w.type == 11) _ _ (λ _. handle_pressure-Keeps w even)
                λ _.
                  on (w.type == 7) _ _ (λ _. handle_position_mpp_2-Keeps w even)
                    λ _.
                      on (w.type == 10) _ _ (λ _. handle_dft_binary_mpp_2-Keeps w even)
                        λ _. pure-Holds (Valid units) tt

  -- Let `<` and `<=` be as IEEE 754 has them, let every window of a sequence have as many rows on both axes,
  -- and let the metadata of the device, if it has any, count less than 256 rows and columns. Then
  -- the windows are processed without an exception or a read out of bounds. A stylus whose button and
  -- rubber are not both held, with a pressure from 0 to 1 that is no NaN and with coordinates that
  -- are from 0 to 1 or NaN, stays so.
  pub each-input :
      (metadata : Option Metadata) (windows : List DftWindow) (s : DftStylus F)
      → HasExtent metadata
      → All IsEven windows
      → IsStylus F s.stylus
      → IsStylus F (each (input config metadata) windows s).0.stylus
        × Returns (each (input config metadata) windows s).1
  each-input metadata windows s hm even i =
      each-Holds (Valid units) IsEven (input config metadata) windows
        (λ w h. input-Keeps metadata w hm h) even s i
