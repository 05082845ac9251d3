-- ===== src/Daemon/Stylus/Keys.antt =====
-- The keys that the kernel takes to be down after a sample of the stylus.
use iptsd_android.Prelude.{
  ◌≡◌, refl, inl, inr, Bool, true, false, not, ◌&&◌, ok, arith, Bool-cases, subst, sym, List,
}
use iptsd_android.Prelude.Int.{ℤ}
use iptsd_android.Prelude.Float.{Float}
use iptsd_android.Ipts.Data.{StylusData}
use iptsd_android.Daemon.Tilt.{calculate_tilt}
use iptsd_android.Daemon.Input.{
  InputEvent, rounded, switch, is_on, is_touch, is_pen, is_rubber, is_button, key_down,
}
use iptsd_android.Daemon.Stylus.{
  StylusDevice, emit, lift_stylus, sync, disable, emit_stylus, is_active, update,
}

-- The four keys are up or down as a sample says, if the stylus is active, and all up if it is not.
pub record AreKeys {F : Type 0} (active : Bool) (sample : StylusData F) (es : List InputEvent)
    : Type 0 where
  pub touch : key_down is_touch es ≡ (active && sample.contact)
  pub pen : key_down is_pen es ≡ (active && not sample.rubber)
  pub rubber : key_down is_rubber es ≡ (active && sample.rubber)
  pub button : key_down is_button es ≡ (active && sample.button)

switch_lem : (b : Bool) → is_on (switch b) ≡ b
switch_lem true = refl
switch_lem false = refl

module _ {F : Type 0} ⦃fl : Float F⦄ where
  -- A sample whose coordinates and tilt fit an `i32`.
  pub record IsWritable (sample : StylusData F) : Type 0 where
    pub tilt : (z : ℤ × ℤ) × (calculate_tilt sample.altitude sample.azimuth ≡ ok z)
    pub x : (z : ℤ) × (rounded (fl.mul sample.x (fl.of_nat 9600)) ≡ ok z)
    pub y : (z : ℤ) × (rounded (fl.mul sample.y (fl.of_nat 7200)) ≡ ok z)
    pub pressure : (z : ℤ) × (rounded (fl.mul sample.pressure (fl.of_nat 4096)) ≡ ok z)

  -- What an update comes to: the device stays as it was but for its state and the events written.
  abbrev Updated : StylusData F → StylusDevice F → Type 0
  Updated sample d =
      (es : List InputEvent) × (update sample d
        ≡ (record d { active = is_active sample d; last = sample; written = es }, ok tt))
      × AreKeys (is_active sample d) sample es

  update_active :
      (sample : StylusData F) (d : StylusDevice F)
      → is_active sample d ≡ true
      → IsWritable sample
      → Updated sample d
  unfolding update emit_stylus emit sync
  update_active sample d on w =
      let (t, et) = w.tilt in
      let (x, ex) = w.x in
      let (y, ey) = w.y in
      let (p, ep) = w.pressure in
      (
        (update sample d).0.written,
        rw (on, et, ex, ey, ep) refl,
        record {
          touch = rw (on, et, ex, ey, ep) (switch_lem sample.contact);
          pen = rw (on, et, ex, ey, ep) (switch_lem (not sample.rubber));
          rubber = rw (on, et, ex, ey, ep) (switch_lem sample.rubber);
          button = rw (on, et, ex, ey, ep) (switch_lem sample.button);
        },
      )

  update_inactive :
      (sample : StylusData F) (d : StylusDevice F) → is_active sample d ≡ false → Updated sample d
  unfolding update lift_stylus emit sync
  update_inactive sample d off = (
    (update sample d).0.written,
    rw off refl,
    record { touch = rw off refl; pen = rw off refl; rubber = rw off refl; button = rw off refl },
  )

  -- For a sample whose coordinates and tilt can be written, `update` returns, whatever the state of
  -- the device. The stylus is active after it if it is near and the tool is that of the sample before.
  -- Then the kernel takes exactly those keys to be down that the sample says, with one of the two
  -- tools; otherwise none. The sample is the last one then.
  pub update-AreKeys :
      (sample : StylusData F) (d : StylusDevice F)
      → IsWritable sample
      → let out = update sample d in
        (out.1 ≡ ok tt)
        × (out.0.active ≡ is_active sample d)
        × (out.0.last ≡ sample)
        × (out.0.enabled ≡ d.enabled)
        × AreKeys out.0.active sample out.0.written
  update-AreKeys sample d w =
      let (es, run, keys) = updated in
      subst
        (λ out.
          (out.1 ≡ ok tt)
          × (out.0.active ≡ is_active sample d)
          × (out.0.last ≡ sample)
          × (out.0.enabled ≡ d.enabled)
          × AreKeys out.0.active sample out.0.written)
        (sym run) (refl, ground arith, refl, refl, keys)
    where
      updated : Updated sample d
      updated = elim (Bool-cases (is_active sample d)) [
        | inl on ↦ update_active sample d on w
        | inr off ↦ update_inactive sample d off
      ]

module _ {F : Type 0} where
  -- Disabling the stylus returns, and leaves it inactive with all of its keys up.
  pub disable-AreKeys :
      (sample : StylusData F) (d : StylusDevice F)
      → let out = disable d in
        (out.1 ≡ ok tt)
        × (out.0.enabled ≡ false)
        × (out.0.active ≡ false)
        × AreKeys false sample out.0.written
  unfolding disable lift_stylus sync emit
  disable-AreKeys sample d =
      (refl, refl, refl, record { touch = refl; pen = refl; rubber = refl; button = refl })
