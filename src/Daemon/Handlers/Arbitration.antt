-- ===== src/Daemon/Handlers/Arbitration.antt =====
-- The kernel never sees the touchscreen and an active stylus at once, if the configuration says so.
use iptsd_android.Prelude.{
  ℕ, ◌≡◌, refl, inl, inr, Bool, true, false, not, ◌&&◌, Result, ok, err, arith, Bool-cases, subst,
  sym, List, [], ◌∷◌, All, if◌then◌else◌,
}
use iptsd_android.Prelude.Act.{Act, continue, each, ◌>>◌}
use iptsd_android.Prelude.Float.{Float}
use iptsd_android.Ipts.Data.{StylusData}
use iptsd_android.Contacts.Contact.{Contact}
use iptsd_android.Daemon.Input.{InputEvent, touching, pressed}
use iptsd_android.Daemon.Touch.Defs.{TouchDevice, enable}
use iptsd_android.Daemon.Touch.Defs as Touch
use iptsd_android.Daemon.Touch.Process.{IsEmittable}
use iptsd_android.Daemon.Touch.Lifts.{update-Inv, disable-Inv}
use iptsd_android.Daemon.Touch.Lifts as Lifts
use iptsd_android.Daemon.Stylus as Stylus
use iptsd_android.Daemon.Stylus.Keys.{IsWritable, update-AreKeys}
use iptsd_android.Daemon.Handlers.{
  Daemon, Call, contacts_call, stylus_call, on_touch_device, on_stylus_device, on_contacts,
  on_stylus, handle, handle_all,
}

-- The kernel takes no slot to be in use, and the touch key to be up.
abbrev pub IsQuiet : List InputEvent → Type 0
IsQuiet es = ((j : ℕ) → touching es j ≡ false) × (pressed es ≡ false)

-- A disabled touchscreen is quiet, and it is disabled while the stylus is active.
pub record Inv {F : Type 0} (d : Daemon F) : Type 0 where
  pub device : Lifts.Inv d.touch
  pub quiet : d.touch.enabled ≡ false → IsQuiet d.touch.written
  pub arbitrated :
      d.touch_disable_on_stylus ≡ true → d.stylus.active ≡ true → d.touch.enabled ≡ false

module _ {F : Type 0} ⦃fl : Float F⦄ where
  -- A call with data that can be written.
  abbrev pub IsHandled : Call F → Type 0
  IsHandled (contacts_call contacts) = All IsEmittable contacts
  IsHandled (stylus_call sample) = IsWritable sample

  -- A call that returned, with the invariant.
  abbrev Handled : Daemon F × Result (Unit {0}) → Type 0
  Handled out = (out.1 ≡ ok tt) × Inv out.0

  update_off :
      (contacts : List (Contact F)) (d : TouchDevice F)
      → d.enabled ≡ false
      → Touch.update contacts d ≡ (d, ok tt)
  unfolding Touch.update
  update_off contacts d off = ground arith

  pub enable-Inv : (d : TouchDevice F) → Lifts.Inv d → Lifts.Inv (enable d)
  unfolding enable
  enable-Inv d i = record {
    slots = i.slots;
    key = i.key;
    bounded = i.bounded;
    old_bounded = i.old_bounded;
  }

  if-Handled :
      (b : Bool) (m n : Act (Daemon F) (Unit {0})) (d : Daemon F)
      → (b ≡ true → Handled (m d))
      → (b ≡ false → Handled (n d))
      → Handled ((if b then m else n) d)
  if-Handled true m n d h k = h refl
  if-Handled false m n d h k = k refl

  -- The same with more to do behind the test.
  then-Handled :
      (b : Bool) (m n more : Act (Daemon F) (Unit {0})) (d : Daemon F)
      → (b ≡ true → Handled ((m >> more) d))
      → (b ≡ false → Handled ((n >> more) d))
      → Handled (((if b then m else n) >> more) d)
  then-Handled true m n more d h k = h refl
  then-Handled false m n more d h k = k refl

  update-Handled :
      (contacts : List (Contact F)) (d : Daemon F)
      → Inv d
      → All IsEmittable contacts
      → Handled (on_touch_device (Touch.update contacts) d)
  unfolding on_touch_device
  update-Handled contacts d i a = elim (Bool-cases d.touch.enabled) [
    | inl on ↦
        let (ran, inv, _, still) = update-Inv contacts d.touch on i.device a in
        (ran, record { device = inv; quiet = λ off. cc; arbitrated = λ p q. cc (i.arbitrated p q) })
    | inr off ↦
        subst (λ out. Handled (record d { touch = out.0 }, out.1))
          (sym (update_off contacts d.touch off)) (refl, i)
  ]

  on_contacts-Handled :
      (contacts : List (Contact F)) (d : Daemon F)
      → Inv d
      → All IsEmittable contacts
      → Handled (on_contacts contacts d)
  unfolding on_contacts enable
  on_contacts-Handled contacts d i a =
      if-Handled d.touch_disable _ _ d (λ skipped. (refl, i))
        λ used.
          then-Handled (d.touch_disable_on_stylus && not d.stylus.active && not d.touch.enabled) _ _
            _ d
            (λ woken.
              update-Handled contacts (record d { touch = enable d.touch })
                (record {
                  device = enable-Inv d.touch i.device;
                  quiet = λ off. cc;
                  arbitrated = λ p q. ground arith;
                })
                a)
            λ kept. update-Handled contacts d i a

  pub stylus_update-Handled :
      (sample : StylusData F) (d : Daemon F)
      → Inv d
      → IsWritable sample
      → (d.touch_disable_on_stylus ≡ true → d.touch.enabled ≡ false)
      → Handled (on_stylus_device (Stylus.update sample) d)
  unfolding on_stylus_device
  stylus_update-Handled sample d i w off =
      let (ran, _, _, _, _) = update-AreKeys sample d.stylus w in
      (ran, record { device = i.device; quiet = i.quiet; arbitrated = λ p q. off p })

  on_stylus-Handled :
      (sample : StylusData F) (d : Daemon F)
      → Inv d
      → IsWritable sample
      → Handled (on_stylus sample d)
  unfolding on_stylus on_touch_device
  on_stylus-Handled sample d i w =
      if-Handled d.stylus_disable _ _ d (λ skipped. (refl, i))
        λ used.
          then-Handled (d.touch_disable_on_stylus && d.touch.enabled) _ _ _ d
            (λ blocked.
              let (ran, inv, off, slots, key) = disable-Inv d.touch i.device in
              rw ran (
                stylus_update-Handled sample (record d { touch = (Touch.disable d.touch).0 })
                  (record { device = inv; quiet = λ _. (slots, key); arbitrated = λ p q. off }) w
                  λ p. off))
            λ kept. stylus_update-Handled sample d i w λ p. ground arith

  continue-Handled :
      (out : Daemon F × Result (Unit {0})) (more : Act (Daemon F) (Unit {0}))
      → Handled out
      → ((d : Daemon F) → Inv d → Handled (more d))
      → Handled (continue out (λ _. more))
  continue-Handled (d, ok a) more h k = k d h.1
  continue-Handled (d, err e) more h k = absurd (cc (h.0))

  -- For every sequence of contacts and stylus samples whose events can be written, the handlers
  -- return, and they keep the invariant: a disabled touchscreen has no slot in use and its touch key
  -- up, and if the touchscreen is to be disabled by the stylus, it is disabled while the stylus is
  -- active.
  pub handle_all-Inv :
      (calls : List (Call F)) (d : Daemon F)
      → Inv d
      → All IsHandled calls
      → ((handle_all calls d).1 ≡ ok tt) × Inv (handle_all calls d).0
  unfolding each
  handle_all-Inv [] d i a = (refl, i)
  handle_all-Inv (call ∷ calls) d i (h, a) =
      continue-Handled (handle call d) (handle_all calls) (handle-Handled call d i h)
        λ e inv. handle_all-Inv calls e inv a
    where
      handle-Handled : (c : Call F) (d : Daemon F) → Inv d → IsHandled c → Handled (handle c d)
      handle-Handled (contacts_call contacts) d i h = on_contacts-Handled contacts d i h
      handle-Handled (stylus_call sample) d i h = on_stylus-Handled sample d i h
