-- ===== src/Daemon/Handlers/Release.antt =====
-- The touchscreen comes back when the stylus is gone.
use iptsd_android.Prelude.{
  ◌≡◌, refl, Bool, true, false, not, ◌&&◌, Result, ok, err, arith, List, All, if◌then◌else◌, ◌∙◌,
}
use iptsd_android.Prelude.Act.{Act, continue, pure, modify, ◌>>◌}
use iptsd_android.Prelude.Float.{Float}
use iptsd_android.Ipts.Data.{StylusData}
use iptsd_android.Contacts.Contact.{Contact}
use iptsd_android.Daemon.Touch.Defs.{enable}
use iptsd_android.Daemon.Touch.Defs as Touch
use iptsd_android.Daemon.Touch.Process.{IsEmittable}
use iptsd_android.Daemon.Touch.Lifts.{update-Inv, disable-Inv}
use iptsd_android.Daemon.Stylus as Stylus
use iptsd_android.Daemon.Stylus.Keys.{IsWritable, update-AreKeys}
use iptsd_android.Daemon.Handlers.{
  Daemon, on_touch_device, on_stylus_device, on_contacts, on_stylus,
}
use iptsd_android.Daemon.Handlers.Arbitration.{Inv, enable-Inv, stylus_update-Handled}

bool_lem : (a b : Bool) → (if Stylus.bool_eq a b then false else false) ≡ false
bool_lem true true = refl
bool_lem true false = refl
bool_lem false true = refl
bool_lem false false = refl

module _ {F : Type 0} ⦃fl : Float F⦄ where
  if-branch :
      (Q : Daemon F × Result (Unit {0}) → Type 0) (b : Bool) (m n more : Act (Daemon F) (Unit {0}))
      (d : Daemon F)
      → (b ≡ true → Q ((m >> more) d))
      → (b ≡ false → Q ((n >> more) d))
      → Q (((if b then m else n) >> more) d)
  if-branch Q true m n more d h k = h refl
  if-branch Q false m n more d h k = k refl

  if-off :
      (Q : Daemon F × Result (Unit {0}) → Type 0) (b : Bool) (m n : Act (Daemon F) (Unit {0}))
      (d : Daemon F)
      → b ≡ false
      → Q (n d)
      → Q ((if b then m else n) d)
  if-off Q true m n d e h = cc
  if-off Q false m n d e h = h

  -- A call that returned with the stylus gone, the options as they were.
  pub record Gone (d : Daemon F) (out : Daemon F × Result (Unit {0})) : Type 0 where
    pub ran : out.1 ≡ ok tt
    pub inv : Inv out.0
    pub inactive : out.0.stylus.active ≡ false
    pub touch_option : out.0.touch_disable ≡ d.touch_disable
    pub stylus_option : out.0.touch_disable_on_stylus ≡ d.touch_disable_on_stylus

  update-Gone :
      (sample : StylusData F) (d : Daemon F)
      → Inv d
      → IsWritable sample
      → sample.proximity ≡ false
      → (d.touch_disable_on_stylus ≡ true → d.touch.enabled ≡ false)
      → Gone d (on_stylus_device (Stylus.update sample) d)
  unfolding on_stylus_device
  update-Gone sample d i w away off =
      let (ran, active, _, _, _) = update-AreKeys sample d.stylus w in
      let (_, inv) = stylus_update-Handled sample d i w off in
      record {
        ran = ran;
        inv = inv;
        inactive = active ∙ gone;
        touch_option = refl;
        stylus_option = refl;
      }
    where
      gone : Stylus.is_active sample d.stylus ≡ false
      gone = rw away (bool_lem d.stylus.last.rubber sample.rubber)

  on_stylus-Gone :
      (sample : StylusData F) (d : Daemon F)
      → Inv d
      → IsWritable sample
      → sample.proximity ≡ false
      → d.stylus_disable ≡ false
      → Gone d (on_stylus sample d)
  unfolding on_stylus on_touch_device
  on_stylus-Gone sample d i w away used =
      let blocks = d.touch_disable_on_stylus && d.touch.enabled in
      if-off (Gone d) d.stylus_disable (pure tt) _ d used (
        if-branch (Gone d) blocks (on_touch_device Touch.disable) (pure tt)
          (on_stylus_device (Stylus.update sample)) d
          (λ blocked.
            let (ran, inv, off, slots, key) = disable-Inv d.touch i.device in
            let e = record d { touch = (Touch.disable d.touch).0 } in
            let quiet : Inv e = record {
              device = inv;
              quiet = λ _. (slots, key);
              arbitrated = λ p q. off;
            } in
            let g = update-Gone sample e quiet w away (λ p. off) in
            rw ran (record {
              ran = g.ran;
              inv = g.inv;
              inactive = g.inactive;
              touch_option = g.touch_option;
              stylus_option = g.stylus_option;
            }))
          λ kept. update-Gone sample d i w away λ p. ground arith)

  -- Contacts that come in while the stylus is away.
  on_contacts-enabled :
      (contacts : List (Contact F)) (d : Daemon F)
      → Inv d
      → All IsEmittable contacts
      → d.touch_disable ≡ false
      → d.touch_disable_on_stylus ≡ true
      → d.stylus.active ≡ false
      → ((on_contacts contacts d).1 ≡ ok tt) × ((on_contacts contacts d).0.touch.enabled ≡ true)
  unfolding on_contacts on_touch_device enable
  on_contacts-enabled contacts d i a used option away =
      if-off (λ out. (out.1 ≡ ok tt) × (out.0.touch.enabled ≡ true)) d.touch_disable (pure tt) _ d
        used
        (if-branch (λ out. (out.1 ≡ ok tt) × (out.0.touch.enabled ≡ true))
          (d.touch_disable_on_stylus && not d.stylus.active && not d.touch.enabled)
          (modify (λ d'. record d' { touch = enable d'.touch })) (pure tt)
          (on_touch_device (Touch.update contacts)) d
          (λ woken.
            let u = update-Inv contacts (enable d.touch) refl (enable-Inv d.touch i.device) a in
            (u.0, u.3))
          λ kept.
            let on : d.touch.enabled ≡ true = ground (arith, kept, option, away) in
            let u = update-Inv contacts d.touch on i.device a in (u.0, u.3))

  after :
      (d : Daemon F) (out : Daemon F × Result (Unit {0})) (contacts : List (Contact F))
      → All IsEmittable contacts
      → d.touch_disable ≡ false
      → d.touch_disable_on_stylus ≡ true
      → Gone d out
      → let next = continue out (λ _. on_contacts contacts) in
        (next.1 ≡ ok tt) × (next.0.touch.enabled ≡ true)
  after d (e, ok done) contacts a used option g =
      on_contacts-enabled contacts e g.inv a (g.touch_option ∙ used) (g.stylus_option ∙ option)
        g.inactive
  after d (e, err thrown) contacts a used option g = absurd (cc (g.ran))

  -- Let the options have the stylus disable the touchscreen, and neither device disabled. From every
  -- state with the invariant, once a writable sample says that the stylus is away, the next frame of
  -- contacts that can be written finds the touchscreen enabled again, and both calls return.
  pub on_contacts-on_stylus :
      (sample : StylusData F) (contacts : List (Contact F)) (d : Daemon F)
      → Inv d
      → IsWritable sample
      → All IsEmittable contacts
      → sample.proximity ≡ false
      → d.stylus_disable ≡ false
      → d.touch_disable ≡ false
      → d.touch_disable_on_stylus ≡ true
      → let out = (on_stylus sample >> on_contacts contacts) d in
        (out.1 ≡ ok tt) × (out.0.touch.enabled ≡ true)
  on_contacts-on_stylus sample contacts d i w a away stylus_used used option =
      after d (on_stylus sample d) contacts a used option
        (on_stylus-Gone sample d i w away stylus_used)
