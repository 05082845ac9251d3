-- ===== src/Daemon/Touch/Defs.antt =====
-- The state and the methods of `TouchDevice`.
use iptsd_android.Prelude.{
  ℕ, Bool, true, false, not, ◌&&◌, ◌||◌, Option, none, some, List, [], ◌∷◌, Result, any, ◌==◌, ltb,
  if◌then◌else◌,
}
use iptsd_android.Prelude.Int.{ℤ, pos, negsuc}
use iptsd_android.Prelude.Float.{Float, clamp}
use iptsd_android.Prelude.Act.{Act, ◌>>=◌, ◌>>◌, pure, modify, get, lift, each}
use iptsd_android.Contacts.Contact.{Contact, or_true}
use iptsd_android.Daemon.Input.{
  Code, InputEvent, event, index_i32, rounded, btn_touch, abs_x, abs_y, abs_mt_slot,
  abs_mt_tracking_id, abs_mt_position_x, abs_mt_position_y, abs_mt_orientation, abs_mt_touch_major,
  abs_mt_touch_minor, syn_report,
}

-- The configuration that the device reads.
pub record Config (F : Type 0) : Type 0 where
  pub touch_disable_on_palm : Bool
  pub touch_overshoot : F
  pub width : F
  pub height : F

pub record TouchDevice (F : Type 0) : Type 0 where
  pub config : Config F
  pub current : List ℕ
  pub last : List ℕ
  pub to_lift : List ℕ
  pub single_index : ℕ
  pub enabled : Bool
  pub written : List InputEvent

unfoldable pub init : {F : Type 0} → Config F → TouchDevice F
init config = record {
  config = config;
  current = [];
  last = [];
  to_lift = [];
  single_index = 0;
  enabled = true;
  written = [];
}

abbrev pub member : ℕ → List ℕ → Bool
member i = any λ j. j == i

-- `std::set::insert`
unfoldable pub insert : ℕ → List ℕ → List ℕ
insert i [] = i ∷ []
insert i (j ∷ js) =
    let later = j ∷ insert i js in if ltb i j then i ∷ j ∷ js else if j == i then j ∷ js else later

-- `std::set_difference`
unfoldable pub difference : List ℕ → List ℕ → List ℕ
difference [] ks = []
difference (j ∷ js) ks = let rest = difference js ks in if member j ks then rest else j ∷ rest

abbrev pub add_index : Option ℕ → List ℕ → List ℕ
add_index none s = s
add_index (some i) s = insert i s

-- The set of indices that `search_lifted` builds, on top of `s`.
unfoldable pub indices_into : {F : Type 0} → List ℕ → List (Contact F) → List ℕ
unfolding insert
indices_into s [] = s
indices_into s (contact ∷ contacts) = indices_into (add_index contact.index s) contacts

abbrev pub Method : Type 0 → Type 0
Method F = Act (TouchDevice F) (Unit {0})

abbrev pub index_or_0 : Option ℕ → ℕ
index_or_0 none = 0
index_or_0 (some i) = i

module _ {F : Type 0} where
  unfoldable pub emit : Code → ℤ → Method F
  emit code value = modify λ d. record d { written = event code value ∷ d.written }

  unfoldable pub search_lifted : List (Contact F) → Method F
  unfolding indices_into difference
  search_lifted contacts = modify λ d.
      let now = indices_into [] contacts in
      record d { current = now; last = d.current; to_lift = difference d.current now }

  unfoldable pub is_blocked : List (Contact F) → TouchDevice F → Bool
  is_blocked contacts d =
      d.config.touch_disable_on_palm && any (λ c. not (or_true c.valid)) contacts

  unfoldable pub lift_multitouch : ℕ → Method F
  lift_multitouch index = do
    i ← lift (index_i32 index)
    emit abs_mt_slot i
    emit abs_mt_tracking_id (negsuc 0)

  unfoldable pub lift_singletouch : Method F
  lift_singletouch = emit btn_touch (pos 0)

  unfoldable pub sync : Method F
  sync = emit syn_report (pos 0)

  -- One round of the loops of `lift_all`.
  unfoldable pub lift_slot : ℕ → Method F
  lift_slot index = do i ← lift (index_i32 index); emit abs_mt_slot i; lift_multitouch index

  unfoldable pub lift_all : Method F
  lift_all = do d ← get; each lift_slot d.current; each lift_slot d.last; lift_singletouch

  unfoldable pub disable : Method F
  disable = do
    modify λ d. record d { enabled = false }
    lift_all
    sync
    modify λ d. record d { current = []; last = []; to_lift = [] }

  unfoldable pub enable : TouchDevice F → TouchDevice F
  enable d = record d { enabled = true }

  unfoldable pub active : TouchDevice F → Bool
  active d = elim d.current [ [] ↦ false | i ∷ is ↦ true ]

module _ {F : Type 0} ⦃fl : Float F⦄ where
  open fl use {of_nat, neg, add, mul, div, lt, round_i32, max_coeff, min_coeff}

  -- A coordinate of a contact in units of the device.
  abbrev pub position : F → ℕ → Result ℤ
  position x units = rounded (mul (clamp x (of_nat 0) (of_nat 1)) (of_nat units))

  unfoldable pub emit_multitouch : Contact F → Method F
  emit_multitouch contact = do
    index ← lift (index_i32 (index_or_0 contact.index))
    x ← lift (position contact.mean_x 9600)
    y ← lift (position contact.mean_y 7200)
    angle ← lift (rounded (mul contact.orientation (of_nat 180)))
    major ← lift (rounded (mul (max_coeff contact.size_x contact.size_y) (of_nat 12000)))
    minor ← lift (rounded (mul (min_coeff contact.size_x contact.size_y) (of_nat 12000)))
    emit abs_mt_slot index
    emit abs_mt_tracking_id index
    emit abs_mt_position_x x
    emit abs_mt_position_y y
    emit abs_mt_orientation angle
    emit abs_mt_touch_major major
    emit abs_mt_touch_minor minor

  unfoldable pub emit_singletouch : Contact F → Method F
  emit_singletouch contact = do
    x ← lift (position contact.mean_x 9600)
    y ← lift (position contact.mean_y 7200)
    emit btn_touch (pos 1)
    emit abs_x x
    emit abs_y y

  -- Whether a contact is invalid, or outside of the screen by more than the overshoot.
  unfoldable pub is_lifted : Config F → Contact F → Bool
  is_lifted config contact =
      let ox = div config.touch_overshoot config.width in
      let oy = div config.touch_overshoot config.height in
      not (or_true contact.valid)
      || lt contact.mean_x (neg ox)
      || lt (add ox (of_nat 1)) contact.mean_x
      || lt contact.mean_y (neg oy)
      || lt (add oy (of_nat 1)) contact.mean_y

  -- One round of the first loop of `process`, from and to the value of `reset_singletouch`.
  unfoldable pub process_indexed : ℕ → Contact F → Bool → Act (TouchDevice F) Bool
  process_indexed index contact reset = do
    d ← get
    let gone = is_lifted d.config contact
    if gone then lift_multitouch index else emit_multitouch contact
    if d.single_index == index && not gone
        then (do emit_singletouch contact; pure false)
        else pure reset

  unfoldable pub process_contact : Contact F → Bool → Act (TouchDevice F) Bool
  process_contact contact reset = elim contact.index [
    | none ↦ pure reset
    | some index ↦
        if or_true contact.stable then process_indexed index contact reset else pure reset
  ]

  unfoldable pub process_contacts : List (Contact F) → Bool → Act (TouchDevice F) Bool
  process_contacts [] reset = pure reset
  process_contacts (contact ∷ contacts) reset = do
    reset' ← process_contact contact reset
    process_contacts contacts reset'

  -- The search for a new contact to emit as singletouch events.
  unfoldable pub next_single : ℕ → List (Contact F) → ℕ
  next_single single [] = single
  next_single single (contact ∷ contacts) =
      let later = next_single single contacts in
      elim contact.index [
        | none ↦ later
        | some index ↦
            if index == single then later else if or_true contact.valid then index else later
      ]

  unfoldable pub process : List (Contact F) → Method F
  unfolding next_single
  process contacts = do
    reset ← process_contacts contacts true
    d ← get
    each lift_multitouch d.to_lift
    if reset
        then (do
          lift_singletouch
          modify λ d'. record d' { single_index = next_single d'.single_index contacts })
        else pure tt

  unfoldable pub update_enabled : List (Contact F) → Method F
  update_enabled contacts = do
    search_lifted contacts
    d ← get
    if is_blocked contacts d then lift_all else process contacts
    sync

  unfoldable pub update : List (Contact F) → Method F
  update contacts = do d ← get; if d.enabled then update_enabled contacts else pure tt
