-- ===== src/Daemon/Touch/Lifts.antt =====
-- No contact stays behind: what the kernel takes for a touch is a contact of the last frame.
use iptsd_android.Prelude.{
  ℕ, ◌≡◌, refl, sym, inl, inr, true, false, not, ◌&&◌, ◌||◌, List, [], ◌∷◌, All, ok, arith,
  Bool-cases, Option-cases, any, subst, ◌∙◌,
}
use iptsd_android.Prelude.Float.{Float}
use iptsd_android.Prelude.Int.{pos}
use iptsd_android.Contacts.Contact.{Contact}
use iptsd_android.Daemon.Input.{InputEvent, event, touching, pressed, btn_touch, syn_report}
use iptsd_android.Daemon.Touch.Defs.{
  TouchDevice, add_index, member, difference, indices_into, emit, search_lifted, is_blocked,
  lift_singletouch, sync, disable, next_single, process, update_enabled, update,
}
use iptsd_android.Daemon.Touch.Emits.{
  wrote, IsBounded, member-insert, member-difference, insert-IsBounded, difference-IsBounded,
  each-lift_multitouch, lift_all_lem,
}
use iptsd_android.Daemon.Touch.Process.{has_index, IsEmittable, process_contacts_lem}

-- The slots and the touch key that the kernel takes to be in use belong to the current contacts.
pub record Inv {F : Type 0} (d : TouchDevice F) : Type 0 where
  pub slots : (j : ℕ) → touching d.written j ≡ true → member j d.current ≡ true
  pub key : pressed d.written ≡ true → member d.single_index d.current ≡ true
  pub bounded : IsBounded d.current
  pub old_bounded : IsBounded d.last

module _ {F : Type 0} ⦃fl : Float F⦄ where
  member-add_index :
      (j : ℕ) (c : Contact F) (s : List ℕ)
      → member j (add_index c.index s) ≡ (member j s || has_index j c)
  member-add_index j c s = elim (Option-cases c.index) [
    | inl e ↦ ground arith
    | inr (i, e) ↦ ground (arith, member-insert j i s)
  ]

  member-indices_into :
      (j : ℕ) (s : List ℕ) (cs : List (Contact F))
      → member j (indices_into s cs) ≡ (member j s || any (has_index j) cs)
  unfolding indices_into
  member-indices_into j s [] = ground arith
  member-indices_into j s (c ∷ cs) =
      ground (arith, member-indices_into j (add_index c.index s) cs, member-add_index j c s)

  add_index-IsBounded :
      (c : Contact F) (s : List ℕ) → IsEmittable c → IsBounded s → IsBounded (add_index c.index s)
  add_index-IsBounded c s (fits, _) b = elim (Option-cases c.index) [
    | inl e ↦ rw e b
    | inr (i, e) ↦ rw e (insert-IsBounded i s (fits i e) b)
  ]

  indices_into-IsBounded :
      (s : List ℕ) (cs : List (Contact F))
      → IsBounded s
      → All IsEmittable cs
      → IsBounded (indices_into s cs)
  unfolding indices_into
  indices_into-IsBounded s [] b a = b
  indices_into-IsBounded s (c ∷ cs) b (e, a) =
      indices_into-IsBounded (add_index c.index s) cs (add_index-IsBounded c s e b) a

  process_lem :
      (cs : List (Contact F)) (d : TouchDevice F)
      → All IsEmittable cs
      → IsBounded d.to_lift
      → ((j : ℕ) → touching d.written j ≡ true → (member j d.current || member j d.to_lift) ≡ true)
      → ((j : ℕ) → any (has_index j) cs ≡ true → member j d.current ≡ true)
      → (ws : List InputEvent) × (k : ℕ) × (process cs d
          ≡ (record d { written = ws; single_index = k }, ok tt))
        × ((j : ℕ) → touching ws j ≡ true → (member j d.current && not (member j d.to_lift)) ≡ true)
        × (pressed ws ≡ true → member k d.current ≡ true)
  unfolding process lift_singletouch emit
  process_lem cs d a b old new =
      let (ws₁, reset, run₁, touch₁, single) = process_contacts_lem cs true d a in
      let (ws₂, run₂, touch₂, key₂) = each-lift_multitouch d.to_lift (wrote d ws₁) b in
      elim (Bool-cases reset) [
        | inl yes_reset ↦ (
          event btn_touch (pos 0) ∷ ws₂,
          next_single d.single_index cs,
          rw (run₁, run₂, yes_reset) refl,
          λ j t. ground (arith, touch₂ j, touch₁ j, old j, new j),
          λ p. cc,
        )
        | inr no_reset ↦ (
          ws₂,
          d.single_index,
          rw (run₁, run₂, no_reset) refl,
          λ j t. ground (arith, touch₂ j, touch₁ j, old j, new j),
          λ p. ground (arith, single no_reset, new d.single_index),
        )
      ]

  update_enabled_lem :
      (cs : List (Contact F)) (d : TouchDevice F)
      → Inv d
      → All IsEmittable cs
      → (e : TouchDevice F) × (update_enabled cs d ≡ (e, ok tt))
        × (e.current ≡ indices_into [] cs)
        × (e.enabled ≡ d.enabled)
        × Inv e
  unfolding update_enabled search_lifted sync emit
  update_enabled_lem cs d i a =
      let now = indices_into [] cs in
      let d₁ : TouchDevice F = record d {
        current = now;
        last = d.current;
        to_lift = difference d.current now;
      } in
      let fits : IsBounded now = indices_into-IsBounded [] cs tt a in
      elim (Bool-cases (is_blocked cs d₁)) [
        | inl blocked ↦
            let (ws, run, touch, key) = lift_all_lem d₁ fits i.bounded in
            (
              wrote d₁ (event syn_report (pos 0) ∷ ws),
              rw (blocked, run) refl,
              refl,
              refl,
              record {
                slots = λ j t. ground (arith, touch j, i.slots j);
                key = λ p. ground (arith, key);
                bounded = fits;
                old_bounded = i.bounded;
              },
            )
        | inr free ↦
            let (ws, k, run, touch, key) =
              process_lem cs d₁ a (difference-IsBounded d.current now i.bounded)
                (λ j t. ground (arith, i.slots j, member-difference j d.current now))
                (λ j h. ground (arith, member-indices_into j [] cs)) in
            (
              record d₁ { written = event syn_report (pos 0) ∷ ws; single_index = k },
              rw (free, run) refl,
              refl,
              refl,
              record {
                slots = λ j t. ground (arith, touch j t);
                key = λ p. key p;
                bounded = fits;
                old_bounded = i.bounded;
              },
            )
      ]

  -- For contacts whose events can be written, `update` of an enabled device returns. If the invariant
  -- held before, it holds after: each slot that the kernel takes to be in use is that of a current
  -- contact, and the touch key is down only if the singletouch index is that of a current contact.
  -- The current contacts are then exactly those passed in, by index, and the device stays enabled.
  pub update-Inv :
      (cs : List (Contact F)) (d : TouchDevice F)
      → d.enabled ≡ true
      → Inv d
      → All IsEmittable cs
      → ((update cs d).1 ≡ ok tt)
        × Inv (update cs d).0
        × ((j : ℕ) → member j (update cs d).0.current ≡ any (has_index j) cs)
        × ((update cs d).0.enabled ≡ true)
  unfolding update
  update-Inv cs d on i a =
      let (e, run, current, same, inv) = update_enabled_lem cs d i a in
      let whole : update cs d ≡ (e, ok tt) = ground (arith, on, run) in
      subst
        (λ out.
          (out.1 ≡ ok tt)
          × Inv out.0
          × ((j : ℕ) → member j out.0.current ≡ any (has_index j) cs)
          × (out.0.enabled ≡ true))
        (sym whole) (refl, inv, λ j. rw current (member-indices_into j [] cs), same ∙ on)

module _ {F : Type 0} where
  -- If the invariant holds, disabling the device returns and keeps it. The device is disabled then,
  -- and the kernel takes no slot to be in use and the touch key to be up.
  pub disable-Inv :
      (d : TouchDevice F)
      → Inv d
      → let out = disable d in
        (out.1 ≡ ok tt)
        × Inv out.0
        × (out.0.enabled ≡ false)
        × ((j : ℕ) → touching out.0.written j ≡ false)
        × (pressed out.0.written ≡ false)
  unfolding disable sync emit
  disable-Inv d i =
      let d₁ : TouchDevice F = record d { enabled = false } in
      let (ws, run, touch, key) = lift_all_lem d₁ i.bounded i.old_bounded in
      let lifted : (j : ℕ) → touching ws j ≡ false = λ j. ground (arith, touch j, i.slots j) in
      rw run (
        refl,
        record {
          slots = λ j t. ground (arith, lifted j);
          key = λ p. ground (arith, key);
          bounded = tt;
          old_bounded = tt;
        },
        refl,
        lifted,
        key,
      )
