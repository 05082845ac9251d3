-- ===== src/Daemon/Touch/Process.antt =====
-- The loop of `TouchDevice::process` over the contacts of a frame.
use iptsd_android.Prelude.{
  ℕ, ◌^◌, ◌<◌, ◌≡◌, refl, ◌⊎◌, inl, inr, Bool, true, false, not, ◌||◌, none, some, List, [], ◌∷◌,
  All, ok, arith, ◌==◌, if◌then◌else◌, Bool-cases, Option-cases, any,
}
use iptsd_android.Prelude.Int.{pos, negsuc}
use iptsd_android.Prelude.Float.{Float}
use iptsd_android.Contacts.Contact.{Contact, or_true}
use iptsd_android.Daemon.Input.{InputEvent, event, touching, abs_mt_slot, abs_mt_tracking_id}
use iptsd_android.Daemon.Touch.Defs.{
  TouchDevice, is_lifted, process_indexed, process_contact, process_contacts,
}
use iptsd_android.Daemon.Touch.Emits.{
  wrote, IsRoundable, lift_multitouch_lem, emit_multitouch_lem, emit_singletouch_lem,
}

-- Whether a contact has a given index.
abbrev pub has_index : {F : Type 0} → ℕ → Contact F → Bool
has_index j c = elim c.index [ none ↦ false | some i ↦ i == j ]

-- A contact whose events can be written: its index and its coordinates fit an `i32`.
abbrev pub IsEmittable : {F : Type 0} ⦃fl : Float F⦄ → Contact F → Type 0
IsEmittable c = ((i : ℕ) → c.index ≡ some i → i < 2 ^ 31) × IsRoundable c

module _ {F : Type 0} ⦃fl : Float F⦄ where
  process_indexed_lem :
      (i : ℕ) (c : Contact F) (reset : Bool) (d : TouchDevice F)
      → i < 2 ^ 31
      → c.index ≡ some i
      → IsRoundable c
      → (ws : List InputEvent) × (b : Bool) × (process_indexed i c reset d ≡ (wrote d ws, ok b))
        × ((j : ℕ)
            → touching ws j ≡ (if i == j then not (is_lifted d.config c) else touching d.written j))
        × ((b ≡ false) → (reset ≡ false) ⊎ (d.single_index ≡ i))
  unfolding process_indexed
  process_indexed_lem i c reset d h e r = elim (Bool-cases (is_lifted d.config c)) [
    | inl gone ↦
        let ws : List InputEvent =
          event abs_mt_tracking_id (negsuc 0) ∷ event abs_mt_slot (pos i) ∷ d.written in
        (ws, reset, lifted gone, λ j. ground (arith, gone), λ f. inl f)
    | inr here ↦
        let (ws, run, touch, _) = emit_multitouch_lem i c d h e r in
        elim (Bool-cases (d.single_index == i)) [
          | inl single ↦
              let (ws₂, run₂, touch₂, _) = emit_singletouch_lem c (wrote d ws) r in
              (
                ws₂,
                false,
                rw (here, run, single, run₂) refl,
                λ j. ground (arith, here, touch j, touch₂ j),
                λ _. inr (ground arith),
              )
          | inr other ↦ (
            ws,
            reset,
            rw (here, run, other) refl,
            λ j. ground (arith, here, touch j),
            λ f. inl f,
          )
        ]
  ]
    where
      lifted :
          is_lifted d.config c ≡ true
          → process_indexed i c reset d ≡ (
            wrote d (event abs_mt_tracking_id (negsuc 0) ∷ event abs_mt_slot (pos i) ∷ d.written),
            ok reset,
          )
      lifted gone = elim (Bool-cases (d.single_index == i)) [
        | inl single ↦ rw (gone, lift_multitouch_lem i d h, single) refl
        | inr other ↦ rw (gone, lift_multitouch_lem i d h, other) refl
      ]

  -- What one contact does to the slots: nothing to those of other indices.
  process_contact_lem :
      (c : Contact F) (reset : Bool) (d : TouchDevice F)
      → IsEmittable c
      → (ws : List InputEvent) × (b : Bool) × (process_contact c reset d ≡ (wrote d ws, ok b))
        × ((j : ℕ) → touching ws j ≡ true → (touching d.written j || has_index j c) ≡ true)
        × ((b ≡ false) → (reset ≡ false) ⊎ (has_index d.single_index c ≡ true))
  unfolding process_contact
  process_contact_lem c reset d (fits, r) = elim (Option-cases c.index) [
    | inl e ↦ (d.written, reset, rw e refl, λ j t. ground arith, λ f. inl f)
    | inr (i, e) ↦ elim (Bool-cases (or_true c.stable)) [
      | inl stable ↦
          let (ws, b, run, touch, single) = process_indexed_lem i c reset d (fits i e) e r in
          (
            ws,
            b,
            ground (arith, run),
            λ j t. ground (arith, touch j),
            λ f. ground (arith, single f),
          )
      | inr unstable ↦ (d.written, reset, rw (e, unstable) refl, λ j t. ground arith, λ f. inl f)
    ]
  ]

  -- After the loop only slots of contacts of the frame, or such as were in use before, are in use.
  -- It clears `reset_singletouch` only if the frame has the singletouch contact.
  pub process_contacts_lem :
      (cs : List (Contact F)) (reset : Bool) (d : TouchDevice F)
      → All IsEmittable cs
      → (ws : List InputEvent) × (b : Bool) × (process_contacts cs reset d ≡ (wrote d ws, ok b))
        × ((j : ℕ) → touching ws j ≡ true → (touching d.written j || any (has_index j) cs) ≡ true)
        × ((b ≡ false) → (reset ≡ false) ⊎ (any (has_index d.single_index) cs ≡ true))
  unfolding process_contacts
  process_contacts_lem [] reset d a = (d.written, reset, refl, λ j t. ground arith, λ f. inl f)
  process_contacts_lem (c ∷ cs) reset d (a, as') =
      let (ws₁, b₁, run₁, touch₁, single₁) = process_contact_lem c reset d a in
      let (ws, b, run, touch, single) = process_contacts_lem cs b₁ (wrote d ws₁) as' in
      (
        ws,
        b,
        rw run₁ run,
        λ j t. ground (arith, touch j t, touch₁ j),
        λ f. ground (arith, single f, single₁),
      )
