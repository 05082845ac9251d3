-- ===== src/Contacts/Validation/Sticky.antt =====
-- An invalid contact stays invalid.
use iptsd_android.Prelude.{
  ℕ, ◌≡◌, refl, Bool, true, false, not, Option, none, some, List, [], ◌∷◌, arith, if◌then◌else◌,
}
use iptsd_android.Prelude.Float.{Float}
use iptsd_android.Contacts.Contact.{Contact, or_true, index_is, index_is→eq, find_in_frame}
use iptsd_android.Contacts.Validation.{Validator, check_temporal, check_contact, checked, validate}

abbrev pub invalid_contact : {F : Type 0} → Option (Contact F) → Bool
invalid_contact none = false
invalid_contact (some c) = not (or_true c.valid)

abbrev pub stable_contact : {F : Type 0} → Option (Contact F) → Bool
stable_contact none = false
stable_contact (some c) = or_true c.stable

-- Whether the first contact of this index is in the frame, and was found invalid.
abbrev pub is_invalid : {F : Type 0} → ℕ → List (Contact F) → Bool
is_invalid i frame = invalid_contact (find_in_frame i frame)

-- Whether the first contact of this index is in the frame, and is stable.
abbrev pub is_stable : {F : Type 0} → ℕ → List (Contact F) → Bool
is_stable i frame = stable_contact (find_in_frame i frame)

module _ {F : Type 0} ⦃fl : Float F⦄ where
  check_temporal-false :
      (v : Validator F) (i : ℕ) (c : Contact F)
      → c.index ≡ some i
      → is_invalid i v.last ≡ true
      → check_temporal v c ≡ false
  unfolding check_temporal
  check_temporal-false v i c e h = rw e (go (find_in_frame i v.last) h)
    where
      go :
          (m : Option (Contact F))
          → invalid_contact m ≡ true
          → elim m [ none ↦ true | some last ↦ or_true last.valid ] ≡ false
      go none h = absurd (cc h)
      go (some last) h = ground arith

  check_contact-false :
      (v : Validator F) (c : Contact F)
      → v.config.track_validity ≡ true
      → or_true c.stable ≡ true
      → check_temporal v c ≡ false
      → check_contact v c ≡ false
  unfolding check_contact
  check_contact-false v c t s h = ground arith

  checked-is_invalid :
      (v : Validator F) (i : ℕ) (frame : List (Contact F))
      → v.config.track_validity ≡ true
      → is_invalid i v.last ≡ true
      → is_stable i frame ≡ true
      → is_invalid i (checked v frame) ≡ true
  unfolding checked find_in_frame
  checked-is_invalid v i [] t h s = cc
  checked-is_invalid v i (c ∷ frame) t h s =
      let hit : index_is i c.index ≡ true → or_true c.stable ≡ true → check_contact v c ≡ false =
        λ e f.
          check_contact-false v c t f (check_temporal-false v i c (index_is→eq i c.index e) h) in
      choose (index_is i c.index) s hit (checked-is_invalid v i frame t h)
    where
      choose :
          (b : Bool)
          → stable_contact (if b then some c else find_in_frame i frame) ≡ true
          → (b ≡ true → or_true c.stable ≡ true → check_contact v c ≡ false)
          → (is_stable i frame ≡ true → is_invalid i (checked v frame) ≡ true)
          → invalid_contact (
              if b
              then some (record c { valid = some (check_contact v c) })
              else find_in_frame i (checked v frame))
            ≡ true
      choose true f hit later = ground (arith, hit refl f)
      choose false f hit later = later f

  -- With `track_validity`, a contact that was found invalid in the last frame is found invalid in
  -- this one if it is in it, by its index, and stable. This frame is then the one that is remembered.
  pub validate-is_invalid :
      (v : Validator F) (i : ℕ) (frame : List (Contact F))
      → v.config.track_validity ≡ true
      → is_invalid i v.last ≡ true
      → is_stable i frame ≡ true
      → let out = validate frame v in
        (is_invalid i out.0 ≡ true) × (out.1.last ≡ out.0) × (out.1.config ≡ v.config)
  unfolding validate
  validate-is_invalid v i frame t h s = (checked-is_invalid v i frame t h s, refl, refl)
