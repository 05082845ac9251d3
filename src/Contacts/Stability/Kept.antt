-- ===== src/Contacts/Stability/Kept.antt =====
-- What stabilizing a frame keeps of its contacts.
use iptsd_android.Prelude.{
  ℕ, ◌≡◌, refl, ◌⊎◌, inl, inr, Bool, true, false, Option, none, some, List, [], ◌∷◌, ap, subst, sym,
  ◌∙◌, Bool-cases, Option-cases, if◌then◌else◌,
}
use iptsd_android.Prelude.Float.{Float}
use iptsd_android.Contacts.Contact.{Contact, index_is, index_is→eq, find_in_frame}
use iptsd_android.Contacts.Stability.{
  Threshold, Stabilizer, stabilize_position, stabilize_against, stabilize_contact, stabilized,
  stabilize,
}

-- The position of one contact is that of another.
abbrev pub IsAt : {F : Type 0} → Contact F → Contact F → Type 0
IsAt a b = (a.mean_x ≡ b.mean_x) × (a.mean_y ≡ b.mean_y)

-- How far a contact is from another.
abbrev pub distance : {F : Type 0} → ⦃fl : Float F⦄ → (c l : Contact F) → F
distance ⦃fl⦄ c l = fl.hypot (fl.sub c.mean_x l.mean_x) (fl.sub c.mean_y l.mean_y)

-- Where a contact `c` comes out as `d`, and whether it is stable, by the threshold and the contact of its
-- index in the last frame. Without one of these it stays where it is. Below the slow threshold it is
-- put back to its last position, above the fast one it is unstable.
pub data Moved {F : Type 0} ⦃fl : Float F⦄ (threshold : Option (Threshold F))
    (last : Option (Contact F)) (c d : Contact F) : Type 0 where
  free :
      (threshold ≡ none) ⊎ (last ≡ none)
      → IsAt d c
      → d.stable ≡ some true
      → Moved threshold last c d
  slow :
      (t : Threshold F) (l : Contact F)
      → threshold ≡ some t
      → last ≡ some l
      → fl.lt (distance c l) t.x ≡ true
      → IsAt d l
      → d.stable ≡ some true
      → Moved threshold last c d
  fast :
      (t : Threshold F) (l : Contact F)
      → threshold ≡ some t
      → last ≡ some l
      → fl.lt (distance c l) t.x ≡ false
      → fl.lt t.y (distance c l) ≡ true
      → IsAt d c
      → d.stable ≡ some false
      → Moved threshold last c d
  between :
      (t : Threshold F) (l : Contact F)
      → threshold ≡ some t
      → last ≡ some l
      → fl.lt (distance c l) t.x ≡ false
      → fl.lt t.y (distance c l) ≡ false
      → IsAt d c
      → d.stable ≡ some true
      → Moved threshold last c d

-- How a contact `c` comes out as `d`: all but its position and its stability stays.
pub record Kept {F : Type 0} ⦃fl : Float F⦄ (threshold : Option (Threshold F))
    (last : Option (Contact F)) (c d : Contact F) : Type 0 where
  pub index : d.index ≡ c.index
  pub size : (d.size_x ≡ c.size_x) × (d.size_y ≡ c.size_y)
  pub orientation : d.orientation ≡ c.orientation
  pub valid : d.valid ≡ c.valid
  pub moved : Moved threshold last c d

found_lem :
    {A : Type 0}
    → (m : Bool) (b : A) (rest : Option A) (c : A) → m ≡ true
    → (if m then some b else rest) ≡ some c
    → b ≡ c
found_lem true b rest c h e = cc
found_lem false b rest c h e = cc

missed_lem :
    {A : Type 0}
    → (m : Bool) (b : A) (rest : Option A) (c : A) → m ≡ false
    → (if m then some b else rest) ≡ some c
    → rest ≡ some c
missed_lem true b rest c h e = cc
missed_lem false b rest c h e = e

module _ {F : Type 0} ⦃fl : Float F⦄ where
  -- The contact that `stabilize_contact` has marked as stable.
  abbrev marked : Contact F → Contact F
  marked c = record c { stable = some true }

  stabilize_position-Kept :
      (t : Threshold F) (c l : Contact F)
      → Kept (some t) (some l) c (stabilize_position t (marked c) l)
  unfolding stabilize_position
  stabilize_position-Kept t c l = go (fl.lt (distance c l) t.x) (fl.lt t.y (distance c l)) refl refl
    where
      go :
          (below above : Bool)
          → fl.lt (distance c l) t.x ≡ below
          → fl.lt t.y (distance c l) ≡ above
          → Kept (some t) (some l) c (
              if below
              then record (marked c) { mean_x = l.mean_x; mean_y = l.mean_y }
              else if above
              then record (marked c) { stable = some false }
              else marked c)
      go true above e f = record {
        index = refl;
        size = (refl, refl);
        orientation = refl;
        valid = refl;
        moved = slow t l refl refl e (refl, refl) refl;
      }
      go false true e f = record {
        index = refl;
        size = (refl, refl);
        orientation = refl;
        valid = refl;
        moved = fast t l refl refl e f (refl, refl) refl;
      }
      go false false e f = record {
        index = refl;
        size = (refl, refl);
        orientation = refl;
        valid = refl;
        moved = between t l refl refl e f (refl, refl) refl;
      }

  free-Kept :
      (threshold : Option (Threshold F)) (last : Option (Contact F)) (c : Contact F)
      → (threshold ≡ none) ⊎ (last ≡ none)
      → Kept threshold last c (marked c)
  free-Kept threshold last c h = record {
    index = refl;
    size = (refl, refl);
    orientation = refl;
    valid = refl;
    moved = free h (refl, refl) refl;
  }

  stabilize_against-Kept :
      (s : Stabilizer F) (last : Option (Contact F)) (c : Contact F)
      → Kept s.position_threshold last c (stabilize_against s last (marked c))
  unfolding stabilize_against
  stabilize_against-Kept s none c = free-Kept s.position_threshold none c (inr refl)
  stabilize_against-Kept s (some l) c = go s.position_threshold
    where
      go :
          (m : Option (Threshold F))
          → Kept m
              (some l)
              c
              (elim m [ none ↦ marked c | some t ↦ stabilize_position t (marked c) l ])
      go none = free-Kept none (some l) c (inl refl)
      go (some t) = stabilize_position-Kept t c l

  -- What happens to a contact, by its index.
  by_index : Stabilizer F → Contact F → Option ℕ → Contact F
  by_index s c none = c
  by_index s c (some i) = stabilize_against s (find_in_frame i s.last) (marked c)

  stabilize_contact-by_index :
      (s : Stabilizer F) (c : Contact F) (m : Option ℕ)
      → c.index ≡ m
      → stabilize_contact s c ≡ by_index s c m
  unfolding stabilize_contact by_index
  stabilize_contact-by_index s c none e =
      ap
        (λ m. elim m [
          | none ↦ c
          | some i ↦ stabilize_against s (find_in_frame i s.last) (marked c)
        ])
        e
  stabilize_contact-by_index s c (some j) e =
      ap
        (λ m. elim m [
          | none ↦ c
          | some i ↦ stabilize_against s (find_in_frame i s.last) (marked c)
        ])
        e

  stabilize_contact-index :
      (s : Stabilizer F) (c : Contact F) → (stabilize_contact s c).index ≡ c.index
  unfolding by_index
  stabilize_contact-index s c = elim (Option-cases c.index) [
    | inl e ↦ ap (λ d. d.index) (stabilize_contact-by_index s c none e)
    | inr (i, e) ↦
        ap (λ d. d.index) (stabilize_contact-by_index s c (some i) e)
        ∙ (stabilize_against-Kept s (find_in_frame i s.last) c).index
  ]

  stabilize_contact-Kept :
      (s : Stabilizer F) (i : ℕ) (c : Contact F)
      → c.index ≡ some i
      → Kept s.position_threshold (find_in_frame i s.last) c (stabilize_contact s c)
  unfolding by_index
  stabilize_contact-Kept s i c e =
      subst (Kept s.position_threshold (find_in_frame i s.last) c)
        (sym (stabilize_contact-by_index s c (some i) e))
        (stabilize_against-Kept s (find_in_frame i s.last) c)

  -- A contact of the frame, by its index, is still there with that index once the frame has been
  -- stabilized, with its size, orientation and validity. Without a threshold, or without a contact of
  -- that index in the last frame, it is stable where it is. Otherwise the distance to the last one
  -- decides: less than the slow threshold, and it is stable at the last position; else more than the
  -- fast threshold, and it is unstable where it is; else it is stable where it is.
  pub stabilize-Kept :
      (s : Stabilizer F) (i : ℕ) (frame : List (Contact F)) (c : Contact F)
      → find_in_frame i frame ≡ some c
      → (d : Contact F) × (find_in_frame i (stabilize frame s).0 ≡ some d)
        × Kept s.position_threshold (find_in_frame i s.last) c d
  unfolding stabilize find_in_frame stabilized
  stabilize-Kept s i [] c e = cc
  stabilize-Kept s i (b ∷ frame) c e = elim (Bool-cases (index_is i b.index)) [
    | inl hit ↦
        let same_contact : b ≡ c =
          found_lem (index_is i b.index) b (find_in_frame i frame) c hit e in
        subst
          (λ x.
            (d : Contact F) × (find_in_frame i (stabilized s (b ∷ frame)) ≡ some d)
            × Kept s.position_threshold (find_in_frame i s.last) x d)
          same_contact
          (
            stabilize_contact s b,
            ap
                (λ m.
                  if m then some (stabilize_contact s b) else find_in_frame i (stabilized s frame))
                (ap (index_is i) (stabilize_contact-index s b) ∙ hit),
            stabilize_contact-Kept s i b (index_is→eq i b.index hit),
          )
    | inr miss ↦
        let (d, run, kept) =
          stabilize-Kept s i frame c
            (missed_lem (index_is i b.index) b (find_in_frame i frame) c miss e) in
        (
          d,
          ap (λ m. if m then some (stabilize_contact s b) else find_in_frame i (stabilized s frame))
                (ap (index_is i) (stabilize_contact-index s b) ∙ miss)
              ∙ run,
          kept,
        )
  ]
