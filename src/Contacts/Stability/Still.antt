-- ===== src/Contacts/Stability/Still.antt =====
-- What stabilizing does to a contact that trembles, over any number of frames.
use mathlib.Core.Option.{some-injective}
use iptsd_android.Prelude.{
  ℕ, ◌≡◌, sym, ◌∙◌, ap, subst, inl, inr, true, Option, some, List, [], ◌∷◌, All,
}
use iptsd_android.Prelude.Float.{Float}
use iptsd_android.Contacts.Contact.{Contact, find_in_frame}
use iptsd_android.Contacts.Stability.{Threshold, Stabilizer, stabilize}
use iptsd_android.Contacts.Stability.Kept.{
  IsAt, distance, Moved, free, slow, fast, between, stabilize-Kept,
}

module _ {F : Type 0} ⦃fl : Float F⦄ where
  -- The stabilizer after a number of frames.
  unfoldable pub after_frames : List (List (Contact F)) → Stabilizer F → Stabilizer F
  after_frames [] s = s
  after_frames (frame ∷ frames) s = after_frames frames (stabilize frame s).1

  -- The frame has a contact of index `i` nearer to `l` than the slow threshold.
  abbrev pub IsNear : Threshold F → ℕ → Contact F → List (Contact F) → Type 0
  IsNear t i l frame =
      (c : Contact F) × (find_in_frame i frame ≡ some c) × (fl.lt (distance c l) t.x ≡ true)

  -- A contact below the slow threshold is put back.
  slow-IsAt :
      (threshold : Option (Threshold F)) (last : Option (Contact F)) (t : Threshold F)
      (c d m : Contact F)
      → Moved threshold last c d
      → threshold ≡ some t
      → last ≡ some m
      → fl.lt (distance c m) t.x ≡ true
      → IsAt d m
  slow-IsAt threshold last t c d m (free (inl gone) at stable) e f near = absurd (cc)
  slow-IsAt threshold last t c d m (free (inr gone) at stable) e f near = absurd (cc)
  slow-IsAt threshold last t c d m (slow u l e' f' less at stable) e f near =
      subst (IsAt d) (some-injective l m (sym f' ∙ f)) at
  slow-IsAt threshold last t c d m (fast u l e' f' less more at stable) e f near =
      let same_threshold = some-injective u t (sym e' ∙ e) in
      let same_contact = some-injective l m (sym f' ∙ f) in absurd (cc)
  slow-IsAt threshold last t c d m (between u l e' f' less more at stable) e f near =
      let same_threshold = some-injective u t (sym e' ∙ e) in
      let same_contact = some-injective l m (sym f' ∙ f) in absurd (cc)

  -- A contact of index `i` that is found, in each of any number of frames in succession, nearer than
  -- the slow threshold to where it was when they began, has not moved at their end: it is remembered
  -- with the position that it had then, however far the positions found lie from each other.
  pub after_frames-IsAt :
      (t : Threshold F) (i : ℕ) (l m : Contact F) (frames : List (List (Contact F)))
      (s : Stabilizer F)
      → s.position_threshold ≡ some t
      → find_in_frame i s.last ≡ some m
      → IsAt m l
      → All (IsNear t i l) frames
      → (d : Contact F) × (find_in_frame i (after_frames frames s).last ≡ some d) × IsAt d l
  unfolding after_frames stabilize
  after_frames-IsAt t i l m [] s e f at near = (m, f, at)
  after_frames-IsAt t i l m (frame ∷ frames) s e f at ((c, found, less), near) =
      let (d, run, kept) = stabilize-Kept s i frame c found in
      let same : distance c m ≡ distance c l =
        ap (λ x. fl.hypot (fl.sub c.mean_x x) (fl.sub c.mean_y m.mean_y)) at.0
        ∙ ap (λ y. fl.hypot (fl.sub c.mean_x l.mean_x) (fl.sub c.mean_y y)) at.1 in
      let stays : IsAt d m =
        slow-IsAt s.position_threshold (find_in_frame i s.last) t c d m kept.moved e f
          (ap (λ x. fl.lt x t.x) same ∙ less) in
      after_frames-IsAt t i l d frames (stabilize frame s).1 e run (stays.0 ∙ at.0, stays.1 ∙ at.1)
        near
