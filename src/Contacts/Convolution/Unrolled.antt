-- ===== src/Contacts/Convolution/Unrolled.antt =====
-- The parts of an unrolled routine, against the pixels of the generic one, for either size of kernel.
use iptsd_android.Prelude.{ℕ, ◌+◌, ◌*◌, ◌≤◌, ◌<◌, ◌≡◌, sym, ◌∙◌, ap, subst, true, List}
use iptsd_android.Prelude.Float.{Float}
use iptsd_android.Contacts.Convolution.{Grid, Offset, Term, Pixels, sum, body, while_below}
use iptsd_android.Contacts.Convolution.Grid.{IsAt, step-IsAt, while_below-IsAt}
use iptsd_android.Contacts.Convolution.Bodies.{IsPlace, clamped, all_fit, gains, sum-clamped}

module _ {F : Type 0} ⦃fl : Float F⦄ (img : ℕ → F) (kernel : ℕ → ℕ → F) (rows cols radius : ℕ)
    (offsets : List (Offset × Offset)) where
  -- The pixel of the generic routine.
  abbrev pub pixel : Grid F
  pixel y x = gains img kernel rows cols radius offsets y x (fl.of_nat 0)

  pub body-IsAt :
      (terms : List Term) (y x l r u b : ℕ) (s : Pixels F)
      → all_fit radius offsets ≡ true
      → terms ≡ clamped l r u b offsets
      → IsPlace radius cols x l r
      → IsPlace radius rows y u b
      → IsAt cols pixel y x s
      → IsAt cols pixel y (x + 1) (body img kernel cols radius terms s)
  body-IsAt terms y x l r u b s fit e px py a =
      step-IsAt cols pixel y x (sum img kernel cols radius terms s.i (fl.of_nat 0)) s px.0
        (ap (λ q. sum img kernel cols radius terms q (fl.of_nat 0)) a.0
          ∙ ap (λ q. sum img kernel cols radius q (y * cols + x) (fl.of_nat 0)) e
          ∙ sum-clamped img kernel rows cols radius y x l r u b offsets (fl.of_nat 0) px py fit)
        a

  -- The loop of a row, with the limit that the code computes.
  pub loop-IsAt :
      (terms : List Term) (y x last u b fuel limit : ℕ) (s : Pixels F)
      → all_fit radius offsets ≡ true
      → terms ≡ clamped radius radius u b offsets
      → ((j : ℕ) → x ≤ j → j < last → IsPlace radius cols j radius radius)
      → IsPlace radius rows y u b
      → x ≤ last
      → last ≤ x + fuel
      → limit ≡ y * cols + last
      → IsAt cols pixel y x s
      → IsAt cols pixel y last (while_below fuel limit (body img kernel cols radius terms) s)
  loop-IsAt terms y x last u b fuel limit s fit e px py lo hi el a =
      subst (λ n. IsAt cols pixel y last (while_below fuel n (body img kernel cols radius terms) s))
        (sym el)
        (while_below-IsAt cols pixel fuel y x last (body img kernel cols radius terms) s lo hi a
          λ j p l h q. body-IsAt terms y j radius radius u b p fit e (px j l h) py q)
