-- ===== src/Contacts/Detection/Maximas/Local.antt =====
-- What is found does not depend on what lies outside the image.
use iptsd_android.Prelude.{
  ℕ, zero, suc, ◌+◌, ◌-◌, ◌≤◌, ◌<◌, ◌≡◌, refl, ◌∙◌, ap, Bool, true, false, not, ◌&&◌, ◌∷◌, ◌++◌,
  arith, ltb, if◌then◌else◌,
}
use iptsd_android.Prelude.Float.{Float}
use iptsd_android.Contacts.Detection.Maximas.{
  Image, Point, when, is_max, is_reported, find_in_row, find_rows, find,
}

-- Two images with the same pixels in so many rows and columns.
abbrev pub Agree : {F : Type 0} → (rows cols : ℕ) (img other : Image F) → Type 0
Agree rows cols img other = (y x : ℕ) → y < rows → x < cols → img y x ≡ other y x

when-local : (can t u : Bool) → (can ≡ true → t ≡ u) → when can t ≡ when can u
when-local true t u h = h refl
when-local false t u h = refl

and-local : (a b c d : Bool) → a ≡ b → c ≡ d → (a && c) ≡ (b && d)
and-local a b c d e f = ap (λ z. z && c) e ∙ ap (λ z. b && z) f

module _ {F : Type 0} ⦃fl : Float F⦄ (rows cols : ℕ) (img other : Image F) where
  lt-local :
      (y x v u : ℕ)
      → Agree rows cols img other
      → y < rows
      → x < cols
      → v < rows
      → u < cols
      → fl.lt (img v u) (img y x) ≡ fl.lt (other v u) (other y x)
  lt-local y x v u h hy hx hv hu =
      ap (λ z. fl.lt z (img y x)) (h v u hv hu) ∙ ap (fl.lt (other v u)) (h y x hy hx)

  le-local :
      (y x v u : ℕ)
      → Agree rows cols img other
      → y < rows
      → x < cols
      → v < rows
      → u < cols
      → fl.le (img v u) (img y x) ≡ fl.le (other v u) (other y x)
  le-local y x v u h hy hx hv hu =
      ap (λ z. fl.le z (img y x)) (h v u hv hu) ∙ ap (fl.le (other v u)) (h y x hy hx)

  is_max-local :
      (y x : ℕ)
      → Agree rows cols img other
      → y < rows
      → x < cols
      → is_max img rows cols y x ≡ is_max other rows cols y x
  unfolding is_max
  is_max-local y x h hy hx =
      let right : ltb (x + 1) cols ≡ true → x + 1 < cols = λ e. ground (arith, e) in
      let below : ltb (y + 1) rows ≡ true → y + 1 < rows = λ e. ground (arith, e) in
      let left : x - 1 < cols = omega (arith, hx) in
      let above : y - 1 < rows = omega (arith, hy) in
      and-local _ _ _ _
        (and-local _ _ _ _
          (and-local _ _ _ _ (when-local (ltb 0 x) _ _ λ c. lt-local y x y (x - 1) h hy hx hy left)
            (when-local (ltb (x + 1) cols) _ _ λ c. le-local y x y (x + 1) h hy hx hy (right c)))
          (when-local (ltb 0 y) _ _ λ c.
            and-local _ _ _ _
              (and-local _ _ _ _ (lt-local y x (y - 1) x h hy hx above hx)
                (when-local (ltb 0 x) _ _ λ d. lt-local y x (y - 1) (x - 1) h hy hx above left))
              (when-local (ltb (x + 1) cols) _ _
                λ d. le-local y x (y - 1) (x + 1) h hy hx above (right d))))
        (when-local (ltb (y + 1) rows) _ _ λ c.
          and-local _ _ _ _
            (and-local _ _ _ _ (le-local y x (y + 1) x h hy hx (below c) hx)
              (when-local (ltb 0 x) _ _ λ d. lt-local y x (y + 1) (x - 1) h hy hx (below c) left))
            (when-local (ltb (x + 1) cols) _ _
              λ d. le-local y x (y + 1) (x + 1) h hy hx (below c) (right d)))

  module _ (threshold : F) where
    is_reported-local :
        (y x : ℕ)
        → Agree rows cols img other
        → y < rows
        → x < cols
        → is_reported img threshold rows cols y x ≡ is_reported other threshold rows cols y x
    unfolding is_reported
    is_reported-local y x h hy hx =
        and-local _ _ _ _ (ap (λ z. not (fl.le z threshold)) (h y x hy hx))
          (is_max-local y x h hy hx)

    find_in_row-local :
        (y x left : ℕ)
        → Agree rows cols img other
        → y < rows
        → x + left ≤ cols
        → find_in_row img threshold rows cols y x left
          ≡ find_in_row other threshold rows cols y x left
    unfolding find_in_row
    find_in_row-local y x zero h hy hx = refl
    find_in_row-local y x (suc left) h hy hx =
        let point : Point = record { x = x; y = y } in
        let rest = find_in_row other threshold rows cols y (x + 1) left in
        ap (λ r. if is_reported img threshold rows cols y x then point ∷ r else r)
          (find_in_row-local y (x + 1) left h hy (omega (arith, hx)))
        ∙ ap (λ b. if b then point ∷ rest else rest)
            (is_reported-local y x h hy (omega (arith, hx)))

    find_rows-local :
        (y left : ℕ)
        → Agree rows cols img other
        → y + left ≤ rows
        → find_rows img threshold rows cols y left ≡ find_rows other threshold rows cols y left
    unfolding find_rows
    find_rows-local y zero h hy = refl
    find_rows-local y (suc left) h hy =
        ap (λ r. r ++ find_rows img threshold rows cols (y + 1) left)
          (find_in_row-local y 0 cols h (omega (arith, hy)) (omega arith))
        ∙ ap (λ r. find_in_row other threshold rows cols y 0 cols ++ r)
            (find_rows-local (y + 1) left h (omega (arith, hy)))

    pub find-local :
        Agree rows cols img other → find img threshold rows cols ≡ find other threshold rows cols
    unfolding find
    find-local h = find_rows-local 0 rows h (omega arith)
