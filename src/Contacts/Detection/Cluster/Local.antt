-- ===== src/Contacts/Detection/Cluster/Local.antt =====
-- The search for a cluster does not depend on what lies outside the image.
use iptsd_android.Prelude.{
  ℕ, zero, suc, ◌+◌, ◌-◌, ◌*◌, ◌<◌, ◌≡◌, refl, ◌∙◌, ap, inl, inr, Bool, true, false, not, ◌&&◌,
  ◌||◌, none, Result, ok, err, ◌>>=◌, arith, ltb, leb, Bool-cases,
}
use iptsd_android.Prelude.Float.{Float}
use iptsd_android.Contacts.Detection.Maximas.{Image}
use iptsd_android.Contacts.Detection.Maximas.Local.{Agree}
use iptsd_android.Contacts.Detection.Cluster.{
  Spanned, is_visited, visit, unvisited, passes, span_recursive, span,
}

pub bind-local :
    {A B : Type 0} (m n : Result A) (f g : A → Result B)
    → m ≡ n
    → ((a : A) → f a ≡ g a)
    → (m >>= f) ≡ (n >>= g)
bind-local {A} {B} m n f g e h = ap (λ r. r >>= f) e ∙ same n
  where
    same : (r : Result A) → (r >>= f) ≡ (r >>= g)
    same (ok a) = h a
    same (err e) = refl

-- A step in one direction, where there is a pixel.
guarded-local :
    {A : Type 0} (b : Bool) (m n : Result A) (a : A)
    → (b ≡ true → m ≡ n)
    → elim b [ true ↦ m | false ↦ ok a ] ≡ elim b [ true ↦ n | false ↦ ok a ]
guarded-local true m n a h = h refl
guarded-local false m n a h = refl

module _ {F : Type 0} ⦃fl : Float F⦄ (rows cols : ℕ) (img other : Image F)
    (activation deactivation : F) where
  -- The recursive calls of a call, for the value of its pixel.
  abbrev neighbours :
      ((y x : ℕ) → F → Spanned → Result Spanned) → (y x : ℕ) (value : F) → Spanned → Result Spanned
  neighbours again y x value s = do
    right ← elim (ltb x (cols - 1)) [
      | true ↦ again y (x + 1) value (visit cols y x s)
      | false ↦ ok (visit cols y x s)
    ]
    left ← elim (ltb 0 x) [ true ↦ again y (x - 1) value right | false ↦ ok right ]
    down ← elim (ltb y (rows - 1)) [ true ↦ again (y + 1) x value left | false ↦ ok left ]
    elim (ltb 0 y) [ true ↦ again (y - 1) x value down | false ↦ ok down ]

  -- A call, given its recursive calls and the value of its pixel.
  abbrev call_from :
      ((y x : ℕ) → F → Spanned → Result Spanned)
      → (y x : ℕ) (previous value : F) → Spanned
      → Result Spanned
  call_from again y x previous value s =
      elim (passes img rows cols activation deactivation previous value
        && not (is_visited cols s y x)) [ false ↦ ok s | true ↦ neighbours again y x value s ]

  call_from-local :
      (again once_more : (y x : ℕ) → F → Spanned → Result Spanned) (y x : ℕ) (previous value : F)
      (s : Spanned)
      → y < rows
      → x < cols
      → ((v u : ℕ) (p : F) (t : Spanned) → v < rows → u < cols → again v u p t ≡ once_more v u p t)
      → call_from again y x previous value s ≡ call_from once_more y x previous value s
  call_from-local again once_more y x previous value s hy hx h =
      go
        (passes img rows cols activation deactivation previous value && not (is_visited cols s y x))
    where
      go :
          (b : Bool)
          → elim b [ false ↦ ok s | true ↦ neighbours again y x value s ]
            ≡ elim b [ false ↦ ok s | true ↦ neighbours once_more y x value s ]
      go false = refl
      go true =
          bind-local _ _ _ _
            (guarded-local (ltb x (cols - 1)) _ _ _ λ c. h y (x + 1) value _ hy (ground (arith, c)))
            λ right.
              bind-local _ _ _ _
                (guarded-local (ltb 0 x) _ _ _ λ c. h y (x - 1) value right hy (omega (arith, hx)))
                λ left.
                  bind-local _ _ _ _
                    (guarded-local (ltb y (rows - 1)) _ _ _
                      λ c. h (y + 1) x value left (ground (arith, c)) hx)
                    λ down.
                      guarded-local (ltb 0 y) _ _ _
                        λ c. h (y - 1) x value down (omega (arith, hy)) hx

  span_recursive-local :
      (fuel y x : ℕ) (previous : F) (s : Spanned)
      → Agree rows cols img other
      → y < rows
      → x < cols
      → span_recursive img rows cols activation deactivation fuel y x previous s
        ≡ span_recursive other rows cols activation deactivation fuel y x previous s
  unfolding span_recursive
  span_recursive-local zero y x previous s h hy hx = refl
  span_recursive-local (suc fuel) y x previous s h hy hx =
      call_from-local (span_recursive img rows cols activation deactivation fuel)
        (span_recursive other rows cols activation deactivation fuel) y x previous (img y x) s hy hx
        (λ v u p t hv hu. span_recursive-local fuel v u p t h hv hu)
      ∙ ap
          (λ value.
            call_from (span_recursive other rows cols activation deactivation fuel) y x previous
              value s)
          (h y x hy hx)

  -- The test before the search keeps every start outside the image from being read.
  pub span-local :
      (highest : F) (y x : ℕ)
      → Agree rows cols img other
      → span img rows cols activation deactivation highest y x
        ≡ span other rows cols activation deactivation highest y x
  unfolding span
  span-local highest y x h = elim (Bool-cases (leb cols x || leb rows y)) [
    | inl outside ↦ rw outside refl
    | inr inside ↦ rw inside (
        bind-local _ _ _ _
          (span_recursive-local (rows * cols + 1) y x highest
            (record { cluster = none; visited = unvisited (rows * cols) }) h
            (ground (arith, inside)) (ground (arith, inside)))
          λ s. refl)
  ]
