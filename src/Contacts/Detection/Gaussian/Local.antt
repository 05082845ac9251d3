-- ===== src/Contacts/Detection/Gaussian/Local.antt =====
-- The fit keeps the boxes of its parameters, and reads an image inside the boxes only.
use iptsd_android.Prelude.{
  ℕ, zero, suc, ◌+◌, ◌-◌, ◌≤◌, ◌≡◌, refl, sym, ◌∙◌, ap, subst, Bool, true, false, Option, none,
  some, List, [], ◌∷◌, map, All, arith, if◌then◌else◌,
}
use iptsd_android.Prelude.Float.{Float}
use iptsd_android.Contacts.Detection.Maximas.{Image}
use iptsd_android.Contacts.Detection.Overlaps.{Box}
use iptsd_android.Contacts.Detection.Gaussian.{
  Parameters, Vector, over_row, over_rows, over_box, add_pixel, doubled, assemble_system,
  extract_params, sampled, total_at, weighed, update_weight_maps, from_solution, fit_one, iterate,
  scaled_down, scaled_up, fit, ge_solve,
}

-- Two images have the same pixels in a box.
abbrev pub AgreeIn : {F : Type 0} → Image F → Image F → Box → Type 0
AgreeIn pixels pixels' b =
    (y x : ℕ) → b.y_min ≤ y → y ≤ b.y_max → b.x_min ≤ x → x ≤ b.x_max → pixels y x ≡ pixels' y x

module _ {S : Type 0} (f g : ℕ → ℕ → S → S) where
  over_row_cong :
      (b : Box) (y x n : ℕ) (s : S)
      → b.x_min ≤ x
      → n ≤ b.x_max + 1 - x
      → ((x' : ℕ) → b.x_min ≤ x' → x' ≤ b.x_max → (t : S) → f y x' t ≡ g y x' t)
      → over_row f y x n s ≡ over_row g y x n s
  unfolding over_row
  over_row_cong b y x zero s lo hi same = refl
  over_row_cong b y x (suc n) s lo hi same =
      over_row_cong b y (suc x) n (f y x s) (omega (arith, lo)) (omega (arith, hi)) same
      ∙ ap (over_row g y (suc x) n) (same x lo (omega (arith, hi)) s)

  over_rows_cong :
      (b : Box) (y n : ℕ) (s : S)
      → b.y_min ≤ y
      → n ≤ b.y_max + 1 - y
      → ((y' x' : ℕ)
          → b.y_min ≤ y'
          → y' ≤ b.y_max
          → b.x_min ≤ x'
          → x' ≤ b.x_max
          → (t : S) → f y' x' t ≡ g y' x' t)
      → over_rows f b y n s ≡ over_rows g b y n s
  unfolding over_rows
  over_rows_cong b y zero s lo hi same = refl
  over_rows_cong b y (suc n) s lo hi same =
      let width = b.x_max + 1 - b.x_min in
      over_rows_cong b (suc y) n (over_row f y b.x_min width s) (omega (arith, lo))
        (omega (arith, hi)) same
      ∙ ap (over_rows g b (suc y) n) (
          over_row_cong b y b.x_min width s (omega arith) (omega arith)
            λ x' l h t. same y x' lo (omega (arith, hi)) l h t)

  over_box_cong :
      (b : Box) (s : S)
      → ((y x : ℕ)
          → b.y_min ≤ y
          → y ≤ b.y_max
          → b.x_min ≤ x
          → x ≤ b.x_max
          → (t : S) → f y x t ≡ g y x t)
      → over_box f b s ≡ over_box g b s
  unfolding over_box
  over_box_cong b s same =
      over_rows_cong b b.y_min (b.y_max + 1 - b.y_min) s (omega arith) (omega arith) same

map_lem :
    {A : Type 0} (P : A → Type 0) (f : A → A) (xs : List A)
    → ((x : A) → P x → P (f x))
    → All P xs
    → All P (map f xs)
map_lem P f [] keeps h = tt
map_lem P f (x ∷ xs) keeps (h, hs) = (keeps x h, map_lem P f xs keeps hs)

map_cong :
    {A : Type 0} (P : A → Type 0) (f g : A → A) (xs : List A)
    → ((x : A) → P x → f x ≡ g x)
    → All P xs
    → map f xs ≡ map g xs
map_cong P f g [] same h = refl
map_cong P f g (x ∷ xs) same (h, hs) = λ t. same x h t ∷ map_cong P f g xs same hs t

if_bounds :
    {F : Type 0} (c : Bool) (p q r : Parameters F)
    → q.bounds ≡ p.bounds
    → r.bounds ≡ p.bounds
    → (if c then q else r).bounds ≡ p.bounds
if_bounds true p q r hq hr = hq
if_bounds false p q r hq hr = hr

module _ {F : Type 0} ⦃fl : Float F⦄ (eps : F) (rows cols : ℕ) where
  from_solution-bounds :
      (p : Parameters F) (x : Option (Vector F))
      → (from_solution eps rows cols p x).bounds ≡ p.bounds
  unfolding extract_params
  from_solution-bounds p none = refl
  from_solution-bounds p (some chi) = if_bounds _ p _ _ refl refl

  fit_one-bounds :
      (pixels : Image F) (p : Parameters F) → (fit_one eps rows cols pixels p).bounds ≡ p.bounds
  unfolding fit_one
  fit_one-bounds pixels p =
      let s = assemble_system eps rows cols p.bounds pixels p.weights in
      if_bounds p.valid p _ _ (from_solution-bounds p (ge_solve eps s.m s.rhs)) refl

  module _ (pixels pixels' : Image F) where
    abbrev Agrees : Parameters F → Type 0
    Agrees p = AgreeIn pixels pixels' p.bounds

    assemble_system-local :
        (b : Box) (weights : Image F)
        → AgreeIn pixels pixels' b
        → assemble_system eps rows cols b pixels weights
          ≡ assemble_system eps rows cols b pixels' weights
    unfolding assemble_system
    assemble_system-local b weights same = ap (doubled eps rows cols) (
        over_box_cong (add_pixel eps rows cols b pixels weights)
          (add_pixel eps rows cols b pixels' weights) b _
          λ y x l h l' h' t.
            ap (λ v. add_pixel eps rows cols b (λ j i. v) weights y x t) (same y x l h l' h'))

    fit_one-local :
        (p : Parameters F)
        → Agrees p
        → fit_one eps rows cols pixels p ≡ fit_one eps rows cols pixels' p
    unfolding fit_one
    fit_one-local p same =
        ap (λ s. if p.valid then from_solution eps rows cols p (ge_solve eps s.m s.rhs) else p)
          (assemble_system-local p.bounds p.weights same)

    -- A step that keeps the box keeps the agreement.
    Agrees-step :
        (f : Parameters F → Parameters F) (params : List (Parameters F))
        → ((p : Parameters F) → (f p).bounds ≡ p.bounds)
        → All Agrees params
        → All Agrees (map f params)
    Agrees-step f params bounds h =
        map_lem Agrees f params (λ p same. subst (AgreeIn pixels pixels') (sym (bounds p)) same) h

    update_weight_maps-Agrees :
        (params : List (Parameters F))
        → All Agrees params
        → All Agrees (update_weight_maps eps rows cols params)
    unfolding update_weight_maps
    update_weight_maps-Agrees params h =
        let samples = map (sampled eps rows cols) params in
        Agrees-step (weighed eps rows cols λ y x. total_at eps rows cols samples y x (fl.of_nat 0))
          samples (λ p. if_bounds p.valid p _ _ refl refl)
          (Agrees-step (sampled eps rows cols) params (λ p. if_bounds p.valid p _ _ refl refl) h)

    iterate-local :
        (n : ℕ) (params : List (Parameters F))
        → All Agrees params
        → iterate eps rows cols pixels n params ≡ iterate eps rows cols pixels' n params
    unfolding iterate
    iterate-local zero params h = refl
    iterate-local (suc n) params h =
        let updated = update_weight_maps eps rows cols params in
        let agree = update_weight_maps-Agrees params h in
        iterate-local n (map (fit_one eps rows cols pixels) updated)
          (Agrees-step (fit_one eps rows cols pixels) updated (fit_one-bounds pixels) agree)
        ∙ ap (iterate eps rows cols pixels' n) (
            map_cong Agrees (fit_one eps rows cols pixels) (fit_one eps rows cols pixels') updated
              fit_one-local agree)

  -- If two images have the same pixels in the box of every set of parameters, then fitting to the one
  -- and to the other gives the same parameters, for any number of iterations: what lies outside of
  -- the clusters has no influence.
  pub fit-local :
      (pixels pixels' : Image F) (iterations : ℕ) (params : List (Parameters F))
      → All (λ p. AgreeIn pixels pixels' p.bounds) params
      → fit eps rows cols pixels iterations params ≡ fit eps rows cols pixels' iterations params
  unfolding fit
  fit-local pixels pixels' iterations params h = ap (map (scaled_up eps rows cols)) (
      iterate-local pixels pixels' iterations (map (scaled_down eps rows cols) params) (
        Agrees-step pixels pixels' (scaled_down eps rows cols) params
          (λ p. if_bounds p.valid p _ _ refl refl) h))
