-- ===== src/Contacts/Detection/Gaussian.antt =====
-- src/contacts/detection/algorithms/gaussian.hpp. An image or a matrix of weights is a function of the row
-- and the column; a loop over a box is `over_box`. `eps` is `EPS`.
mod Solve
pub mod Local
pub use Solve.*
use iptsd_android.Prelude.{
  ℕ, zero, suc, ◌+◌, ◌-◌, Bool, true, false, ◌&&◌, Option, none, some, List, [], ◌∷◌, map, leb,
  ◌==◌, if◌then◌else◌,
}
use iptsd_android.Prelude.Float.{Float}
use iptsd_android.Contacts.Detection.Maximas.{Image}
use iptsd_android.Contacts.Detection.Overlaps.{Box}

-- The mean is `(mean_x, mean_y)`, and the precision matrix has the entries `prec row column`.
pub record Parameters (F : Type 0) : Type 0 where
  pub valid : Bool
  pub scale : F
  pub mean_x : F
  pub mean_y : F
  pub prec_00 : F
  pub prec_01 : F
  pub prec_10 : F
  pub prec_11 : F
  pub bounds : Box
  pub weights : Image F

unfoldable pub over_row : {S : Type 0} → (ℕ → ℕ → S → S) → (y x n : ℕ) → S → S
over_row f y x zero s = s
over_row f y x (suc n) s = over_row f y (suc x) n (f y x s)

unfoldable pub over_rows : {S : Type 0} → (ℕ → ℕ → S → S) → Box → (y n : ℕ) → S → S
unfolding over_row
over_rows f b y zero s = s
over_rows f b y (suc n) s = over_rows f b (suc y) n (over_row f y b.x_min (b.x_max + 1 - b.x_min) s)

-- The loops over the rows and the columns of a box, its ends included.
unfoldable pub over_box : {S : Type 0} → (ℕ → ℕ → S → S) → Box → S → S
unfolding over_rows
over_box f b s = over_rows f b b.y_min (b.y_max + 1 - b.y_min) s

abbrev pub is_inside : Box → (y x : ℕ) → Bool
is_inside b y x = leb b.y_min y && leb y b.y_max && (leb b.x_min x && leb x b.x_max)

-- The system of linear equations.
pub record System (F : Type 0) : Type 0 where
  pub m : Matrix F
  pub rhs : Vector F

-- The exponents of x and of y in the term that belongs to an unknown.
abbrev pub exponents : ℕ → ℕ × ℕ
exponents i =
    if i == 0
    then (2, 0)
    else if i == 1
    then (1, 1)
    else if i == 2
    then (0, 2)
    else if i == 3
    then (1, 0)
    else if i == 4
    then (0, 1)
    else (0, 0)

module _ {F : Type 0} ⦃fl : Float F⦄ where
  -- `v * x * ... * x`
  abbrev pub times : F → F → ℕ → F
  times v x zero = v
  times v x (suc n) = times (fl.mul v x) x n

  -- `2 / cols`, and a pixel's coordinate between -1 and 1.
  abbrev pub step_of : ℕ → F
  step_of n = fl.div (fl.of_nat 2) (fl.of_nat n)

  abbrev pub centered : ℕ → F → F
  centered i step = fl.sub (fl.mul (fl.of_nat i) step) (fl.of_nat 1)

  -- `v^T * prec * v`
  abbrev pub quadratic : F → F → Parameters F → F
  quadratic vx vy p =
      fl.add (fl.mul (fl.add (fl.mul vx p.prec_00) (fl.mul vy p.prec_10)) vx)
        (fl.mul (fl.add (fl.mul vx p.prec_01) (fl.mul vy p.prec_11)) vy)

  unfoldable pub gaussian_like : (x y : F) → Parameters F → F
  gaussian_like x y p =
      fl.div (fl.exp (fl.neg (quadratic (fl.sub x p.mean_x) (fl.sub y p.mean_y) p))) (fl.of_nat 2)

module _ {F : Type 0} ⦃fl : Float F⦄ (eps : F) (rows cols : ℕ) where
  -- What a pixel adds to the system.
  unfoldable pub add_pixel : Box → Image F → Image F → (iy ix : ℕ) → System F → System F
  add_pixel b pixels weights iy ix s =
      let y = centered iy (step_of rows) in
      let x = centered ix (step_of cols) in
      let d = fl.mul (weights (iy - b.y_min) (ix - b.x_min)) (pixels iy ix) in
      let v = fl.mul (fl.mul (fl.log (fl.add d eps)) d) d in
      record {
        m = λ i j.
            let (xi, yi) = exponents i in
            let (xj, yj) = exponents j in
            fl.add (s.m i j) (times (times (fl.mul d d) x (xi + xj)) y (yi + yj));
        rhs = λ i. let (xi, yi) = exponents i in fl.add (s.rhs i) (times (times v x xi) y yi);
      }

  -- `m.row(1) *= 2`
  abbrev pub doubled : System F → System F
  doubled s = record s { m = λ i j. if i == 1 then fl.mul (s.m i j) (fl.of_nat 2) else s.m i j }

  unfoldable pub assemble_system : Box → Image F → Image F → System F
  unfolding add_pixel over_box
  assemble_system b pixels weights = doubled (
      over_box (add_pixel b pixels weights) b
        (record { m = λ i j. fl.of_nat 0; rhs = λ i. fl.of_nat 0 }))

  -- The precision matrix is written also where `false` is returned, which makes the parameters invalid.
  unfoldable pub extract_params : Vector F → Parameters F → Parameters F
  extract_params chi p =
      let minus_two = fl.neg (fl.of_nat 2) in
      let p00 = fl.mul (chi 0) minus_two in
      let p01 = fl.mul (chi 1) minus_two in
      let p11 = fl.mul (chi 2) minus_two in
      let d = fl.sub (fl.mul p00 p11) (fl.mul p01 p01) in
      let found = record p { prec_00 = p00; prec_01 = p01; prec_10 = p01; prec_11 = p11 } in
      let moved = record found {
        mean_x = fl.div (fl.sub (fl.mul p11 (chi 3)) (fl.mul p01 (chi 4))) d;
        mean_y = fl.div (fl.sub (fl.mul p00 (chi 4)) (fl.mul p01 (chi 3))) d;
      } in
      let exponent =
        fl.add (chi 5) (fl.div (quadratic moved.mean_x moved.mean_y moved) (fl.of_nat 2)) in
      if fl.le (fl.abs d) eps
      then record found { valid = false }
      else record moved { scale = fl.exp exponent; valid = true }

  -- The three loops of `update_weight_maps`.
  abbrev pub sampled : Parameters F → Parameters F
  sampled p =
      if p.valid
      then record p {
        weights = λ j i.
            let y = centered (j + p.bounds.y_min) (step_of rows) in
            let x = centered (i + p.bounds.x_min) (step_of cols) in
            fl.mul p.scale (gaussian_like x y p);
      }
      else p

  unfoldable pub total_at : List (Parameters F) → (y x : ℕ) → F → F
  total_at [] y x t = t
  total_at (p ∷ params) y x t = total_at params y x (
      if p.valid && is_inside p.bounds y x
      then fl.add t (p.weights (y - p.bounds.y_min) (x - p.bounds.x_min))
      else t)

  abbrev pub weighed : Image F → Parameters F → Parameters F
  weighed total p =
      if p.valid
      then record p {
        weights = λ j i.
            let t = total (j + p.bounds.y_min) (i + p.bounds.x_min) in
            if fl.lt (fl.of_nat 0) t then fl.div (p.weights j i) t else p.weights j i;
      }
      else p

  unfoldable pub update_weight_maps : List (Parameters F) → List (Parameters F)
  unfolding total_at gaussian_like
  update_weight_maps params =
      let samples = map sampled params in
      map (weighed (λ y x. total_at samples y x (fl.of_nat 0))) samples

  -- The body of the loop that fits the parameters.
  abbrev pub from_solution : Parameters F → Option (Vector F) → Parameters F
  from_solution p none = record p { valid = false }
  from_solution p (some chi) = extract_params chi p

  unfoldable pub fit_one : Image F → Parameters F → Parameters F
  unfolding assemble_system extract_params ge_solve
  fit_one pixels p =
      let s = assemble_system p.bounds pixels p.weights in
      if p.valid then from_solution p (ge_solve eps s.m s.rhs) else p

  unfoldable pub iterate : Image F → ℕ → List (Parameters F) → List (Parameters F)
  unfolding update_weight_maps fit_one
  iterate pixels zero params = params
  iterate pixels (suc n) params =
      iterate pixels n (map (fit_one pixels) (update_weight_maps params))

  abbrev pub scaled_down : Parameters F → Parameters F
  scaled_down p =
      let sx = step_of cols in
      let sy = step_of rows in
      if p.valid
      then record p {
        mean_x = fl.sub (fl.mul p.mean_x sx) (fl.of_nat 1);
        mean_y = fl.sub (fl.mul p.mean_y sy) (fl.of_nat 1);
        prec_00 = fl.div (fl.div p.prec_00 sx) sx;
        prec_01 = fl.div (fl.div p.prec_01 sx) sy;
        prec_10 = fl.div (fl.div p.prec_10 sy) sx;
        prec_11 = fl.div (fl.div p.prec_11 sy) sy;
      }
      else p

  abbrev pub scaled_up : Parameters F → Parameters F
  scaled_up p =
      let sx = step_of cols in
      let sy = step_of rows in
      if p.valid
      then record p {
        mean_x = fl.div (fl.add p.mean_x (fl.of_nat 1)) sx;
        mean_y = fl.div (fl.add p.mean_y (fl.of_nat 1)) sy;
        prec_00 = fl.mul (fl.mul p.prec_00 sx) sx;
        prec_01 = fl.mul (fl.mul p.prec_01 sx) sy;
        prec_10 = fl.mul (fl.mul p.prec_10 sy) sx;
        prec_11 = fl.mul (fl.mul p.prec_11 sy) sy;
      }
      else p

  -- `fit(params, data, tmp, iterations)`
  unfoldable pub fit : Image F → (iterations : ℕ) → List (Parameters F) → List (Parameters F)
  unfolding iterate
  fit pixels iterations params = map scaled_up (iterate pixels iterations (map scaled_down params))
