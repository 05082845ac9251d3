-- ===== src/Contacts/Detection/Fitting.antt =====
-- What `Detector::detect` of src/contacts/detection/detector.hpp does with the merged clusters, and
-- src/contacts/detection/algorithms/ellipse.hpp. The matrix library is a parameter.
use iptsd_android.Prelude.{ℕ, ◌+◌, ◌-◌, ◌*◌, Bool, true, none, List, [], ◌∷◌, map, if◌then◌else◌}
use iptsd_android.Prelude.Float.{Float}
use iptsd_android.Contacts.Contact.{Contact}
use iptsd_android.Contacts.Detection.Overlaps.{Box}
use iptsd_android.Contacts.Detection.Detector.{Detector}
use iptsd_android.Contacts.Detection.Gaussian.{Parameters, fit}

pub record Matrix2 (F : Type 0) : Type 0 where
  pub m_00 : F
  pub m_01 : F
  pub m_10 : F
  pub m_11 : F

-- The eigenvalues of a matrix, and its first eigenvector.
pub record Eigen (F : Type 0) : Type 0 where
  pub value_x : F
  pub value_y : F
  pub vector_x : F
  pub vector_y : F

-- `Matrix2::inverse` and `SelfAdjointEigenSolver::computeDirect`.
pub record Solver (F : Type 0) : Type 0 where
  pub inverse : Matrix2 F → Matrix2 F
  pub compute_direct : Matrix2 F → Eigen F

module _ {F : Type 0} ⦃fl : Float F⦄ where
  -- `ellipse::size`, of one eigenvalue, and `ellipse::angle`.
  abbrev pub diameter : F → F
  diameter eigenvalue = fl.mul (fl.sqrt (fl.abs eigenvalue)) (fl.of_nat 2)

  unfoldable pub angle : Eigen F → F
  angle e =
      let a = fl.atan2 e.vector_x e.vector_y in
      if fl.lt a (fl.of_nat 0) then fl.add a fl.pi else if fl.le fl.pi a then fl.sub a fl.pi else a

  -- The middle between two coordinates.
  abbrev pub center : (low high : ℕ) → F
  center low high = fl.div (fl.add (fl.of_nat low) (fl.of_nat high)) (fl.of_nat 2)

  -- The input of the fit. The code leaves the weights uninitialized, and writes them before it reads.
  unfoldable pub prepared : Box → Parameters F
  prepared cluster = record {
    valid = true;
    scale = fl.of_nat 1;
    mean_x = center cluster.x_min cluster.x_max;
    mean_y = center cluster.y_min cluster.y_max;
    prec_00 = fl.of_nat 1;
    prec_01 = fl.of_nat 0;
    prec_10 = fl.of_nat 0;
    prec_11 = fl.of_nat 1;
    bounds = cluster;
    weights = λ y x. fl.of_nat 0;
  }

  abbrev pub covariance : Solver F → Parameters F → Matrix2 F
  covariance solver p =
      solver.inverse
        (record { m_00 = p.prec_00; m_01 = p.prec_01; m_10 = p.prec_10; m_11 = p.prec_11 })

  abbrev pub scaled_by : (normalize : Bool) → F → F → F
  scaled_by normalize v by = if normalize then fl.div v by else v

  unfoldable pub contact_of : Solver F → (normalize : Bool) → Detector F → Parameters F → Contact F
  unfolding angle
  contact_of solver normalize d p =
      let e = solver.compute_direct (covariance solver p) in
      record {
        mean_x = scaled_by normalize p.mean_x (fl.of_nat (d.cols - 1));
        mean_y = scaled_by normalize p.mean_y (fl.of_nat (d.rows - 1));
        size_x = scaled_by normalize (diameter e.value_x) d.input_diagonal;
        size_y = scaled_by normalize (diameter e.value_y) d.input_diagonal;
        orientation = scaled_by normalize (angle e) fl.pi;
        normalized = normalize;
        index = none;
        valid = none;
        stable = none;
      }

  -- The loop over the fitted parameters.
  unfoldable pub contacts_of :
      Solver F → (normalize : Bool) → Detector F → List (Parameters F) → List (Contact F)
  unfolding contact_of
  contacts_of solver normalize d [] = []
  contacts_of solver normalize d (p ∷ params) =
      let rest = contacts_of solver normalize d params in
      if p.valid then contact_of solver normalize d p ∷ rest else rest

  unfoldable pub fit_contacts :
      (eps : F) → Solver F → (normalize : Bool) → Detector F → List Box → List (Contact F)
  unfolding contacts_of prepared
  fit_contacts eps solver normalize d clusters =
      contacts_of solver normalize d
        (fit eps d.rows d.cols (λ y x. d.blurred (y * d.cols + x)) 3 (map prepared clusters))
