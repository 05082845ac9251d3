-- ===== src/Contacts/Finder.antt =====
-- `Finder` of src/contacts/finder.hpp. The matrix library and the place of the least distance are
-- parameters. The validator is never asked by `find`.
pub mod Fueled
use iptsd_android.Prelude.{ℕ, List, Result, ok, ◌>>=◌}
use iptsd_android.Prelude.Float.{Float}
use iptsd_android.Contacts.Contact.{Contact}
use iptsd_android.Contacts.Detection.Kernels.{gaussian}
use iptsd_android.Contacts.Detection.Fitting.{Solver, fit_contacts}
use iptsd_android.Contacts.Detection.Detector.{DetectionConfig, Detector, detect}
use iptsd_android.Contacts.Tracking.{Tracker, Matrix, track}
use iptsd_android.Contacts.Tracking
use iptsd_android.Contacts.Stability.{Stabilizer, stabilize}
use iptsd_android.Contacts.Stability
use iptsd_android.Contacts.Validation.{Validator}
use iptsd_android.Contacts.Validation

pub record Finder (F : Type 0) : Type 0 where
  pub detector : Detector F
  pub tracker : Tracker F
  pub stabilizer : Stabilizer F
  pub validator : Validator F

-- The parts that are not modelled, and the constants of the detection: `eps` is that of the fit.
pub record Means (F : Type 0) : Type 0 where
  pub config : DetectionConfig F
  pub highest : F
  pub mean : List F → F
  pub eps : F
  pub solver : Solver F
  pub min_coeff : (rows cols : ℕ) → Matrix F → ℕ × ℕ

-- `reset()`
unfoldable pub reset : {F : Type 0} → Finder F → Finder F
reset f = record f {
  tracker = Tracking.reset f.tracker;
  stabilizer = Stability.reset f.stabilizer;
  validator = Validation.reset f.validator;
}

-- `find(heatmap, contacts)`
unfoldable pub find_contacts :
    {F : Type 0} ⦃fl : Float F⦄
    → Means F
    → (heatmap : List F) (rows cols : ℕ) → Finder F
    → Result (Finder F × List (Contact F))
find_contacts ⦃fl = fl⦄ means heatmap rows cols f = do
  let kernel = gaussian 3 3 (fl.div (fl.of_nat 3) (fl.of_nat 4))
  (detector, clusters) ←
      detect means.config means.highest means.mean kernel heatmap rows cols f.detector
  let contacts = fit_contacts means.eps means.solver means.config.normalize detector clusters
  (tracked, tracker) ← track means.min_coeff contacts f.tracker
  let (stable, stabilizer) = stabilize tracked f.stabilizer
  ok (record f { detector = detector; tracker = tracker; stabilizer = stabilizer }, stable)
