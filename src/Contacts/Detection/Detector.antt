-- ===== src/Contacts/Detection/Detector.antt =====
-- `Detector` of src/contacts/detection/detector.hpp, from a heatmap to the clusters that the fit gets.
-- The kernel, the `mean` of the external library and the greatest number are parameters. The detector
-- after an exception is not modelled, nor the moving of old pixels in a buffer that is resized.
pub mod Points
pub mod Local
use iptsd_android.Prelude.{
  ℕ, ◌+◌, ◌-◌, ◌*◌, ◌%◌, Bool, not, ◌&&◌, ◌||◌, Option, none, some, List, [], ◌∷◌, ◌++◌, Result, ok,
  err, ◌>>=◌, ◌>>◌, guard, contract, ltb, leb, ◌==◌, if◌then◌else◌, get_or,
}
use iptsd_android.Prelude.Float.{Float}
use iptsd_android.Contacts.Convolution.{Pixels}
use iptsd_android.Contacts.Convolution.Small.{run_3x3}
use iptsd_android.Contacts.Detection.Maximas.{Point, Image, find}
use iptsd_android.Contacts.Detection.Overlaps.{Box, merge}
use iptsd_android.Contacts.Detection.Cluster.{span}
use iptsd_android.Contacts.Detection.Neutral.{Algorithm, calculate}

pub record DetectionConfig (F : Type 0) : Type 0 where
  pub normalize : Bool
  pub neutral_value_algorithm : Algorithm
  pub neutral_value_offset : F
  pub neutral_value_backoff : ℕ
  pub activation_threshold : F
  pub deactivation_threshold : F

-- The state between frames: the size of the buffers, the blurred pixels, and the members with a value
-- of their own.
pub record Detector (F : Type 0) : Type 0 where
  pub rows : ℕ
  pub cols : ℕ
  pub input_diagonal : F
  pub blurred : ℕ → F
  pub last_edge_cases : List Point
  pub counter : ℕ
  pub neutral : F

-- Extends the sides of a cluster by a pixel, inside the image.
abbrev pub smaller : ℕ → ℕ → ℕ
smaller a b = if ltb b a then b else a

abbrev pub extended : (rows cols : ℕ) → Box → Box
extended rows cols b = record {
  x_min = b.x_min - 1;
  x_max = smaller (b.x_max + 1) (cols - 1);
  y_min = b.y_min - 1;
  y_max = smaller (b.y_max + 1) (rows - 1);
}

-- The tests on the size of a cluster, in the two loops.
abbrev pub is_edge_case : Box → Bool
is_edge_case b =
    let size_x = b.x_max - b.x_min + 1 in
    let size_y = b.y_max - b.y_min + 1 in
    not (ltb size_x 3 || ltb size_y 3) && not (leb 4 size_x && leb 4 size_y)

abbrev pub is_blob : Box → Bool
is_blob b = not (ltb (b.x_max - b.x_min + 1) 4 || ltb (b.y_max - b.y_min + 1) 4)

-- The points that get a cluster, with their clusters.
unfoldable pub collect : (Point → Result (Option Box)) → List Point → Result (List Point × List Box)
collect cluster_of [] = ok ([], [])
collect cluster_of (point ∷ points) = do
  cluster ← cluster_of point
  (kept, clusters) ← collect cluster_of points
  elim cluster [ none ↦ ok (kept, clusters) | some b ↦ ok (point ∷ kept, b ∷ clusters) ]

module _ {F : Type 0} ⦃fl : Float F⦄ (config : DetectionConfig F) (highest : F) where
  -- The cluster of a point, if it has one of a wanted size.
  unfoldable pub cluster_at : Image F → (rows cols : ℕ) → (Box → Bool) → Point → Result (Option Box)
  cluster_at img rows cols wanted point = do
    cluster ←
        span img rows cols config.activation_threshold config.deactivation_threshold highest point.y
          point.x
    elim cluster [
      | none ↦ ok none
      | some b ↦ ok (if wanted (extended rows cols b) then some (extended rows cols b) else none)
    ]

  -- The same for a point of the last frame, whose pixel is read with the bounds check of the library.
  unfoldable pub edge_cluster_at : Image F → (rows cols : ℕ) → Point → Result (Option Box)
  edge_cluster_at img rows cols point = do
    guard (ltb point.y rows && ltb point.x cols) contract
    if fl.lt (img point.y point.x) config.activation_threshold
        then ok none
        else cluster_at img rows cols is_edge_case point

  -- The buffers for the size of a heatmap.
  unfoldable pub resize : (rows cols : ℕ) → Detector F → Detector F
  resize rows cols d = if rows == d.rows && cols == d.cols then d else record d {
    rows = rows;
    cols = cols;
    input_diagonal =
        if config.normalize
        then fl.hypot (fl.of_nat (cols - 1)) (fl.of_nat (rows - 1))
        else d.input_diagonal;
  }

  -- `heatmap - m_neutral`, cut off at 0.
  abbrev pub lowered : List F → F → ℕ → F
  lowered heatmap neutral i =
      let v = fl.sub (get_or heatmap i (fl.of_nat 0)) neutral in
      if fl.lt v (fl.of_nat 0) then fl.of_nat 0 else v

  -- The searches in the blurred heatmap.
  unfoldable pub search_clusters :
      Image F → (rows cols : ℕ) → (last_edge_cases : List Point) → Result (List Point × List Box)
  search_clusters img rows cols last_edge_cases = do
    (edge_cases, edge_clusters) ← collect (edge_cluster_at img rows cols) last_edge_cases
    (points, clusters) ←
        collect (cluster_at img rows cols is_blob) (find img config.activation_threshold rows cols)
    ok (edge_cases ++ points, edge_clusters ++ clusters)

  -- `detect(heatmap, contacts)`, up to the merged clusters.
  unfoldable pub detect :
      (mean : List F → F) (kernel : ℕ → ℕ → F)
      → (heatmap : List F) (rows cols : ℕ) → Detector F
      → Result (Detector F × List Box)
  unfolding search_clusters
  detect mean kernel heatmap rows cols d = do
    neutral ←
        if d.counter == 0
        then calculate mean heatmap config.neutral_value_algorithm config.neutral_value_offset
        else ok d.neutral
    let blurred = (run_3x3 (lowered heatmap neutral) kernel rows cols d.blurred).out
    (edge_cases, clusters) ←
        search_clusters (λ y x. blurred (y * cols + x)) rows cols d.last_edge_cases
    merged_clusters ← merge F clusters 5
    ok (
      record (resize rows cols d) {
        blurred = blurred;
        last_edge_cases = edge_cases;
        counter = (d.counter + 1) % config.neutral_value_backoff;
        neutral = neutral;
      },
      merged_clusters,
    )
