-- ===== src/Tests/Clusters.antt =====
-- Runs of the search for the cluster of a pixel.
use iptsd_android.Prelude.{ℕ, ◌≡◌, refl, Option, some, [], ◌∷◌, ok, get_or}
use iptsd_android.Contacts.Detection.Maximas.{Image}
use iptsd_android.Contacts.Detection.Overlaps.{Box}
use iptsd_android.Contacts.Detection.Cluster.{span, span_recursive, unvisited}
use iptsd_android.Contacts.Detection.Cluster.Hull.{IsHull, Region, span-IsHull}
use iptsd_android.Tests.Numbers.{numbers}

-- Two hills in a row of five, with a valley above the lower threshold.
abbrev two_hills : Image ℕ
two_hills y x = get_or (9 ∷ 7 ∷ 4 ∷ 6 ∷ 9 ∷ []) x 0

-- The search stops in the valley.
span_run :
    span two_hills 1 5 5 3 100 0 0
    ≡ ok (some (record { x_min = 0; x_max = 2; y_min = 0; y_max = 0 }))
unfolding span span_recursive unvisited
span_run = refl

span-IsHull_example :
    (box : Option Box) × (span two_hills 1 5 5 3 100 0 0 ≡ ok box)
    × IsHull (Region two_hills 1 5 5 3 100 0 0) box
span-IsHull_example = span-IsHull two_hills 1 5 5 3 100 0 0
