-- ===== src/Tests/Fitting.antt =====
-- Runs of the fit of gaussians.
use iptsd_android.Prelude.{ℕ, ◌≤◌, ◌≡◌, List, [], ◌∷◌, ◌&&◌, leb, arith, if◌then◌else◌}
use iptsd_android.Contacts.Detection.Maximas.{Image}
use iptsd_android.Contacts.Detection.Overlaps.{Box}
use iptsd_android.Contacts.Detection.Gaussian.{Parameters, fit}
use iptsd_android.Contacts.Detection.Gaussian.Local.{fit-local}
use iptsd_android.Contacts.Detection.Fitting.{prepared}
use iptsd_android.Tests.Numbers.{numbers}

abbrev a_cluster : Box
a_cluster = record { x_min = 0; x_max = 3; y_min = 1; y_max = 4 }

abbrev flat : Image ℕ
flat y x = 5

-- The same in the cluster, and something else below it.
abbrev split : Image ℕ
split y x = if leb y 4 && leb x 3 then 5 else 9

abbrev one_cluster : List (Parameters ℕ)
one_cluster = prepared a_cluster ∷ []

fit-local_example : fit 0 8 8 flat 3 one_cluster ≡ fit 0 8 8 split 3 one_cluster
unfolding prepared
fit-local_example = fit-local 0 8 8 flat split 3 one_cluster (agree, tt)
  where
    agree : (y x : ℕ) → 1 ≤ y → y ≤ 4 → 0 ≤ x → x ≤ 3 → flat y x ≡ split y x
    agree y x l h l' h' = ground arith
