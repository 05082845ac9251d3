-- ===== src/Contacts/Finder/Fueled.antt =====
-- The finder ends on every heatmap: no loop of the detection or of the tracking runs out of fuel.
use iptsd_android.Prelude.{
  ℕ, zero, suc, ◌+◌, ◌≡◌, Bool, true, false, ◌&&◌, ◌==◌, Option, none, some, List, [], ◌∷◌, Result,
  ok, guard, contract, IsFueled, >>=-IsFueled, arith, ltb, if◌then◌else◌,
}
use iptsd_android.Prelude.Float.{Float}
use iptsd_android.Contacts.Contact.{Contact}
use iptsd_android.Contacts.Detection.Kernels.{gaussian}
use iptsd_android.Contacts.Detection.Neutral.{Algorithm, mode, average, constant, other, calculate}
use iptsd_android.Contacts.Detection.Maximas.{Point, Image, find}
use iptsd_android.Contacts.Detection.Overlaps.{
  Box, overlap, pairs_with, search_from, search, round_from, rounds, merge,
}
use iptsd_android.Contacts.Detection.Cluster.Hull.{span-IsHull}
use iptsd_android.Contacts.Detection.Detector.{
  DetectionConfig, Detector, extended, is_edge_case, is_blob, collect, cluster_at, edge_cluster_at,
  search_clusters, detect,
}
use iptsd_android.Contacts.Tracking.{Tracker, Matrix, assign, track}
use iptsd_android.Contacts.Tracking.Fresh.{assign-ok}
use iptsd_android.Contacts.Finder.{Finder, Means, find_contacts}

pub ok-IsFueled : {A : Type 0} (r : Result A) (a : A) → r ≡ ok a → IsFueled r
ok-IsFueled r a e = λ p. cc

guard-IsFueled : (b : Bool) → IsFueled (guard b contract)
guard-IsFueled true = λ p. cc
guard-IsFueled false = λ p. cc

pub if-IsFueled :
    {A : Type 0} (b : Bool) (m n : Result A)
    → IsFueled m
    → IsFueled n
    → IsFueled (if b then m else n)
if-IsFueled true m n hm hn = hm
if-IsFueled false m n hm hn = hn

collect-IsFueled :
    (f : Point → Result (Option Box)) (points : List Point)
    → ((p : Point) → IsFueled (f p))
    → IsFueled (collect f points)
unfolding collect
collect-IsFueled f [] h = λ p. cc
collect-IsFueled f (p ∷ points) h = >>=-IsFueled (f p) _ (h p) λ cluster e.
    >>=-IsFueled (collect f points) _ (collect-IsFueled f points h) λ out k. kept cluster out
  where
    kept :
        (cluster : Option Box) (out : List Point × List Box)
        → IsFueled {A = List Point × List Box}
            (elim cluster [ none ↦ ok (out.0, out.1) | some b ↦ ok (p ∷ out.0, b ∷ out.1) ])
    kept none out = λ p. cc
    kept (some b) out = λ p. cc

module _ (F : Type 0) ⦃fl : Float F⦄ where
  overlap-IsFueled : (a b : Box) → IsFueled (overlap {F = F} a b)
  unfolding overlap
  overlap-IsFueled a b e = ground arith

  pairs_with-IsFueled : (a : Box) (i j : ℕ) (bs : List Box) → IsFueled (pairs_with F a i j bs)
  unfolding pairs_with
  pairs_with-IsFueled a i j [] = λ p. cc
  pairs_with-IsFueled a i j (b ∷ bs) =
      >>=-IsFueled (overlap {F = F} a b) _ (overlap-IsFueled a b) λ o e.
        >>=-IsFueled (pairs_with F a i (j + 1) bs) _ (pairs_with-IsFueled a i (j + 1) bs)
          λ rest f. λ q. cc

  search_from-IsFueled : (i : ℕ) (bs : List Box) → IsFueled (search_from F i bs)
  unfolding search_from
  search_from-IsFueled i [] = λ p. cc
  search_from-IsFueled i (a ∷ bs) =
      >>=-IsFueled (pairs_with F a i (i + 1) bs) _ (pairs_with-IsFueled a i (i + 1) bs) λ here e.
        >>=-IsFueled (search_from F (i + 1) bs) _ (search_from-IsFueled (i + 1) bs)
          λ later f. λ q. cc

  rounds-IsFueled : (iterations : ℕ) (clusters : List Box) → IsFueled (rounds F iterations clusters)
  unfolding rounds search
  rounds-IsFueled zero clusters = λ p. cc
  rounds-IsFueled (suc iterations) clusters =
      >>=-IsFueled (search_from F 0 clusters) _ (search_from-IsFueled 0 clusters) λ pairs e.
        elim pairs
          as (λ pairs. IsFueled {A = List Box} (elim pairs [
            | [] ↦ ok clusters
            | pair ∷ more ↦ rounds F iterations (round_from 0 clusters (pair ∷ more) clusters)
          ])) [
            | [] ↦ λ q. cc
            | pair ∷ more ↦
                rounds-IsFueled iterations (round_from 0 clusters (pair ∷ more) clusters)
          ]

  merge-IsFueled : (clusters : List Box) → IsFueled (merge F clusters 5)
  unfolding merge
  merge-IsFueled clusters =
      >>=-IsFueled (rounds F 5 clusters) _ (rounds-IsFueled 5 clusters) λ out e. λ q. cc

module _ {F : Type 0} ⦃fl : Float F⦄ where
  calculate-IsFueled :
      (mean : List F → F) (data_set : List F) (a : Algorithm) (offset : F)
      → IsFueled (calculate mean data_set a offset)
  unfolding calculate
  calculate-IsFueled mean data_set mode offset = λ p. cc
  calculate-IsFueled mean data_set average offset = λ p. cc
  calculate-IsFueled mean data_set constant offset = λ p. cc
  calculate-IsFueled mean data_set other offset = λ p. cc

  module _ (config : DetectionConfig F) (highest : F) (img : Image F) (rows cols : ℕ) where
    cluster_at-IsFueled :
        (wanted : Box → Bool) (p : Point)
        → IsFueled (cluster_at config highest img rows cols wanted p)
    unfolding cluster_at
    cluster_at-IsFueled wanted p =
        let (box, e, hull) =
          span-IsHull img rows cols config.activation_threshold config.deactivation_threshold
            highest p.y p.x in
        >>=-IsFueled _ _ (ok-IsFueled _ box e) λ cluster f. kept cluster
      where
        kept :
            (cluster : Option Box)
            → IsFueled {A = Option Box} (elim cluster [
              | none ↦ ok none
              | some b ↦
                  ok (if wanted (extended rows cols b) then some (extended rows cols b) else none)
            ])
        kept none = λ p. cc
        kept (some b) = λ p. cc

    edge_cluster_at-IsFueled :
        (p : Point) → IsFueled (edge_cluster_at config highest img rows cols p)
    unfolding edge_cluster_at
    edge_cluster_at-IsFueled p =
        >>=-IsFueled (guard (ltb p.y rows && ltb p.x cols) contract) _
          (guard-IsFueled (ltb p.y rows && ltb p.x cols))
          λ done e.
            if-IsFueled (fl.lt (img p.y p.x) config.activation_threshold) _ _ (λ q. cc)
              (cluster_at-IsFueled is_edge_case p)

    search_clusters-IsFueled :
        (last_edge_cases : List Point)
        → IsFueled (search_clusters config highest img rows cols last_edge_cases)
    unfolding search_clusters
    search_clusters-IsFueled last_edge_cases =
        >>=-IsFueled _ _ (collect-IsFueled _ last_edge_cases edge_cluster_at-IsFueled) λ edges e.
          >>=-IsFueled _ _
            (collect-IsFueled _ (find img config.activation_threshold rows cols)
              (cluster_at-IsFueled is_blob))
            λ blobs f. λ q. cc

  detect-IsFueled :
      (config : DetectionConfig F) (highest : F) (mean : List F → F) (kernel : ℕ → ℕ → F)
      (heatmap : List F) (rows cols : ℕ) (d : Detector F)
      → IsFueled (detect config highest mean kernel heatmap rows cols d)
  unfolding detect
  detect-IsFueled config highest mean kernel heatmap rows cols d =
      >>=-IsFueled _ _
        (if-IsFueled (d.counter == 0)
          (calculate mean heatmap config.neutral_value_algorithm config.neutral_value_offset)
          (ok d.neutral)
          (calculate-IsFueled mean heatmap config.neutral_value_algorithm
            config.neutral_value_offset)
          (λ p. cc))
        λ neutral e.
          >>=-IsFueled _ _ (search_clusters-IsFueled config highest _ rows cols d.last_edge_cases)
            λ found f.
              >>=-IsFueled (merge F found.1 5) _ (merge-IsFueled F found.1) λ merged g. λ q. cc

  track-IsFueled :
      (min_coeff : (rows cols : ℕ) → Matrix F → ℕ × ℕ) (frame : List (Contact F)) (t : Tracker F)
      → IsFueled (track min_coeff frame t)
  unfolding track
  track-IsFueled min_coeff frame t =
      let (out, e, _, _, _, _) = assign-ok 0 t.last frame in
      >>=-IsFueled (assign 0 t.last frame) _ (ok-IsFueled _ out e) λ fresh f. λ q. cc

  pub find_contacts-IsFueled :
      (means : Means F) (heatmap : List F) (rows cols : ℕ) (f : Finder F)
      → IsFueled (find_contacts means heatmap rows cols f)
  unfolding find_contacts
  find_contacts-IsFueled means heatmap rows cols f =
      >>=-IsFueled _ _
        (detect-IsFueled means.config means.highest means.mean
          (gaussian 3 3 (fl.div (fl.of_nat 3) (fl.of_nat 4))) heatmap rows cols f.detector)
        λ found e.
          >>=-IsFueled _ _ (track-IsFueled means.min_coeff _ f.tracker) λ tracked g. λ q. cc
