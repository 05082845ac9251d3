-- ===== src/Contacts/Detection/Detector/Local.antt =====
-- The searches for clusters do not depend on what lies outside the image.
use iptsd_android.Prelude.{
  ℕ, ◌≡◌, ◌∙◌, refl, ap, inl, inr, Bool, ◌&&◌, Option, List, [], ◌∷◌, Result, arith, ltb,
  Bool-cases,
}
use iptsd_android.Prelude.Float.{Float}
use iptsd_android.Contacts.Detection.Maximas.{Point, Image, find}
use iptsd_android.Contacts.Detection.Maximas.Local.{Agree, find-local}
use iptsd_android.Contacts.Detection.Overlaps.{Box}
use iptsd_android.Contacts.Detection.Cluster.Local.{bind-local, span-local}
use iptsd_android.Contacts.Detection.Detector.{
  DetectionConfig, is_edge_case, is_blob, collect, cluster_at, edge_cluster_at, search_clusters,
}

collect-local :
    (f g : Point → Result (Option Box)) (points : List Point)
    → ((p : Point) → f p ≡ g p)
    → collect f points ≡ collect g points
unfolding collect
collect-local f g [] h = refl
collect-local f g (p ∷ points) h =
    bind-local _ _ _ _ (h p) λ cluster. bind-local _ _ _ _ (collect-local f g points h) λ out. refl

module _ {F : Type 0} ⦃fl : Float F⦄ (config : DetectionConfig F) (highest : F) (rows cols : ℕ)
    (img other : Image F) (h : Agree rows cols img other) where
  cluster_at-local :
      (wanted : Box → Bool) (p : Point)
      → cluster_at config highest img rows cols wanted p
        ≡ cluster_at config highest other rows cols wanted p
  unfolding cluster_at
  cluster_at-local wanted p =
      bind-local _ _ _ _
        (span-local rows cols img other config.activation_threshold config.deactivation_threshold
          highest p.y p.x h)
        λ cluster. refl

  edge_cluster_at-local :
      (p : Point)
      → edge_cluster_at config highest img rows cols p
        ≡ edge_cluster_at config highest other rows cols p
  unfolding edge_cluster_at
  edge_cluster_at-local p = elim (Bool-cases (ltb p.y rows && ltb p.x cols)) [
    | inl inside ↦
        let same = h p.y p.x (ground (arith, inside)) (ground (arith, inside)) in
        rw (inside, same, cluster_at-local is_edge_case p) refl
    | inr outside ↦ rw outside refl
  ]

  pub search_clusters-local :
      (last_edge_cases : List Point)
      → search_clusters config highest img rows cols last_edge_cases
        ≡ search_clusters config highest other rows cols last_edge_cases
  unfolding search_clusters
  search_clusters-local last_edge_cases =
      bind-local _ _ _ _ (collect-local _ _ last_edge_cases edge_cluster_at-local) λ edges.
        bind-local _ _ _ _
          (ap (collect (cluster_at config highest img rows cols is_blob))
              (find-local rows cols img other config.activation_threshold h)
            ∙ collect-local _ _ (find other config.activation_threshold rows cols)
                (cluster_at-local is_blob))
          λ blobs. refl
