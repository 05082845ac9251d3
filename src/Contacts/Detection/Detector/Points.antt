-- ===== src/Contacts/Detection/Detector/Points.antt =====
-- The searches return, with points and clusters inside the image, and depend on its pixels alone.
use iptsd_android.Prelude.{
  ℕ, zero, suc, ◌+◌, ◌≤◌, ◌<◌, ◌≡◌, refl, sym, ◌∙◌, inl, inr, Bool, true, false, ◌&&◌, Option, none,
  some, List, [], ◌∷◌, ◌++◌, Result, ok, All, All-append, arith, ltb, if◌then◌else◌, Bool-cases,
}
use iptsd_android.Prelude.Float.{Float}
use iptsd_android.Contacts.Detection.Maximas.{
  Point, Image, is_reported, find_in_row, find_rows, find,
}
use iptsd_android.Contacts.Detection.Maximas.Local.{Agree}
use iptsd_android.Contacts.Detection.Overlaps.{Box}
use iptsd_android.Contacts.Detection.Cluster.{span}
use iptsd_android.Contacts.Detection.Cluster.Hull.{span-IsHull}
use iptsd_android.Contacts.Detection.Detector.Local.{search_clusters-local}
use iptsd_android.Contacts.Detection.Detector.{
  DetectionConfig, extended, is_edge_case, is_blob, collect, cluster_at, edge_cluster_at,
  search_clusters,
}

module _ (rows cols : ℕ) where
  abbrev pub IsPixel : Point → Type 0
  IsPixel p = (p.y < rows) × (p.x < cols)

  -- A cluster in the image, of three rows and three columns at least.
  abbrev pub IsSized : Box → Type 0
  IsSized b =
      (b.x_min + 2 ≤ b.x_max) × (b.x_max < cols) × (b.y_min + 2 ≤ b.y_max) × (b.y_max < rows)

  abbrev HasSize : Option Box → Type 0
  HasSize none = Unit
  HasSize (some b) = IsSized b

  -- What is found for every point is found for the list.
  collect-Sized :
      (f : Point → Result (Option Box)) (points : List Point)
      → ((p : Point) → IsPixel p → (o : Option Box) × (f p ≡ ok o) × HasSize o)
      → All IsPixel points
      → (out : List Point × List Box) × (collect f points ≡ ok out)
        × All IsPixel out.0
        × All IsSized out.1
  unfolding collect
  collect-Sized f [] h tt = (([], []), refl, tt, tt)
  collect-Sized f (p ∷ points) h (q, qs) =
      let (o, e, sized) = h p q in
      let (out, rest, inside, boxes) = collect-Sized f points h qs in
      elim o
          as (λ o.
            (f p ≡ ok o)
            → HasSize o
            → (out : List Point × List Box) × (collect f (p ∷ points) ≡ ok out)
              × All IsPixel out.0
              × All IsSized out.1) [
                | none ↦ λ e s. (out, rw (e, rest) refl, inside, boxes)
                | some b ↦
                    λ e s. ((p ∷ out.0, b ∷ out.1), rw (e, rest) refl, (q, inside), (s, boxes))
              ]
        e sized

  -- A cluster that a loop keeps is of the size that it asks for.
  kept-Sized :
      (wanted : Box → Bool) (b : Box) (p : Point)
      → IsPixel p
      → (wanted (extended rows cols b) ≡ true → IsSized (extended rows cols b))
      → HasSize (if wanted (extended rows cols b) then some (extended rows cols b) else none)
  kept-Sized wanted b p h k = go (wanted (extended rows cols b)) refl
    where
      go :
          (t : Bool)
          → wanted (extended rows cols b) ≡ t
          → HasSize (if t then some (extended rows cols b) else none)
      go true e = k e
      go false e = tt

  edge_case-IsSized :
      (b : Box) (p : Point)
      → IsPixel p
      → is_edge_case (extended rows cols b) ≡ true
      → IsSized (extended rows cols b)
  edge_case-IsSized b p (hy, hx) e =
      (ground (arith, e), ground (arith, hx), ground (arith, e), ground (arith, hy))

  blob-IsSized :
      (b : Box) (p : Point)
      → IsPixel p
      → is_blob (extended rows cols b) ≡ true
      → IsSized (extended rows cols b)
  blob-IsSized b p (hy, hx) e =
      (ground (arith, e), ground (arith, hx), ground (arith, e), ground (arith, hy))

module _ {F : Type 0} ⦃fl : Float F⦄ (img : Image F) (threshold : F) (rows cols : ℕ) where
  find_in_row-IsPixel :
      (y x left : ℕ)
      → y < rows
      → x + left ≤ cols
      → All (IsPixel rows cols) (find_in_row img threshold rows cols y x left)
  unfolding find_in_row
  find_in_row-IsPixel y x zero hy hx = tt
  find_in_row-IsPixel y x (suc left) hy hx =
      let rest = find_in_row-IsPixel y (x + 1) left hy (omega (arith, hx)) in
      elim (is_reported img threshold rows cols y x)
        as (λ b. All (IsPixel rows cols) (
          if b
          then record { x = x; y = y } ∷ find_in_row img threshold rows cols y (x + 1) left
          else find_in_row img threshold rows cols y (x + 1) left)) [
            | true ↦ ((hy, omega (arith, hx)), rest)
            | false ↦ rest
          ]

  find_rows-IsPixel :
      (y left : ℕ)
      → y + left ≤ rows
      → All (IsPixel rows cols) (find_rows img threshold rows cols y left)
  unfolding find_rows
  find_rows-IsPixel y zero h = tt
  find_rows-IsPixel y (suc left) h =
      All-append (IsPixel rows cols) _ _
        (find_in_row-IsPixel y 0 cols (omega (arith, h)) (omega arith))
        (find_rows-IsPixel (y + 1) left (omega (arith, h)))

  find-IsPixel : All (IsPixel rows cols) (find img threshold rows cols)
  unfolding find
  find-IsPixel = find_rows-IsPixel 0 rows (omega arith)

module _ {F : Type 0} ⦃fl : Float F⦄ (config : DetectionConfig F) (highest : F) (img : Image F)
    (rows cols : ℕ) where
  cluster_at-Sized :
      (wanted : Box → Bool) (p : Point)
      → IsPixel rows cols p
      → ((b : Box)
          → wanted (extended rows cols b) ≡ true
          → IsSized rows cols (extended rows cols b))
      → (o : Option Box) × (cluster_at config highest img rows cols wanted p ≡ ok o)
        × HasSize rows cols o
  unfolding cluster_at
  cluster_at-Sized wanted p h k =
      let (box, e, hull) =
        span-IsHull img rows cols config.activation_threshold config.deactivation_threshold highest
          p.y p.x in
      elim box
          as (λ box.
            (span img rows cols config.activation_threshold config.deactivation_threshold highest
                p.y p.x
              ≡ ok box)
            → (o : Option Box) × (cluster_at config highest img rows cols wanted p ≡ ok o)
              × HasSize rows cols o) [
                | none ↦ λ e. (none, rw e refl, tt)
                | some b ↦ λ e. (_, rw e refl, kept-Sized rows cols wanted b p h (k b))
              ]
        e

  edge_cluster_at-Sized :
      (p : Point)
      → IsPixel rows cols p
      → (o : Option Box) × (edge_cluster_at config highest img rows cols p ≡ ok o)
        × HasSize rows cols o
  unfolding edge_cluster_at
  edge_cluster_at-Sized p h =
      let (o, e, s) = cluster_at-Sized is_edge_case p h λ b. edge_case-IsSized rows cols b p h in
      let inside : (ltb p.y rows && ltb p.x cols) ≡ true = ground (arith, h) in
      elim (Bool-cases (fl.lt (img p.y p.x) config.activation_threshold)) [
        | inl low ↦ (none, rw (inside, low) refl, tt)
        | inr high ↦ (o, rw (inside, high) e, s)
      ]

  -- The searches return.
  search_clusters-returns :
      (last_edge_cases : List Point)
      → All (IsPixel rows cols) last_edge_cases
      → (out : List Point × List Box) × (search_clusters config highest img rows cols
            last_edge_cases
          ≡ ok out)
        × All (IsPixel rows cols) out.0
        × All (IsSized rows cols) out.1
  unfolding search_clusters
  search_clusters-returns last_edge_cases h =
      let (edges, e, p, q) =
        collect-Sized rows cols (edge_cluster_at config highest img rows cols) last_edge_cases
          edge_cluster_at-Sized h in
      let (blobs, f, r, s) =
        collect-Sized rows cols (cluster_at config highest img rows cols is_blob)
          (find img config.activation_threshold rows cols)
          (λ point k. cluster_at-Sized is_blob point k λ b. blob-IsSized rows cols b point k)
          (find-IsPixel img config.activation_threshold rows cols) in
      (
        (edges.0 ++ blobs.0, edges.1 ++ blobs.1),
        rw (e, f) refl,
        All-append (IsPixel rows cols) _ _ p r,
        All-append (IsSized rows cols) _ _ q s,
      )

  -- Let the points kept from the last frame be pixels of this image, and let another image have the same
  -- pixels in its rows and columns. Then the searches for clusters return, and they return the same for
  -- both: what lies outside the rows and columns has no influence. The points kept for the next frame
  -- are pixels of the image again, and every cluster lies in the image and has three rows and three
  -- columns at least.
  pub search_clusters-Sized :
      (other : Image F) (last_edge_cases : List Point)
      → Agree rows cols img other
      → All (IsPixel rows cols) last_edge_cases
      → (out : List Point × List Box) × (search_clusters config highest img rows cols
            last_edge_cases
          ≡ ok out)
        × (search_clusters config highest other rows cols last_edge_cases ≡ ok out)
        × All (IsPixel rows cols) out.0
        × All (IsSized rows cols) out.1
  search_clusters-Sized other last_edge_cases same h =
      let (out, e, pixels, sized) = search_clusters-returns last_edge_cases h in
      let local = search_clusters-local config highest rows cols img other same last_edge_cases in
      (out, e, sym local ∙ e, pixels, sized)
