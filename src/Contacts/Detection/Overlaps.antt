-- ===== src/Contacts/Detection/Overlaps.antt =====
-- src/contacts/detection/algorithms/overlaps.hpp. A `Box` holds the pixels of a cluster, its corners
-- included; clusters are not empty. Pixels have no negative coordinates.
pub mod Rounds
use iptsd_android.Prelude.{
  ℕ, zero, suc, ◌+◌, ◌-◌, ◌*◌, Bool, ◌&&◌, ◌||◌, Option, none, some, List, [], ◌∷◌, ◌++◌, Result,
  ok, err, ◌>>=◌, ◌>>◌, guard, not, ltb, ◌==◌, if◌then◌else◌, get_or, invalid_cluster_overlap,
  failed_to_merge_clusters,
}
use iptsd_android.Prelude.Float.{Float}

pub record Box : Type 0 where
  pub x_min : ℕ
  pub x_max : ℕ
  pub y_min : ℕ
  pub y_max : ℕ

abbrev pub larger : ℕ → ℕ → ℕ
larger a b = if ltb a b then b else a

abbrev pub smaller : ℕ → ℕ → ℕ
smaller a b = if ltb b a then b else a

-- `AlignedBox::intersection`, `isEmpty`, `merged`, and `isApprox` on integers.
abbrev pub intersection : Box → Box → Box
intersection a b = record {
  x_min = larger a.x_min b.x_min;
  x_max = smaller a.x_max b.x_max;
  y_min = larger a.y_min b.y_min;
  y_max = smaller a.y_max b.y_max;
}

abbrev pub is_empty : Box → Bool
is_empty a = ltb a.x_max a.x_min || ltb a.y_max a.y_min

abbrev pub merged : Box → Box → Box
merged a b = record {
  x_min = smaller a.x_min b.x_min;
  x_max = larger a.x_max b.x_max;
  y_min = smaller a.y_min b.y_min;
  y_max = larger a.y_max b.y_max;
}

abbrev pub box_eq : Box → Box → Bool
box_eq a b = a.x_min == b.x_min && a.x_max == b.x_max && a.y_min == b.y_min && a.y_max == b.y_max

unfoldable pub area : Box → ℕ
area a = (a.x_max - a.x_min + 1) * (a.y_max - a.y_min + 1)

-- `Vector2<usize>`: the indices of two clusters.
pub record Pair : Type 0 where
  pub a : ℕ
  pub b : ℕ

module _ {F : Type 0} ⦃fl : Float F⦄ where
  unfoldable pub overlap : Box → Box → Result F
  unfolding area
  overlap a b =
      let i = intersection a b in
      let iou = fl.div (fl.of_nat (area i)) (fl.of_nat (area a + area b - area i)) in
      if box_eq a b
      then ok (fl.of_nat 1)
      else if is_empty i
      then ok (fl.of_nat 0)
      else if fl.lt iou (fl.of_nat 0) || fl.lt (fl.of_nat 1) iou
      then err invalid_cluster_overlap
      else ok iou

module _ (F : Type 0) ⦃fl : Float F⦄ where
  -- The inner loop of `search`, over the clusters behind the one at `i`.
  unfoldable pub pairs_with : Box → (i j : ℕ) → List Box → Result (List Pair)
  pairs_with a i j [] = ok []
  pairs_with a i j (b ∷ bs) = do
    o ← overlap a b
    rest ← pairs_with a i (j + 1) bs
    ok (
        if fl.lt o (fl.div (fl.of_nat 1) (fl.of_nat 2))
        then rest
        else record { a = i; b = j } ∷ rest)

  unfoldable pub search_from : ℕ → List Box → Result (List Pair)
  unfolding overlap pairs_with
  search_from i [] = ok []
  search_from i (a ∷ bs) = do
    here ← pairs_with a i (i + 1) bs
    later ← search_from (i + 1) bs
    ok (here ++ later)

  -- `search`: the overlapping pairs; it is true if there are any.
  unfoldable pub search : List Box → Result (List Pair)
  search clusters = search_from 0 clusters

-- The loop over the pairs for the cluster at `i`: none if it is dropped. A cluster behind it has not
-- been changed yet.
unfoldable pub merge_pairs : ℕ → Box → List Pair → List Box → Option Box
merge_pairs i cluster [] clusters = some cluster
merge_pairs i cluster (pair ∷ pairs) clusters =
    let skipped = merge_pairs i cluster pairs clusters in
    let extended = merge_pairs i (merged cluster (get_or clusters pair.b cluster)) pairs clusters in
    if pair.b == i then none else if pair.a == i then extended else skipped

abbrev pub push : Option Box → List Box → List Box
push none bs = bs
push (some b) bs = b ∷ bs

-- One pass over the clusters from the one at `i` on.
unfoldable pub round_from : ℕ → List Box → List Pair → List Box → List Box
round_from i [] pairs clusters = []
round_from i (cluster ∷ rest) pairs clusters =
    push (merge_pairs i cluster pairs clusters) (round_from (i + 1) rest pairs clusters)

module _ (F : Type 0) ⦃fl : Float F⦄ where
  -- `for (usize j = 0; j < iterations; j++)`
  unfoldable pub rounds : ℕ → List Box → Result (List Box)
  unfolding merge_pairs round_from
  rounds zero clusters = ok clusters
  rounds (suc iterations) clusters = do
    pairs ← search F clusters
    elim pairs [
      | [] ↦ ok clusters
      | pair ∷ more ↦ rounds iterations (round_from 0 clusters (pair ∷ more) clusters)
    ]

  -- `merge(clusters, temp, iterations)`; the buffer `temp` is empty between the passes.
  unfoldable pub merge : List Box → ℕ → Result (List Box)
  merge clusters iterations = do
    out ← rounds iterations clusters
    guard (not (iterations == 0)) failed_to_merge_clusters
    ok out
