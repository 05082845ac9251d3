-- ===== src/Contacts/Detection/Cluster/Hull.antt =====
-- The cluster of a pixel is the least box around its region.
use iptsd_android.Prelude.{
  ℕ, zero, suc, ◌+◌, ◌*◌, ◌<◌, ◌≡◌, refl, inl, inr, true, false, not, ◌&&◌, ◌||◌, Option, none,
  some, ok, arith, leb, Bool-cases,
}
use iptsd_android.Prelude.Float.{Float}
use iptsd_android.Contacts.Detection.Maximas.{Image}
use iptsd_android.Contacts.Detection.Overlaps.{Box}
use iptsd_android.Contacts.Detection.Cluster.{
  Spanned, contains, is_visited, passes, span_recursive, span, unvisited,
}
use iptsd_android.Contacts.Detection.Cluster.Marks.{Within, count-unvisited, get-unvisited}
use iptsd_android.Contacts.Detection.Cluster.Steps.{
  Inside, Marked, Open, Reach, start, step, Fits, Done,
}
use iptsd_android.Contacts.Detection.Cluster.Region.{span_recursive-Done, on_false}

-- The least box around the pixels with a property; no box where no pixel has it.
pub record IsHull (P : (v u : ℕ) → Type 0) (box : Option Box) : Type 0 where
  pub around : (v u : ℕ) → P v u → contains box v u ≡ true
  pub least : (b : Box) → ((v u : ℕ) → P v u → contains (some b) v u ≡ true) → Within box b

module _ {F : Type 0} ⦃fl : Float F⦄ (img : Image F) (rows cols : ℕ)
    (activation deactivation highest : F) where
  -- The pixels that can be reached from a start in the image, where the search goes on at all.
  pub record Region (y x v u : ℕ) : Type 0 where
    pub inside : Inside img rows cols activation deactivation y x
    pub first : Open img rows cols activation deactivation highest y x
    pub reached : Reach img rows cols activation deactivation y x v u

  index_below : (v u : ℕ) → v < rows → u < cols → v * cols + u < rows * cols
  index_below v u hv hu = grind arith

  Reach-Inside :
      (y x v u : ℕ)
      → Inside img rows cols activation deactivation y x
      → Reach img rows cols activation deactivation y x v u
      → Inside img rows cols activation deactivation v u
  Reach-Inside y x _ _ h start = h
  Reach-Inside y x _ _ h (step v u v' u' r near inside pass) = inside

  abbrev fresh : Spanned
  fresh = record { cluster = none; visited = unvisited (rows * cols) }

  unmarked :
      (v u : ℕ)
      → Inside img rows cols activation deactivation v u
      → is_visited cols fresh v u ≡ false
  unmarked v u (hv, hu) = get-unvisited (rows * cols) (v * cols + u) (index_below v u hv hu)

  fresh-Fits : (y x : ℕ) → Fits img rows cols activation deactivation y x fresh
  fresh-Fits y x = record {
    sound = λ v u h m. let n = unmarked v u h in cc;
    around = λ v u h m. let n = unmarked v u h in cc;
    least = λ b all. tt;
  }

  -- A search that does not go on at its start.
  stops :
      (fuel y x : ℕ) (s : Spanned)
      → 0 < fuel
      → passes img rows cols activation deactivation highest (img y x) ≡ false
      → span_recursive img rows cols activation deactivation fuel y x highest s ≡ ok s
  unfolding span_recursive
  stops zero y x s h e = absurd (omega (arith, h))
  stops (suc fuel) y x s h e =
      on_false
        (passes img rows cols activation deactivation highest (img y x)
          && not (is_visited cols s y x))
        _ _ (ground (arith, e))

  search_lem :
      (y x : ℕ)
      → Inside img rows cols activation deactivation y x
      → (s : Spanned) × (span_recursive img rows cols activation deactivation
            (rows * cols + 1)
            y
            x
            highest
            fresh
          ≡ ok s)
        × IsHull (Region y x) s.cluster
  search_lem y x h =
      elim (Bool-cases (passes img rows cols activation deactivation highest (img y x))) [
        | inl first ↦ (
          run.out,
          run.returns,
          record {
            around = λ v u r.
                fits.around v u (Reach-Inside y x v u h r.reached) (marks first v u r.reached);
            least = λ b all. fits.least b λ v u k m.
                all v u (record { inside = h; first = first; reached = fits.sound v u k m });
          },
        )
        | inr ends ↦ (
          fresh,
          stops (rows * cols + 1) y x fresh (omega arith) ends,
          record { around = λ v u r. let f = r.first in cc; least = λ b all. tt },
        )
      ]
    where
      run :
          Done img rows cols activation deactivation y x y x highest fresh (
            span_recursive img rows cols activation deactivation
              (rows * cols + 1)
              y
              x
              highest
              fresh)
      run =
          span_recursive-Done img rows cols activation deactivation y x (rows * cols + 1) y x
            highest fresh (omega (arith, count-unvisited (rows * cols))) h λ o. start

      fits : Fits img rows cols activation deactivation y x run.out
      fits = run.made.fits (fresh-Fits y x)

      marks :
          Open img rows cols activation deactivation highest y x
          → (v u : ℕ) → Reach img rows cols activation deactivation y x v u
          → Marked img rows cols activation deactivation run.out v u
      marks first _ _ start = run.marked first
      marks first _ _ (step v u v' u' r near inside pass) =
          let k = Reach-Inside y x v u h r in
          run.made.closed v u k (unmarked v u k) (marks first v u r) v' u' near inside pass

  -- On every image, from every start, the search returns: its fuel suffices. What it returns is the
  -- least box around the region of the start, which are the pixels that can be reached from it over
  -- common sides, through values above the lower threshold that do not rise once they are not above
  -- the upper one. Nothing is returned for a start outside the image, or one where the search ends.
  pub span-IsHull :
      (y x : ℕ)
      → (box : Option Box) × (span img rows cols activation deactivation highest y x ≡ ok box)
        × IsHull (Region y x) box
  unfolding span
  span-IsHull y x = elim (Bool-cases (leb cols x || leb rows y)) [
    | inl outside ↦ (
      none,
      rw outside refl,
      record { around = λ v u r. absurd (ground (arith, outside, r.inside)); least = λ b all. tt },
    )
    | inr within ↦
        let (s, e, hull) = search_lem y x (ground (arith, within), ground (arith, within)) in
        (s.cluster, rw (within, e) refl, hull)
  ]
