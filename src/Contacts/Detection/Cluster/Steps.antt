-- ===== src/Contacts/Detection/Cluster/Steps.antt =====
-- What a call of the search does to the pixels: it only adds marks, and leaves behind each new mark a
-- neighbourhood that is searched.
use iptsd_android.Prelude.{
  ℕ, ◌+◌, ◌*◌, ◌≤◌, ◌<◌, ◌≡◌, refl, sym, inl, inr, Bool, true, false, some, Result, ok, arith,
  get_or, Bool-cases,
}
use iptsd_android.Prelude.Float.{Float}
use iptsd_android.Contacts.Convolution.Grid.{place_inj}
use iptsd_android.Contacts.Detection.Maximas.{Image}
use iptsd_android.Contacts.Detection.Overlaps.{Box}
use iptsd_android.Contacts.Detection.Cluster.{Spanned, contains, is_visited, visit, passes}
use iptsd_android.Contacts.Detection.Cluster.Marks.{
  count, get-set_same, get-set_kept, get-set_new, Within, include_same, include_kept,
  include-Within,
}

-- Two pixels with a common side.
pub data Near : (v u v' u' : ℕ) → Type 0 where
  right_of : (v u : ℕ) → Near v u v (u + 1)
  left_of : (v u : ℕ) → Near v (u + 1) v u
  below : (v u : ℕ) → Near v u (v + 1) u
  above : (v u : ℕ) → Near (v + 1) u v u

module _ {F : Type 0} ⦃fl : Float F⦄ (img : Image F) (rows cols : ℕ)
    (activation deactivation : F) where
  abbrev pub Inside : (v u : ℕ) → Type 0
  Inside v u = (v < rows) × (u < cols)

  abbrev pub Marked : Spanned → (v u : ℕ) → Type 0
  Marked s v u = is_visited cols s v u ≡ true

  abbrev pub Open : (previous : F) (v u : ℕ) → Type 0
  Open previous v u = passes img rows cols activation deactivation previous (img v u) ≡ true

  -- The pixels that can be reached from a first one.
  pub data Reach (y x : ℕ) : (v u : ℕ) → Type 0 where
    start : Reach y x y x
    step :
        (v u v' u' : ℕ)
        → Reach y x v u
        → Near v u v' u'
        → Inside v' u'
        → Open (img v u) v' u'
        → Reach y x v' u'

  -- Where the search can go on from a pixel, it has been.
  abbrev pub Searched : Spanned → (v u : ℕ) → Type 0
  Searched t v u =
      (v' u' : ℕ) → Near v u v' u' → Inside v' u' → Open (img v u) v' u' → Marked t v' u'

  -- The cluster is the least box around the marks, each of which can be reached.
  pub record Fits (y x : ℕ) (s : Spanned) : Type 0 where
    pub sound : (v u : ℕ) → Inside v u → Marked s v u → Reach y x v u
    pub around : (v u : ℕ) → Inside v u → Marked s v u → contains s.cluster v u ≡ true
    pub least :
        (b : Box)
        → ((v u : ℕ) → Inside v u → Marked s v u → contains (some b) v u ≡ true)
        → Within s.cluster b

  pub record Step (y x : ℕ) (s t : Spanned) : Type 0 where
    pub grows : (i : ℕ) → get_or s.visited i true ≡ true → get_or t.visited i true ≡ true
    pub closed :
        (v u : ℕ) → Inside v u → is_visited cols s v u ≡ false → Marked t v u → Searched t v u
    pub fits : Fits y x s → Fits y x t
    pub fewer : count t.visited ≤ count s.visited

  pub Step-refl : (y x : ℕ) (s : Spanned) → Step y x s s
  Step-refl y x s = record {
    grows = λ i h. h;
    closed = λ v u h n m. cc;
    fits = λ f. f;
    fewer = omega arith;
  }

  pub Step-trans : (y x : ℕ) (r s t : Spanned) → Step y x r s → Step y x s t → Step y x r t
  Step-trans y x r s t p q = record {
    grows = λ i h. q.grows i (p.grows i h);
    closed = λ v u h n m. elim (Bool-cases (is_visited cols s v u)) [
      | inl old ↦ λ v' u' near inside pass. q.grows _ (p.closed v u h n old v' u' near inside pass)
      | inr new ↦ q.closed v u h new m
    ];
    fits = λ f. q.fits (p.fits f);
    fewer = omega (arith, p.fewer, q.fewer);
  }

  -- The mark that a visit sets.
  pub visit-mark :
      (v u v' u' : ℕ) (s : Spanned)
      → u < cols
      → u' < cols
      → is_visited cols s v' u' ≡ false
      → Marked (visit cols v u s) v' u'
      → (v' ≡ v) × (u' ≡ u)
  visit-mark v u v' u' s h h' old new =
      place_inj cols v' u' v u h' h
        (sym (get-set_new s.visited (v * cols + u) (v' * cols + u') old new))

  -- A pixel that is marked where it can be reached.
  pub visit-Fits :
      (y x v u : ℕ) (s : Spanned)
      → Inside v u
      → Reach y x v u
      → Fits y x s
      → Fits y x (visit cols v u s)
  visit-Fits y x v u s inside reached f = record {
    sound = λ v' u' h m. elim (Bool-cases (is_visited cols s v' u')) [
      | inl old ↦ f.sound v' u' h old
      | inr new ↦
          let (ev, eu) = visit-mark v u v' u' s (inside.1) (h.1) new m in rw (ev, eu) reached
    ];
    around = λ v' u' h m. elim (Bool-cases (is_visited cols s v' u')) [
      | inl old ↦ include_kept s.cluster v u v' u' (f.around v' u' h old)
      | inr new ↦
          let (ev, eu) = visit-mark v u v' u' s (inside.1) (h.1) new m in
          rw (ev, eu) (include_same s.cluster v u)
    ];
    least = λ b all.
        include-Within s.cluster b v u
          (f.least b
            λ v' u' h m. all v' u' h (get-set_kept s.visited (v * cols + u) (v' * cols + u') m))
          (all v u inside (get-set_same s.visited (v * cols + u)));
  }

  -- What a call comes to: it returns, and it has marked its pixel if it went on there.
  pub record Done (y x v u : ℕ) (previous : F) (s : Spanned) (r : Result Spanned) : Type 0 where
    pub out : Spanned
    pub returns : r ≡ ok out
    pub made : Step y x s out
    pub marked : Open previous v u → Marked out v u

  -- A call that is made only where there is a pixel: what it comes to on either branch.
  pub record Branch (y x : ℕ) (s : Spanned) (r : Result Spanned) (Wanted : Spanned → Type 0)
      : Type 0 where
    pub out : Spanned
    pub returns : r ≡ ok out
    pub made : Step y x s out
    pub wanted : Wanted out

  pub branch :
      (y x v u : ℕ) (previous : F) (b : Bool) (s : Spanned) (call : Result Spanned)
      → (b ≡ true → Done y x v u previous s call)
      → Branch y x s
          (elim b [ true ↦ call | false ↦ ok s ])
          (λ t. b ≡ true → Open previous v u → Marked t v u)
  branch y x v u previous true s call d =
      let q = d refl in
      record { out = q.out; returns = q.returns; made = q.made; wanted = λ _. q.marked }
  branch y x v u previous false s call d = record {
    out = s;
    returns = refl;
    made = Step-refl y x s;
    wanted = λ e. cc;
  }
