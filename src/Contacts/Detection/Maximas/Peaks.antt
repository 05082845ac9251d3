-- ===== src/Contacts/Detection/Maximas/Peaks.antt =====
-- What `maximas::find` reports.
use iptsd_android.Prelude.{
  ℕ, zero, suc, ◌+◌, ◌-◌, ◌≤◌, ◌<◌, ◌≡◌, ◌≢◌, refl, ◌⊎◌, ◌↔◌, inl, inr, Bool, true, false, ◌&&◌,
  ◌||◌, List, [], ◌∷◌, ◌++◌, arith, ltb, leb, ◌==◌, any, if◌then◌else◌, Bool-cases,
}
use iptsd_android.Prelude.Float.{Float, IsOrdered}
use iptsd_android.Contacts.Detection.Maximas.{
  Point, Image, when, is_max, is_reported, find_in_row, find_rows, find,
}

-- Whether the point of a column and a row is in the list.
abbrev pub holds : (x y : ℕ) → List Point → Bool
holds x y = any λ p. p.x == x && p.y == y

holds-append :
    (x y : ℕ) (ps qs : List Point) → holds x y (ps ++ qs) ≡ (holds x y ps || holds x y qs)
holds-append x y [] qs = refl
holds-append x y (p ∷ ps) qs = ground (arith, holds-append x y ps qs)

when-true : (can test : Bool) → (can ≡ true → test ≡ true) → when can test ≡ true
when-true true test h = h refl
when-true false test h = refl

and_true : (a b : Bool) → a ≡ true → b ≡ true → (a && b) ≡ true
and_true a b h k = ground arith

-- Two different pixels that touch, also at a corner.
abbrev pub Touches : (y x v u : ℕ) → Type 0
Touches y x v u = (y ≤ v + 1) × (v ≤ y + 1) × (x ≤ u + 1) × (u ≤ x + 1) × ((y ≢ v) ⊎ (x ≢ u))

-- The order in which ties are broken: by column, and by row within a column.
abbrev pub is_before : (v u y x : ℕ) → Bool
is_before v u y x = ltb u x || (u == x && ltb v y)

module _ {F : Type 0} ⦃fl : Float F⦄ where
  -- A pixel that exceeds its neighbours that stand before it, and is not below the others.
  abbrev pub Peak : Image F → (rows cols y x : ℕ) → Type 0
  Peak img rows cols y x =
      (v u : ℕ)
      → v < rows
      → u < cols
      → Touches y x v u
      → (if is_before v u y x then fl.lt (img v u) (img y x) else fl.le (img v u) (img y x)) ≡ true

  find_in_row-holds :
      (img : Image F) (t : F) (rows cols y x left v u : ℕ)
      → holds u v (find_in_row img t rows cols y x left)
        ≡ (y == v && (leb x u && ltb u (x + left)) && is_reported img t rows cols v u)
  unfolding find_in_row
  find_in_row-holds img t rows cols y x zero v u = ground arith
  find_in_row-holds img t rows cols y x (suc left) v u =
      let rest = find_in_row-holds img t rows cols y (x + 1) left v u in
      elim (Bool-cases (x == u && y == v)) [
        | inl hit ↦
            let e : x ≡ u = ground arith in
            let f : y ≡ v = ground arith in ground (arith, rest, same e f)
        | inr miss ↦ ground (arith, rest)
      ]
    where
      same : x ≡ u → y ≡ v → is_reported img t rows cols y x ≡ is_reported img t rows cols v u
      same e f = rw (e, f) refl

  is_max-Peak :
      (img : Image F) (rows cols y x : ℕ) → is_max img rows cols y x ≡ true → Peak img rows cols y x
  unfolding is_max
  is_max-Peak img rows cols y x h v u hv hu touch = ground arith

  -- A neighbour of a peak, by its place in the order.
  Peak-before :
      (img : Image F) (rows cols y x v u : ℕ)
      → Peak img rows cols y x
      → v < rows
      → u < cols
      → Touches y x v u
      → is_before v u y x ≡ true
      → fl.lt (img v u) (img y x) ≡ true
  Peak-before img rows cols y x v u p hv hu touch e = ground (arith, p v u hv hu touch)

  Peak-after :
      (img : Image F) (rows cols y x v u : ℕ)
      → Peak img rows cols y x
      → v < rows
      → u < cols
      → Touches y x v u
      → is_before v u y x ≡ false
      → fl.le (img v u) (img y x) ≡ true
  Peak-after img rows cols y x v u p hv hu touch e = ground (arith, p v u hv hu touch)

  Peak-is_max :
      (img : Image F) (rows cols y x : ℕ)
      → x < cols
      → y < rows
      → Peak img rows cols y x
      → is_max img rows cols y x ≡ true
  unfolding is_max
  Peak-is_max img rows cols y x hx hy p =
      and_true _ _
        (and_true _ _
          (and_true _ _ (when-true (ltb 0 x) _ λ l. before y (x - 1) (ground arith))
            (when-true (ltb (x + 1) cols) _ λ r. after y (x + 1) (ground arith)))
          (when-true (ltb 0 y) _ λ up.
            and_true _ _
              (and_true _ _ (before (y - 1) x (ground arith))
                (when-true (ltb 0 x) _ λ l. before (y - 1) (x - 1) (ground arith)))
              (when-true (ltb (x + 1) cols) _ λ r. after (y - 1) (x + 1) (ground arith))))
        (when-true (ltb (y + 1) rows) _ λ down.
          and_true _ _
            (and_true _ _ (after (y + 1) x (ground arith))
              (when-true (ltb 0 x) _ λ l. before (y + 1) (x - 1) (ground arith)))
            (when-true (ltb (x + 1) cols) _ λ r. after (y + 1) (x + 1) (ground arith)))
    where
      before :
          (v u : ℕ)
          → (v < rows) × (u < cols) × Touches y x v u × (is_before v u y x ≡ true)
          → fl.lt (img v u) (img y x) ≡ true
      before v u (hv, hu, touch, e) = Peak-before img rows cols y x v u p hv hu touch e

      after :
          (v u : ℕ)
          → (v < rows) × (u < cols) × Touches y x v u × (is_before v u y x ≡ false)
          → fl.le (img v u) (img y x) ≡ true
      after v u (hv, hu, touch, e) = Peak-after img rows cols y x v u p hv hu touch e

  find_rows-holds :
      (img : Image F) (t : F) (rows cols y left v u : ℕ)
      → holds u v (find_rows img t rows cols y left)
        ≡ ((leb y v && ltb v (y + left)) && ltb u cols && is_reported img t rows cols v u)
  unfolding find_rows
  find_rows-holds img t rows cols y zero v u = ground arith
  find_rows-holds img t rows cols y (suc left) v u =
      let row = find_in_row img t rows cols y 0 cols in
      let later = find_rows img t rows cols (y + 1) left in
      ground (
        arith,
        holds-append u v row later,
        find_in_row-holds img t rows cols y 0 cols v u,
        find_rows-holds img t rows cols (y + 1) left v u,
      )

  -- Exactly those pixels of the image are reported that exceed the threshold and are peaks: greater
  -- than each neighbour that comes before in the order of columns, then rows, and not less than any
  -- other neighbour.
  pub find_iff :
      (img : Image F) (t : F) (rows cols y x : ℕ)
      → (holds x y (find img t rows cols) ≡ true)
        ↔ ((y < rows) × (x < cols) × (fl.le (img y x) t ≡ false) × Peak img rows cols y x)
  unfolding find is_reported
  find_iff img t rows cols y x = (
    λ h.
        let r = find_rows-holds img t rows cols 0 rows y x in
        (ground arith, ground arith, ground arith, is_max-Peak img rows cols y x (ground arith)),
    λ (hy, hx, above, peak). ground (
      arith,
      find_rows-holds img t rows cols 0 rows y x,
      Peak-is_max img rows cols y x hx hy peak,
    ),
  )

  -- Of two pixels that touch, and whose values are no NaN, at most one is reported, if `<` and `<=`
  -- order the numbers.
  pub find_apart :
      (laws : IsOrdered F) (img : Image F) (t : F) (rows cols y x v u : ℕ)
      → fl.is_nan (img y x) ≡ false
      → fl.is_nan (img v u) ≡ false
      → Touches y x v u
      → holds x y (find img t rows cols) ≡ true
      → holds u v (find img t rows cols) ≡ false
  find_apart laws img t rows cols y x v u n m touch h =
      let (hy, hx, _, p) = (find_iff img t rows cols y x).0 h in
      elim (Bool-cases (holds u v (find img t rows cols))) [
        | inr miss ↦ miss
        | inl hit ↦
            let (hv, hu, _, q) = (find_iff img t rows cols v u).0 hit in
            ground (
              arith,
              p v u hv hu touch,
              q y x hy hx (ground arith),
              laws.lt-eq-not-le (img y x) (img v u) n m,
              laws.lt-eq-not-le (img v u) (img y x) m n,
            )
      ]
