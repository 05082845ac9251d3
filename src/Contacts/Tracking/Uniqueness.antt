-- ===== src/Contacts/Tracking/Uniqueness.antt =====
-- The contacts of a frame keep their indices apart.
use iptsd_android.Prelude.{
  ℕ, zero, suc, ◌≤◌, ◌<◌, ◌≡◌, ◌≢◌, refl, sym, ◌∙◌, ap, subst, ◌⊎◌, inl, inr, Bool, true, false,
  ◌||◌, Option, some, List, [], ◌∷◌, ok, length, arith, Bool-cases,
}
use iptsd_android.Prelude.Float.{Float}
use iptsd_android.Contacts.Contact.{Contact}
use iptsd_android.Contacts.Tracking.{
  Tracker, Matrix, smaller, index_at, set_index, position_at, distance_of, calculate, invalidate,
  copy_indices, track,
}
use iptsd_android.Contacts.Tracking.Fresh.{IsUnique, find_in_frame-none, assign-ok}
use iptsd_android.Contacts.Tracking.Marks.{
  mark, unmarked, unmarked-mark, find_unmarked, unmarked-none,
}

module _ {F : Type 0} where
  -- Where an index of a changed frame comes from.
  index_at-set_index :
      (i x n : ℕ) (m : Option ℕ) (frame : List (Contact F))
      → index_at i (set_index x m frame) ≡ some n
      → ((i ≡ x) × (m ≡ some n)) ⊎ (index_at i frame ≡ some n)
  index_at-set_index i x n m [] e = inr e
  index_at-set_index zero zero n m (c ∷ frame) e = inl (refl, e)
  index_at-set_index zero (suc x) n m (c ∷ frame) e = inr e
  index_at-set_index (suc i) zero n m (c ∷ frame) e = inr e
  index_at-set_index (suc i) (suc x) n m (c ∷ frame) e = elim (index_at-set_index i x n m frame e) [
    | inl (same, found) ↦ inl (ap suc same, found)
    | inr old ↦ inr old
  ]

  length-set_index :
      (x : ℕ) (m : Option ℕ) (frame : List (Contact F))
      → length (set_index x m frame) ≡ length frame
  length-set_index x m [] = refl
  length-set_index zero m (c ∷ frame) = refl
  length-set_index (suc x) m (c ∷ frame) = ap suc (length-set_index x m frame)

  -- The old indices of rows that are not marked are not in the frame.
  abbrev AreFree : (ℕ → Bool) → (last frame : List (Contact F)) → Type 0
  AreFree rows last frame =
      (y n i : ℕ) → rows y ≡ false → index_at y last ≡ some n → index_at i frame ≢ some n

  set_index-IsUnique :
      (rows : ℕ → Bool) (last frame : List (Contact F)) (y x : ℕ)
      → rows y ≡ false
      → IsUnique frame
      → AreFree rows last frame
      → IsUnique (set_index x (index_at y last) frame)
  set_index-IsUnique rows last frame y x free u f i j n a b =
      elim (index_at-set_index i x n (index_at y last) frame a) [
        | inl (ix, old) ↦ elim (index_at-set_index j x n (index_at y last) frame b) [
          | inl (jx, _) ↦ ix ∙ sym jx
          | inr there ↦ absurd (f y n j free old there)
        ]
        | inr here ↦ elim (index_at-set_index j x n (index_at y last) frame b) [
          | inl (jx, old) ↦ absurd (f y n i free old here)
          | inr there ↦ u i j n here there
        ]
      ]

  set_index-AreFree :
      (rows : ℕ → Bool) (last frame : List (Contact F)) (y x : ℕ)
      → IsUnique last
      → AreFree rows last frame
      → AreFree (mark y rows) last (set_index x (index_at y last) frame)
  set_index-AreFree rows last frame y x u f v n i free old a =
      elim (index_at-set_index i x n (index_at y last) frame a) [
        | inl (ix, same) ↦ ground (arith, u v y n old same)
        | inr here ↦ f v n i (ground arith) old here
      ]

module _ {F : Type 0} ⦃fl : Float F⦄ where
  -- A matrix without NaN or an entry above infinity.
  abbrev pub IsOrdinary : (rows cols : ℕ) → Matrix F → Type 0
  IsOrdinary rows cols m =
      (v u : ℕ) → v < rows → u < cols → (m v u ≡ fl.infinity) ⊎ (fl.lt (m v u) fl.infinity ≡ true)

  -- What is documented of `minCoeff`, on a matrix that is not empty and has no NaN: a position in the
  -- matrix, where no entry is less than the one there.
  pub record IsMinCoeff (min_coeff : (rows cols : ℕ) → Matrix F → ℕ × ℕ) : Type 0 where
    pub inside :
        (rows cols : ℕ) (m : Matrix F)
        → 0 < rows
        → 0 < cols
        → IsOrdinary rows cols m
        → ((min_coeff rows cols m).0 < rows) × ((min_coeff rows cols m).1 < cols)
    pub least :
        (rows cols : ℕ) (m : Matrix F) (v u : ℕ)
        → IsOrdinary rows cols m
        → v < rows
        → u < cols
        → let at = min_coeff rows cols m in fl.lt (m v u) (m at.0 at.1) ≡ false

  -- The matrix has infinity in the rows and columns that are marked, and less elsewhere.
  abbrev IsMarked : (rows cols : ℕ → Bool) (h w : ℕ) → Matrix F → Type 0
  IsMarked rows cols h w m =
      (v u : ℕ)
      → v < h
      → u < w
      → ((rows v || cols u) ≡ true → m v u ≡ fl.infinity)
        × ((rows v || cols u) ≡ false → fl.lt (m v u) fl.infinity ≡ true)

  invalidate-IsMarked :
      (rows cols : ℕ → Bool) (h w : ℕ) (m : Matrix F) (y x : ℕ)
      → IsMarked rows cols h w m
      → IsMarked (mark y rows) (mark x cols) h w (invalidate y x m)
  invalidate-IsMarked rows cols h w m y x k v u hv hu = ground (arith, k v u hv hu)

  IsMarked-IsOrdinary :
      (rows cols : ℕ → Bool) (h w : ℕ) (m : Matrix F) → IsMarked rows cols h w m → IsOrdinary h w m
  IsMarked-IsOrdinary rows cols h w m k v u hv hu = elim (Bool-cases (rows v || cols u)) [
    | inl hit ↦ inl ((k v u hv hu).0 hit)
    | inr miss ↦ inr ((k v u hv hu).1 miss)
  ]

  -- While a row and a column are left, the least entry is in a row that is not marked.
  min_coeff-unmarked :
      (min_coeff : (rows cols : ℕ) → Matrix F → ℕ × ℕ)
      → IsMinCoeff min_coeff
      → (rows cols : ℕ → Bool) (h w : ℕ) (m : Matrix F) → IsMarked rows cols h w m
      → 0 < unmarked h rows
      → 0 < unmarked w cols
      → rows (min_coeff h w m).0 ≡ false
  min_coeff-unmarked min_coeff spec rows cols h w m k some_row some_col =
      let (v, hv, free_row) = find_unmarked h rows some_row in
      let (u, hu, free_col) = find_unmarked w cols some_col in
      let ordinary = IsMarked-IsOrdinary rows cols h w m k in
      let (hy, hx) = spec.inside h w m (omega arith) (omega arith) ordinary in
      let not_less = spec.least h w m v u ordinary hv hu in
      let less = (k v u hv hu).1 (ground arith) in
      elim (Bool-cases (rows (min_coeff h w m).0)) [
        | inr free ↦ free
        | inl used ↦
            let infinite = (k (min_coeff h w m).0 (min_coeff h w m).1 hy hx).0 (ground arith) in
            absurd (ground (arith, rw infinite at not_less))
      ]

  copy_indices-IsUnique :
      (min_coeff : (rows cols : ℕ) → Matrix F → ℕ × ℕ)
      → IsMinCoeff min_coeff
      → (left : ℕ) (rows cols : ℕ → Bool) (last : List (Contact F)) (m : Matrix F)
        (frame : List (Contact F))
      → IsUnique last
      → IsUnique frame
      → AreFree rows last frame
      → IsMarked rows cols (length last) (length frame) m
      → left ≤ unmarked (length last) rows
      → left ≤ unmarked (length frame) cols
      → IsUnique (copy_indices min_coeff left last m frame)
  unfolding copy_indices
  copy_indices-IsUnique min_coeff spec zero rows cols last m frame ul u f k lr lc = u
  copy_indices-IsUnique min_coeff spec (suc left) rows cols last m frame ul u f k lr lc =
      let y = (min_coeff (length last) (length frame) m).0 in
      let x = (min_coeff (length last) (length frame) m).1 in
      let free =
        min_coeff-unmarked min_coeff spec rows cols (length last) (length frame) m k (omega arith)
          (omega arith) in
      let next = set_index x (index_at y last) frame in
      let len : length next ≡ length frame = length-set_index x (index_at y last) frame in
      copy_indices-IsUnique min_coeff spec left (mark y rows) (mark x cols) last (invalidate y x m)
        next ul (set_index-IsUnique rows last frame y x free u f)
        (set_index-AreFree rows last frame y x ul f)
        (subst (λ w. IsMarked (mark y rows) (mark x cols) (length last) w (invalidate y x m))
          (sym len) (invalidate-IsMarked rows cols (length last) (length frame) m y x k))
        (omega (arith, unmarked-mark (length last) y rows))
        (subst (λ w. left ≤ unmarked w (mark x cols)) (sym len)
          (omega (arith, unmarked-mark (length frame) x cols)))

  -- With a search for the least entry as it is documented: if no two contacts of the last frame have
  -- one index, and all distances between the two frames are below infinity, `track` returns, and no two contacts of the tracked frame have one index. That frame is
  -- the one that is remembered.
  pub track-IsUnique :
      (min_coeff : (rows cols : ℕ) → Matrix F → ℕ × ℕ) (frame : List (Contact F)) (t : Tracker F)
      → IsMinCoeff min_coeff
      → IsUnique t.last
      → ((v u : ℕ)
          → v < length t.last
          → u < length frame
          → fl.lt (calculate frame t.last v u) fl.infinity ≡ true)
      → (out : List (Contact F)) × (track min_coeff frame t ≡ ok (out, record t { last = out }))
        × IsUnique out
  unfolding track calculate
  track-IsUnique min_coeff frame t spec ul finite =
      let (fresh, run, len, new, unique, places) = assign-ok 0 t.last frame in
      let left = smaller (length frame) (length t.last) in
      (
        copy_indices min_coeff left t.last (calculate fresh t.last) fresh,
        rw run refl,
        copy_indices-IsUnique min_coeff spec left (λ v. false) (λ u. false) t.last
            (calculate fresh t.last) fresh ul unique
            (λ y n i _ old here. find_in_frame-none n t.last y (new i n here).1 old)
            (λ v u hv hu. (
              λ e. cc,
              λ _.
                  subst (λ p. fl.lt (distance_of p (position_at v t.last)) fl.infinity ≡ true)
                    (sym (places u)) (finite v u hv (omega arith)),
            ))
            (ground (arith, unmarked-none (length t.last)))
            (ground (arith, unmarked-none (length fresh))),
      )
