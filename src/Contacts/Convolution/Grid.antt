-- ===== src/Contacts/Convolution/Grid.antt =====
-- Pixels that are written one after the other, row by row.
use iptsd_android.Prelude.{
  ℕ, zero, suc, ◌+◌, ◌*◌, ◌≤◌, ◌<◌, ◌≡◌, sym, ◌∙◌, ap, inl, inr, true, false, arith, ltb, ◌==◌,
  Bool-cases, subst, ltb→lt,
}
use iptsd_android.Contacts.Convolution.{Grid, Pixels, store, while_below}

-- A place of the grid is found from its index.
pub place_inj :
    (cols v u y x : ℕ) → u < cols → x < cols → v * cols + u ≡ y * cols + x → (v ≡ y) × (u ≡ x)
place_inj cols v u y x hu hx e = elim (Bool-cases (ltb v y)) [
  | inl less ↦ absurd (grind (arith, below v y (ltb→lt _ _ less)))
  | inr more ↦ elim (Bool-cases (ltb y v)) [
    | inl less ↦ absurd (grind (arith, below y v (ltb→lt _ _ less)))
    | inr same ↦
        let f : v ≡ y = ground (arith, more, same) in (f, omega (arith, ap (λ n. n * cols) f))
  ]
]
  where
    below : (a b : ℕ) → a < b → a * cols + cols ≤ b * cols
    below a b h = grind arith

module _ {F : Type 0} (cols : ℕ) (ref : Grid F) where
  -- Every pixel before the index is what it should be.
  abbrev pub IsDone : ℕ → (ℕ → F) → Type 0
  IsDone n out = (v u : ℕ) → u < cols → v * cols + u < n → out (v * cols + u) ≡ ref v u

  -- The next pixel to write is that of a row and a column.
  abbrev pub IsAt : (y x : ℕ) → Pixels F → Type 0
  IsAt y x s = (s.i ≡ y * cols + x) × IsDone s.i s.out

  store-IsDone :
      (y x i : ℕ) (value : F) (out : ℕ → F)
      → x < cols
      → i ≡ y * cols + x
      → value ≡ ref y x
      → IsDone i out
      → IsDone (i + 1) (store i value out)
  store-IsDone y x i value out hx hi hv done v u hu h = elim (Bool-cases (v * cols + u == i)) [
    | inl here ↦
        let e : v * cols + u ≡ i = ground (arith, here) in
        let (ev, eu) = place_inj cols v u y x hu hx (e ∙ hi) in
        let same : ref y x ≡ ref v u = ap (λ n. ref n x) (sym ev) ∙ ap (ref v) (sym eu) in
        rw here (hv ∙ same)
    | inr there ↦ rw there (done v u hu (ground (arith, there)))
  ]

  -- A body that computes the right value moves on by a pixel.
  pub step-IsAt :
      (y x : ℕ) (value : F) (s : Pixels F)
      → x < cols
      → value ≡ ref y x
      → IsAt y x s
      → IsAt y (x + 1) (record { i = s.i + 1; out = store s.i value s.out })
  step-IsAt y x value s hx hv (hi, done) =
      (omega arith, store-IsDone y x s.i value s.out hx hi hv done)

  -- The loop of a row, from the column `x` to the column `limit`.
  pub while_below-IsAt :
      (fuel y x last : ℕ) (step : Pixels F → Pixels F) (s : Pixels F)
      → x ≤ last
      → last ≤ x + fuel
      → IsAt y x s
      → ((j : ℕ) (p : Pixels F) → x ≤ j → j < last → IsAt y j p → IsAt y (j + 1) (step p))
      → IsAt y last (while_below fuel (y * cols + last) step s)
  unfolding while_below
  while_below-IsAt zero y x last step s lo hi a keep =
      let e : x ≡ last = omega arith in subst (λ n. IsAt y n s) e a
  while_below-IsAt (suc fuel) y x last step s lo hi a keep =
      elim (Bool-cases (ltb s.i (y * cols + last))) [
        | inl more ↦ rw more (
            while_below-IsAt fuel y (x + 1) last step (step s) (ground (arith, more, a.0))
              (omega arith) (keep x s (omega arith) (ground (arith, more, a.0)) a)
              λ j p l h. keep j p (omega arith) h)
        | inr done ↦
            let e : x ≡ last = ground (arith, done, a.0) in rw done (subst (λ n. IsAt y n s) e a)
      ]

  -- The end of a row is the start of the next one.
  pub IsAt-next : (y : ℕ) (s : Pixels F) → IsAt y cols s → IsAt (y + 1) 0 s
  IsAt-next y s (hi, done) = (grind arith, done)

  -- The loop over rows, from the row `y` to the row `last`.
  pub while_rows-IsAt :
      (fuel y last limit : ℕ) (step : Pixels F → Pixels F) (s : Pixels F)
      → 0 < cols
      → limit ≡ last * cols
      → y ≤ last
      → last ≤ y + fuel
      → IsAt y 0 s
      → ((j : ℕ) (p : Pixels F) → y ≤ j → j < last → IsAt j 0 p → IsAt (j + 1) 0 (step p))
      → IsAt last 0 (while_below fuel limit step s)
  unfolding while_below
  while_rows-IsAt zero y last limit step s hc e lo hi a keep =
      let f : y ≡ last = omega arith in subst (λ n. IsAt n 0 s) f a
  while_rows-IsAt (suc fuel) y last limit step s hc e lo hi a keep =
      elim (Bool-cases (ltb y last)) [
        | inl more ↦
            let h : y < last = ltb→lt _ _ more in
            let below : s.i < limit = grind (arith, a.0, at_least y last h) in
            let test : ltb s.i limit ≡ true = ground (arith, below) in
            rw test (
              while_rows-IsAt fuel (y + 1) last limit step (step s) hc e (omega arith) (omega arith)
                (keep y s (omega arith) h a) λ j p l k. keep j p (omega arith) k)
        | inr done ↦
            let f : y ≡ last = ground (arith, done) in
            let test : ltb s.i limit ≡ false = ground (arith, a.0, ap (λ n. n * cols) f) in
            rw test (subst (λ n. IsAt n 0 s) f a)
      ]
    where
      at_least : (a b : ℕ) → a < b → a * cols + cols ≤ b * cols
      at_least a b h = grind arith
