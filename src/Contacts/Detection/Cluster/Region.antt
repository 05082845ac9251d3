-- ===== src/Contacts/Detection/Cluster/Region.antt =====
-- The search returns, with the least box around the pixels that can be reached.
use iptsd_android.Prelude.{
  ℕ, zero, suc, ◌+◌, ◌-◌, ◌*◌, ◌<◌, ◌≡◌, refl, subst, inl, inr, Bool, true, false, not, ◌&&◌,
  Result, ok, ◌>>=◌, arith, ltb, Bool-cases,
}
use iptsd_android.Prelude.Float.{Float}
use iptsd_android.Contacts.Detection.Maximas.{Image}
use iptsd_android.Contacts.Detection.Cluster.{Spanned, is_visited, visit, passes, span_recursive}
use iptsd_android.Contacts.Detection.Cluster.Marks.{count, get-set_same, get-set_kept, count-set}
use iptsd_android.Contacts.Detection.Cluster.Steps.{
  Near, right_of, left_of, below, above, Inside, Marked, Open, Reach, step, Step, Step-refl,
  Step-trans, visit-mark, visit-Fits, Done, Branch, branch,
}

on_true :
    {A : Type 0} (b : Bool) (m n o : Result A)
    → b ≡ true
    → n ≡ o
    → elim b [ false ↦ m | true ↦ n ] ≡ o
on_true true m n o h e = e
on_true false m n o h e = cc

pub on_false :
    {A : Type 0} (b : Bool) (m n : Result A) → b ≡ false → elim b [ false ↦ m | true ↦ n ] ≡ m
on_false true m n h = cc
on_false false m n h = refl

module _ {F : Type 0} ⦃fl : Float F⦄ (img : Image F) (rows cols : ℕ)
    (activation deactivation : F) where
  abbrev Ins : (v u : ℕ) → Type 0
  Ins = Inside img rows cols activation deactivation

  abbrev Mark : Spanned → (v u : ℕ) → Type 0
  Mark = Marked img rows cols activation deactivation

  abbrev Pass : (previous : F) (v u : ℕ) → Type 0
  Pass = Open img rows cols activation deactivation

  -- The four calls search the neighbourhood of a pixel.
  searched :
      (t : Spanned) (v u v' u' : ℕ)
      → Near v u v' u'
      → (ltb u (cols - 1) ≡ true → Pass (img v u) v (u + 1) → Mark t v (u + 1))
      → (ltb 0 u ≡ true → Pass (img v u) v (u - 1) → Mark t v (u - 1))
      → (ltb v (rows - 1) ≡ true → Pass (img v u) (v + 1) u → Mark t (v + 1) u)
      → (ltb 0 v ≡ true → Pass (img v u) (v - 1) u → Mark t (v - 1) u)
      → Ins v' u'
      → Pass (img v u) v' u'
      → Mark t v' u'
  searched t _ _ _ _ (right_of v u) r l d a (hv, hu) pass = r (ground (arith, hu)) pass
  searched t _ _ _ _ (left_of v u) r l d a (hv, hu) pass =
      let e : u + 1 - 1 ≡ u = omega arith in
      subst (λ w. Pass (img v (u + 1)) v w → Mark t v w) e (l (ground arith)) pass
  searched t _ _ _ _ (below v u) r l d a (hv, hu) pass = d (ground (arith, hv)) pass
  searched t _ _ _ _ (above v u) r l d a (hv, hu) pass =
      let e : v + 1 - 1 ≡ v = omega arith in
      subst (λ w. Pass (img (v + 1) u) w u → Mark t w u) e (a (ground arith)) pass

  module _ (y x : ℕ) where
    abbrev pub Reached : (v u : ℕ) → Type 0
    Reached = Reach img rows cols activation deactivation y x

    abbrev Moves : (s t : Spanned) → Type 0
    Moves = Step img rows cols activation deactivation y x

    -- A visit, with what the calls behind it come to, is a step.
    visit-Step :
        (v u : ℕ) (s t : Spanned)
        → Ins v u
        → Reached v u
        → is_visited cols s v u ≡ false
        → Moves (visit cols v u s) t
        → ((v' u' : ℕ) → Near v u v' u' → Ins v' u' → Pass (img v u) v' u' → Mark t v' u')
        → Moves s t
    visit-Step v u s t inside reached fresh q found = record {
      grows = λ i h. q.grows i (get-set_kept s.visited (v * cols + u) i h);
      closed = λ v' u' h n m. elim (Bool-cases (is_visited cols (visit cols v u s) v' u')) [
        | inl now ↦
            let (ev, eu) =
              visit-mark img rows cols activation deactivation v u v' u' s (inside.1) (h.1) n now in
            rw (ev, eu) found
        | inr later ↦ q.closed v' u' h later m
      ];
      fits =
          λ f. q.fits (visit-Fits img rows cols activation deactivation y x v u s inside reached f);
      fewer = omega (arith, q.fewer, count-set s.visited (v * cols + u) fresh);
    }

    abbrev Ends : (s : Spanned) → Result Spanned → (Spanned → Type 0) → Type 0
    Ends = Branch img rows cols activation deactivation y x

    -- One call behind the other.
    then_Ends :
        (m : Result Spanned) (k : Spanned → Result Spanned) (V W : Spanned → Type 0) (s : Spanned)
        → ((a b : Spanned) → Moves a b → V a → V b)
        → Ends s m V
        → ((t : Spanned) → Moves s t → Ends t (k t) W)
        → Ends s (m >>= k) (λ t. V t × W t)
    then_Ends m k V W s keep first rest =
        let next = rest first.out first.made in
        record {
          out = next.out;
          returns = rw (first.returns) (next.returns);
          made =
              Step-trans img rows cols activation deactivation y x s first.out next.out first.made
                next.made;
          wanted = (keep first.out next.out next.made first.wanted, next.wanted);
        }

    -- What is wanted of a call that is made where a test holds.
    abbrev Wants : (b : Bool) (v u v' u' : ℕ) → Spanned → Type 0
    Wants b v u v' u' t = b ≡ true → Pass (img v u) v' u' → Mark t v' u'

    Wants-kept :
        (b : Bool) (v u v' u' : ℕ) (s t : Spanned)
        → Moves s t
        → Wants b v u v' u' s
        → Wants b v u v' u' t
    Wants-kept b v u v' u' s t q w e o = q.grows (v' * cols + u') (w e o)

    abbrev Correct : (fuel : ℕ) → Type 0
    Correct fuel =
        (v u : ℕ) (previous : F) (s : Spanned)
        → count s.visited < fuel
        → Ins v u
        → (Pass previous v u → Reached v u)
        → Done img rows cols activation deactivation y x v u previous s
            (span_recursive img rows cols activation deactivation fuel v u previous s)

    -- The call at a neighbour.
    call-Ends :
        (fuel v u v' u' : ℕ) (b : Bool) (t : Spanned)
        → Correct fuel
        → count t.visited < fuel
        → Reached v u
        → (b ≡ true → Near v u v' u' × Ins v' u')
        → Ends t
            (elim b [
              | true ↦ span_recursive img rows cols activation deactivation fuel v' u' (img v u) t
              | false ↦ ok t
            ])
            (Wants b v u v' u')
    call-Ends fuel v u v' u' b t correct h here side =
        branch img rows cols activation deactivation y x v' u' (img v u) b t
          (span_recursive img rows cols activation deactivation fuel v' u' (img v u) t)
          λ e.
            let (near, inside) = side e in
            correct v' u' (img v u) t h inside λ o. step v u v' u' here near inside o

    neighbour_left : (v u : ℕ) → ltb 0 u ≡ true → Near v u v (u - 1)
    neighbour_left v u e =
        let back : u - 1 + 1 ≡ u = ground (arith, e) in
        subst (λ w. Near v w v (u - 1)) back (left_of v (u - 1))

    neighbour_above : (v u : ℕ) → ltb 0 v ≡ true → Near v u (v - 1) u
    neighbour_above v u e =
        let back : v - 1 + 1 ≡ v = ground (arith, e) in
        subst (λ w. Near w u (v - 1) u) back (above (v - 1) u)

    -- The four calls behind a visit.
    calls-Ends :
        (fuel v u : ℕ) (s : Spanned)
        → Correct fuel
        → count s.visited < fuel
        → Ins v u
        → Reached v u
        → Ends s
            (do
              right ← elim (ltb u (cols - 1)) [
                | true ↦
                    span_recursive img rows cols activation deactivation fuel v (u + 1) (img v u) s
                | false ↦ ok s
              ]
              left ← elim (ltb 0 u) [
                | true ↦
                    span_recursive img rows cols activation deactivation fuel v
                      (u - 1)
                      (img v u)
                      right
                | false ↦ ok right
              ]
              down ← elim (ltb v (rows - 1)) [
                | true ↦
                    span_recursive img rows cols activation deactivation fuel
                      (v + 1)
                      u
                      (img v u)
                      left
                | false ↦ ok left
              ]
              elim (ltb 0 v) [
                | true ↦
                    span_recursive img rows cols activation deactivation fuel
                      (v - 1)
                      u
                      (img v u)
                      down
                | false ↦ ok down
              ])
            (λ t.
              Wants (ltb u (cols - 1)) v u v (u + 1) t
              × (Wants (ltb 0 u) v u v (u - 1) t
                  × (Wants (ltb v (rows - 1)) v u (v + 1) u t × Wants (ltb 0 v) v u (v - 1) u t)))
    calls-Ends fuel v u s correct h (hv, hu) here =
        then_Ends _ _ (Wants (ltb u (cols - 1)) v u v (u + 1)) _ s (Wants-kept _ v u v (u + 1))
          (call-Ends fuel v u v (u + 1) (ltb u (cols - 1)) s correct h here
            λ e. (right_of v u, (hv, ground (arith, e))))
          λ right p.
            then_Ends _ _ (Wants (ltb 0 u) v u v (u - 1)) _ right (Wants-kept _ v u v (u - 1))
              (call-Ends fuel v u v (u - 1) (ltb 0 u) right correct (omega (arith, p.fewer, h)) here
                λ e. (neighbour_left v u e, (hv, omega arith)))
              λ left q.
                then_Ends _ _ (Wants (ltb v (rows - 1)) v u (v + 1) u) _ left
                  (Wants-kept _ v u (v + 1) u)
                  (call-Ends fuel v u (v + 1) u (ltb v (rows - 1)) left correct
                    (omega (arith, p.fewer, q.fewer, h)) here
                    λ e. (below v u, (ground (arith, e), hu)))
                  λ down r.
                    call-Ends fuel v u (v - 1) u (ltb 0 v) down correct
                      (omega (arith, p.fewer, q.fewer, r.fewer, h)) here
                      λ e. (neighbour_above v u e, (omega arith, hu))

    -- With more fuel than there are pixels without a mark, a call at a pixel that can be reached, if
    -- the search goes on there, returns.
    pub span_recursive-Done : (fuel : ℕ) → Correct fuel
    unfolding span_recursive
    span_recursive-Done zero v u previous s h inside reached = absurd (omega (arith, h))
    span_recursive-Done (suc fuel) v u previous s h inside reached =
        elim (Bool-cases (
          passes img rows cols activation deactivation previous (img v u)
          && not (is_visited cols s v u))) [
            | inl more ↦
                let fresh : is_visited cols s v u ≡ false = ground (arith, more) in
                let here = reached (ground (arith, more)) in
                let s₁ = visit cols v u s in
                let run =
                  calls-Ends fuel v u s₁ (span_recursive-Done fuel)
                    (omega (arith, h, count-set s.visited (v * cols + u) fresh)) inside here in
                record {
                  out = run.out;
                  returns = on_true _ _ _ _ more run.returns;
                  made = visit-Step v u s run.out inside here fresh run.made λ v' u' near.
                      searched run.out v u v' u' near (run.wanted.0) (run.wanted.1.0)
                        (run.wanted.1.1.0) (run.wanted.1.1.1);
                  marked =
                      λ _. run.made.grows (v * cols + u) (get-set_same s.visited (v * cols + u));
                }
            | inr end ↦ record {
              out = s;
              returns = on_false _ _ _ end;
              made = Step-refl img rows cols activation deactivation y x s;
              marked = λ o. ground (arith, end, o);
            }
          ]
