-- ===== src/Contacts/Detection/Overlaps/Rounds.antt =====
-- How many passes `merge` needs until no two clusters overlap.
use iptsd_android.Prelude.{
  ℕ, zero, suc, ◌+◌, ◌≤◌, ◌<◌, ◌≡◌, refl, ◌⊎◌, inl, inr, Bool, true, false, Option, none, some,
  List, [], ◌∷◌, ◌++◌, Result, ok, err, ◌>>=◌, Error, ap, subst, length, get_or, any, All,
  All-append, arith, ◌==◌, if◌then◌else◌, Bool-cases, invalid_cluster_overlap,
}
use iptsd_android.Prelude.Float.{Float}
use iptsd_android.Contacts.Detection.Overlaps.{
  Box, Pair, merged, overlap, pairs_with, search_from, search, merge_pairs, push, round_from,
  rounds, merge,
}

-- Whether a pair drops the cluster at `t`.
abbrev drops : ℕ → List Pair → Bool
drops t = any λ p. p.b == t

merge_pairs-drops :
    (t : ℕ) (c : Box) (ps : List Pair) (cs : List Box)
    → drops t ps ≡ true
    → merge_pairs t c ps cs ≡ none
unfolding merge_pairs
merge_pairs-drops t c [] cs h = cc
merge_pairs-drops t c (p ∷ ps) cs h =
    ground
      (arith, merge_pairs-drops t c ps cs, merge_pairs-drops t (merged c (get_or cs p.b c)) ps cs)

length-push : (x : Option Box) (bs : List Box) → length (push x bs) ≤ length bs + 1
length-push none bs = omega arith
length-push (some b) bs = omega arith

length-round_from :
    (i : ℕ) (rest : List Box) (ps : List Pair) (cs : List Box)
    → length (round_from i rest ps cs) ≤ length rest
unfolding round_from
length-round_from i [] ps cs = omega arith
length-round_from i (c ∷ rest) ps cs = omega (
  arith,
  length-push (merge_pairs i c ps cs) (round_from (i + 1) rest ps cs),
  length-round_from (i + 1) rest ps cs,
)

-- A pass that drops one of its clusters has fewer of them left.
round_from-drops :
    (i t : ℕ) (rest : List Box) (ps : List Pair) (cs : List Box)
    → drops t ps ≡ true
    → i ≤ t
    → t < i + length rest
    → length (round_from i rest ps cs) < length rest
unfolding round_from
round_from-drops i t [] ps cs h lo hi = absurd (omega arith)
round_from-drops i t (c ∷ rest) ps cs h lo hi = elim (Bool-cases (i == t)) [
  | inl here ↦
      let e : i ≡ t = ground arith in
      rw (e, merge_pairs-drops t c ps cs h) (omega (arith, length-round_from (t + 1) rest ps cs))
  | inr there ↦ omega (
    arith,
    length-push (merge_pairs i c ps cs) (round_from (i + 1) rest ps cs),
    round_from-drops (i + 1) t rest ps cs h (ground arith) (omega arith),
  )
]

-- The second cluster of a pair is one of those from `lo` on, below `hi`.
abbrev IsWithin : (lo hi : ℕ) → Pair → Type 0
IsWithin lo hi p = (lo ≤ p.b) × (p.b < hi)

module _ (F : Type 0) ⦃fl : Float F⦄ where
  -- The pairs that the loops of `search` find, or the exception of `overlap`.
  abbrev Found : (lo hi : ℕ) → Result (List Pair) → Type 0
  Found lo hi (ok ps) = All (IsWithin lo hi) ps
  Found lo hi (err e) = e ≡ invalid_cluster_overlap

  overlap_err : (a b : Box) (e : Error) → overlap {F = F} a b ≡ err e → e ≡ invalid_cluster_overlap
  unfolding overlap
  overlap_err a b e h = ground arith

  Found-mono : (lo hi lo' : ℕ) (r : Result (List Pair)) → lo' ≤ lo → Found lo hi r → Found lo' hi r
  Found-mono lo hi lo' (ok []) h f = tt
  Found-mono lo hi lo' (ok (p ∷ ps)) h (f, g) =
      ((omega (arith, f.0), f.1), Found-mono lo hi lo' (ok ps) h g)
  Found-mono lo hi lo' (err e) h f = f

  -- A pair put in front, or nothing.
  Found-step :
      (lo hi : ℕ) (o : Result F) (p : Pair) (r : Result (List Pair))
      → ((e : Error) → o ≡ err e → e ≡ invalid_cluster_overlap)
      → IsWithin lo hi p
      → Found lo hi r
      → Found lo hi (
          o >>= λ v. r >>= λ rest.
          ok (if fl.lt v (fl.div (fl.of_nat 1) (fl.of_nat 2)) then rest else p ∷ rest))
  Found-step lo hi (err e) p r h w f = h e refl
  Found-step lo hi (ok v) p (err e) h w f = f
  Found-step lo hi (ok v) p (ok rest) h w f = choose (fl.lt v (fl.div (fl.of_nat 1) (fl.of_nat 2)))
    where
      choose : (b : Bool) → All (IsWithin lo hi) (if b then rest else p ∷ rest)
      choose true = f
      choose false = (w, f)

  pairs_with-Found :
      (a : Box) (i j : ℕ) (bs : List Box) → Found j (j + length bs) (pairs_with F a i j bs)
  unfolding pairs_with
  pairs_with-Found a i j [] = tt
  pairs_with-Found a i j (b ∷ bs) =
      Found-step j (j + length (b ∷ bs)) (overlap a b) _ (pairs_with F a i (j + 1) bs)
        (overlap_err a b) (omega arith, omega arith)
        (Found-mono (j + 1) _ j _ (omega arith) (
          subst (λ hi. Found (j + 1) hi (pairs_with F a i (j + 1) bs)) (omega arith)
            (pairs_with-Found a i (j + 1) bs)))

  Found-append :
      (lo hi : ℕ) (r s : Result (List Pair))
      → Found lo hi r
      → Found lo hi s
      → Found lo hi (r >>= λ here. s >>= λ later. ok (here ++ later))
  Found-append lo hi (err e) s f g = f
  Found-append lo hi (ok ps) (err e) f g = g
  Found-append lo hi (ok ps) (ok qs) f g = All-append (IsWithin lo hi) ps qs f g

  search_from-Found : (i : ℕ) (cs : List Box) → Found i (i + length cs) (search_from F i cs)
  unfolding search_from
  search_from-Found i [] = tt
  search_from-Found i (a ∷ bs) =
      Found-append i (i + length (a ∷ bs)) (pairs_with F a i (i + 1) bs) (search_from F (i + 1) bs)
        (widen (pairs_with F a i (i + 1) bs) (pairs_with-Found a i (i + 1) bs))
        (widen (search_from F (i + 1) bs) (search_from-Found (i + 1) bs))
    where
      widen :
          (r : Result (List Pair))
          → Found (i + 1) (i + 1 + length bs) r
          → Found i (i + length (a ∷ bs)) r
      widen r f =
          Found-mono (i + 1) _ i r (omega arith) (subst (λ hi. Found (i + 1) hi r) (omega arith) f)

  -- How a number of passes ends: with clusters that do not overlap, or with the exception.
  Ended : Result (List Box) → Type 0
  Ended out =
      ((cs : List Box) × (out ≡ ok cs) × (search F cs ≡ ok []))
      ⊎ (out ≡ err invalid_cluster_overlap)

  rounds_step :
      (k : ℕ) (cs : List Box) (r : Result (List Pair))
      → length cs ≤ suc k
      → search F cs ≡ r
      → Found 0 (0 + length cs) r
      → ((ds : List Box) → length ds ≤ k → Ended (rounds F k ds))
      → Ended (rounds F (suc k) cs)
  unfolding rounds Ended
  rounds_step k cs (err e) h s f again = inr (rw s (ap err f))
  rounds_step k cs (ok []) h s f again = inl (cs, rw s refl, s)
  rounds_step k cs (ok (p ∷ ps)) h s (w, f) again = rw s (
      again (round_from 0 cs (p ∷ ps) cs) (
        omega (
          arith,
          round_from-drops 0 p.b cs (p ∷ ps) cs (ground arith) (omega arith) (omega (arith, w.1)),
        )))

  rounds-Ended : (k : ℕ) (cs : List Box) → length cs ≤ k → Ended (rounds F k cs)
  unfolding rounds search search_from Ended
  rounds-Ended zero [] h = inl ([], refl, refl)
  rounds-Ended zero (c ∷ cs) h = absurd (omega arith)
  rounds-Ended (suc k) cs h =
      rounds_step k cs (search F cs) h refl (search_from-Found 0 cs) (rounds-Ended k)

  -- With as many iterations as there are clusters, and one at least, `merge` returns clusters of which
  -- no two overlap by half or more, as `search` computes it, or it throws that an overlap is invalid.
  -- It never throws that the merging failed.
  pub merge_cases :
      (cs : List Box) (iterations : ℕ)
      → 0 < iterations
      → length cs ≤ iterations
      → ((out : List Box) × (merge F cs iterations ≡ ok out) × (search F out ≡ ok []))
        ⊎ (merge F cs iterations ≡ err invalid_cluster_overlap)
  unfolding merge Ended
  merge_cases cs iterations some_left enough = elim (rounds-Ended iterations cs enough) [
    | inl (out, run, clean) ↦ inl (out, ground (arith, run), clean)
    | inr thrown ↦ inr (ground (arith, thrown))
  ]
