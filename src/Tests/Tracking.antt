-- ===== src/Tests/Tracking.antt =====
-- A run of the tracker, with a search for the least entry of a matrix.
use iptsd_android.Prelude.{
  ℕ, zero, suc, ◌≤◌, ◌<◌, ◌≡◌, refl, Bool, true, false, none, some, List, [], ◌∷◌, ok, arith, ltb,
  if◌then◌else◌, Bool-cases, inl, inr,
}
use iptsd_android.Contacts.Contact.{Contact}
use iptsd_android.Contacts.Tracking.{Tracker, Matrix, calculate, track}
use iptsd_android.Contacts.Tracking.Fresh.{IsUnique}
use iptsd_android.Contacts.Tracking.Uniqueness.{IsMinCoeff, track-IsUnique}
use iptsd_android.Tests.Numbers.{numbers}

abbrev at : Matrix ℕ → ℕ × ℕ → ℕ
at m p = m p.0 p.1

abbrev better : Matrix ℕ → (p q : ℕ × ℕ) → ℕ × ℕ
better m p q = if ltb (at m p) (at m q) then p else q

abbrev least_in_row : Matrix ℕ → (y count : ℕ) → ℕ × ℕ → ℕ × ℕ
least_in_row m y zero p = p
least_in_row m y (suc u) p = least_in_row m y u (better m (y, u) p)

abbrev least_in_rows : Matrix ℕ → (count cols : ℕ) → ℕ × ℕ → ℕ × ℕ
least_in_rows m zero cols p = p
least_in_rows m (suc v) cols p = least_in_rows m v cols (least_in_row m v cols p)

abbrev least_position : (rows cols : ℕ) → Matrix ℕ → ℕ × ℕ
least_position rows cols m = least_in_rows m rows cols (0, 0)

-- The position is no worse than another.
better-le :
    (m : Matrix ℕ) (p q : ℕ × ℕ) → (at m (better m p q) ≤ at m p) × (at m (better m p q) ≤ at m q)
better-le m p q = elim (Bool-cases (ltb (at m p) (at m q))) [
  | inl less ↦ rw less (omega arith, ground (arith, less))
  | inr more ↦ rw more (ground (arith, more), omega arith)
]

abbrev IsInside : (h w : ℕ) → ℕ × ℕ → Type 0
IsInside h w p = (p.0 < h) × (p.1 < w)

better-IsInside :
    (m : Matrix ℕ) (h w : ℕ) (p q : ℕ × ℕ)
    → IsInside h w p
    → IsInside h w q
    → IsInside h w (better m p q)
better-IsInside m h w p q a b = go (ltb (at m p) (at m q))
  where
    go : (t : Bool) → IsInside h w (if t then p else q)
    go true = a
    go false = b

least_in_row-IsInside :
    (m : Matrix ℕ) (h w y n : ℕ) (p : ℕ × ℕ)
    → y < h
    → n ≤ w
    → IsInside h w p
    → IsInside h w (least_in_row m y n p)
least_in_row-IsInside m h w y zero p hy hn i = i
least_in_row-IsInside m h w y (suc u) p hy hn i =
    least_in_row-IsInside m h w y u (better m (y, u) p) hy (omega arith)
      (better-IsInside m h w (y, u) p (hy, omega arith) i)

least_in_rows-IsInside :
    (m : Matrix ℕ) (h w n : ℕ) (p : ℕ × ℕ)
    → n ≤ h
    → IsInside h w p
    → IsInside h w (least_in_rows m n w p)
least_in_rows-IsInside m h w zero p hn i = i
least_in_rows-IsInside m h w (suc v) p hn i =
    least_in_rows-IsInside m h w v (least_in_row m v w p) (omega arith)
      (least_in_row-IsInside m h w v w p (omega arith) (omega arith) i)

least_in_row-le :
    (m : Matrix ℕ) (y n : ℕ) (p : ℕ × ℕ)
    → (at m (least_in_row m y n p) ≤ at m p)
      × ((u : ℕ) → u < n → at m (least_in_row m y n p) ≤ m y u)
least_in_row-le m y zero p = (omega arith, λ u h. absurd (omega arith))
least_in_row-le m y (suc k) p =
    let (first, others) = least_in_row-le m y k (better m (y, k) p) in
    let (new, old) = better-le m (y, k) p in
    (
      omega arith,
      λ u h. elim (Bool-cases (ltb u k)) [
        | inl before ↦ others u (ground (arith, before))
        | inr here ↦ let same : u ≡ k = ground (arith, here) in rw same (omega arith)
      ],
    )

least_in_rows-le :
    (m : Matrix ℕ) (n w : ℕ) (p : ℕ × ℕ)
    → (at m (least_in_rows m n w p) ≤ at m p)
      × ((v u : ℕ) → v < n → u < w → at m (least_in_rows m n w p) ≤ m v u)
least_in_rows-le m zero w p = (omega arith, λ v u h k. absurd (omega arith))
least_in_rows-le m (suc r) w p =
    let (first, others) = least_in_rows-le m r w (least_in_row m r w p) in
    let (old, row) = least_in_row-le m r w p in
    (
      omega arith,
      λ v u h k. elim (Bool-cases (ltb v r)) [
        | inl before ↦ others v u (ground (arith, before)) k
        | inr here ↦ let same : v ≡ r = ground (arith, here) in rw same (omega (arith, row u k))
      ],
    )

least_position-IsMinCoeff : IsMinCoeff least_position
least_position-IsMinCoeff = record {
  inside =
      λ rows cols m hr hc o. least_in_rows-IsInside m rows cols rows (0, 0) (omega arith) (hr, hc);
  least =
      λ rows cols m v u o hv hu. ground (arith, (least_in_rows-le m rows cols (0, 0)).1 v u hv hu);
}

abbrev tip : ℕ → Contact ℕ
tip x = record {
  mean_x = x;
  mean_y = 0;
  size_x = 1;
  size_y = 1;
  orientation = 0;
  normalized = true;
  index = none;
  valid = none;
  stable = none;
}

-- The last frame has one contact; the next one has another behind it.
abbrev a_tracker : Tracker ℕ
a_tracker = record { last = record (tip 4) { index = some 0 } ∷ [] }

abbrev two_tips : List (Contact ℕ)
two_tips = tip 9 ∷ tip 5 ∷ []

a_tracker-IsUnique : IsUnique a_tracker.last
a_tracker-IsUnique zero zero n e f = refl
a_tracker-IsUnique zero (suc j) n e f = cc
a_tracker-IsUnique (suc i) j n e f = cc

two_tips_finite :
    (v u : ℕ) → v < 1 → u < 2 → ltb (calculate two_tips a_tracker.last v u) 1000000 ≡ true
unfolding calculate
two_tips_finite zero zero hv hu = refl
two_tips_finite zero (suc zero) hv hu = refl
two_tips_finite zero (suc (suc u)) hv hu = absurd (omega arith)
two_tips_finite (suc v) u hv hu = absurd (omega arith)

track-IsUnique_example :
    (out : List (Contact ℕ)) × (track least_position two_tips a_tracker
      ≡ ok (out, record a_tracker { last = out }))
    × IsUnique out
track-IsUnique_example =
    track-IsUnique least_position two_tips a_tracker least_position-IsMinCoeff a_tracker-IsUnique
      two_tips_finite
