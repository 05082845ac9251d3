-- ===== src/Contacts/Tracking/Marks.antt =====
-- Rows and columns of a matrix that are marked one after the other.
use iptsd_android.Prelude.{
  ℕ, zero, suc, ◌+◌, ◌≤◌, ◌<◌, ◌≡◌, refl, inl, inr, Bool, false, ◌||◌, arith, ◌==◌, if◌then◌else◌,
  Bool-cases,
}

abbrev pub mark : ℕ → (ℕ → Bool) → ℕ → Bool
mark y p v = v == y || p v

-- How many of the first `n` places are not marked.
abbrev pub unmarked : ℕ → (ℕ → Bool) → ℕ
unmarked zero p = 0
unmarked (suc n) p = let rest = unmarked n p in if p n then rest else rest + 1

unmarked-outside : (n y : ℕ) (p : ℕ → Bool) → n ≤ y → unmarked n (mark y p) ≡ unmarked n p
unmarked-outside zero y p h = refl
unmarked-outside (suc n) y p h = ground (arith, unmarked-outside n y p)

-- A mark takes one place at most.
pub unmarked-mark : (n y : ℕ) (p : ℕ → Bool) → unmarked n p ≤ unmarked n (mark y p) + 1
unmarked-mark zero y p = omega arith
unmarked-mark (suc n) y p = elim (Bool-cases (n == y)) [
  | inl here ↦ ground (arith, unmarked-outside n y p)
  | inr there ↦ ground (arith, unmarked-mark n y p)
]

-- Where a place is left, there is one.
pub find_unmarked : (n : ℕ) (p : ℕ → Bool) → 0 < unmarked n p → (v : ℕ) × (v < n) × (p v ≡ false)
find_unmarked zero p h = absurd (omega arith)
find_unmarked (suc n) p h = elim (Bool-cases (p n)) [
  | inl marked ↦ let (v, lt, free) = find_unmarked n p (ground arith) in (v, omega arith, free)
  | inr free ↦ (n, omega arith, free)
]

pub unmarked-none : (n : ℕ) → unmarked n (λ v. false) ≡ n
unmarked-none zero = refl
unmarked-none (suc n) = omega (arith, unmarked-none n)
