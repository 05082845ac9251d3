-- ===== src/Core/Linux/Runner.antt =====
-- What the runners of src/core/linux take: the application that they are instantiated with, and what
-- their `catch (const std::exception &)` stops.
pub mod Kept
use iptsd_android.Prelude.{
  ℕ, Bool, true, false, ◌≡◌, List, Result, ok, err, Error, contract, endless, out_of_fuel,
  if◌then◌else◌,
}
use iptsd_android.Prelude.Act.{Act}

-- The methods of the application that a runner calls.
pub record Methods (S : Type 0) : Type 0 where
  pub on_start : Act S (Unit {0})
  pub process : List ℕ → Act S (Unit {0})
  pub on_stop : Act S (Unit {0})

-- A failed precondition ends the process, and a loop that does not end is no exception.
abbrev pub is_exception : Error → Bool
is_exception contract = false
is_exception endless = false
is_exception out_of_fuel = false
is_exception _ = true

abbrev pub recovered : {S A : Type 0} → S → A → Error → Bool → S × Result A
recovered s a e true = (s, ok a)
recovered s a e false = (s, err e)

-- `try { ... } catch (const std::exception &e) { ... }`, which returns `a` after an exception.
abbrev pub recover : {S A : Type 0} → A → S × Result A → S × Result A
recover a (s, ok b) = (s, ok b)
recover a (s, err e) = recovered s a e (is_exception e)

-- The call returns, or what it throws satisfies `Q`.
abbrev pub Throws : (Error → Type 0) → {A : Type 0} → Result A → Type 0
Throws Q (ok a) = Unit
Throws Q (err e) = Q e

abbrev pub IsException : Error → Type 0
IsException e = is_exception e ≡ true

-- The call returns, or it throws an exception.
abbrev pub IsCaught : {A : Type 0} → Result A → Type 0
IsCaught = Throws IsException
