-- ===== src/Prelude/Errors.antt =====
-- What the program throws, and the result of code that may throw.
-- Paths: src/common/error.hpp, src/common/reader.hpp, src/hid/errors.hpp, src/ipts/device.hpp,
-- src/contacts/detection/algorithms/errors.hpp, src/core/generic/errors.hpp,
-- src/core/linux/errors.hpp, with one error for all system calls.
use Prim.Native.Nat.{ℕ}
use mathlib.Core.Path.{◌≡◌, refl}
use mathlib.Core.Logic.{◌≢◌}
use mathlib.Core.Bool.{Bool, true, false}

-- `contract` is a failed precondition of `gsl::span` (the process terminates), `narrowing` the
-- exception of `gsl::narrow`. `endless` stands for a loop that never ends, `out_of_fuel` for a
-- bound of the model that is too small.
pub data Error : Type 0 where
  end_of_buffer : ℕ → ℕ → Error
  contract narrowing : Error
  endless out_of_fuel : Error
  report_merge_types report_merge_ids usage_before_page : Error
  invalid_report_type missing_report_size missing_report_count : Error
  invalid_device invalid_set_mode_report : Error
  invalid_neutral_mode invalid_cluster_overlap failed_to_merge_clusters : Error
  invalid_neutral_value_algorithm invalid_screen_size : Error
  parsing_failed runner_init_error syscall_failed : Error

-- What code that may throw comes to: an exception, or the value returned.
pub data Result {ℓ} (A : Type ℓ) : Type ℓ where
  err : Error → Result A
  ok : A → Result A

-- `if (!held) throw e;`
abbrev pub guard : (held : Bool) (e : Error) → Result (Unit {0})
guard false e = err e
guard true e = ok tt

-- The code behind a call: it does not run after an exception. These compute on a constructor.
infixl 5 ◌>>=◌ ◌>>◌
abbrev pub ◌>>=◌ {κ ℓ} : {A : Type κ} {B : Type ℓ} → Result A → (A → Result B) → Result B
err thrown >>= rest = err thrown
ok value >>= rest = rest value

abbrev pub ◌>>◌ {κ} : {B : Type κ} → Result (Unit {0}) → Result B → Result B
call >> rest = call >>= λ done. rest

-- A result that is not for want of fuel.
abbrev pub IsFueled {ℓ} : {A : Type ℓ} → Result A → Type ℓ
IsFueled m = m ≢ err out_of_fuel

module _ {ℓ κ} {A : Type ℓ} {B : Type κ} where
  -- If a call and the code behind it return, the call has returned what that code went on with.
  pub >>=-eq-ok :
      (call : Result A) (rest : A → Result B) {out : B}
      → (call >>= rest) ≡ ok out
      → (v : A) × (call ≡ ok v) × (rest v ≡ ok out)
  >>=-eq-ok (err thrown) rest run = cc
  >>=-eq-ok (ok v) rest run = (v, refl, run)

  pub >>=-IsFueled :
      (m : Result A) (f : A → Result B)
      → IsFueled m
      → ((a : A) → m ≡ ok a → IsFueled (f a))
      → IsFueled (m >>= f)
  >>=-IsFueled (ok a) f h k = k a refl
  >>=-IsFueled (err e) f h k = λ p. h (cc)
