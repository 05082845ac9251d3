-- ===== src/Core/Linux/DeviceRunner.antt =====
-- `DeviceRunner::run` of src/core/linux/device-runner.hpp. The hidraw device of
-- src/core/linux/hidraw-device.hpp is what the kernel answers: `read k` in round `k`, and
-- `set_feature`. `stopped k` is what the read number `k` of `m_should_stop` finds. The pause after
-- an exception is left out.
pub mod Create
pub mod Ends
pub mod Modes
use iptsd_android.Prelude.{
  ℕ, zero, suc, ◌+◌, Bool, true, false, List, [], ◌∷◌, ◌++◌, Result, ok, err, out_of_fuel, length,
  drop, leb, if◌then◌else◌,
}
use iptsd_android.Prelude.Act.{Act, ◌>>=◌, ◌>>◌, pure, modify, get, lift}
use iptsd_android.Ipts.Device.{Device, Mode, singletouch, multitouch, set_mode, is_touch_data}
use iptsd_android.Core.Linux.Runner.{Methods, recover}

-- A read returns the bytes that it put at the start of the buffer.
pub record Hidraw : Type 0 where
  pub read : ℕ → Result (List ℕ)
  pub set_feature : List ℕ → Result (Unit {0})

-- `sent` are the feature reports handed to the device.
pub record DeviceRunner (S : Type 0) : Type 0 where
  pub device : Device
  pub buffer : List ℕ
  pub application : S
  pub sent : List (List ℕ)

-- What a round of the loop came to.
pub data Outcome : Type 0 where
  failed skipped processed : Outcome

-- Only a processed report resets the count.
abbrev pub errors_after : Outcome → ℕ → ℕ
errors_after failed errors = suc errors
errors_after skipped errors = errors
errors_after processed errors = 0

module _ {S : Type 0} where
  abbrev pub with_application :
      {A : Type 0} → DeviceRunner S → S × Result A → DeviceRunner S × Result A
  with_application r (s, a) = (record r { application = s }, a)

  abbrev pub fill : List ℕ → DeviceRunner S → DeviceRunner S
  fill bytes r = record r { buffer = bytes ++ drop (length bytes) r.buffer }

  abbrev pub log : List ℕ → DeviceRunner S → DeviceRunner S
  log report r = record r { sent = r.sent ++ report ∷ [] }

module _ {S : Type 0} (app : Methods S) (hid : Hidraw) (stopped : ℕ → Bool) where
  -- `m_ipts.set_mode(mode)`
  unfoldable pub switch_mode : Mode → Act (DeviceRunner S) (Unit {0})
  switch_mode mode = do
    r ← get
    report ← lift (set_mode mode r.device)
    modify (log report)
    lift (hid.set_feature report)

  unfoldable pub on_report : List ℕ → Act (DeviceRunner S) Outcome
  on_report bytes r =
      if is_touch_data r.buffer r.device
      then (do done ← λ q. with_application q (app.process bytes q.application); pure processed) r
      else (r, ok skipped)

  -- The body of `try` in round `k`.
  unfoldable pub round : ℕ → Act (DeviceRunner S) Outcome
  unfolding on_report
  round k = do bytes ← lift (hid.read k); modify (fill bytes); on_report bytes

  abbrev pub and_then :
      (ℕ → Act (DeviceRunner S) ℕ) → ℕ → DeviceRunner S × Result Outcome → DeviceRunner S × Result ℕ
  and_then rest errors (r, ok o) = rest (errors_after o errors) r
  and_then rest errors (r, err e) = (r, err e)

  -- The loop from round `k` on; it returns the number of the next read of the flag.
  unfoldable pub loop : (fuel k errors : ℕ) → Act (DeviceRunner S) ℕ
  unfolding round
  loop zero k errors r = (r, err out_of_fuel)
  loop (suc fuel) k errors r =
      let rest = loop fuel (suc k) in
      if stopped k
      then (r, ok (suc k))
      else if leb 50 errors
      then (r, ok (suc k))
      else and_then rest errors (recover failed (round k r))

  -- `run()`, for at most `fuel` rounds.
  unfoldable pub run : ℕ → Act (DeviceRunner S) Bool
  unfolding switch_mode loop
  run fuel = do
    switched ← switch_mode multitouch
    started ← λ r. with_application r (app.on_start r.application)
    k ← loop fuel 0 0
    done ← λ r. with_application r (app.on_stop r.application)
    restored ← λ r. recover tt (switch_mode singletouch r)
    pure (stopped k)
