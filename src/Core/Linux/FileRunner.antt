-- ===== src/Core/Linux/FileRunner.antt =====
-- `FileRunner` of src/core/linux/file-runner.hpp. The file is its bytes; `make` stands for the
-- configuration that is loaded and the constructor of the application. `stopped k` is what the read
-- number `k` of `m_should_stop` finds, which a signal handler sets.
pub mod Head
pub mod Ends
use iptsd_android.Prelude.{
  ℕ, zero, suc, ◌+◌, ◌%◌, Bool, true, false, ◌||◌, Option, none, some, List, Result, ok, err,
  out_of_fuel, ltb, ◌==◌, if◌then◌else◌,
}
use iptsd_android.Prelude.Word.{u8_at, u64_at, u64_mod}
use iptsd_android.Prelude.Act.{Act, ◌>>=◌, ◌>>◌, pure, modify, get, lift}
use iptsd_android.Reader.{Reader, init, size, read, sub, subspan}
use iptsd_android.Ipts.Data.{Metadata}
use iptsd_android.Core.Device.{DeviceInfo, info_width, metadata_width, device_info, metadata_of}
use iptsd_android.Core.Linux.Runner.{Methods, recover}

pub record FileRunner (S : Type 0) : Type 0 where
  pub file : List ℕ
  pub info : DeviceInfo
  pub application : S
  pub reader : Reader

-- A read of the reader in the state, which is moved only if the read succeeds.
abbrev pub moved : {A : Type 0} → Reader → Result (A × Reader) → Reader × Result A
moved r (ok (a, r')) = (r', ok a)
moved r (err e) = (r, err e)

abbrev pub metadata_if : ℕ → Act Reader (Option Metadata)
metadata_if zero = pure none
metadata_if (suc n) = do bs ← λ r. moved r (read metadata_width r); pure (some (metadata_of bs))

-- What the constructor reads at the start of the file.
unfoldable pub read_head : Act Reader (DeviceInfo × Option Metadata)
read_head = do
  bs ← λ r. moved r (read info_width r)
  has_meta ← λ r. moved r (read 1 r)
  meta ← metadata_if (u8_at has_meta 0)
  pure (device_info bs, meta)

-- The state of `run`: the application, and the copy of the reader.
pub record Local (S : Type 0) : Type 0 where
  pub application : S
  pub local : Reader

abbrev pub value_of : {A : Type 0} → Reader × Result A → Result A
value_of (r, a) = a

module _ {S : Type 0} where
  abbrev pub made : List ℕ → DeviceInfo → Reader × Result S → Result (FileRunner S)
  made bytes i (r, ok s) = ok (record { file = bytes; info = i; application = s; reader = r })
  made bytes i (r, err e) = err e

  abbrev pub opened :
      (make : DeviceInfo → Option Metadata → Result S)
      → List ℕ
      → Reader × Result (DeviceInfo × Option Metadata)
      → Result (FileRunner S)
  opened make bytes (r, ok (i, meta)) = made bytes i (r, make i meta)
  opened make bytes (r, err e) = err e

  -- The constructor, given the bytes of the file.
  unfoldable pub file_runner :
      (make : DeviceInfo → Option Metadata → Result S) → List ℕ → Result (FileRunner S)
  file_runner make bytes = opened make bytes (read_head (init bytes))

  abbrev pub with_reader : {A : Type 0} → Local S → Reader × Result A → Local S × Result A
  with_reader l (r, a) = (record l { local = r }, a)

  abbrev pub with_application : {A : Type 0} → Local S → S × Result A → Local S × Result A
  with_application l (s, a) = (record l { application = s }, a)

  -- The body of `try` behind its test: the length, the buffer, and the call of the application.
  unfoldable pub take_next : Methods S → ℕ → Act (Local S) (Unit {0})
  take_next app buffer_size = do
    length ← λ m. with_reader m (moved m.local (read 8 m.local))
    buffer ← λ m. with_reader m (moved m.local (sub buffer_size m.local))
    bytes ← lift (value_of (moved buffer (subspan 1 (u64_at length 0) buffer)))
    λ m. with_application m (app.process bytes m.application)

  -- A round of the loop goes on, if it ends or throws an exception, with the `rest`.
  abbrev pub and_then : Act (Local S) ℕ → Local S × Result (Unit {0}) → Local S × Result ℕ
  and_then rest (l, ok done) = rest l
  and_then rest (l, err e) = (l, err e)

  -- The loop, from the read number `k` of the flag on; it returns the number of the next read.
  unfoldable pub loop : Methods S → (ℕ → Bool) → ℕ → (fuel k : ℕ) → Act (Local S) ℕ
  unfolding take_next
  loop app stopped buffer_size zero k l = (l, err out_of_fuel)
  loop app stopped buffer_size (suc fuel) k l =
      let rest = loop app stopped buffer_size fuel (suc k) in
      if stopped k || size l.local == 0
      then (l, ok (suc k))
      else if ltb (size l.local) ((8 + buffer_size) % u64_mod)
      then (l, ok (suc k))
      else and_then rest (recover tt (take_next app buffer_size l))

  -- `run()` on the local state. The warning about leftover data reads the flag, and so does `return`.
  unfoldable pub run_local : Methods S → (ℕ → Bool) → ℕ → ℕ → Act (Local S) Bool
  unfolding loop
  run_local app stopped buffer_size fuel = do
    started ← λ m. with_application m (app.on_start m.application)
    k ← loop app stopped buffer_size fuel 0
    done ← λ m. with_application m (app.on_stop m.application)
    pure (stopped (suc k))

  abbrev pub back : FileRunner S → Local S × Result Bool → FileRunner S × Result Bool
  back f (l, a) = (record f { application = l.application }, a)

  -- `run()`. A round reads eight bytes at least, unless `8 + buffer_size` wraps.
  unfoldable pub run : Methods S → (ℕ → Bool) → Act (FileRunner S) Bool
  run app stopped f = back f (
      run_local app stopped f.info.buffer_size (suc (size f.reader))
        (record { application = f.application; local = f.reader }))
