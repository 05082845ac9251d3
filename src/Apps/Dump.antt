-- ===== src/Apps/Dump.antt =====
-- `Dump` of src/apps/dump/dump.hpp: it records the buffers in a file, which is the bytes written to it.
-- The constructor only sets the fields. Writing to the file does not fail.

pub mod Replay
pub mod Recording
use iptsd_android.Prelude.{
  zeros, ℕ, zero, suc, ◌+◌, ◌-◌, ◌%◌, Bool, Option, none, some, List, [], ◌∷◌, ◌++◌, length,
  if◌then◌else◌,
}
use iptsd_android.Prelude.Word.{u64_mod, le64}
use iptsd_android.Prelude.Act.{Act, pure, modify}
use iptsd_android.Ipts.Data.{Metadata}
use iptsd_android.Core.Device.{DeviceInfo, device_info_bytes, metadata_bytes}
use iptsd_android.Core.Linux.Runner.{Methods}

-- `has_out` is `!m_out.empty()`.
pub record Dump : Type 0 where
  pub has_out : Bool
  pub info : DeviceInfo
  pub metadata : Option Metadata
  pub written : List ℕ

-- The flag and the metadata behind the device info.
abbrev pub meta_bytes : Option Metadata → List ℕ
meta_bytes none = 0 ∷ []
meta_bytes (some m) = 1 ∷ metadata_bytes m

-- What is written for a buffer. The number of zeros is computed in `u64`.
unfoldable pub frame_bytes : (buffer_size : ℕ) → List ℕ → List ℕ
frame_bytes buffer_size bytes =
    le64 (length bytes) ++ (bytes ++ zeros ((buffer_size + (u64_mod - length bytes)) % u64_mod))

-- Opening the file empties it.
unfoldable pub start : Dump → Dump
start d =
    if d.has_out
    then record d { written = device_info_bytes d.info ++ meta_bytes d.metadata }
    else d

unfoldable pub on_data : List ℕ → Dump → Dump
on_data bytes d =
    if d.has_out
    then record d { written = d.written ++ frame_bytes d.info.buffer_size bytes }
    else d

-- As a runner calls it.
abbrev pub dump : Methods Dump
dump = record {
  on_start = modify start;
  process = λ bytes. modify (on_data bytes);
  on_stop = pure tt;
}
