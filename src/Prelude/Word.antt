-- ===== src/Prelude/Word.antt =====
-- Little-endian decoding of the packed structs of src/ipts/protocol, as `reinterpret_cast` reads
-- them on the machines that the program runs on, and the limits of the unsigned types.
use Prim.Native.Nat.{ℕ, ◌+◌, ◌-◌, ◌*◌, ◌/◌, ◌%◌, ◌^◌}
use mathlib.Core.Path.{◌≡◌}
use mathlib.Core.List.{List, [], ◌∷◌, ◌++◌}
use native.Mathlib.Omega.{arith}
use iptsd_android.Prelude.Tests.{ltb, if◌then◌else◌}
use iptsd_android.Prelude.Lists.{get_or}
use iptsd_android.Prelude.Int.{ℤ, pos, negsuc}

abbrev pub u16_mod : ℕ
u16_mod = 2 ^ 16

abbrev pub u32_mod : ℕ
u32_mod = 2 ^ 32

abbrev pub u64_mod : ℕ
u64_mod = 2 ^ 64

-- The byte at an offset of a struct.
abbrev pub u8_at : List ℕ → ℕ → ℕ
u8_at bs i = get_or bs i 0

abbrev pub u16_at : List ℕ → ℕ → ℕ
u16_at bs i = u8_at bs i + 256 * u8_at bs (i + 1)

abbrev pub u32_at : List ℕ → ℕ → ℕ
u32_at bs i = u16_at bs i + 65536 * u16_at bs (i + 2)

abbrev pub u64_at : List ℕ → ℕ → ℕ
u64_at bs i = u32_at bs i + 4294967296 * u32_at bs (i + 4)

-- Little-endian words, as their bytes lie in memory.
abbrev pub le16 : ℕ → List ℕ
le16 n = n % 256 ∷ n / 256 ∷ []

abbrev pub le32 : ℕ → List ℕ
le32 n = le16 (n % 65536) ++ le16 (n / 65536)

abbrev pub le64 : ℕ → List ℕ
le64 n = le32 (n % 4294967296) ++ le32 (n / 4294967296)

pub le16_lem : (n : ℕ) → n % 256 + 256 * (n / 256) ≡ n
le16_lem n = omega arith

pub le32_lem :
    (n : ℕ)
    → (n % 65536) % 256
        + 256 * ((n % 65536) / 256)
        + 65536 * ((n / 65536) % 256 + 256 * ((n / 65536) / 256))
      ≡ n
le32_lem n = omega arith

pub le64_lem : (n : ℕ) → u64_at (le64 n) 0 ≡ n
le64_lem n = rw (le32_lem (n % 4294967296), le32_lem (n / 4294967296)) (omega arith)

-- The number that a two's complement 16-bit pattern stands for.
abbrev pub signed16 : ℕ → ℤ
signed16 w = if ltb w (2 ^ 15) then pos w else negsuc (2 ^ 16 - w - 1)

abbrev pub signed8 : ℕ → ℤ
signed8 w = if ltb w 128 then pos w else negsuc (256 - w - 1)

-- Bit `k` of a word.
abbrev pub bit : ℕ → ℕ → ℕ
bit k w = w / 2 ^ k % 2
