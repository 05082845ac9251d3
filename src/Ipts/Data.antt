-- ===== src/Ipts/Data.antt =====
-- The structures of src/ipts/data.hpp, and the packed ones of src/ipts/protocol with their decoding.
-- An enumeration is kept as its number, since any byte can arrive; the `f32` fields of the metadata
-- are kept as their bytes, which the parser only copies.
pub mod Encode
use iptsd_android.Prelude.{ℕ, zero, suc, ◌+◌, Bool, Option, List, [], ◌∷◌, take, drop}
use iptsd_android.Prelude.Int.{ℤ}
use iptsd_android.Prelude.Word.{u8_at, u16_at, u32_at, signed8, signed16}

-- `ipts::StylusData`
pub record StylusData (F : Type 0) : Type 0 where
  pub proximity : Bool
  pub contact : Bool
  pub button : Bool
  pub rubber : Bool
  pub timestamp : ℕ
  pub x : F
  pub y : F
  pub pressure : F
  pub altitude : F
  pub azimuth : F
  pub serial : ℕ

-- `ipts::Heatmap`
pub record Heatmap : Type 0 where
  pub rows : ℕ
  pub columns : ℕ
  pub min_value : ℕ
  pub max_value : ℕ
  pub pixels : List ℕ

-- `protocol::dft::Row`
pub record Row : Type 0 where
  pub frequency : ℕ
  pub magnitude : ℕ
  pub real : List ℤ
  pub imag : List ℤ
  pub first : ℤ
  pub last : ℤ
  pub mid : ℤ
  pub zero_index : ℤ

abbrev pub num_components : ℕ
num_components = 9

abbrev pub row_width : ℕ
row_width = 48

-- `count` consecutive `i16` from an offset on.
unfoldable pub i16_list : (count offset : ℕ) → List ℕ → List ℤ
i16_list zero offset bs = []
i16_list (suc count) offset bs = signed16 (u16_at bs offset) ∷ i16_list count (offset + 2) bs

unfoldable pub row : List ℕ → Row
unfolding i16_list
row bs = record {
  frequency = u32_at bs 0;
  magnitude = u32_at bs 4;
  real = i16_list num_components 8 bs;
  imag = i16_list num_components 26 bs;
  first = signed8 (u8_at bs 44);
  last = signed8 (u8_at bs 45);
  mid = signed8 (u8_at bs 46);
  zero_index = signed8 (u8_at bs 47);
}

-- `reinterpret_cast<Row *>` of a chunk of bytes, as an array of `count` rows.
unfoldable pub rows : ℕ → List ℕ → List Row
rows zero bs = []
rows (suc count) bs = row (take row_width bs) ∷ rows count (drop row_width bs)

-- `ipts::DftWindow`
pub record DftWindow : Type 0 where
  pub group : Option ℕ
  pub type : ℕ
  pub width : ℕ
  pub height : ℕ
  pub x : List Row
  pub y : List Row

-- `protocol::metadata` and `ipts::Metadata`
pub record Metadata : Type 0 where
  pub rows : ℕ
  pub columns : ℕ
  pub width : ℕ
  pub height : ℕ
  pub unknown_byte : ℕ
  pub transform : List ℕ
  pub unknown : List ℕ

-- `protocol::heatmap::Dimensions`
pub record Dimensions : Type 0 where
  pub rows : ℕ
  pub columns : ℕ
  pub y_min : ℕ
  pub y_max : ℕ
  pub x_min : ℕ
  pub x_max : ℕ
  pub z_min : ℕ
  pub z_max : ℕ

abbrev pub dimensions : List ℕ → Dimensions
dimensions bs = record {
  rows = u8_at bs 0;
  columns = u8_at bs 1;
  y_min = u8_at bs 2;
  y_max = u8_at bs 3;
  x_min = u8_at bs 4;
  x_max = u8_at bs 5;
  z_min = u8_at bs 6;
  z_max = u8_at bs 7;
}

-- `protocol::dft::Metadata`
pub record DftMetadata : Type 0 where
  pub group_counter : ℕ
  pub seq_num : ℕ
  pub data_type : ℕ

abbrev pub dft_metadata : List ℕ → DftMetadata
dft_metadata bs = record {
  group_counter = u32_at bs 0;
  seq_num = u8_at bs 4;
  data_type = u8_at bs 5;
}

-- `protocol::dft::Window`
pub record Window : Type 0 where
  pub timestamp : ℕ
  pub num_rows : ℕ
  pub seq_num : ℕ
  pub data_type : ℕ

abbrev pub window : List ℕ → Window
window bs = record {
  timestamp = u32_at bs 0;
  num_rows = u8_at bs 4;
  seq_num = u8_at bs 5;
  data_type = u8_at bs 9;
}

-- `protocol::hid::Frame`, `protocol::report::Frame`, and `protocol::legacy::ReportGroup`: what the
-- payload is, and its size.
pub record Header : Type 0 where
  pub type : ℕ
  pub size : ℕ

abbrev pub hid_header : List ℕ → Header
hid_header bs = record { type = u8_at bs 5; size = u32_at bs 0 }

abbrev pub report_header : List ℕ → Header
report_header bs = record { type = u8_at bs 0; size = u16_at bs 2 }

abbrev pub group_header : List ℕ → Header
group_header bs = record { type = u16_at bs 2; size = u32_at bs 4 }

-- `protocol::stylus::SampleMPP_1_0` and `SampleMPP_1_51`; the first has no time and no tilt.
pub record Sample : Type 0 where
  pub timestamp : ℕ
  pub state : ℕ
  pub x : ℕ
  pub y : ℕ
  pub pressure : ℕ
  pub altitude : ℕ
  pub azimuth : ℕ

abbrev pub sample_1_0 : List ℕ → Sample
sample_1_0 bs = record {
  timestamp = 0;
  state = u8_at bs 4;
  x = u16_at bs 5;
  y = u16_at bs 7;
  pressure = u16_at bs 9;
  altitude = 0;
  azimuth = 0;
}

abbrev pub sample_1_51 : List ℕ → Sample
sample_1_51 bs = record {
  timestamp = u16_at bs 0;
  state = u16_at bs 2;
  x = u16_at bs 4;
  y = u16_at bs 6;
  pressure = u16_at bs 8;
  altitude = u16_at bs 10;
  azimuth = u16_at bs 12;
}
