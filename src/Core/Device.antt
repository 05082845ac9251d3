-- ===== src/Core/Device.antt =====
-- `core::DeviceInfo` of src/core/generic/device.hpp, and the bytes of it and of `ipts::Metadata`
-- (src/ipts/data.hpp) in the memory of a little-endian machine, which dumps contain.
use iptsd_android.Prelude.{
  get_or, get_or-drop, ℕ, ◌≡◌, refl, ◌∙◌, ap, subst, List, [], ◌∷◌, ◌++◌, length, length-append,
  take, drop, take-append, drop-append, drop-add, arith,
}
use iptsd_android.Prelude.Word.{
  u8_at, u16_at, u32_at, u64_at, le16, le32, le64, le16_lem, le32_lem, le64_lem,
}
use iptsd_android.Ipts.Data.{Metadata}

pub record DeviceInfo : Type 0 where
  pub vendor : ℕ
  pub product : ℕ
  pub padding : List ℕ
  pub buffer_size : ℕ

abbrev pub info_width : ℕ
info_width = 16

abbrev pub metadata_width : ℕ
metadata_width = 105

-- `read<DeviceInfo>()`, from the bytes that it copies.
unfoldable pub device_info : List ℕ → DeviceInfo
device_info bs = record {
  vendor = u16_at bs 0;
  product = u16_at bs 2;
  padding = take 4 (drop 4 bs);
  buffer_size = u64_at bs 8;
}

unfoldable pub device_info_bytes : DeviceInfo → List ℕ
device_info_bytes info =
    le16 info.vendor ++ (le16 info.product ++ (info.padding ++ le64 info.buffer_size))

-- `read<ipts::Metadata>()`. The order of the fields is not the one of a metadata report.
unfoldable pub metadata_of : List ℕ → Metadata
metadata_of bs = record {
  rows = u32_at bs 0;
  columns = u32_at bs 4;
  width = u32_at bs 8;
  height = u32_at bs 12;
  unknown_byte = u8_at bs 40;
  transform = take 24 (drop 16 bs);
  unknown = take 64 (drop 41 bs);
}

abbrev dimensions_bytes : Metadata → List ℕ
dimensions_bytes m = le32 m.rows ++ (le32 m.columns ++ (le32 m.width ++ le32 m.height))

unfoldable pub metadata_bytes : Metadata → List ℕ
metadata_bytes m = dimensions_bytes m ++ (m.transform ++ (m.unknown_byte ∷ m.unknown))

-- The arrays have the sizes of their types.
abbrev pub IsInfo : DeviceInfo → Type 0
IsInfo info = length info.padding ≡ 4

pub record IsMetadata (m : Metadata) : Type 0 where
  pub transform : length m.transform ≡ 24
  pub unknown : length m.unknown ≡ 64

info_parts :
    (vendor product size : ℕ) (padding : List ℕ)
    → length padding ≡ 4
    → let info : DeviceInfo = record {
      vendor = vendor;
      product = product;
      padding = padding;
      buffer_size = size;
    } in
      device_info (device_info_bytes info) ≡ info
unfolding device_info device_info_bytes
info_parts vendor product size (a ∷ b ∷ c ∷ d ∷ []) h = λ t. record {
  vendor = le16_lem vendor t;
  product = le16_lem product t;
  padding = a ∷ b ∷ c ∷ d ∷ [];
  buffer_size = le64_lem size t;
}
info_parts vendor product size [] h = absurd (omega (arith, h))
info_parts vendor product size (a ∷ []) h = absurd (omega (arith, h))
info_parts vendor product size (a ∷ b ∷ []) h = absurd (omega (arith, h))
info_parts vendor product size (a ∷ b ∷ c ∷ []) h = absurd (omega (arith, h))
info_parts vendor product size (a ∷ b ∷ c ∷ d ∷ e ∷ bs) h = absurd (omega (arith, h))

pub device_info-device_info_bytes :
    (info : DeviceInfo) → IsInfo info → device_info (device_info_bytes info) ≡ info
device_info-device_info_bytes info h =
    info_parts info.vendor info.product info.buffer_size info.padding h

pub length-device_info_bytes :
    (info : DeviceInfo) → IsInfo info → length (device_info_bytes info) ≡ info_width
unfolding device_info_bytes
length-device_info_bytes info h =
    omega (arith, length-append info.padding (le64 info.buffer_size), h)

pub length-metadata_bytes :
    (m : Metadata) → IsMetadata m → length (metadata_bytes m) ≡ metadata_width
unfolding metadata_bytes
length-metadata_bytes m h =
    omega (arith, length-append m.transform (m.unknown_byte ∷ m.unknown), h.transform, h.unknown)

-- Behind the dimensions.
drop_dimensions :
    (m : Metadata) → drop 16 (metadata_bytes m) ≡ m.transform ++ (m.unknown_byte ∷ m.unknown)
unfolding metadata_bytes
drop_dimensions m = refl

drop_transform :
    (m : Metadata) → IsMetadata m → drop 40 (metadata_bytes m) ≡ m.unknown_byte ∷ m.unknown
drop_transform m h =
    drop-add 16 24 (metadata_bytes m)
    ∙ ap (drop 24) (drop_dimensions m)
    ∙ subst (λ n. drop n (m.transform ++ (m.unknown_byte ∷ m.unknown)) ≡ m.unknown_byte ∷ m.unknown)
        h.transform (drop-append m.transform (m.unknown_byte ∷ m.unknown))

pub metadata_of-metadata_bytes : (m : Metadata) → IsMetadata m → metadata_of (metadata_bytes m) ≡ m
unfolding metadata_of metadata_bytes
metadata_of-metadata_bytes m h =
    let transform =
      subst (λ n. take n (m.transform ++ (m.unknown_byte ∷ m.unknown)) ≡ m.transform) h.transform
        (take-append m.transform (m.unknown_byte ∷ m.unknown)) in
    let byte =
      get_or-drop 40 0 (metadata_bytes m) 0 ∙ ap (λ bs. get_or bs 0 0) (drop_transform m h) in
    let behind = drop-add 40 1 (metadata_bytes m) ∙ ap (drop 1) (drop_transform m h) in
    let unknown = subst (λ n. take n m.unknown ≡ m.unknown) h.unknown (take-length m.unknown) in
    λ t. record {
      rows = le32_lem m.rows t;
      columns = le32_lem m.columns t;
      width = le32_lem m.width t;
      height = le32_lem m.height t;
      unknown_byte = byte t;
      transform = transform t;
      unknown = (ap (take 64) behind ∙ unknown) t;
    }
  where
    take-length : (bs : List ℕ) → take (length bs) bs ≡ bs
    take-length [] = refl
    take-length (b ∷ bs) = ap (◌∷◌ b) (take-length bs)
