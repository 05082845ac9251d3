-- ===== src/Ipts/Device.antt =====
-- src/ipts/protocol/descriptor.hpp, src/ipts/descriptor.hpp and src/ipts/device.hpp. The HID device is
-- its reports; what it does with a feature report is a parameter.
pub mod Setup
use iptsd_android.Prelude.{
  zeros, ℕ, zero, suc, ◌+◌, ◌/◌, Bool, true, false, not, ◌&&◌, Option, none, some, List, [], ◌∷◌,
  Result, ok, err, ◌>>=◌, ◌>>◌, guard, any, ltb, ◌==◌, if◌then◌else◌, invalid_device,
  invalid_set_mode_report,
}
use iptsd_android.Prelude.Float.{Float}
use iptsd_android.Hid.Report.{ReportType, input, feature, type_eq, id_eq, Report, find_usage}
use iptsd_android.Ipts.Data.{Metadata}
use iptsd_android.Ipts.Parser.{Parser, Event, metadata_event, events, init}
use iptsd_android.Ipts.Parser.Frames.{parse_with_header}

unfoldable pub is_touch_data_report : Report → Bool
is_touch_data_report r = type_eq r.type input && find_usage 0x0D 0x56 r && find_usage 0x0D 0x61 r

unfoldable pub is_set_mode_report : Report → Bool
is_set_mode_report r = type_eq r.type feature && r.size == 8 && find_usage 0xFF00 0xC8 r

unfoldable pub is_metadata_report : Report → Bool
is_metadata_report r = type_eq r.type feature && find_usage 0x0D 0x63 r

-- The reports that a test picks out, and the first of them.
abbrev pub select : (Report → Bool) → List Report → List Report
select test [] = []
select test (r ∷ rs) = let rest = select test rs in if test r then r ∷ rest else rest

abbrev pub first : (Report → Bool) → List Report → Option Report
first test [] = none
first test (r ∷ rs) = let rest = first test rs in if test r then some r else rest

unfoldable pub find_touch_data_reports : List Report → List Report
find_touch_data_reports reports = select is_touch_data_report reports

unfoldable pub find_modesetting_report : List Report → Option Report
find_modesetting_report reports = first is_set_mode_report reports

unfoldable pub find_metadata_report : List Report → Option Report
find_metadata_report reports = first is_metadata_report reports

pub data Mode : Type 0 where
  singletouch multitouch : Mode

abbrev pub mode_value : Mode → ℕ
mode_value singletouch = 0
mode_value multitouch = 1

pub record Device : Type 0 where
  pub descriptor : List Report
  pub touch_data_reports : List Report

-- The constructor.
unfoldable pub device : List Report → Result Device
unfolding find_modesetting_report find_touch_data_reports
device reports = do
  elim (find_modesetting_report reports) [ none ↦ err invalid_device | some r ↦ ok tt ]
  elim (find_touch_data_reports reports) [ [] ↦ err invalid_device | r ∷ rs ↦ ok tt ]
  ok (record { descriptor = reports; touch_data_reports = find_touch_data_reports reports })

-- The loop of `buffer_size` over the reports.
unfoldable pub largest : ℕ → List Report → ℕ
largest size [] = size
largest size (r ∷ rs) = largest (if ltb size r.size then r.size else size) rs

unfoldable pub buffer_size : Device → ℕ
unfolding largest
buffer_size d = largest 0 d.touch_data_reports / 8

-- The buffer that `set_mode` hands to `set_feature`.
unfoldable pub set_mode : Mode → Device → Result (List ℕ)
set_mode mode d = elim (find_modesetting_report d.descriptor) [
  | none ↦ err invalid_device
  | some r ↦ elim r.id [
    | none ↦ err invalid_set_mode_report
    | some id ↦ ok (id ∷ mode_value mode ∷ [])
  ]
]

unfoldable pub is_touch_data : List ℕ → Device → Bool
is_touch_data [] d = false
is_touch_data (b ∷ bs) d = any (λ r. id_eq r.id (some b)) d.touch_data_reports

-- What the callback has stored: the metadata of the last call.
abbrev last_metadata : {F : Type 0} → List (Event F) → Option Metadata → Option Metadata
last_metadata [] found = found
last_metadata (metadata_event m ∷ es) found = last_metadata es (some m)
last_metadata (_ ∷ es) found = last_metadata es found

-- The metadata that a parsed buffer holds, or what the parser throws.
abbrev parsed_metadata : {F A : Type 0} → Parser F × Result A → Result (Option Metadata)
parsed_metadata (p, ok a) = ok (last_metadata (events p) none)
parsed_metadata (p, err e) = err e

-- `metadata()`, with a `get_feature` that fills a buffer.
unfoldable pub metadata :
    (F : Type 0) ⦃fl : Float F⦄
    → (get_feature : List ℕ → Result (List ℕ)) → Device
    → Result (Option Metadata)
unfolding parse_with_header
metadata F get_feature d = elim (find_metadata_report d.descriptor) [
  | none ↦ ok none
  | some r ↦ elim r.id [
    | none ↦ ok none
    | some id ↦ do
      buffer ← get_feature (id ∷ zeros (r.size / 8))
      parsed_metadata (parse_with_header {F = F} 1 buffer (init false false false true))
  ]
]
