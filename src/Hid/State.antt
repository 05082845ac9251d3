-- ===== src/Hid/State.antt =====
-- `ParserState` of src/hid/state.hpp: the items that a HID descriptor has set so far.
pub mod Ranges
pub mod Fueled
use iptsd_android.Prelude.{
  ℕ, zero, suc, ◌+◌, ◌%◌, Bool, Option, none, some, List, [], Result, ok, err, ◌>>=◌, ◌>>◌,
  usage_before_page, invalid_report_type, missing_report_size, missing_report_count, endless, ltb,
  if◌then◌else◌,
}
use iptsd_android.Prelude.Word.{u16_mod}
use iptsd_android.Hid.Report.{Usage, ReportType, input, output, feature, Report, insert, report}

pub record ParserState : Type 0 where
  pub report_id : Option ℕ
  pub report_size : Option ℕ
  pub report_count : Option ℕ
  pub usage : Option ℕ
  pub usage_page : Option ℕ
  pub usage_min : Option ℕ
  pub usage_max : Option ℕ
  pub usages : List Usage

abbrev pub init : ParserState
init = record {
  report_id = none;
  report_size = none;
  report_count = none;
  usage = none;
  usage_page = none;
  usage_min = none;
  usage_max = none;
  usages = [];
}

-- `TagMain` of src/hid/spec.hpp. Any other value of the four bits is `unknown`.
pub data TagMain : Type 0 where
  input_tag output_tag feature_tag collection end_collection unknown : TagMain

unfoldable pub reset_local : ParserState → ParserState
reset_local s = record s { usages = []; usage = none; usage_min = none; usage_max = none }

pub reset_global : ParserState → ParserState
reset_global s = record s {
  report_id = none;
  report_count = none;
  report_size = none;
  usage_page = none;
}

pub reset : ParserState → ParserState
unfolding reset_local reset_global
reset s = reset_global (reset_local s)

unfoldable pub set_report_id : ℕ → ParserState → ParserState
set_report_id id s = record s { report_id = some id }

unfoldable pub set_report_size : ℕ → ParserState → ParserState
set_report_size size s = record s { report_size = some size }

unfoldable pub set_report_count : ℕ → ParserState → ParserState
set_report_count count s = record s { report_count = some count }

unfoldable pub set_usage_page : ℕ → ParserState → ParserState
set_usage_page page s = record s { usage_page = some page }

-- The page that a usage needs.
abbrev page_or_throw : ParserState → Result ℕ
page_or_throw s = elim s.usage_page [ none ↦ err usage_before_page | some page ↦ ok page ]

unfoldable pub set_usage : ℕ → ParserState → Result ParserState
set_usage value s = do
  page ← page_or_throw s
  ok (record s { usages = insert (record { page = page; value = value }) s.usages })

-- `for (u16 i = lo; i < limit; i++) insert`, where `limit` is an `int`. `none`: the fuel ran out.
pub insert_range : ℕ → (i limit page : ℕ) → List Usage → Option (List Usage)
insert_range zero i limit page us = none
insert_range (suc fuel) i limit page us =
    let rest =
      insert_range fuel ((i + 1) % u16_mod) limit page
        (insert (record { page = page; value = i }) us) in
    if ltb i limit then rest else some us

-- A `u16` takes 2 ^ 16 values: a loop that makes more rounds has come back to where it was.
abbrev range_fuel : ℕ
range_fuel = u16_mod + 1

add_range : (lo hi page : ℕ) → List Usage → Result (List Usage)
add_range lo hi page us = elim (insert_range range_fuel lo (hi + 1) page us) [
  | none ↦ err endless
  | some vs ↦ ok vs
]

pub set_usage_min : ℕ → ParserState → Result ParserState
set_usage_min lo s = do
  page ← page_or_throw s
  elim s.usage_max [
    | none ↦ ok (record s { usage_min = some lo })
    | some hi ↦ do
      us ← add_range lo hi page s.usages
      ok (record s { usages = us; usage_max = none })
  ]

pub set_usage_max : ℕ → ParserState → Result ParserState
set_usage_max hi s = do
  page ← page_or_throw s
  elim s.usage_min [
    | none ↦ ok (record s { usage_max = some hi })
    | some lo ↦ do
      us ← add_range lo hi page s.usages
      ok (record s { usages = us; usage_min = none })
  ]

unfoldable pub report_type : TagMain → Result ReportType
report_type input_tag = ok input
report_type output_tag = ok output
report_type feature_tag = ok feature
report_type _ = err invalid_report_type

-- The arguments of the constructor stand in the source's order: the size where it expects the count.
unfoldable pub get_report : TagMain → ParserState → Result (Report × ParserState)
unfolding report_type reset_local
get_report tag s = do
  type ← report_type tag
  size ← (elim s.report_size [ none ↦ err missing_report_size | some n ↦ ok n ])
  count ← (elim s.report_count [ none ↦ err missing_report_count | some n ↦ ok n ])
  ok (report type s.report_id size count s.usages, reset_local s)
