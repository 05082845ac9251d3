-- ===== src/Tests/Descriptors.antt =====
-- Runs of the HID descriptor parser.
use iptsd_android.Prelude.{
  ℕ, ◌≡◌, refl, ◌||◌, ◌&&◌, some, List, [], ◌∷◌, ok, err, endless, ◌>>=◌, ◌==◌, arith, IsFueled,
}
use iptsd_android.Hid.Report.{
  Usage, input, Report, report, insert, insert_all, holds, find_usage, merge,
}
use iptsd_android.Hid.State.{
  ParserState, report_type, get_report, set_report_id, set_report_size, set_report_count,
  set_usage_page, set_usage, set_usage_min, set_usage_max, reset_local,
}
use iptsd_android.Hid.State as State
use iptsd_android.Hid.State.Ranges.{within, set_usage_range, set_usage_range_endless}
use iptsd_android.Hid.Parser.{
  parse, loop, step, next_item, item_body, item_data, item, main_item, global_item, local_item,
  report_item, add_report, tag_main,
}
use iptsd_android.Reader.{read, subspan, gsl_subspan, skip, size}
use iptsd_android.Reader
use iptsd_android.Hid.Parser.Progress.{parse-IsFueled}
use iptsd_android.Hid.Parser.Unique.{same, IsDistinct, described, add_report_lem, parse-IsDistinct}

-- Usage page 13, report ID 64, three fields of 8 bits, usages 1 to 2, and twice an input.
abbrev digitizer : List ℕ
digitizer =
    0x05 ∷ 13 ∷ 0x85 ∷ 64 ∷ 0x75 ∷ 8 ∷ 0x95 ∷ 3 ∷ 0x09 ∷ 1 ∷ 0x81 ∷ 0 ∷ 0x09 ∷ 2 ∷ 0x81 ∷ 0 ∷ []

abbrev usage_1 : Usage
usage_1 = record { page = 13; value = 1 }

abbrev usage_2 : Usage
usage_2 = record { page = 13; value = 2 }

abbrev first_report : Report
first_report = record { type = input; id = some 64; size = 24; usages = usage_1 ∷ [] }

abbrev second_report : Report
second_report = record { type = input; id = some 64; size = 24; usages = usage_2 ∷ [] }

abbrev both_reports : Report
both_reports = record { type = input; id = some 64; size = 48; usages = usage_1 ∷ usage_2 ∷ [] }

digitizer_run : parse digitizer ≡ ok (both_reports ∷ [])
unfolding parse loop step next_item item_body item_data item main_item global_item local_item
    report_item add_report tag_main merge report report_type get_report set_report_id
    set_report_size set_report_count set_usage_page set_usage reset_local insert insert_all read
    subspan gsl_subspan skip size Reader.init
digitizer_run = refl

parse-IsDistinct_example : IsDistinct (both_reports ∷ [])
parse-IsDistinct_example = parse-IsDistinct digitizer (both_reports ∷ []) digitizer_run

parse-IsFueled_example : IsFueled (parse digitizer)
parse-IsFueled_example = parse-IsFueled digitizer

add_report_lem_example :
    (out : List Report) × (add_report second_report (first_report ∷ []) ≡ ok out)
    × (IsDistinct (first_report ∷ []) → IsDistinct out)
    × ((k : Report) (p v : ℕ)
        → described k p v out ≡ (
            described k p v (first_report ∷ [])
            || (same k second_report && find_usage p v second_report)))
add_report_lem_example = add_report_lem second_report (first_report ∷ [])

-- The state behind a usage page.
abbrev paged : ParserState
paged = record State.init { usage_page = some 13 }

set_usage_range_example :
    (vs : List Usage) × ((set_usage_min 4 paged >>= set_usage_max 9)
      ≡ ok (record paged { usages = vs }))
    × ((set_usage_max 9 paged >>= set_usage_min 4) ≡ ok (record paged { usages = vs }))
    × ((p v : ℕ) → holds p v vs ≡ (holds p v [] || (13 == p && within 4 9 v)))
set_usage_range_example = set_usage_range paged 4 9 13 refl refl refl (omega arith) (omega arith)

set_usage_range_endless_example :
    ((set_usage_min 4 paged >>= set_usage_max 65535) ≡ err endless)
    × ((set_usage_max 65535 paged >>= set_usage_min 4) ≡ err endless)
set_usage_range_endless_example = set_usage_range_endless paged 4 13 refl refl refl (omega arith)
