-- ===== src/Hid/Parser.antt =====
-- `parse` of src/hid/parser.hpp, with the bit fields of src/hid/spec.hpp. One round of the loop is
-- `step`. The fuel bounds the rounds: each reads at least the item's header byte.
pub mod Progress
pub mod Unique
use Prim.Native.Nat.{bit_and}
use iptsd_android.Prelude.{
  ℕ, zero, suc, ◌+◌, ◌/◌, ◌^◌, Bool, true, false, ◌&&◌, Option, none, some, List, [], ◌∷◌, ◌++◌,
  Result, ok, err, ◌>>=◌, ◌>>◌, narrowing, out_of_fuel, length, ltb, ◌==◌, if◌then◌else◌, not,
}
use iptsd_android.Prelude.Word.{u8_at, u16_at, u32_at, u16_mod}
use iptsd_android.Reader.{Reader, size, read}
use iptsd_android.Reader
use iptsd_android.Hid.Report.{ReportType, Report, type_eq, id_eq, merge}
use iptsd_android.Hid.State.{
  ParserState, TagMain, input_tag, output_tag, feature_tag, collection, end_collection, unknown,
  reset_local, set_report_id, set_report_size, set_report_count, set_usage_page, set_usage,
  set_usage_min, set_usage_max, get_report,
}
use iptsd_android.Hid.State as State

-- The fields of an item's header: `(header & BITS) >> SHIFT`.
abbrev pub size_bits : ℕ → ℕ
size_bits header = bit_and header 0b11 / 2 ^ 0

abbrev pub type_bits : ℕ → ℕ
type_bits header = bit_and header 0b1100 / 2 ^ 2

abbrev pub tag_bits : ℕ → ℕ
tag_bits header = bit_and header 0b11110000 / 2 ^ 4

unfoldable pub tag_main : ℕ → TagMain
tag_main t =
    if t == 0b1000
    then input_tag
    else if t == 0b1001
    then output_tag
    else if t == 0b1011
    then feature_tag
    else if t == 0b1010
    then collection
    else if t == 0b1100
    then end_collection
    else unknown

-- `casts::to<u8>` and `casts::to<u16>` of a `u32`.
abbrev pub narrow : (limit payload : ℕ) → Result ℕ
narrow limit payload = if ltb payload limit then ok payload else err narrowing

-- The payload of an item whose size bits are not 0.
unfoldable pub item_data : ℕ → Reader → Result (ℕ × Reader)
item_data bits r =
    if bits == 1
    then (do (bs, r') ← read 1 r; ok (u8_at bs 0, r'))
    else if bits == 2
    then (do (bs, r') ← read 2 r; ok (u16_at bs 0, r'))
    else if bits == 3
    then (do (bs, r') ← read 4 r; ok (u32_at bs 0, r'))
    else ok (0, r)

-- Merges a report into the first one that has its ID and its type, or appends it.
unfoldable pub add_report : Report → List Report → Result (List Report)
add_report nr [] = ok (nr ∷ [])
add_report nr (report ∷ rest) =
    let later = (do rest' ← add_report nr rest; ok (report ∷ rest')) in
    if id_eq nr.id report.id && type_eq nr.type report.type
    then (do merged ← merge report nr; ok (merged ∷ rest))
    else later

unfoldable pub report_item :
    TagMain → ParserState → List Report → Result (ParserState × List Report)
report_item tag s reports = do
  (nr, s') ← get_report tag s
  reports' ← add_report nr reports
  ok (s', reports')

unfoldable pub main_item : ℕ → ParserState → List Report → Result (ParserState × List Report)
unfolding tag_main
main_item tag s reports = elim (tag_main tag) [
  | collection ↦ ok (reset_local s, reports)
  | end_collection ↦ ok (reset_local s, reports)
  | main ↦ report_item main s reports
]

unfoldable pub global_item : (tag payload : ℕ) → ParserState → Result ParserState
global_item tag payload s =
    if tag == 0b1000
    then (do id ← narrow 256 payload; ok (set_report_id id s))
    else if tag == 0b0111
    then ok (set_report_size payload s)
    else if tag == 0b1001
    then ok (set_report_count payload s)
    else if tag == 0b0000
    then (do page ← narrow u16_mod payload; ok (set_usage_page page s))
    else ok s

unfoldable pub local_item : (tag payload : ℕ) → ParserState → Result ParserState
local_item tag payload s =
    if tag == 0b0000
    then (do usage ← narrow u16_mod payload; set_usage usage s)
    else if tag == 0b0010
    then (do usage ← narrow u16_mod payload; set_usage_max usage s)
    else if tag == 0b0001
    then (do usage ← narrow u16_mod payload; set_usage_min usage s)
    else ok s

-- What an item with a payload does.
unfoldable pub item :
    (header payload : ℕ) → ParserState → List Report → Result (ParserState × List Report)
item header payload s reports =
    if type_bits header == 0
    then main_item (tag_bits header) s reports
    else if type_bits header == 1
    then (do s' ← global_item (tag_bits header) payload s; ok (s', reports))
    else (do s' ← local_item (tag_bits header) payload s; ok (s', reports))

-- The rest of an item behind its header: nothing, or the header with its payload.
unfoldable pub item_body : ℕ → Reader → Result (Option (ℕ × ℕ) × Reader)
item_body header r =
    if size_bits header == 0
    then ok (none, r)
    else (do (payload, r') ← item_data (size_bits header) r; ok (some (header, payload), r'))

unfoldable pub next_item : Reader → Result (Option (ℕ × ℕ) × Reader)
next_item r = do (bs, r') ← read 1 r; item_body (u8_at bs 0) r'

abbrev run_item : Option (ℕ × ℕ) → ParserState → List Report → Result (ParserState × List Report)
run_item none s reports = ok (s, reports)
run_item (some (header, payload)) s reports = item header payload s reports

unfoldable pub step :
    ParserState → List Report → Reader → Result (ParserState × List Report × Reader)
step s reports r = do
  (next, r') ← next_item r
  (s', reports') ← run_item next s reports
  ok (s', reports', r')

unfoldable pub loop : ℕ → ParserState → List Report → Reader → Result (List Report)
loop zero s reports r = err out_of_fuel
loop (suc fuel) s reports r =
    if size r == 0
    then ok reports
    else (do (s', reports', r') ← step s reports r; loop fuel s' reports' r')

-- `parse(buffer)`
unfoldable pub parse : List ℕ → Result (List Report)
parse buffer = loop (length buffer + 1) State.init [] (Reader.init buffer)
