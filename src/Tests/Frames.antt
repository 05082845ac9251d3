-- ===== src/Tests/Frames.antt =====
-- Runs of the parser of IPTS data.
use iptsd_android.Prelude.{ℕ, ◌≡◌, refl, true, List, [], ◌∷◌}
use iptsd_android.Ipts.Data.{Heatmap}
use iptsd_android.Ipts.Parser.{Parser, events, init, heatmap_event}
use iptsd_android.Ipts.Parser.Frames.{
  parse_with_header, hid_frame, hid_frames, hid_payload, parse_report_frames, report_frames,
  parse_report_frame, report_payload,
}
use iptsd_android.Ipts.Parser.Reports.{
  parse_heatmap_dimensions, parse_heatmap_data, store_dimensions, heatmap, emit_heatmap,
}
use iptsd_android.Ipts.Parser.Monad.{bytes, rows_of, skipping, split}
use iptsd_android.Reader.{read, sub, subspan, gsl_subspan, skip, size}
use iptsd_android.Reader
use iptsd_android.Tests.Numbers.{numbers}

-- Three bytes of a header, then a HID frame with two reports: the dimensions of a heatmap of two
-- rows and three columns, whose maximal value is 0, and its data.
abbrev pub touch_data : List ℕ
touch_data =
    0 ∷ 0 ∷ 0 ∷ 29 ∷ 0 ∷ 0 ∷ 0 ∷ 0 ∷ 0xFF ∷ 0 ∷ 0x03 ∷ 0 ∷ 8 ∷ 0 ∷ 2 ∷ 3 ∷ 0 ∷ 0 ∷ 0 ∷ 0 ∷ 0 ∷ 0
    ∷ 0x25 ∷ 0 ∷ 6 ∷ 0 ∷ 1 ∷ 2 ∷ 3 ∷ 4 ∷ 5 ∷ 6 ∷ []

abbrev fresh : Parser ℕ
fresh = init true true true true

abbrev two_by_three : Heatmap
two_by_three = record {
  rows = 2;
  columns = 3;
  min_value = 0;
  max_value = 255;
  pixels = 1 ∷ 2 ∷ 3 ∷ 4 ∷ 5 ∷ 6 ∷ [];
}

frames_run : events (parse_with_header 3 touch_data fresh).0 ≡ heatmap_event two_by_three ∷ []
unfolding parse_with_header hid_frame hid_frames hid_payload parse_report_frames report_frames
    parse_report_frame report_payload parse_heatmap_dimensions parse_heatmap_data store_dimensions
    heatmap emit_heatmap bytes rows_of skipping split read sub subspan gsl_subspan skip size
    Reader.init
frames_run = refl
