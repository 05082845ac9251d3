-- ===== src/Ipts/Parser/Frames.antt =====
-- The frames of the parser: HID frames, legacy frames and report frames, and the loops over them.
-- The fuel of a loop bounds its rounds; `parse` gives enough for any data.
use iptsd_android.Prelude.{
  ℕ, zero, suc, ◌+◌, ◌-◌, ◌%◌, List, out_of_fuel, ◌==◌, ◌||◌, if◌then◌else◌, length, Result,
}
use iptsd_android.Prelude.Word.{u32_at, u64_mod}
use iptsd_android.Prelude.Float.{Float}
use iptsd_android.Reader.{Reader, size}
use iptsd_android.Reader
use iptsd_android.Ipts.Data.{hid_header, report_header, group_header}
use iptsd_android.Ipts.Parser.{Parser}
use iptsd_android.Ipts.Parser.Monad.{
  M, ◌>>=◌, ◌>>◌, bytes, skipping, pure, throw, remaining, on_reader, split,
}
use iptsd_android.Ipts.Parser.Reports.{
  parse_stylus_mpp_1_0, parse_stylus_mpp_1_51, parse_heatmap_dimensions, parse_heatmap_data,
  parse_dft_metadata, parse_dft_window, parse_metadata_frame,
}

module _ {F : Type 0} where
  -- `parse_heatmap_frame`
  unfoldable pub parse_heatmap_frame : M F (Unit {0})
  parse_heatmap_frame = do
    header ← bytes 9
    s ← split (u32_at header 5)
    on_reader s parse_heatmap_data

module _ {F : Type 0} ⦃fl : Float F⦄ where
  -- The `switch` of `parse_report_frame`; an unknown type is ignored.
  unfoldable pub report_payload : ℕ → M F (Unit {0})
  report_payload type =
      if type == 0x10
      then parse_stylus_mpp_1_0
      else if type == 0x60
      then parse_stylus_mpp_1_51
      else if type == 0x03
      then parse_heatmap_dimensions
      else if type == 0x25
      then parse_heatmap_data
      else if type == 0x5F
      then parse_dft_metadata
      else if type == 0x5C
      then parse_dft_window
      else pure tt

  unfoldable pub parse_report_frame : M F (Unit {0})
  parse_report_frame = do
    bs ← bytes 4
    let frame = report_header bs
    s ← split frame.size
    on_reader s (report_payload frame.type)

  -- `while (reader.size() > 0) parse_report_frame(reader)`
  unfoldable pub report_frames : ℕ → M F (Unit {0})
  report_frames zero = throw out_of_fuel
  report_frames (suc fuel) = do
    left ← remaining
    if left == 0 then pure tt else (do parse_report_frame; report_frames fuel)

  unfoldable pub parse_report_frames : M F (Unit {0})
  parse_report_frames = do left ← remaining; report_frames (left + 1)

  -- A group of a legacy frame.
  unfoldable pub legacy_group : M F (Unit {0})
  legacy_group = do
    bs ← bytes 16
    let group = group_header bs
    s ← split group.size
    if group.type == 6 || group.type == 8 then on_reader s parse_report_frames else pure tt

  unfoldable pub legacy_groups : ℕ → M F (Unit {0})
  legacy_groups zero = pure tt
  legacy_groups (suc elements) = do legacy_group; legacy_groups elements

  unfoldable pub parse_legacy_frame : M F (Unit {0})
  parse_legacy_frame = do header ← bytes 12; legacy_groups (u32_at header 4)

  -- The `switch` of `parse_hid_frame` on the chunk `s`; `frames` parses nested HID frames.
  unfoldable pub hid_payload : (type : ℕ) (s : Reader) (frames : M F (Unit {0})) → M F (Unit {0})
  hid_payload type s frames =
      if type == 0x00
      then on_reader s frames
      else if type == 0x01
      then on_reader s parse_heatmap_frame
      else if type == 0x02
      then on_reader s parse_metadata_frame
      else if type == 0xEE
      then on_reader s parse_legacy_frame
      else if type == 0xFF
      then (do left ← remaining; if left == 4 then pure tt else on_reader s parse_report_frames)
      else pure tt

  -- `frame.size - sizeof(frame)` is computed modulo 2 ^ 64.
  unfoldable pub hid_frame : (frames : M F (Unit {0})) → M F (Unit {0})
  hid_frame frames = do
    bs ← bytes 7
    let frame = hid_header bs
    s ← split ((frame.size + u64_mod - 7) % u64_mod)
    hid_payload frame.type s frames

  -- `while (reader.size() > 0) parse_hid_frame(reader)`. The fuel also bounds the depth.
  unfoldable pub hid_frames : ℕ → M F (Unit {0})
  hid_frames zero = throw out_of_fuel
  hid_frames (suc fuel) = do
    left ← remaining
    if left == 0 then pure tt else (do hid_frame (hid_frames fuel); hid_frames fuel)

  -- `parse_with_header`
  unfoldable pub parse_with_header : ℕ → List ℕ → Parser F → Parser F × Result (Unit {0} × Reader)
  parse_with_header header bytes p =
      (do skipping header; hid_frame (hid_frames (length bytes + 1))) p (Reader.init bytes)

  -- `parse(data)`, whose header is a report ID and a timestamp.
  unfoldable pub parse : List ℕ → Parser F → Parser F × Result (Unit {0} × Reader)
  parse = parse_with_header 3
