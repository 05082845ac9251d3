-- ===== src/Ipts/Parser/Reports.antt =====
-- The handlers of the parser for single reports: stylus samples, heatmaps, DFT windows, metadata.
use iptsd_android.Prelude.{
  ℕ, zero, suc, ◌-◌, ◌*◌, Bool, ◌&&◌, none, some, List, ltb, ◌==◌, if◌then◌else◌,
}
use iptsd_android.Prelude.Word.{u8_at, u32_at, bit}
use iptsd_android.Prelude.Float.{Float}
use iptsd_android.Ipts.Data.{
  StylusData, Heatmap, DftWindow, Metadata, Dimensions, dimensions, dft_metadata, window, Sample,
  sample_1_0, sample_1_51, rows, row_width,
}
use iptsd_android.Ipts.Parser.{Parser, stylus_event, heatmap_event, dft_event, metadata_event, emit}
use iptsd_android.Ipts.Parser.Monad.{M, ◌>>=◌, ◌>>◌, bytes, rows_of, skipping, parser, modify, pure}

abbrev flag : ℕ → Bool
flag b = b == 1

module _ {F : Type 0} ⦃fl : Float F⦄ where
  open fl use {of_nat, div, mul, pi}

  -- The loop `for (u8 i = 0; i < samples - 1; i++) skip`, with an `int` on its right.
  unfoldable pub skip_samples : (width count : ℕ) → M F (Unit {0})
  skip_samples width zero = pure tt
  skip_samples width (suc count) = do skipping width; skip_samples width count

  -- A sample as the handlers pass it on, for the maximal pressure of its protocol version.
  unfoldable pub stylus_data : (serial max_pressure : ℕ) → Sample → StylusData F
  stylus_data serial max_pressure s = record {
    proximity = flag (bit 0 s.state);
    contact = ltb 0 s.pressure;
    button = flag (bit 2 s.state);
    rubber = flag (bit 3 s.state);
    timestamp = s.timestamp;
    x = div (of_nat s.x) (of_nat 9600);
    y = div (of_nat s.y) (of_nat 7200);
    pressure = div (of_nat s.pressure) (of_nat max_pressure);
    altitude = of_nat 0;
    azimuth = of_nat 0;
    serial = serial;
  }

  -- With the tilt, which an MPP 1.0 sample lacks.
  unfoldable pub tilted : Sample → StylusData F → StylusData F
  tilted s d = record d {
    altitude = div (of_nat s.altitude) (div (of_nat 18000) pi);
    azimuth = div (of_nat s.azimuth) (div (of_nat 18000) pi);
  }

  unfoldable pub emit_stylus : StylusData F → M F (Unit {0})
  emit_stylus d = modify λ p. if p.on_stylus then emit (stylus_event d) p else p

  unfoldable pub parse_stylus_mpp_1_0 : M F (Unit {0})
  parse_stylus_mpp_1_0 = do
    report ← bytes 8
    skip_samples 12 (u8_at report 0 - 1)
    bs ← bytes 12
    emit_stylus (stylus_data (u32_at report 4) 1024 (sample_1_0 bs))

  unfoldable pub parse_stylus_mpp_1_51 : M F (Unit {0})
  parse_stylus_mpp_1_51 = do
    report ← bytes 8
    skip_samples 16 (u8_at report 0 - 1)
    bs ← bytes 16
    emit_stylus (tilted (sample_1_51 bs) (stylus_data (u32_at report 4) 4096 (sample_1_51 bs)))

-- The heatmap that the cached dimensions describe.
unfoldable pub heatmap : Dimensions → List ℕ → Heatmap
heatmap d pixels = record {
  rows = d.rows;
  columns = d.columns;
  min_value = d.z_min;
  max_value = d.z_max;
  pixels = pixels;
}

module _ {F : Type 0} where
  -- A maximal value of 0 is replaced by 255.
  unfoldable pub store_dimensions : Dimensions → Parser F → Parser F
  store_dimensions d p = record p { dim = if d.z_max == 0 then record d { z_max = 255 } else d }

  unfoldable pub parse_heatmap_dimensions : M F (Unit {0})
  parse_heatmap_dimensions = do bs ← bytes 8; modify (store_dimensions (dimensions bs))

  unfoldable pub emit_heatmap : Heatmap → M F (Unit {0})
  emit_heatmap h = modify λ p. if p.on_heatmap then emit (heatmap_event h) p else p

  unfoldable pub parse_heatmap_data : M F (Unit {0})
  parse_heatmap_data = do
    p ← parser
    pixels ← rows_of 1 (p.dim.rows * p.dim.columns)
    emit_heatmap (heatmap p.dim pixels)

  -- The window as it is passed on: the group is known if the last metadata report belongs to it.
  unfoldable pub dft_window : Parser F → List ℕ → (x y : List ℕ) → DftWindow
  dft_window p bs x y =
      let w = window bs in
      record {
        group =
            if w.seq_num == p.dft_meta.seq_num && w.data_type == p.dft_meta.data_type
            then some p.dft_meta.group_counter
            else none;
        type = w.data_type;
        width = p.dim.columns;
        height = p.dim.rows;
        x = rows w.num_rows x;
        y = rows w.num_rows y;
      }

  unfoldable pub emit_dft : DftWindow → M F (Unit {0})
  emit_dft w = modify λ p. if p.on_dft then emit (dft_event w) p else p

  unfoldable pub parse_dft_window : M F (Unit {0})
  parse_dft_window = do
    bs ← bytes 12
    x ← rows_of row_width (u8_at bs 4)
    y ← rows_of row_width (u8_at bs 4)
    p ← parser
    emit_dft (dft_window p bs x y)

  unfoldable pub parse_dft_metadata : M F (Unit {0})
  parse_dft_metadata = do bs ← bytes 16; modify λ p. record p { dft_meta = dft_metadata bs }

  unfoldable pub emit_metadata : Metadata → M F (Unit {0})
  emit_metadata m = modify λ p. if p.on_metadata then emit (metadata_event m) p else p

  unfoldable pub parse_metadata_frame : M F (Unit {0})
  parse_metadata_frame = do
    d ← bytes 16
    b ← bytes 1
    transform ← bytes 24
    unknown ← bytes 64
    emit_metadata (record {
      rows = u32_at d 0;
      columns = u32_at d 4;
      width = u32_at d 8;
      height = u32_at d 12;
      unknown_byte = u8_at b 0;
      transform = transform;
      unknown = unknown;
    })
