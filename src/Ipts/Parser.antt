-- ===== src/Ipts/Parser.antt =====
-- `ipts::Parser` of src/ipts/parser.hpp. A handler takes the parser and the reader of its chunk of
-- data, and returns the parser, and what it throws or the moved reader. The parser keeps what was
-- passed to the callbacks, also before an exception, and its own cached reports at each of the calls.
pub mod Reports
pub mod Frames
pub mod Monad
pub mod Rules
pub mod Invariant
pub mod Total
use iptsd_android.Prelude.{ℕ, Bool, List, [], ◌∷◌, ◌++◌, map}
use iptsd_android.Ipts.Data.{StylusData, Heatmap, DftWindow, Metadata, Dimensions, DftMetadata}

-- A call of one of the four callbacks.
pub data Event (F : Type 0) : Type 0 where
  stylus_event : StylusData F → Event F
  heatmap_event : Heatmap → Event F
  dft_event : DftWindow → Event F
  metadata_event : Metadata → Event F

-- A call that was made, and the cached reports at that time.
pub record Call (F : Type 0) : Type 0 where
  pub event : Event F
  pub dim : Dimensions
  pub dft_meta : DftMetadata

-- Which callbacks are set, the cached reports, and the calls that were made.
pub record Parser (F : Type 0) : Type 0 where
  pub on_stylus : Bool
  pub on_heatmap : Bool
  pub on_dft : Bool
  pub on_metadata : Bool
  pub dim : Dimensions
  pub dft_meta : DftMetadata
  pub emitted : List (Call F)

abbrev pub no_dimensions : Dimensions
no_dimensions = record {
  rows = 0;
  columns = 0;
  y_min = 0;
  y_max = 0;
  x_min = 0;
  x_max = 0;
  z_min = 0;
  z_max = 0;
}

-- A parser on which the given callbacks are set.
abbrev pub init : {F : Type 0} (stylus heatmap dft metadata : Bool) → Parser F
init stylus heatmap dft metadata = record {
  on_stylus = stylus;
  on_heatmap = heatmap;
  on_dft = dft;
  on_metadata = metadata;
  dim = no_dimensions;
  dft_meta = record { group_counter = 0; seq_num = 0; data_type = 0 };
  emitted = [];
}

abbrev pub emit : {F : Type 0} → Event F → Parser F → Parser F
emit e p = record p {
  emitted = p.emitted ++ record { event = e; dim = p.dim; dft_meta = p.dft_meta } ∷ [];
}

-- What was passed to the callbacks.
abbrev pub events : {F : Type 0} → Parser F → List (Event F)
events p = map (λ c. c.event) p.emitted
