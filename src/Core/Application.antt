-- ===== src/Core/Application.antt =====
-- `Application` of src/core/generic/application.hpp: from a buffer to the contacts and samples that the
-- handlers get. The calls of the handlers are recorded as outputs. The parser runs first and the
-- callbacks then get what it found, in the same order; where one throws, the parser is put back to
-- what it was at that call, since the parsing ends there. The normalized heatmap is not kept between
-- frames.
pub mod Stylus
pub mod Create
pub mod Fueled
use iptsd_android.Prelude.{
  ℕ, Bool, true, false, not, ◌||◌, Option, List, [], ◌∷◌, ◌++◌, Result, ok, err, map, ◌==◌,
  if◌then◌else◌,
}
use iptsd_android.Prelude.Float.{Float}
use iptsd_android.Prelude.Act.{Act, ◌>>=◌, ◌>>◌, pure, modify, get, lift, each}
use iptsd_android.Ipts.Data.{StylusData, Heatmap, DftWindow, Metadata}
use iptsd_android.Ipts.Parser.{
  Parser, Call, Event, stylus_event, heatmap_event, dft_event, metadata_event,
}
use iptsd_android.Ipts.Parser.Frames.{parse}
use iptsd_android.Contacts.Contact.{Contact}
use iptsd_android.Contacts.Finder.{Finder, Means, find_contacts}
use iptsd_android.Core.Dft.{DftConfig, DftStylus}
use iptsd_android.Core.Dft.Input.{input}

-- A call of one of the handlers.
pub data Output (F : Type 0) : Type 0 where
  on_contacts : List (Contact F) → Output F
  on_stylus : StylusData F → Output F

pub record Application (F : Type 0) : Type 0 where
  pub parser : Parser F
  pub finder : Finder F
  pub dft : DftStylus F
  pub outputs : List (Output F)

-- What is fixed by the constructor: the options, the metadata, and the means of the finder; and the
-- handlers of the application that is run. A handler knows the calls that were made before, and
-- returns or throws.
pub record Setup (F : Type 0) : Type 0 where
  pub dft_config : DftConfig F
  pub stylus_tip_distance : F
  pub metadata : Option Metadata
  pub means : Means F
  pub handler : List (Output F) → Output F → Result (Unit {0})

-- `!=` on `bool`.
abbrev pub differs : Bool → Bool → Bool
differs true b = not b
differs false b = b

module _ {F : Type 0} ⦃fl : Float F⦄ (setup : Setup F) where
  -- A call of a handler.
  abbrev pub output : Output F → Act (Application F) (Unit {0})
  output o a = (record a { outputs = a.outputs ++ o ∷ [] }, setup.handler a.outputs o)

  unfoldable pub calculate_offset : (altitude azimuth : F) → F × F
  calculate_offset altitude azimuth =
      let zero_f = fl.of_nat 0 in
      let offset = fl.mul (fl.sin altitude) setup.stylus_tip_distance in
      if fl.le altitude zero_f || fl.eq setup.stylus_tip_distance zero_f
      then (zero_f, zero_f)
      else (
        fl.div (fl.mul offset (fl.neg (fl.cos azimuth))) setup.dft_config.width,
        fl.div (fl.mul offset (fl.sin azimuth)) setup.dft_config.height,
      )

  abbrev pub corrected : StylusData F → StylusData F
  corrected data_in =
      let off = calculate_offset data_in.altitude data_in.azimuth in
      record data_in { x = fl.add data_in.x off.0; y = fl.add data_in.y off.1 }

  unfoldable pub process_stylus : StylusData F → Act (Application F) (Unit {0})
  process_stylus data_in = output (on_stylus (corrected data_in))

  -- What follows the stylus's handling of a window, which is left also after an exception.
  abbrev pub after_input :
      Application F → DftStylus F × Result (Unit {0}) → Application F × Result (Unit {0})
  after_input a (dft, err e) = (record a { dft = dft }, err e)
  after_input a (dft, ok done) = process_stylus dft.stylus (record a { dft = dft })

  unfoldable pub process_dft : DftWindow → Act (Application F) (Unit {0})
  process_dft w a = after_input a (input setup.dft_config setup.metadata w a.dft)

  -- A pixel, in the range from no contact to contact.
  abbrev pub normalized : (min_value max_value : ℕ) → ℕ → F
  normalized min_value max_value pixel = fl.sub (fl.of_nat 1) (
      fl.div (fl.sub (fl.of_nat pixel) (fl.of_nat min_value))
        (fl.sub (fl.of_nat max_value) (fl.of_nat min_value)))

  abbrev pub inverted : Bool → F → F
  inverted b v = if b then fl.sub (fl.of_nat 1) v else v

  abbrev pub invert_contact : Contact F → Contact F
  invert_contact contact = record contact {
    mean_x = inverted setup.dft_config.invert_x contact.mean_x;
    mean_y = inverted setup.dft_config.invert_y contact.mean_y;
    orientation =
        inverted (differs setup.dft_config.invert_x setup.dft_config.invert_y) contact.orientation;
  }

  unfoldable pub process_heatmap : Heatmap → Act (Application F) (Unit {0})
  process_heatmap h = if h.rows == 0 || h.columns == 0 then pure tt else do
    a ← get
    let image = map (normalized h.min_value h.max_value) h.pixels
    (finder, contacts) ← lift (find_contacts setup.means image h.rows h.columns a.finder)
    modify λ b. record b { finder = finder }
    output (on_contacts (map invert_contact contacts))

  -- The callbacks that the constructor sets; there is none for metadata.
  unfoldable pub process_event : Event F → Act (Application F) (Unit {0})
  process_event (stylus_event d) = process_stylus d
  process_event (heatmap_event h) = process_heatmap h
  process_event (dft_event w) = process_dft w
  process_event (metadata_event m) = pure tt

  -- An exception that a callback throws ends the parsing: the parser stays as it was at the call.
  abbrev pub left_at :
      Call F → Application F × Result (Unit {0}) → Application F × Result (Unit {0})
  left_at c (a, ok done) = (a, ok done)
  left_at c (a, err e) =
      (record a { parser = record a.parser { dim = c.dim; dft_meta = c.dft_meta } }, err e)

  unfoldable pub process_call : Call F → Act (Application F) (Unit {0})
  process_call c a = left_at c (process_event c.event a)

  -- `process(data)`
  unfoldable pub process : List ℕ → Act (Application F) (Unit {0})
  process buffer = do
    a ← get
    let (parser, r) = parse buffer a.parser
    modify λ b. record b { parser = record parser { emitted = [] } }
    each process_call parser.emitted
    rest ← lift r
    pure tt
