-- ===== src/Ipts/Device/Setup.antt =====
-- What a device that passed the checks of its constructor can do.
use iptsd_android.Prelude.{
  ℕ, ◌≡◌, Option, none, some, List, [], ◌∷◌, Result, ok, err, invalid_device,
  invalid_set_mode_report,
}
use iptsd_android.Hid.Report.{Report}
use iptsd_android.Ipts.Device.{Device, Mode, mode_value, find_touch_data_reports, set_mode}

abbrev mode_test : Option Report → Result (Unit {0})
mode_test m = elim m [ none ↦ err invalid_device | some r ↦ ok tt ]

abbrev touch_test : List Report → Result (Unit {0})
touch_test rs = elim rs [ [] ↦ err invalid_device | r ∷ more ↦ ok tt ]

abbrev built : List Report → Device
built reports = record {
  descriptor = reports;
  touch_data_reports = find_touch_data_reports reports;
}

-- What `set_mode` does with the modesetting report `r`: it sends the ID of the report with the mode, or
-- throws since the report has no ID.
pub data SetsMode (mode : Mode) (d : Device) (r : Report) : Type 0 where
  sends :
      (id : ℕ)
      → r.id ≡ some id
      → set_mode mode d ≡ ok (id ∷ mode_value mode ∷ [])
      → SetsMode mode d r
  throws : r.id ≡ none → set_mode mode d ≡ err invalid_set_mode_report → SetsMode mode d r
