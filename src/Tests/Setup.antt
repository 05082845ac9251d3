-- ===== src/Tests/Setup.antt =====
-- Runs of the setup of a device.
use iptsd_android.Prelude.{some, List, [], ◌∷◌}
use iptsd_android.Hid.Report.{input, feature, Report}
use iptsd_android.Ipts.Device.{Device}

abbrev pub touch_report : Report
touch_report = record {
  type = input;
  id = some 64;
  size = 4096;
  usages = record { page = 0x0D; value = 0x56 } ∷ record { page = 0x0D; value = 0x61 } ∷ [];
}

abbrev pub mode_report : Report
mode_report = record {
  type = feature;
  id = some 11;
  size = 8;
  usages = record { page = 0xFF00; value = 0xC8 } ∷ [];
}

abbrev pub two_reports : List Report
two_reports = touch_report ∷ mode_report ∷ []

abbrev pub a_device : Device
a_device = record { descriptor = two_reports; touch_data_reports = touch_report ∷ [] }
