-- ===== src/Core/Linux/DeviceRunner/Create.antt =====
-- The constructor of `DeviceRunner` of src/core/linux/device-runner.hpp.
use iptsd_android.Prelude.{zeros, ℕ, Option, List, [], Result, ok, ◌>>=◌}
use iptsd_android.Prelude.Float.{Float}
use iptsd_android.Hid.Report.{Report}
use iptsd_android.Ipts.Data.{Metadata}
use iptsd_android.Ipts.Device.{Device, device, buffer_size, metadata}
use iptsd_android.Core.Device.{DeviceInfo}
use iptsd_android.Core.Linux.DeviceRunner.{DeviceRunner}

abbrev pub info_of : (vendor product : ℕ) → Device → DeviceInfo
info_of vendor product d = record {
  vendor = vendor;
  product = product;
  padding = zeros 4;
  buffer_size = buffer_size d;
}

-- The reports, the IDs and `get_feature` are those of the hidraw device; `make` stands for the
-- configuration that is loaded and the constructor of the application.
unfoldable pub device_runner :
    {S : Type 0} (F : Type 0) ⦃fl : Float F⦄
    → (make : DeviceInfo → Option Metadata → Result S) → (get_feature : List ℕ → Result (List ℕ))
    → (vendor product : ℕ) → List Report
    → Result (DeviceRunner S)
device_runner F make get_feature vendor product reports = do
  d ← device reports
  meta ← metadata F get_feature d
  s ← make (info_of vendor product d) meta
  ok (record { device = d; buffer = zeros (buffer_size d); application = s; sent = [] })
