-- ===== src/Core/Linux/Ready.antt =====
-- The application of src/core/generic as the runners call it.
use iptsd_android.Prelude.Act.{pure}
use iptsd_android.Prelude.Float.{Float}
use iptsd_android.Core.Application.{Application, Setup, process}
use iptsd_android.Core.Linux.Runner.{Methods}

module _ {F : Type 0} ⦃fl : Float F⦄ where
  -- `Application` as a runner calls it; the handlers of the start and the stop are empty.
  abbrev pub application : Setup F → Methods (Application F)
  application setup = record { on_start = pure tt; process = process setup; on_stop = pure tt }
