-- ===== src/Tests/Dft.antt =====
-- Runs of the stylus of newer devices.
use iptsd_android.Prelude.{ℕ, ◌≡◌, refl, inr, true, false, none, some, List, [], ◌∷◌, ok, arith}
use iptsd_android.Prelude.Int.{ℤ, pos}
use iptsd_android.Prelude.Act.{each}
use iptsd_android.Ipts.Data.{Row, DftWindow}
use iptsd_android.Core.Dft.{DftConfig, DftStylus}
use iptsd_android.Core.Dft
use iptsd_android.Core.Dft.Input.{input, handle_dft_binary_mpp_2}
use iptsd_android.Core.Dft.Rules.{Returns}
use iptsd_android.Core.Dft.Valid.{IsStylus}
use iptsd_android.Core.Dft.Safe.{each-input}
use iptsd_android.Core.Dft.Once.{handle_dft_binary_mpp_2-once}
use iptsd_android.Tests.Numbers.{numbers, numbers-HasUnits}

abbrev pub options : DftConfig ℕ
options = record {
  invert_x = false;
  invert_y = true;
  width = 26;
  height = 17;
  position_min_amp = 5;
  position_min_mag = 20;
  position_exp = 1;
  button_min_mag = 10;
  freq_min_mag = 10;
  tilt_min_mag = 10;
  mpp2_button_min_mag = 30;
  mpp2_contact_min_mag = 30;
  tilt_distance = 1;
}

abbrev nine : List ℤ
nine = pos 1 ∷ pos 2 ∷ pos 3 ∷ pos 4 ∷ pos 9 ∷ pos 5 ∷ pos 3 ∷ pos 2 ∷ pos 1 ∷ []

abbrev row_of : (magnitude : ℕ) → Row
row_of magnitude = record {
  frequency = 0;
  magnitude = magnitude;
  real = nine;
  imag = nine;
  first = pos 3;
  last = pos 11;
  mid = pos 7;
  zero_index = pos 0;
}

abbrev six_rows : List Row
six_rows = row_of 90 ∷ row_of 50 ∷ row_of 40 ∷ row_of 30 ∷ row_of 20 ∷ row_of 60 ∷ []

abbrev window_of : (type : ℕ) → DftWindow
window_of type = record {
  group = some 7;
  type = type;
  width = 44;
  height = 30;
  x = six_rows;
  y = six_rows;
}

-- A binary window, a position, a button and a pressure of the same group.
abbrev a_group : List DftWindow
a_group = window_of 10 ∷ window_of 6 ∷ window_of 9 ∷ window_of 11 ∷ []

pub start-IsStylus : IsStylus ℕ (Dft.init {F = ℕ}).stylus
start-IsStylus = record {
  ends = refl;
  x = inr (refl, refl);
  y = inr (refl, refl);
  pressure = (refl, refl);
}

each-input_example :
    IsStylus ℕ (each (input options none) a_group Dft.init).0.stylus
    × Returns (each (input options none) a_group Dft.init).1
each-input_example =
    each-input numbers-HasUnits options none a_group Dft.init tt (refl, (refl, (refl, (refl, tt))))
      start-IsStylus

handle_dft_binary_mpp_2-once_example :
    handle_dft_binary_mpp_2 options
      (window_of 10)
      (handle_dft_binary_mpp_2 options (window_of 10) Dft.init).0
    ≡ ((handle_dft_binary_mpp_2 options (window_of 10) Dft.init).0, ok tt)
handle_dft_binary_mpp_2-once_example =
    handle_dft_binary_mpp_2-once options (window_of 10) (window_of 10) Dft.init refl (omega arith)
      refl refl
