-- ===== src/Tests/Convolution.antt =====
-- Runs of the convolutions on small images.
use iptsd_android.Prelude.{ℕ, ◌+◌, ◌*◌, ◌≡◌, [], ◌∷◌, arith, get_or}
use iptsd_android.Contacts.Convolution.{run_generic}
use iptsd_android.Contacts.Convolution.Small.{run_3x3}
use iptsd_android.Contacts.Convolution.Equal.{run_3x3-run_generic}
use iptsd_android.Contacts.Convolution.Run.{run, run-run_generic}
use iptsd_android.Tests.Numbers.{numbers}

-- Two rows of three pixels.
abbrev six_pixels : ℕ → ℕ
six_pixels i = get_or (1 ∷ 2 ∷ 3 ∷ 4 ∷ 5 ∷ 6 ∷ []) i 0

abbrev weights : ℕ → ℕ → ℕ
weights y x = y * 7 + x + 1

run_3x3-run_generic_example :
    (run_3x3 six_pixels weights 2 3 (λ i. 9)).out (1 * 3 + 2)
    ≡ run_generic six_pixels weights 2 3 3 3 1 2
run_3x3-run_generic_example =
    run_3x3-run_generic six_pixels weights 2 3 (λ i. 9) 1 2 (omega arith) (omega arith)
      (omega arith) (omega arith)

run-run_generic_example :
    run (λ i. i * i) weights 4 4 5 5 (λ i. 9) 3 1 ≡ run_generic (λ i. i * i) weights 4 4 5 5 3 1
run-run_generic_example =
    run-run_generic (λ i. i * i) weights 4 5 5 (λ i. 9) 3 1 (omega arith) (omega arith)
      (omega arith)
