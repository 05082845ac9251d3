-- ===== src/Tests/Reads.antt =====
-- Runs of `Reader`.
use iptsd_android.Prelude.{
  ◌≤◌, ◌<◌, ◌*◌, ◌≡◌, refl, ◌⊎◌, [], ◌∷◌, ok, err, end_of_buffer, contract, arith,
}
use iptsd_android.Reader.{Reader, size, skip, gsl_subspan, subspan, read}
use iptsd_android.Reader.Bounds.{IsValid, chunk, advance, read_cases, subspan_cases}

abbrev six_bytes : Reader
six_bytes = record { bytes = 10 ∷ 11 ∷ 12 ∷ 13 ∷ 14 ∷ 15 ∷ []; index = 1 }

six_bytes-IsValid : IsValid six_bytes
six_bytes-IsValid = omega arith

six_bytes-size : 4 ≤ size six_bytes
unfolding size
six_bytes-size = omega arith

read_run : read 2 six_bytes ≡ ok (11 ∷ 12 ∷ [], advance 2 six_bytes)
unfolding read subspan gsl_subspan skip size
read_run = refl

-- Four elements of 48 bytes are asked for, and five bytes are left.
subspan_run : subspan 48 4 six_bytes ≡ err contract
unfolding subspan gsl_subspan skip size
subspan_run = refl

read_cases_example :
    ((6 ≤ size six_bytes) × (read 6 six_bytes ≡ ok (chunk 6 six_bytes, advance 6 six_bytes)))
    ⊎ ((size six_bytes < 6) × (read 6 six_bytes ≡ err (end_of_buffer 6 (size six_bytes))))
read_cases_example = read_cases 6 six_bytes six_bytes-IsValid

subspan_cases_example :
    ((4 ≤ size six_bytes)
      × (4 * 48 ≤ size six_bytes)
      × (subspan 48 4 six_bytes ≡ ok (chunk (4 * 48) six_bytes, advance (4 * 48) six_bytes)))
    ⊎ ((size six_bytes < 4) × (subspan 48 4 six_bytes ≡ err (end_of_buffer 4 (size six_bytes))))
    ⊎ ((4 ≤ size six_bytes) × (size six_bytes < 4 * 48) × (subspan 48 4 six_bytes ≡ err contract))
subspan_cases_example = subspan_cases 48 4 six_bytes six_bytes-IsValid
