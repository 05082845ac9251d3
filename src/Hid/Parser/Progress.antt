-- ===== src/Hid/Parser/Progress.antt =====
-- The loop of the HID descriptor parser ends: each round consumes bytes, so its fuel suffices.
use iptsd_android.Prelude.{
  ℕ, zero, suc, ◌+◌, ◌≤◌, ◌<◌, ◌≡◌, Option, none, some, List, [], ◌∷◌, ok, arith, IsFueled,
  >>=-IsFueled, >>=-eq-ok, length, ◌==◌, Bool-cases, inl, inr,
}
use iptsd_android.Prelude.Word.{u8_at}
use iptsd_android.Reader.{Reader, size, read}
use iptsd_android.Reader
use iptsd_android.Reader.Bounds.{
  IsValid, read_moves, read_cases, init-IsValid, size-init, advance-IsValid, size-advance,
}
use iptsd_android.Reader.Fueled.{read-IsFueled}
use iptsd_android.Hid.Report.{Report}
use iptsd_android.Hid.Report.Laws.{merge-IsFueled}
use iptsd_android.Hid.State.{
  ParserState, TagMain, input_tag, output_tag, feature_tag, collection, end_collection, unknown,
  get_report, set_usage, set_usage_min, set_usage_max,
}
use iptsd_android.Hid.State.Fueled.{
  get_report-IsFueled, set_usage-IsFueled, set_usage_min-IsFueled, set_usage_max-IsFueled,
}
use iptsd_android.Hid.State as State
use iptsd_android.Hid.Parser.{
  item_data, item_body, size_bits, add_report, report_item, main_item, global_item, local_item,
  item, run_item, next_item, step, loop, parse,
}

item_data_moves :
    (bits : ℕ) (r : Reader) {d : ℕ} {r' : Reader}
    → IsValid r
    → item_data bits r ≡ ok (d, r')
    → IsValid r' × (size r' ≤ size r)
unfolding item_data
item_data_moves bits r v e = ground (
  arith,
  read_cases 1 r v,
  read_cases 2 r v,
  read_cases 4 r v,
  advance-IsValid 1 r v,
  advance-IsValid 2 r v,
  advance-IsValid 4 r v,
  size-advance 1 r,
  size-advance 2 r,
  size-advance 4 r,
)

item_body_moves :
    (header : ℕ) (r : Reader) (x : Option (ℕ × ℕ)) (r' : Reader)
    → IsValid r
    → item_body header r ≡ ok (x, r')
    → IsValid r' × (size r' ≤ size r)
unfolding item_body
item_body_moves header r x r' v e = elim (Bool-cases (size_bits header == 0)) [
  | inl empty ↦ ground arith
  | inr full ↦
      let (a, p, q) = >>=-eq-ok (item_data (size_bits header) r) _ (rw full at e) in
      ground (arith, item_data_moves (size_bits header) r {d = a.0} {r' = a.1} v p)
]

-- A round leaves a valid reader with fewer bytes.
pub next_item_moves :
    (r : Reader) (x : Option (ℕ × ℕ)) (r' : Reader)
    → IsValid r
    → next_item r ≡ ok (x, r')
    → IsValid r' × (size r' < size r)
unfolding next_item
next_item_moves r x r' v e =
    let ((bs, r₁), p, q) = >>=-eq-ok (read 1 r) _ e in
    let m = read_moves 1 r v p in ground (arith, item_body_moves (u8_at bs 0) r₁ x r' m.0 q)

add_report-IsFueled : (nr : Report) (reports : List Report) → IsFueled (add_report nr reports)
unfolding add_report
add_report-IsFueled nr [] e = cc
add_report-IsFueled nr (report ∷ rest) e =
    ground (arith, merge-IsFueled report nr, add_report-IsFueled nr rest)

report_item-IsFueled :
    (tag : TagMain) (s : ParserState) (reports : List Report) → IsFueled (report_item tag s reports)
unfolding report_item
report_item-IsFueled tag s reports e = grind (arith, get_report-IsFueled, add_report-IsFueled)

main_item-IsFueled :
    (tag : ℕ) (s : ParserState) (reports : List Report) → IsFueled (main_item tag s reports)
unfolding main_item
main_item-IsFueled tag s reports e = grind (arith, report_item-IsFueled)

global_item-IsFueled : (tag d : ℕ) (s : ParserState) → IsFueled (global_item tag d s)
unfolding global_item
global_item-IsFueled tag d s e = ground arith

local_item-IsFueled : (tag d : ℕ) (s : ParserState) → IsFueled (local_item tag d s)
unfolding local_item
local_item-IsFueled tag d s e =
    ground (arith, set_usage-IsFueled d s, set_usage_min-IsFueled d s, set_usage_max-IsFueled d s)

item-IsFueled : (h d : ℕ) (s : ParserState) (reports : List Report) → IsFueled (item h d s reports)
unfolding item
item-IsFueled h d s reports e =
    grind (arith, main_item-IsFueled, global_item-IsFueled, local_item-IsFueled)

run_item-IsFueled :
    (x : Option (ℕ × ℕ)) (s : ParserState) (reports : List Report) → IsFueled (run_item x s reports)
run_item-IsFueled none s reports e = cc
run_item-IsFueled (some (h, d)) s reports e = item-IsFueled h d s reports e

item_data-IsFueled : (bits : ℕ) (r : Reader) → IsFueled (item_data bits r)
unfolding item_data
item_data-IsFueled bits r e = grind (arith, read-IsFueled)

item_body-IsFueled : (header : ℕ) (r : Reader) → IsFueled (item_body header r)
unfolding item_body
item_body-IsFueled header r e = ground (arith, item_data-IsFueled (size_bits header) r)

next_item-IsFueled : (r : Reader) → IsFueled (next_item r)
unfolding next_item
next_item-IsFueled r =
    >>=-IsFueled (read 1 r) _ (read-IsFueled 1 r) λ a p. item_body-IsFueled (u8_at a.0 0) a.1

step_moves :
    (s : ParserState) (reports : List Report) (r : Reader) (a : ParserState × List Report × Reader)
    → IsValid r
    → step s reports r ≡ ok a
    → IsValid a.2 × (size a.2 < size r)
unfolding step
step_moves s reports r a v e =
    let ((x, r'), p, q) = >>=-eq-ok (next_item r) _ e in
    let (m, less) = next_item_moves r x r' v p in
    let ((s', reports'), _, f) = >>=-eq-ok (run_item x s reports) _ q in ground arith

step-IsFueled : (s : ParserState) (reports : List Report) (r : Reader) → IsFueled (step s reports r)
unfolding step
step-IsFueled s reports r =
    >>=-IsFueled (next_item r) _ (next_item-IsFueled r)
      λ x p. >>=-IsFueled (run_item x.0 s reports) _ (run_item-IsFueled x.0 s reports) λ y q e. cc

pub loop-IsFueled :
    (fuel : ℕ) (s : ParserState) (reports : List Report) (r : Reader)
    → IsValid r
    → size r < fuel
    → IsFueled (loop fuel s reports r)
unfolding loop
loop-IsFueled zero s reports r v h = absurd (omega arith)
loop-IsFueled (suc fuel) s reports r v h = elim (Bool-cases (size r == 0)) [
  | inl done ↦ rw done λ e. cc
  | inr more ↦ rw more (
      >>=-IsFueled (step s reports r) _ (step-IsFueled s reports r) λ a e.
        let (v', less) = step_moves s reports r a v e in
        loop-IsFueled fuel a.0 a.1 a.2 v' (omega arith))
]

-- For every descriptor the parser's fuel suffices: it returns its reports, throws, or meets the
-- endless loop over a range of usages.
pub parse-IsFueled : (buffer : List ℕ) → IsFueled (parse buffer)
unfolding parse
parse-IsFueled buffer =
    loop-IsFueled (length buffer + 1) State.init [] (Reader.init buffer) (init-IsValid buffer)
      (omega (arith, size-init buffer))
