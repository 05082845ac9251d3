-- ===== src/Hid/Parser/Unique.antt =====
-- The reports that the HID descriptor parser collects: one for each ID and type.
use iptsd_android.Prelude.{
  ℕ, zero, suc, ◌+◌, ◌≡◌, refl, sym, Bool, true, false, ◌&&◌, ◌||◌, Option, none, some, List, [],
  ◌∷◌, ok, arith, >>=-eq-ok, Bool-cases, inl, inr, All, any, ◌==◌, length, subst, ◌∙◌,
}
use iptsd_android.Reader.{Reader, size}
use iptsd_android.Reader
use iptsd_android.Hid.Report.{Report, type_eq, id_eq, find_usage}
use iptsd_android.Hid.Report.Laws.{type_eq→eq, id_eq→eq, merge_same}
use iptsd_android.Hid.State.{ParserState, TagMain, get_report}
use iptsd_android.Hid.State as State
use iptsd_android.Hid.Parser.{
  add_report, report_item, main_item, item, run_item, next_item, step, loop, parse,
}

-- Whether two reports have one ID and one type.
abbrev pub same : Report → Report → Bool
same a b = id_eq a.id b.id && type_eq a.type b.type

abbrev pub Differs : Report → Report → Type 0
Differs a b = same a b ≡ false

-- No two reports of the list have both their ID and their type in common.
abbrev pub IsDistinct : List Report → Type 0
IsDistinct [] = Unit
IsDistinct (r ∷ rs) = All (Differs r) rs × IsDistinct rs

same_sym : (a b : Report) → Differs a b → Differs b a
same_sym a b d = ground arith

Differs-congr : (q a b : Report) → a.type ≡ b.type → a.id ≡ b.id → Differs q b → Differs q a
Differs-congr q a b t i d = rw (t, i) d

All-Differs-congr :
    (a b : Report) (rs : List Report)
    → a.type ≡ b.type
    → a.id ≡ b.id
    → All (Differs b) rs
    → All (Differs a) rs
All-Differs-congr a b [] t i d = tt
All-Differs-congr a b (r ∷ rs) t i d = (rw (t, i) d.0, All-Differs-congr a b rs t i d.1)

-- Whether the list has a report with the ID and type of `k` and with the usage.
abbrev pub described : Report → ℕ → ℕ → List Report → Bool
described k p v = any λ r. same k r && find_usage p v r

-- What `add_report` makes of a list: a map from ID and type to usages with one entry extended.
abbrev Added : Report → List Report → List Report → Type 0
Added nr rs out =
    ((q : Report) → Differs q nr → All (Differs q) rs → All (Differs q) out)
    × (IsDistinct rs → IsDistinct out)
    × ((k : Report) (p v : ℕ)
        → described k p v out ≡ (described k p v rs || (same k nr && find_usage p v nr)))

-- The report at the head is the one that is extended.
merged_lem :
    (nr r m : Report) (rest : List Report)
    → same nr r ≡ true
    → m.type ≡ r.type
    → m.id ≡ r.id
    → ((p v : ℕ) → find_usage p v m ≡ (find_usage p v r || find_usage p v nr))
    → Added nr (r ∷ rest) (m ∷ rest)
merged_lem nr r m rest h t i has = (
  λ q _ d. (Differs-congr q m r t i d.0, d.1),
  λ d. (All-Differs-congr m r rest t i d.0, d.1),
  λ k p v.
      let type : nr.type ≡ r.type = type_eq→eq nr.type r.type (ground arith) in
      let id : nr.id ≡ r.id = id_eq→eq nr.id r.id (ground arith) in
      let to_r : same k m ≡ same k r = rw (t, i) refl in
      let from_nr : same k nr ≡ same k r = rw (type, id) refl in
      rw (to_r, from_nr, has p v)
        (regroup (same k r) (find_usage p v r) (find_usage p v nr) (described k p v rest)),
)
  where
    regroup : (s a b d : Bool) → ((s && (a || b)) || d) ≡ (((s && a) || d) || (s && b))
    regroup s a b d = ground arith

kept_lem :
    (nr r : Report) (rest out : List Report)
    → Differs nr r
    → Added nr rest out
    → Added nr (r ∷ rest) (r ∷ out)
kept_lem nr r rest out h (fresh, distinct, described-out) = (
  λ q d ds. (ds.0, fresh q d ds.1),
  λ d. (fresh r (same_sym nr r h) d.0, distinct d.1),
  λ k p v. rw (described-out k p v) (regroup (same k r && find_usage p v r) _ _),
)
  where
    regroup : (a b c : Bool) → (a || (b || c)) ≡ ((a || b) || c)
    regroup a b c = ground arith

add_report-Added :
    (nr : Report) (rs : List Report)
    → (out : List Report) × (add_report nr rs ≡ ok out) × Added nr rs out
unfolding add_report
add_report-Added nr [] = (nr ∷ [], refl, (λ q d _. (d, tt), λ _. (tt, tt), λ k p v. ground arith))
add_report-Added nr (r ∷ rest) = elim (Bool-cases (same nr r)) [
  | inl hit ↦
      let (m, run, t, i, _, has) =
        merge_same r nr (sym (type_eq→eq nr.type r.type (ground arith)))
          (sym (id_eq→eq nr.id r.id (ground arith))) in
      (m ∷ rest, rw (hit, run) refl, merged_lem nr r m rest hit t i has)
  | inr miss ↦
      let (out, run, added) = add_report-Added nr rest in
      (r ∷ out, rw (miss, run) refl, kept_lem nr r rest out miss added)
]

-- Adding a report always succeeds, keeps the reports apart by ID and type, and adds its usages to
-- those of its own ID and type and to no other.
pub add_report_lem :
    (nr : Report) (rs : List Report)
    → (out : List Report) × (add_report nr rs ≡ ok out)
      × (IsDistinct rs → IsDistinct out)
      × ((k : Report) (p v : ℕ)
          → described k p v out ≡ (described k p v rs || (same k nr && find_usage p v nr)))
add_report_lem nr rs =
    let (out, run, added) = add_report-Added nr rs in (out, run, added.1, added.2)

report_item-IsDistinct :
    (tag : TagMain) (s : ParserState) (rs : List Report) (a : ParserState × List Report)
    → IsDistinct rs
    → report_item tag s rs ≡ ok a
    → IsDistinct a.1
unfolding report_item
report_item-IsDistinct tag s rs a d e =
    let (b, _, q) = >>=-eq-ok (get_report tag s) _ e in
    let (out, run, distinct, _) = add_report_lem b.0 rs in
    let (out', run', q') = >>=-eq-ok (add_report b.0 rs) _ q in
    let same_out : out ≡ out' = cc in
    let same_list : out' ≡ a.1 = cc in subst IsDistinct (same_out ∙ same_list) (distinct d)

main_item-IsDistinct :
    (tag : ℕ) (s : ParserState) (rs : List Report) (a : ParserState × List Report)
    → IsDistinct rs
    → main_item tag s rs ≡ ok a
    → IsDistinct a.1
unfolding main_item
main_item-IsDistinct tag s rs a d e = grind (arith, report_item-IsDistinct)

item-IsDistinct :
    (h payload : ℕ) (s : ParserState) (rs : List Report) (a : ParserState × List Report)
    → IsDistinct rs
    → item h payload s rs ≡ ok a
    → IsDistinct a.1
unfolding item
item-IsDistinct h payload s rs a d e = grind (arith, main_item-IsDistinct)

run_item-IsDistinct :
    (x : Option (ℕ × ℕ)) (s : ParserState) (rs : List Report) (a : ParserState × List Report)
    → IsDistinct rs
    → run_item x s rs ≡ ok a
    → IsDistinct a.1
run_item-IsDistinct none s rs a d e = let same_list : rs ≡ a.1 = cc in subst IsDistinct same_list d
run_item-IsDistinct (some (h, payload)) s rs a d e = item-IsDistinct h payload s rs a d e

step-IsDistinct :
    (s : ParserState) (rs : List Report) (r : Reader) (a : ParserState × List Report × Reader)
    → IsDistinct rs
    → step s rs r ≡ ok a
    → IsDistinct a.1
unfolding step
step-IsDistinct s rs r a d e =
    let (x, _, q) = >>=-eq-ok (next_item r) _ e in
    let (b, f, g) = >>=-eq-ok (run_item x.0 s rs) _ q in
    let same_list : b.1 ≡ a.1 = cc in
    subst IsDistinct same_list (run_item-IsDistinct x.0 s rs b d f)

loop-IsDistinct :
    (fuel : ℕ) (s : ParserState) (rs : List Report) (r : Reader) (out : List Report)
    → IsDistinct rs
    → loop fuel s rs r ≡ ok out
    → IsDistinct out
unfolding loop
loop-IsDistinct zero s rs r out d e = cc
loop-IsDistinct (suc fuel) s rs r out d e = elim (Bool-cases (size r == 0)) [
  | inl done ↦ let same_list : rs ≡ out = cc (rw done at e) in subst IsDistinct same_list d
  | inr more ↦
      let (a, p, q) = >>=-eq-ok (step s rs r) _ (rw more at e) in
      loop-IsDistinct fuel a.0 a.1 a.2 out (step-IsDistinct s rs r a d p) q
]

-- No two of the reports that a descriptor yields share both ID and type.
pub parse-IsDistinct :
    (buffer : List ℕ) (reports : List Report) → parse buffer ≡ ok reports → IsDistinct reports
unfolding parse
parse-IsDistinct buffer reports e =
    loop-IsDistinct (length buffer + 1) State.init [] (Reader.init buffer) reports tt e
