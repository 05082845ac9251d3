-- ===== src/Hid/State/Ranges.antt =====
-- The loops over a range of usages.
use iptsd_android.Prelude.{
  ℕ, zero, suc, ◌+◌, ◌%◌, ◌≤◌, ◌<◌, ◌≡◌, refl, Bool, ◌&&◌, ◌||◌, none, some, List, ok, err, arith,
  ltb, leb, ◌==◌, endless, Bool-cases, inl, inr, ltb→lt, ltb-false, ◌>>=◌,
}
use iptsd_android.Prelude.Word.{u16_mod}
use iptsd_android.Hid.Report.{Usage, insert, holds}
use iptsd_android.Hid.Report.Laws.{holds-insert}
use iptsd_android.Hid.State.{
  ParserState, insert_range, add_range, range_fuel, set_usage_min, set_usage_max,
}

-- Whether `v` is one of `lo`, ..., `hi`.
abbrev pub within : ℕ → ℕ → ℕ → Bool
within lo hi v = leb lo v && leb v hi

-- A range that ends below 65535 is inserted whole.
insert_range_exact :
    (fuel i hi page : ℕ) (us : List Usage)
    → hi < 65535
    → i < u16_mod
    → hi + 2 ≤ fuel + i
    → 0 < fuel
    → (vs : List Usage) × (insert_range fuel i (hi + 1) page us ≡ some vs)
      × ((p v : ℕ) → holds p v vs ≡ (holds p v us || (page == p && within i hi v)))
unfolding insert_range
insert_range_exact zero i hi page us h hi' m z = absurd (omega arith)
insert_range_exact (suc fuel) i hi page us h hi' m z = elim (Bool-cases (ltb i (hi + 1))) [
  | inl more ↦
      let u : Usage = record { page = page; value = i } in
      let (vs, run, has) =
        insert_range_exact fuel ((i + 1) % u16_mod) hi page (insert u us) h (omega arith)
          (omega (arith, ltb→lt _ _ more)) (omega (arith, ltb→lt _ _ more)) in
      (vs, rw more run, λ p v. ground (arith, has p v, holds-insert p v u us, ltb→lt _ _ more))
  | inr done ↦ (us, rw done, λ p v. ground (arith, ltb-false i (hi + 1) done))
]

-- At 65535 the counter wraps before it reaches the limit: no fuel is enough.
pub insert_range_endless :
    (fuel i page : ℕ) (us : List Usage)
    → i < u16_mod
    → insert_range fuel i (65535 + 1) page us ≡ none
unfolding insert_range
insert_range_endless zero i page us h = refl
insert_range_endless (suc fuel) i page us h =
    let u : Usage = record { page = page; value = i } in
    ground (arith, insert_range_endless fuel ((i + 1) % u16_mod) page (insert u us) (omega arith))

add_range_exact :
    (lo hi page : ℕ) (us : List Usage)
    → lo < u16_mod
    → hi < 65535
    → (vs : List Usage) × (add_range lo hi page us ≡ ok vs)
      × ((p v : ℕ) → holds p v vs ≡ (holds p v us || (page == p && within lo hi v)))
unfolding add_range
add_range_exact lo hi page us l h =
    let (vs, run, has) =
      insert_range_exact range_fuel lo hi page us h l (omega arith) (omega arith) in
    (vs, rw (run, add_range), has)

add_range_endless :
    (lo page : ℕ) (us : List Usage) → lo < u16_mod → add_range lo 65535 page us ≡ err endless
unfolding add_range
add_range_endless lo page us l = rw (insert_range_endless range_fuel lo page us l, add_range)

-- If a usage page is set, and no half of a range, then a minimum and a maximum below 65535, in either
-- order, add exactly the usages of the range, and leave no half of a range behind.
pub set_usage_range :
    (s : ParserState) (lo hi page : ℕ)
    → s.usage_page ≡ some page
    → s.usage_min ≡ none
    → s.usage_max ≡ none
    → lo < u16_mod
    → hi < 65535
    → (vs : List Usage) × ((set_usage_min lo s >>= set_usage_max hi)
        ≡ ok (record s { usages = vs }))
      × ((set_usage_max hi s >>= set_usage_min lo) ≡ ok (record s { usages = vs }))
      × ((p v : ℕ) → holds p v vs ≡ (holds p v s.usages || (page == p && within lo hi v)))
unfolding set_usage_min set_usage_max
set_usage_range s lo hi page e n m l h =
    let (vs, run, has) = add_range_exact lo hi page s.usages l h in
    (vs, ground (arith, e, n, m, run), ground (arith, e, n, m, run), has)

-- If a usage page is set, and no half of a range, then a range that ends at 65535 is never finished,
-- whichever end comes last.
pub set_usage_range_endless :
    (s : ParserState) (lo page : ℕ)
    → s.usage_page ≡ some page
    → s.usage_min ≡ none
    → s.usage_max ≡ none
    → lo < u16_mod
    → ((set_usage_min lo s >>= set_usage_max 65535) ≡ err endless)
      × ((set_usage_max 65535 s >>= set_usage_min lo) ≡ err endless)
unfolding set_usage_min set_usage_max
set_usage_range_endless s lo page e n m l =
    let run = add_range_endless lo page s.usages l in
    (ground (arith, e, n, m, run), ground (arith, e, n, m, run))
