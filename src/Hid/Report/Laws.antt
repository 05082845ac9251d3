-- ===== src/Hid/Report/Laws.antt =====
-- What merging two HID reports keeps.
use iptsd_android.Prelude.{
  ℕ, ◌+◌, ◌%◌, ◌≡◌, refl, Bool, true, ◌||◌, Option, List, [], ◌∷◌, ok, IsFueled, arith, ◌==◌, ◌&&◌,
}
use iptsd_android.Prelude.Word.{u64_mod}
use iptsd_android.Hid.Report.{
  Usage, ReportType, input, output, feature, type_eq, id_eq, Report, insert, insert_all, holds,
  find_usage, merge,
}

abbrev is : ℕ → ℕ → Usage → Bool
is page value u = u.page == page && u.value == value

pub holds-insert :
    (p v : ℕ) (u : Usage) (us : List Usage) → holds p v (insert u us) ≡ (is p v u || holds p v us)
unfolding insert
holds-insert p v u [] = ground arith
holds-insert p v u (w ∷ us) = ground (arith, holds-insert p v u us)

pub holds-insert_all :
    (p v : ℕ) (us into : List Usage)
    → holds p v (insert_all us into) ≡ (holds p v into || holds p v us)
unfolding insert_all
holds-insert_all p v [] into = ground arith
holds-insert_all p v (u ∷ us) into =
    ground (arith, holds-insert_all p v us (insert u into), holds-insert p v u into)

pub type_eq_refl : (t : ReportType) → type_eq t t ≡ true
type_eq_refl input = refl
type_eq_refl output = refl
type_eq_refl feature = refl

pub type_eq→eq : (s t : ReportType) → type_eq s t ≡ true → s ≡ t
type_eq→eq s t h = ground arith

pub id_eq_refl : (i : Option ℕ) → id_eq i i ≡ true
id_eq_refl i = ground arith

pub id_eq→eq : (i j : Option ℕ) → id_eq i j ≡ true → i ≡ j
id_eq→eq i j h = ground arith

-- Merging two reports of one type and ID succeeds and keeps type and ID; the sizes are added modulo
-- 2 ^ 64, and the result has exactly the usages that one of the two reports has.
pub merge_same :
    (r other : Report)
    → r.type ≡ other.type
    → r.id ≡ other.id
    → (m : Report) × (merge r other ≡ ok m)
      × (m.type ≡ r.type)
      × (m.id ≡ r.id)
      × (m.size ≡ (r.size + other.size) % u64_mod)
      × ((p v : ℕ) → find_usage p v m ≡ (find_usage p v r || find_usage p v other))
unfolding merge find_usage
merge_same r other t i = (
  record r { size = (r.size + other.size) % u64_mod; usages = insert_all other.usages r.usages },
  rw (← t, ← i, type_eq_refl r.type, id_eq_refl r.id) refl,
  refl,
  refl,
  refl,
  λ p v. holds-insert_all p v other.usages r.usages,
)

pub merge-IsFueled : (r other : Report) → IsFueled (merge r other)
unfolding merge
merge-IsFueled r other e = ground arith
