-- ===== src/Hid/Report.antt =====
-- `Usage` (src/hid/usage.hpp) and `Report` (src/hid/report.hpp). The `std::unordered_set` of usages
-- is a list without repetitions, of which the code only asks whether it holds a usage.
pub mod Laws
use iptsd_android.Prelude.{
  ℕ, ◌+◌, ◌*◌, ◌%◌, Bool, true, false, ◌&&◌, ◌||◌, Option, none, some, List, [], ◌∷◌, Result, ok,
  ◌>>=◌, ◌>>◌, guard, report_merge_types, report_merge_ids, any, ◌==◌, if◌then◌else◌,
}
use iptsd_android.Prelude.Word.{u64_mod}

pub record Usage : Type 0 where
  pub page : ℕ
  pub value : ℕ

-- `operator==`
abbrev pub usage_eq : Usage → Usage → Bool
usage_eq a b = a.page == b.page && a.value == b.value

pub data ReportType : Type 0 where
  input output feature : ReportType

abbrev pub type_eq : ReportType → ReportType → Bool
type_eq input input = true
type_eq output output = true
type_eq feature feature = true
type_eq _ _ = false

-- `==` on `std::optional<u8>`.
abbrev pub id_eq : Option ℕ → Option ℕ → Bool
id_eq none none = true
id_eq (some a) (some b) = a == b
id_eq _ _ = false

pub record Report : Type 0 where
  pub type : ReportType
  pub id : Option ℕ
  pub size : ℕ
  pub usages : List Usage

-- `std::unordered_set::insert`
unfoldable pub insert : Usage → List Usage → List Usage
insert u [] = u ∷ []
insert u (v ∷ vs) = if usage_eq v u then v ∷ vs else v ∷ insert u vs

unfoldable pub insert_all : List Usage → List Usage → List Usage
unfolding insert
insert_all [] into = into
insert_all (u ∷ us) into = insert_all us (insert u into)

-- The constructor; the product of two `u32` fits a `u64`.
unfoldable pub report : ReportType → Option ℕ → ℕ → ℕ → List Usage → Report
report type id count size usages = record {
  type = type;
  id = id;
  size = count * size % u64_mod;
  usages = usages;
}

abbrev pub holds : ℕ → ℕ → List Usage → Bool
holds page value = any λ u. u.page == page && u.value == value

-- `find_usage(page, value)`
unfoldable pub find_usage : ℕ → ℕ → Report → Bool
find_usage page value r = holds page value r.usages

unfoldable pub merge : Report → Report → Result Report
merge r other = do
  guard (type_eq r.type other.type) report_merge_types
  guard (id_eq r.id other.id) report_merge_ids
  ok (record r {
    size = (r.size + other.size) % u64_mod;
    usages = insert_all other.usages r.usages;
  })
