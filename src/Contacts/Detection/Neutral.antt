-- ===== src/Contacts/Detection/Neutral.antt =====
-- src/contacts/detection/algorithms/neutral.hpp. The pixels come row by row; the map of the counts is a
-- function that is 0 at a key it lacks, whose keys are the same where neither is less. `mean` of the
-- external library is a parameter.
pub mod Common
use iptsd_android.Prelude.{
  ℕ, ◌+◌, ◌%◌, Bool, not, ◌&&◌, List, [], ◌∷◌, Result, ok, err, invalid_neutral_mode, ltb,
  if◌then◌else◌,
}
use iptsd_android.Prelude.Word.{u32_mod}
use iptsd_android.Prelude.Float.{Float}

pub data Algorithm : Type 0 where
  mode average constant : Algorithm
  -- Any other number of the enumeration.
  other : Algorithm

module _ {F : Type 0} ⦃fl : Float F⦄ where
  abbrev pub same_key : F → F → Bool
  same_key a b = not (fl.lt a b) && not (fl.lt b a)

  abbrev pub put : F → ℕ → (F → ℕ) → F → ℕ
  put key count counts a = if same_key key a then count else counts a

  -- The loops over the pixels, from the counts, the greatest count and its element on.
  unfoldable pub mode_from : List F → (counts : F → ℕ) → (max_count : ℕ) → (max_element : F) → F
  mode_from [] counts max_count max_element = max_element
  mode_from (value ∷ data_set) counts max_count max_element =
      let count = (counts value + 1) % u32_mod in
      let better = mode_from data_set (put value count counts) count value in
      let rest = mode_from data_set (put value count counts) max_count max_element in
      if ltb max_count count then better else rest

  unfoldable pub statistical_mode : List F → F
  unfolding mode_from
  statistical_mode data_set = mode_from data_set (λ a. 0) 0 (fl.of_nat 0)

  unfoldable pub calculate : (mean : List F → F) → List F → Algorithm → (offset : F) → Result F
  unfolding statistical_mode
  calculate mean data_set mode offset = ok (fl.add (statistical_mode data_set) offset)
  calculate mean data_set average offset = ok (fl.add (mean data_set) offset)
  calculate mean data_set constant offset = ok offset
  calculate mean data_set other offset = err invalid_neutral_mode
