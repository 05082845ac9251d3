-- ===== src/Contacts/Contact.antt =====
-- `Contact<T>` of src/contacts/contact.hpp.
use iptsd_android.Prelude.{
  ℕ, Bool, true, false, Option, none, some, List, [], ◌∷◌, ◌==◌, ◌≡◌, arith, if◌then◌else◌,
}

pub record Contact (F : Type 0) : Type 0 where
  pub mean_x : F
  pub mean_y : F
  pub size_x : F
  pub size_y : F
  pub orientation : F
  pub normalized : Bool
  pub index : Option ℕ
  pub valid : Option Bool
  pub stable : Option Bool

-- `std::optional<bool>::value_or(true)`
abbrev pub or_true : Option Bool → Bool
or_true none = true
or_true (some b) = b

-- Whether an optional index is a given one.
abbrev pub index_is : ℕ → Option ℕ → Bool
index_is i none = false
index_is i (some j) = j == i

pub index_is→eq : (i : ℕ) (m : Option ℕ) → index_is i m ≡ true → m ≡ some i
index_is→eq i none h = cc
index_is→eq i (some j) h = ground arith

unfoldable pub find_in_frame : {F : Type 0} → ℕ → List (Contact F) → Option (Contact F)
find_in_frame index [] = none
find_in_frame index (contact ∷ frame) =
    if index_is index contact.index then some contact else find_in_frame index frame
