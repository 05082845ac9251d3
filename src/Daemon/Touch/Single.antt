-- ===== src/Daemon/Touch/Single.antt =====
-- `process_singletouch` of src/apps/daemon/touch.hpp, which nothing calls.
use iptsd_android.Prelude.{ℕ, not, ◌||◌, Option, none, some, List, [], ◌∷◌, if◌then◌else◌}
use iptsd_android.Prelude.Float.{Float}
use iptsd_android.Prelude.Act.{◌>>=◌, ◌>>◌, pure, modify, get}
use iptsd_android.Contacts.Contact.{Contact, or_true, index_is}
use iptsd_android.Daemon.Touch.Defs.{Method, member, index_or_0, lift_singletouch, emit_singletouch}

-- The contact of an index that the first loop comes to.
abbrev pub selected : {F : Type 0} → ℕ → List (Contact F) → Option (Contact F)
selected single [] = none
selected single (contact ∷ contacts) =
    let rest = selected single contacts in
    if index_is single contact.index then some contact else rest

-- The index that the last loop selects.
abbrev pub replacement : {F : Type 0} → ℕ → List (Contact F) → ℕ
replacement single [] = single
replacement single (contact ∷ contacts) =
    let rest = replacement single contacts in
    if index_is single contact.index || not (or_true contact.valid)
    then rest
    else index_or_0 contact.index

module _ {F : Type 0} ⦃fl : Float F⦄ where
  -- What follows the first loop.
  unfoldable pub reselect : List (Contact F) → Method F
  reselect contacts = do
    lift_singletouch
    d ← get
    if d.enabled
        then modify (λ d'. record d' { single_index = replacement d'.single_index contacts })
        else pure tt

  unfoldable pub emit_selected : List (Contact F) → Option (Contact F) → Method F
  emit_selected contacts none = reselect contacts
  emit_selected contacts (some contact) = do
    d ← get
    if not d.enabled || not (or_true contact.valid)
        then reselect contacts
        else if or_true contact.stable
        then emit_singletouch contact
        else pure tt

  -- `reset` is whether the index is not among those to lift.
  unfoldable pub process_singletouch : List (Contact F) → Method F
  unfolding reselect emit_selected
  process_singletouch contacts = do
    d ← get
    if not (member d.single_index d.to_lift)
        then reselect contacts
        else emit_selected contacts (selected d.single_index contacts)
