-- ===== src/Contacts/Convolution/Tables/Three.antt =====
-- The bodies of src/contacts/detection/algorithms/optimized/convolution.3x3-extend.hpp, term by term.
use iptsd_android.Prelude.{List, [], ◌∷◌}
use iptsd_android.Contacts.Convolution.{m1, o0, p1, Term, t}

abbrev pub top_left_3 : List Term
top_left_3 =
    t o0 o0 m1 m1
    ∷ t o0 o0 o0 m1
    ∷ t p1 o0 p1 m1
    ∷ t o0 o0 m1 o0
    ∷ t o0 o0 o0 o0
    ∷ t p1 o0 p1 o0
    ∷ t o0 p1 m1 p1
    ∷ t o0 p1 o0 p1
    ∷ t p1 p1 p1 p1
    ∷ []

abbrev pub top_middle_3 : List Term
top_middle_3 =
    t m1 o0 m1 m1
    ∷ t o0 o0 o0 m1
    ∷ t p1 o0 p1 m1
    ∷ t m1 o0 m1 o0
    ∷ t o0 o0 o0 o0
    ∷ t p1 o0 p1 o0
    ∷ t m1 p1 m1 p1
    ∷ t o0 p1 o0 p1
    ∷ t p1 p1 p1 p1
    ∷ []

abbrev pub top_right_3 : List Term
top_right_3 =
    t m1 o0 m1 m1
    ∷ t o0 o0 o0 m1
    ∷ t o0 o0 p1 m1
    ∷ t m1 o0 m1 o0
    ∷ t o0 o0 o0 o0
    ∷ t o0 o0 p1 o0
    ∷ t m1 p1 m1 p1
    ∷ t o0 p1 o0 p1
    ∷ t o0 p1 p1 p1
    ∷ []

abbrev pub inner_left_3 : List Term
inner_left_3 =
    t o0 m1 m1 m1
    ∷ t o0 m1 o0 m1
    ∷ t p1 m1 p1 m1
    ∷ t o0 o0 m1 o0
    ∷ t o0 o0 o0 o0
    ∷ t p1 o0 p1 o0
    ∷ t o0 p1 m1 p1
    ∷ t o0 p1 o0 p1
    ∷ t p1 p1 p1 p1
    ∷ []

abbrev pub inner_middle_3 : List Term
inner_middle_3 =
    t m1 m1 m1 m1
    ∷ t o0 m1 o0 m1
    ∷ t p1 m1 p1 m1
    ∷ t m1 o0 m1 o0
    ∷ t o0 o0 o0 o0
    ∷ t p1 o0 p1 o0
    ∷ t m1 p1 m1 p1
    ∷ t o0 p1 o0 p1
    ∷ t p1 p1 p1 p1
    ∷ []

abbrev pub inner_right_3 : List Term
inner_right_3 =
    t m1 m1 m1 m1
    ∷ t o0 m1 o0 m1
    ∷ t o0 m1 p1 m1
    ∷ t m1 o0 m1 o0
    ∷ t o0 o0 o0 o0
    ∷ t o0 o0 p1 o0
    ∷ t m1 p1 m1 p1
    ∷ t o0 p1 o0 p1
    ∷ t o0 p1 p1 p1
    ∷ []

abbrev pub bottom_left_3 : List Term
bottom_left_3 =
    t o0 m1 m1 m1
    ∷ t o0 m1 o0 m1
    ∷ t p1 m1 p1 m1
    ∷ t o0 o0 m1 o0
    ∷ t o0 o0 o0 o0
    ∷ t p1 o0 p1 o0
    ∷ t o0 o0 m1 p1
    ∷ t o0 o0 o0 p1
    ∷ t p1 o0 p1 p1
    ∷ []

abbrev pub bottom_middle_3 : List Term
bottom_middle_3 =
    t m1 m1 m1 m1
    ∷ t o0 m1 o0 m1
    ∷ t p1 m1 p1 m1
    ∷ t m1 o0 m1 o0
    ∷ t o0 o0 o0 o0
    ∷ t p1 o0 p1 o0
    ∷ t m1 o0 m1 p1
    ∷ t o0 o0 o0 p1
    ∷ t p1 o0 p1 p1
    ∷ []

abbrev pub bottom_right_3 : List Term
bottom_right_3 =
    t m1 m1 m1 m1
    ∷ t o0 m1 o0 m1
    ∷ t o0 m1 p1 m1
    ∷ t m1 o0 m1 o0
    ∷ t o0 o0 o0 o0
    ∷ t o0 o0 p1 o0
    ∷ t m1 o0 m1 p1
    ∷ t o0 o0 o0 p1
    ∷ t o0 o0 p1 p1
    ∷ []
