-- ===== src/Contacts/Convolution/Tables/FiveNextLast.antt =====
-- The bodies of src/contacts/detection/algorithms/optimized/convolution.5x5-extend.hpp, term by term:
-- the last row but one.
use iptsd_android.Prelude.{List, [], ◌∷◌}
use iptsd_android.Contacts.Convolution.{m2, m1, o0, p1, p2, Term, t}

abbrev pub row_next_last_first : List Term
row_next_last_first =
    t o0 m2 m2 m2
    ∷ t o0 m2 m1 m2
    ∷ t o0 m2 o0 m2
    ∷ t p1 m2 p1 m2
    ∷ t p2 m2 p2 m2
    ∷ t o0 m1 m2 m1
    ∷ t o0 m1 m1 m1
    ∷ t o0 m1 o0 m1
    ∷ t p1 m1 p1 m1
    ∷ t p2 m1 p2 m1
    ∷ t o0 o0 m2 o0
    ∷ t o0 o0 m1 o0
    ∷ t o0 o0 o0 o0
    ∷ t p1 o0 p1 o0
    ∷ t p2 o0 p2 o0
    ∷ t o0 p1 m2 p1
    ∷ t o0 p1 m1 p1
    ∷ t o0 p1 o0 p1
    ∷ t p1 p1 p1 p1
    ∷ t p2 p1 p2 p1
    ∷ t o0 p1 m2 p2
    ∷ t o0 p1 m1 p2
    ∷ t o0 p1 o0 p2
    ∷ t p1 p1 p1 p2
    ∷ t p2 p1 p2 p2
    ∷ []

abbrev pub row_next_last_second : List Term
row_next_last_second =
    t m1 m2 m2 m2
    ∷ t m1 m2 m1 m2
    ∷ t o0 m2 o0 m2
    ∷ t p1 m2 p1 m2
    ∷ t p2 m2 p2 m2
    ∷ t m1 m1 m2 m1
    ∷ t m1 m1 m1 m1
    ∷ t o0 m1 o0 m1
    ∷ t p1 m1 p1 m1
    ∷ t p2 m1 p2 m1
    ∷ t m1 o0 m2 o0
    ∷ t m1 o0 m1 o0
    ∷ t o0 o0 o0 o0
    ∷ t p1 o0 p1 o0
    ∷ t p2 o0 p2 o0
    ∷ t m1 p1 m2 p1
    ∷ t m1 p1 m1 p1
    ∷ t o0 p1 o0 p1
    ∷ t p1 p1 p1 p1
    ∷ t p2 p1 p2 p1
    ∷ t m1 p1 m2 p2
    ∷ t m1 p1 m1 p2
    ∷ t o0 p1 o0 p2
    ∷ t p1 p1 p1 p2
    ∷ t p2 p1 p2 p2
    ∷ []

abbrev pub row_next_last_middle : List Term
row_next_last_middle =
    t m2 m2 m2 m2
    ∷ t m1 m2 m1 m2
    ∷ t o0 m2 o0 m2
    ∷ t p1 m2 p1 m2
    ∷ t p2 m2 p2 m2
    ∷ t m2 m1 m2 m1
    ∷ t m1 m1 m1 m1
    ∷ t o0 m1 o0 m1
    ∷ t p1 m1 p1 m1
    ∷ t p2 m1 p2 m1
    ∷ t m2 o0 m2 o0
    ∷ t m1 o0 m1 o0
    ∷ t o0 o0 o0 o0
    ∷ t p1 o0 p1 o0
    ∷ t p2 o0 p2 o0
    ∷ t m2 p1 m2 p1
    ∷ t m1 p1 m1 p1
    ∷ t o0 p1 o0 p1
    ∷ t p1 p1 p1 p1
    ∷ t p2 p1 p2 p1
    ∷ t m2 p1 m2 p2
    ∷ t m1 p1 m1 p2
    ∷ t o0 p1 o0 p2
    ∷ t p1 p1 p1 p2
    ∷ t p2 p1 p2 p2
    ∷ []

abbrev pub row_next_last_next_last : List Term
row_next_last_next_last =
    t m2 m2 m2 m2
    ∷ t m1 m2 m1 m2
    ∷ t o0 m2 o0 m2
    ∷ t p1 m2 p1 m2
    ∷ t p1 m2 p2 m2
    ∷ t m2 m1 m2 m1
    ∷ t m1 m1 m1 m1
    ∷ t o0 m1 o0 m1
    ∷ t p1 m1 p1 m1
    ∷ t p1 m1 p2 m1
    ∷ t m2 o0 m2 o0
    ∷ t m1 o0 m1 o0
    ∷ t o0 o0 o0 o0
    ∷ t p1 o0 p1 o0
    ∷ t p1 o0 p2 o0
    ∷ t m2 p1 m2 p1
    ∷ t m1 p1 m1 p1
    ∷ t o0 p1 o0 p1
    ∷ t p1 p1 p1 p1
    ∷ t p1 p1 p2 p1
    ∷ t m2 p1 m2 p2
    ∷ t m1 p1 m1 p2
    ∷ t o0 p1 o0 p2
    ∷ t p1 p1 p1 p2
    ∷ t p1 p1 p2 p2
    ∷ []

abbrev pub row_next_last_last : List Term
row_next_last_last =
    t m2 m2 m2 m2
    ∷ t m1 m2 m1 m2
    ∷ t o0 m2 o0 m2
    ∷ t o0 m2 p1 m2
    ∷ t o0 m2 p2 m2
    ∷ t m2 m1 m2 m1
    ∷ t m1 m1 m1 m1
    ∷ t o0 m1 o0 m1
    ∷ t o0 m1 p1 m1
    ∷ t o0 m1 p2 m1
    ∷ t m2 o0 m2 o0
    ∷ t m1 o0 m1 o0
    ∷ t o0 o0 o0 o0
    ∷ t o0 o0 p1 o0
    ∷ t o0 o0 p2 o0
    ∷ t m2 p1 m2 p1
    ∷ t m1 p1 m1 p1
    ∷ t o0 p1 o0 p1
    ∷ t o0 p1 p1 p1
    ∷ t o0 p1 p2 p1
    ∷ t m2 p1 m2 p2
    ∷ t m1 p1 m1 p2
    ∷ t o0 p1 o0 p2
    ∷ t o0 p1 p1 p2
    ∷ t o0 p1 p2 p2
    ∷ []
