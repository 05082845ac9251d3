-- ===== src/Contacts/Tracking/Fresh.antt =====
-- New indices: they are not those of the last frame, and no two are alike.
use iptsd_android.Prelude.{
  ℕ, zero, suc, ◌+◌, ◌≤◌, ◌<◌, ◌≡◌, ◌≢◌, refl, inl, inr, none, some, List, [], ◌∷◌, ok, length,
  arith, ltb, Option-cases, Bool-cases, ltb→lt, ltb-false,
}
use iptsd_android.Contacts.Contact.{Contact, find_in_frame}
use iptsd_android.Contacts.Tracking.{
  index_at, position_at, index_bound, search_index, find_new_index, assign,
}

-- No two contacts of the frame have one index.
abbrev pub IsUnique : {F : Type 0} → List (Contact F) → Type 0
IsUnique frame = (i j n : ℕ) → index_at i frame ≡ some n → index_at j frame ≡ some n → i ≡ j

module _ {F : Type 0} where
  find_in_frame-bound :
      (n : ℕ) (frame : List (Contact F)) → index_bound frame ≤ n → find_in_frame n frame ≡ none
  unfolding find_in_frame
  find_in_frame-bound n [] h = refl
  find_in_frame-bound n (c ∷ frame) h = elim (Option-cases c.index) [
    | inl e ↦ ground (arith, e, find_in_frame-bound n frame)
    | inr (i, e) ↦ ground (arith, e, find_in_frame-bound n frame)
  ]

  pub find_in_frame-none :
      (n : ℕ) (frame : List (Contact F)) (y : ℕ)
      → find_in_frame n frame ≡ none
      → index_at y frame ≢ some n
  unfolding find_in_frame
  find_in_frame-none n [] y h e = cc
  find_in_frame-none n (c ∷ frame) zero h e = ground (arith, e)
  find_in_frame-none n (c ∷ frame) (suc y) h e = ground (arith, find_in_frame-none n frame y, e)

  used_below :
      (n : ℕ) (frame : List (Contact F)) (c : Contact F)
      → find_in_frame n frame ≡ some c
      → n < index_bound frame
  used_below n frame c e = elim (Bool-cases (ltb n (index_bound frame))) [
    | inl below ↦ ltb→lt _ _ below
    | inr above ↦
        let none_e : find_in_frame n frame ≡ none =
          find_in_frame-bound n frame (ltb-false _ _ above) in
        absurd (cc)
  ]

  search_index-ok :
      (fuel min : ℕ) (last : List (Contact F))
      → index_bound last < fuel + min
      → 0 < fuel
      → (n : ℕ) × (search_index fuel min last ≡ ok n) × (min ≤ n) × (find_in_frame n last ≡ none)
  unfolding search_index
  search_index-ok zero min last h z = absurd (omega arith)
  search_index-ok (suc fuel) min last h z = elim (Option-cases (find_in_frame min last)) [
    | inl free ↦ (min, rw (free, search_index) refl, omega arith, free)
    | inr (c, used) ↦
        let below : min < index_bound last = used_below min last c used in
        let (n, run, le, free) = search_index-ok fuel (min + 1) last (omega arith) (omega arith) in
        (n, rw (used, search_index) run, omega arith, free)
  ]

  -- The frame with new indices: they count up, and are not used in the last frame.
  pub assign-ok :
      (counter : ℕ) (last frame : List (Contact F))
      → (out : List (Contact F)) × (assign counter last frame ≡ ok out)
        × (length out ≡ length frame)
        × ((i n : ℕ) → index_at i out ≡ some n → (counter ≤ n) × (find_in_frame n last ≡ none))
        × IsUnique out
        × ((i : ℕ) → position_at i out ≡ position_at i frame)
  unfolding assign find_new_index
  assign-ok counter last [] = ([], refl, refl, (λ i n e. cc), (λ i j n e f. cc), λ i. refl)
  assign-ok counter last (c ∷ frame) =
      let (k, found, low, free) =
        search_index-ok (index_bound last + 1) counter last (omega arith) (omega arith) in
      let (rest, run, len, new, unique, places) = assign-ok (k + 1) last frame in
      let d : Contact F = record c { index = some k } in
      (
        d ∷ rest,
        rw (found, run) refl,
        omega arith,
        above k rest low free new,
        alone k d rest refl new unique,
        same_places d rest refl refl places,
      )
    where
      same_places :
          (d : Contact F) (rest : List (Contact F))
          → d.mean_x ≡ c.mean_x
          → d.mean_y ≡ c.mean_y
          → ((i : ℕ) → position_at i rest ≡ position_at i frame)
          → (i : ℕ) → position_at i (d ∷ rest) ≡ position_at i (c ∷ frame)
      same_places d rest ex ey h zero = rw (ex, ey) refl
      same_places d rest ex ey h (suc i) = h i

      above :
          (k : ℕ) (rest : List (Contact F))
          → counter ≤ k
          → find_in_frame k last ≡ none
          → ((i n : ℕ) → index_at i rest ≡ some n → (k + 1 ≤ n) × (find_in_frame n last ≡ none))
          → (i n : ℕ) → index_at i (record c { index = some k } ∷ rest) ≡ some n
          → (counter ≤ n) × (find_in_frame n last ≡ none)
      above k rest low free new zero n e = ground (arith, e)
      above k rest low free new (suc i) n e = (omega (arith, (new i n e).0), (new i n e).1)

      alone :
          (k : ℕ) (d : Contact F) (rest : List (Contact F))
          → d.index ≡ some k
          → ((i n : ℕ) → index_at i rest ≡ some n → (k + 1 ≤ n) × (find_in_frame n last ≡ none))
          → IsUnique rest
          → IsUnique (d ∷ rest)
      alone k d rest h new u zero zero n e f = refl
      alone k d rest h new u zero (suc j) n e f = absurd (ground (arith, h, e, (new j n f).0))
      alone k d rest h new u (suc i) zero n e f = absurd (ground (arith, h, f, (new i n e).0))
      alone k d rest h new u (suc i) (suc j) n e f = ground (arith, u i j n e f)
