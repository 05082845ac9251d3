-- ===== src/Contacts/Detection/Neutral/Common.antt =====
-- The mode of the pixels is a value that no other value outnumbers.
use iptsd_android.Prelude.{
  ℕ, suc, ◌+◌, ◌%◌, ◌≤◌, ◌<◌, ◌≡◌, refl, sym, subst, ap, inl, inr, Bool, true, false, All, List, [],
  ◌∷◌, length, arith, ltb, ltb→lt, ltb-false, if◌then◌else◌, Bool-cases,
}
use iptsd_android.Prelude.Word.{u32_mod}
use iptsd_android.Prelude.Float.{Float, IsOrdered}
use iptsd_android.Contacts.Detection.Neutral.{same_key, put, mode_from, statistical_mode}

module _ {F : Type 0} ⦃fl : Float F⦄ where
  abbrev pub IsNumber : F → Type 0
  IsNumber a = fl.is_nan a ≡ false

  -- How many pixels have a value.
  abbrev pub occurrences : F → List F → ℕ
  occurrences a [] = 0
  occurrences a (v ∷ vs) = if same_key v a then suc (occurrences a vs) else occurrences a vs

both_or_neither : (a b : Bool) → (a ≡ true → b ≡ true) → (b ≡ true → a ≡ true) → a ≡ b
both_or_neither true true h k = refl
both_or_neither true false h k = sym (h refl)
both_or_neither false true h k = k refl
both_or_neither false false h k = refl

module _ {F : Type 0} ⦃fl : Float F⦄ (ordered : IsOrdered F) where
  -- Two numbers share a key if each is at most the other.
  same_key-le :
      (a b : F)
      → IsNumber a
      → IsNumber b
      → same_key a b ≡ true
      → (fl.le a b ≡ true) × (fl.le b a ≡ true)
  same_key-le a b na nb h =
      let less = ordered.lt-eq-not-le a b na nb in
      let more = ordered.lt-eq-not-le b a nb na in
      (ground (arith, less, more, h), ground (arith, less, more, h))

  le-same_key :
      (a b : F)
      → IsNumber a
      → IsNumber b
      → fl.le a b ≡ true
      → fl.le b a ≡ true
      → same_key a b ≡ true
  le-same_key a b na nb h k =
      let less = ordered.lt-eq-not-le a b na nb in
      let more = ordered.lt-eq-not-le b a nb na in ground (arith, less, more, h, k)

  same_refl : (a : F) → IsNumber a → same_key a a ≡ true
  same_refl a na =
      let total = ordered.le_total a a na na in
      let self : fl.le a a ≡ true = ground (arith, total) in le-same_key a a na na self self

  same_trans :
      (a b c : F)
      → IsNumber a
      → IsNumber b
      → IsNumber c
      → same_key a b ≡ true
      → same_key b c ≡ true
      → same_key a c ≡ true
  same_trans a b c na nb nc h k =
      let (ab, ba) = same_key-le a b na nb h in
      let (bc, cb) = same_key-le b c nb nc k in
      le-same_key a c na nc (ordered.le_trans a b c ab bc) (ordered.le_trans c b a cb ba)

  same_left :
      (a b c : F)
      → IsNumber a
      → IsNumber b
      → IsNumber c
      → same_key a b ≡ true
      → same_key c a ≡ same_key c b
  same_left a b c na nb nc h =
      let (ab, ba) = same_key-le a b na nb h in
      both_or_neither (same_key c a) (same_key c b) (λ k. same_trans c a b nc na nb k h)
        (λ k. same_trans c b a nc nb na k (le-same_key b a nb na ba ab))

  -- The counts so far, for the same keys, with the greatest of them.
  pub record Counted (counts : F → ℕ) (max_count : ℕ) (max_element : F) : Type 0 where
    pub keyed : (a b : F) → IsNumber a → IsNumber b → same_key a b ≡ true → counts a ≡ counts b
    pub bound : (a : F) → counts a ≤ max_count
    pub reached : counts max_element ≡ max_count

  -- The counts after another pixel.
  shift :
      (v : F) (vs : List F) (n : ℕ) (counts : F → ℕ) (b : F)
      → (same_key v b ≡ true → counts v ≡ counts b)
      → n ≡ counts v + 1
      → put v n counts b + occurrences b vs ≡ counts b + occurrences b (v ∷ vs)
  shift v vs n counts b keyed e = elim (Bool-cases (same_key v b)) [
    | inl hit ↦ rw hit (omega (arith, e, keyed hit))
    | inr miss ↦ rw miss refl
  ]

  put-keyed :
      (v : F) (n : ℕ) (counts : F → ℕ) (a b : F)
      → IsNumber v
      → IsNumber a
      → IsNumber b
      → counts a ≡ counts b
      → same_key a b ≡ true
      → put v n counts a ≡ put v n counts b
  put-keyed v n counts a b nv na nb e h = rw (same_left a b v na nb nv h, e) refl

  put-bound :
      (v : F) (n m : ℕ) (counts : F → ℕ) (a : F) → n ≤ m → counts a ≤ m → put v n counts a ≤ m
  put-bound v n m counts a hn ha = elim (Bool-cases (same_key v a)) [
    | inl hit ↦ rw hit hn
    | inr miss ↦ rw miss ha
  ]

  more-Counted :
      (v : F) (n : ℕ) (counts : F → ℕ) (max_count : ℕ) (max_element : F)
      → IsNumber v
      → max_count < n
      → Counted counts max_count max_element
      → Counted (put v n counts) n v
  more-Counted v n counts max_count max_element nv h c = record {
    keyed = λ a b na nb k. put-keyed v n counts a b nv na nb (c.keyed a b na nb k) k;
    bound = λ a. put-bound v n n counts a (omega arith) (omega (arith, h, c.bound a));
    reached = rw (same_refl v nv) refl;
  }

  same-Counted :
      (v : F) (n : ℕ) (counts : F → ℕ) (max_count : ℕ) (max_element : F)
      → IsNumber v
      → IsNumber max_element
      → n ≤ max_count
      → n ≡ counts v + 1
      → Counted counts max_count max_element
      → Counted (put v n counts) max_count max_element
  same-Counted v n counts max_count max_element nv nm h e c = record {
    keyed = λ a b na nb k. put-keyed v n counts a b nv na nb (c.keyed a b na nb k) k;
    bound = λ a. put-bound v n max_count counts a h (c.bound a);
    reached = elim (Bool-cases (same_key v max_element)) [
      | inl hit ↦ absurd (omega (arith, h, e, c.keyed v max_element nv nm hit, c.reached))
      | inr miss ↦ rw miss (c.reached)
    ];
  }

  mode_from-IsNumber :
      (data_set : List F) (counts : F → ℕ) (max_count : ℕ) (max_element : F)
      → All IsNumber data_set
      → IsNumber max_element
      → IsNumber (mode_from data_set counts max_count max_element)
  unfolding mode_from
  mode_from-IsNumber [] counts max_count max_element all nm = nm
  mode_from-IsNumber (v ∷ vs) counts max_count max_element (nv, all) nm =
      let n = (counts v + 1) % u32_mod in
      elim (ltb max_count n)
        as (λ b. IsNumber (
          if b
          then mode_from vs (put v n counts) n v
          else mode_from vs (put v n counts) max_count max_element)) [
            | true ↦ mode_from-IsNumber vs (put v n counts) n v all nv
            | false ↦ mode_from-IsNumber vs (put v n counts) max_count max_element all nm
          ]

  mode_from-most :
      (data_set : List F) (counts : F → ℕ) (max_count : ℕ) (max_element a : F)
      → All IsNumber data_set
      → IsNumber max_element
      → IsNumber a
      → max_count + length data_set < u32_mod
      → Counted counts max_count max_element
      → let found = mode_from data_set counts max_count max_element in
        counts a + occurrences a data_set ≤ counts found + occurrences found data_set
  unfolding mode_from
  mode_from-most [] counts max_count max_element a all nm na small c =
      omega (arith, c.bound a, c.reached)
  mode_from-most (v ∷ vs) counts max_count max_element a (nv, all) nm na small c =
      elim (Bool-cases (ltb max_count n)) [
        | inl more ↦
            let found = better in
            let number = mode_from-IsNumber vs (put v n counts) n v all nv in
            let rest =
              mode_from-most vs (put v n counts) n v a all nv na
                (omega (arith, small, wraps, c.bound v))
                (more-Counted v n counts max_count max_element nv (ltb→lt _ _ more) c) in
            subst Most (sym (ap (λ b. if b then better else same) more))
              (omega (arith, rest, moved a na, moved found number))
        | inr less ↦
            let found = same in
            let number = mode_from-IsNumber vs (put v n counts) max_count max_element all nm in
            let rest =
              mode_from-most vs (put v n counts) max_count max_element a all nm na
                (omega (arith, small))
                (same-Counted v n counts max_count max_element nv nm (ltb-false _ _ less) wraps
                  c) in
            subst Most (sym (ap (λ b. if b then better else same) less))
              (omega (arith, rest, moved a na, moved found number))
      ]
    where
      Most : F → Type 0
      Most r = counts a + occurrences a (v ∷ vs) ≤ counts r + occurrences r (v ∷ vs)

      n : ℕ
      n = (counts v + 1) % u32_mod

      better : F
      better = mode_from vs (put v n counts) n v

      same : F
      same = mode_from vs (put v n counts) max_count max_element

      wraps : n ≡ counts v + 1
      wraps = ground (arith, small, c.bound v)

      moved :
          (b : F)
          → IsNumber b
          → put v n counts b + occurrences b vs ≡ counts b + occurrences b (v ∷ vs)
      moved b nb = shift v vs n counts b (c.keyed v b nv nb) wraps

  -- With fewer than 2^32 pixels, none of them NaN, no number has more pixels than the statistical mode, if
  -- `<` and `<=` order the numbers and 0 is one. The mode is then no NaN.
  pub statistical_mode-most :
      (data_set : List F) (a : F)
      → IsNumber (fl.of_nat 0)
      → All IsNumber data_set
      → IsNumber a
      → length data_set < u32_mod
      → (occurrences a data_set ≤ occurrences (statistical_mode data_set) data_set)
        × IsNumber (statistical_mode data_set)
  unfolding statistical_mode
  statistical_mode-most data_set a zero_number numbers na small =
      let all =
        mode_from-most data_set (λ b. 0) 0 (fl.of_nat 0) a numbers zero_number na
          (omega (arith, small))
          (record { keyed = λ b c nb nc h. refl; bound = λ b. omega arith; reached = refl }) in
      (omega (arith, all), mode_from-IsNumber data_set (λ b. 0) 0 (fl.of_nat 0) numbers zero_number)
