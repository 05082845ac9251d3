-- ===== src/Core/Dft/Rules.antt =====
-- Methods of the stylus that return and keep a property of it, put together from their parts.
use iptsd_android.Prelude.{
  ℕ, zero, suc, ◌<◌, ◌≡◌, refl, Bool, true, false, List, [], ◌∷◌, Result, ok, err, length, arith,
  All, if◌then◌else◌,
}
use iptsd_android.Prelude.Act.{Act, continue, ◌>>=◌, pure, modify, lift, each}
use iptsd_android.Ipts.Data.{Row}
use iptsd_android.Core.Dft.{row_at}

abbrev pub Returns {ℓ} : {A : Type ℓ} → Result A → Type ℓ
Returns {A = A} r = (a : A) × (r ≡ ok a)

module _ {S : Type 0} (P : S → Type 0) where
  -- From a state with the property, the method returns and leaves one.
  abbrev pub Holds : {A : Type 0} → Act S A → Type 0
  Holds m = (s : S) → P s → P (m s).0 × Returns (m s).1

  continue-Holds :
      {A B : Type 0} (p : S × Result A) (f : A → Act S B)
      → P p.0
      → Returns p.1
      → ((a : A) → Holds (f a))
      → P (continue p f).0 × Returns (continue p f).1
  continue-Holds (s, ok a) f i r h = h a s i
  continue-Holds (s, err e) f i (a, r) h = cc

  pub >>=-Holds :
      {A B : Type 0} (m : Act S A) (f : A → Act S B)
      → Holds m
      → ((a : A) → Holds (f a))
      → Holds (m >>= f)
  >>=-Holds m f hm hf s i = let (j, r) = hm s i in continue-Holds (m s) f j r hf

  pub pure-Holds : {A : Type 0} (a : A) → Holds (pure a)
  pure-Holds a s i = (i, (a, refl))

  pub modify-Holds : (f : S → S) → ((s : S) → P s → P (f s)) → Holds (modify f)
  modify-Holds f h s i = (h s i, (tt, refl))

  pub lift-Holds : {A : Type 0} (r : Result A) → Returns r → Holds (lift r)
  lift-Holds r h s i = (i, h)

  pub if-Holds :
      {A : Type 0} (b : Bool) (m n : Act S A)
      → (b ≡ true → Holds m)
      → (b ≡ false → Holds n)
      → Holds (if b then m else n)
  if-Holds true m n hm hn = hm refl
  if-Holds false m n hm hn = hn refl

  pub each-Holds :
      {A : Type 0} (Q : A → Type 0) (f : A → Act S (Unit {0})) (items : List A)
      → ((a : A) → Q a → Holds (f a))
      → All Q items
      → Holds (each f items)
  unfolding each
  each-Holds Q f [] h q = pure-Holds tt
  each-Holds Q f (a ∷ items) h (q, qs) =
      >>=-Holds (f a) (λ _. each f items) (h a q) λ _. each-Holds Q f items h qs

pub row_at-Returns : (rows : List Row) (i : ℕ) → i < length rows → Returns (row_at rows i)
unfolding row_at
row_at-Returns [] i h = absurd (omega (arith, h))
row_at-Returns (r ∷ rows) zero h = (r, refl)
row_at-Returns (r ∷ rows) (suc i) h = row_at-Returns rows i (omega (arith, h))
