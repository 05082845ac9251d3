-- ===== src/Prelude/Act.antt =====
-- Methods that change an object and may throw. An exception leaves the object as it is then.
use mathlib.Core.List.{List, [], ◌∷◌}
use iptsd_android.Prelude.Errors.{Result, ok, err}

abbrev pub Act : Type 0 → Type 0 → Type 0
Act S A = S → S × Result A

module _ {S : Type 0} where
  abbrev pub pure : {A : Type 0} → A → Act S A
  pure a s = (s, ok a)

  abbrev pub continue : {A B : Type 0} → S × Result A → (A → Act S B) → S × Result B
  continue (s, ok a) f = f a s
  continue (s, err e) f = (s, err e)

  infixl 5 ◌>>=◌ ◌>>◌
  abbrev pub ◌>>=◌ : {A B : Type 0} → Act S A → (A → Act S B) → Act S B
  ◌>>=◌ m f s = continue (m s) f

  abbrev pub ◌>>◌ : {B : Type 0} → Act S (Unit {0}) → Act S B → Act S B
  m >> k = m >>= λ _. k

  abbrev pub modify : (S → S) → Act S (Unit {0})
  modify f s = (f s, ok tt)

  abbrev pub get : Act S S
  get s = (s, ok s)

  -- A computation that does not touch the object.
  abbrev pub lift : {A : Type 0} → Result A → Act S A
  lift r s = (s, r)

-- `for (const A &a : as) f(a);`
unfoldable pub each : {S A : Type 0} → (A → Act S (Unit {0})) → List A → Act S (Unit {0})
each f [] = pure tt
each f (a ∷ rest) = f a >> each f rest
