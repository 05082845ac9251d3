-- ===== src/Ipts/Parser/Monad.antt =====
-- Steps over the parser's state and a reader that may throw, and the rule for their invariants.
use iptsd_android.Prelude.{ℕ, Result, ok, err, Error, List}
use iptsd_android.Reader.{Reader, size, skip, read, sub, subspan}
use iptsd_android.Ipts.Parser.{Parser}

abbrev pub M : Type 0 → Type 0 → Type 0
M F A = Parser F → Reader → Parser F × Result (A × Reader)

module _ {F : Type 0} where
  abbrev pub pure : {A : Type 0} → A → M F A
  pure a p r = (p, ok (a, r))

  abbrev pub throw : {A : Type 0} → Error → M F A
  throw e p r = (p, err e)

  -- The rest of a handler behind a step: an exception leaves the parser as it is then.
  abbrev pub continue :
      {A B : Type 0} → Parser F × Result (A × Reader) → (A → M F B) → Parser F × Result (B × Reader)
  continue (p, ok (a, r)) f = f a p r
  continue (p, err e) f = (p, err e)

  infixl 5 ◌>>=◌ ◌>>◌
  abbrev pub ◌>>=◌ : {A B : Type 0} → M F A → (A → M F B) → M F B
  ◌>>=◌ m f p r = continue (m p r) f

  abbrev pub ◌>>◌ : {B : Type 0} → M F (Unit {0}) → M F B → M F B
  m >> k = m >>= λ _. k

  -- An operation of the reader.
  abbrev pub reading : {A : Type 0} → (Reader → Result (A × Reader)) → M F A
  reading f p r = (p, f r)

  unfoldable pub bytes : ℕ → M F (List ℕ)
  bytes n = reading (read n)

  unfoldable pub rows_of : (width count : ℕ) → M F (List ℕ)
  rows_of width count = reading (subspan width count)

  unfoldable pub skipping : ℕ → M F (Unit {0})
  skipping n p r = elim (skip n r) [ ok r' ↦ (p, ok (tt, r')) | err e ↦ (p, err e) ]

  -- The state of the parser, and a change of it.
  abbrev pub parser : M F (Parser F)
  parser p r = (p, ok (p, r))

  abbrev pub modify : (Parser F → Parser F) → M F (Unit {0})
  modify f p r = (f p, ok (tt, r))

  abbrev pub remaining : M F ℕ
  remaining p r = (p, ok (size r, r))

  -- A handler that runs on a reader of its own; the caller's reader stays where it is.
  abbrev pub on_reader : Reader → M F (Unit {0}) → M F (Unit {0})
  on_reader s m p r = continue (m p s) (λ _ p' _. (p', ok (tt, r)))

  -- `Reader sub = reader.sub(n)`
  unfoldable pub split : ℕ → M F Reader
  split n = reading (sub n)
