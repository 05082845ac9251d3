-- ===== src/Ipts/Parser/Rules.antt =====
-- A logic for the handlers of the parser. `Keeps I n k m`: on a valid reader with at most `n` bytes
-- left, `m` keeps the invariant `I` of the parser, also when it throws; if it returns it has consumed
-- `k` bytes or more, and it does not throw for want of fuel.
use native.Mathlib.Nat.{le_refl}
use iptsd_android.Prelude.{ℕ, ◌+◌, ◌-◌, ◌≤◌, ◌≢◌, Result, ok, err, out_of_fuel, arith, inl, inr}
use iptsd_android.Reader.{Reader, size, read, skip, sub, subspan}
use iptsd_android.Reader
use iptsd_android.Reader.Bounds.{
  IsValid, chunk, advance, read_cases, sub_cases, skip_cases, size-advance, advance-IsValid,
  length-chunk, init-IsValid, size-init,
}
use iptsd_android.Ipts.Parser.{Parser}
use iptsd_android.Ipts.Parser.Monad.{
  M, ◌>>=◌, continue, bytes, skipping, split, on_reader, pure, modify, remaining, parser,
}

module _ {F : Type 0} (I : Parser F → Type 0) where
  abbrev pub Outcome : {A : Type 0} → (left k : ℕ) → Parser F × Result (A × Reader) → Type 0
  Outcome left k (p, ok (a, r)) = I p × IsValid r × (size r + k ≤ left)
  Outcome left k (p, err e) = I p × (e ≢ out_of_fuel)

  abbrev pub Keeps : {A : Type 0} → (n k : ℕ) → M F A → Type 0
  Keeps n k m =
      (p : Parser F) (r : Reader) → I p → IsValid r → size r ≤ n → Outcome (size r) k (m p r)

  Outcome-mono :
      {A : Type 0} (left left' k k' : ℕ) (o : Parser F × Result (A × Reader))
      → left + k' ≤ left' + k
      → Outcome left k o
      → Outcome left' k' o
  Outcome-mono left left' k k' (p, ok (a, r)) h (i, v, m) = (i, v, omega arith)
  Outcome-mono left left' k k' (p, err e) h o = o

  Outcome-continue :
      {A B : Type 0} (left n k j : ℕ) (o : Parser F × Result (A × Reader)) (f : A → M F B)
      → left ≤ n
      → Outcome left k o
      → ((a : A) → Keeps (n - k) j (f a))
      → Outcome left (k + j) (continue o f)
  Outcome-continue left n k j (p, ok (a, r)) f b (i, v, h) g =
      Outcome-mono (size r) left j (k + j) (f a p r) (omega arith) (g a p r i v (omega arith))
  Outcome-continue left n k j (p, err e) f b h g = h

  pub Keeps-mono :
      {A : Type 0} (n n' k k' : ℕ) (m : M F A) → n' ≤ n → k' ≤ k → Keeps n k m → Keeps n' k' m
  Keeps-mono n n' k k' m h h' g p r i v b =
      Outcome-mono (size r) (size r) k k' (m p r) (omega arith) (g p r i v (omega arith))

  -- A step, and what follows it on the bytes that are left.
  pub Keeps-bind :
      {A B : Type 0} (n k j : ℕ) (m : M F A) (f : A → M F B)
      → Keeps n k m
      → ((a : A) → Keeps (n - k) j (f a))
      → Keeps n (k + j) (m >>= f)
  Keeps-bind n k j m f h g p r i v b = Outcome-continue (size r) n k j (m p r) f b (h p r i v b) g

  pub Keeps-pure : {A : Type 0} (n : ℕ) (a : A) → Keeps n 0 (pure a)
  Keeps-pure n a p r i v b = (i, v, omega arith)

  pub Keeps-modify :
      (n : ℕ) (f : Parser F → Parser F) → ((p : Parser F) → I p → I (f p)) → Keeps n 0 (modify f)
  Keeps-modify n f h p r i v b = (h p i, v, omega arith)

  pub Keeps-bytes : (n k : ℕ) → Keeps n k (bytes k)
  unfolding bytes
  Keeps-bytes n k p r i v b = elim (read_cases k r v) [
    | inl (h, e) ↦ rw e (i, advance-IsValid k r v h, omega (arith, size-advance k r))
    | inr (h, e) ↦ rw e (i, λ x. cc)
  ]

  pub Keeps-skipping : (n k : ℕ) → Keeps n k (skipping k)
  unfolding skipping
  Keeps-skipping n k p r i v b = elim (skip_cases k r) [
    | inl (h, e) ↦ rw (e, skipping) (i, advance-IsValid k r v h, omega (arith, size-advance k r))
    | inr (h, e) ↦ rw (e, skipping) (i, λ x. cc)
  ]

  pub Keeps-remaining :
      {B : Type 0} (n j : ℕ) (f : ℕ → M F B)
      → ((left : ℕ) → left ≤ n → Keeps left j (f left))
      → Keeps n j (remaining >>= f)
  Keeps-remaining n j f h p r i v b = h (size r) b p r i v (le_refl _)

  pub Keeps-parser :
      {B : Type 0} (n j : ℕ) (f : Parser F → M F B)
      → ((q : Parser F) → Keeps n j (f q))
      → Keeps n j (parser >>= f)
  Keeps-parser n j f h p r i v b = h p p r i v b

  -- A chunk is split off; its reader is valid and no longer than what was left.
  pub Keeps-split :
      {B : Type 0} (n c j : ℕ) (f : Reader → M F B)
      → ((s : Reader) → IsValid s → size s ≤ n → Keeps n j (f s))
      → Keeps n j (split c >>= f)
  unfolding split
  Keeps-split n c j f g p r i v b = elim (sub_cases c r v) [
    | inl (h, e) ↦
        let s = Reader.init (chunk c r) in
        let less : size s ≤ n = omega (arith, size-init (chunk c r), length-chunk c r h) in
        rw e (
          Outcome-mono (size (advance c r)) (size r) j j (f s p (advance c r))
            (omega (arith, size-advance c r))
            (g s (init-IsValid (chunk c r)) less p (advance c r) i (advance-IsValid c r v h)
              (omega (arith, size-advance c r))))
    | inr (h, e) ↦ rw e (i, λ x. cc)
  ]

  restored :
      (left k : ℕ) (r : Reader) (o : Parser F × Result (Unit {0} × Reader))
      → IsValid r
      → Outcome left k o
      → Outcome (size r) 0 (continue o (λ _ p' _. (p', ok (tt, r))))
  restored left k r (p, ok (a, r')) v (i, _, _) = (i, v, omega arith)
  restored left k r (p, err e) v h = h

  pub Keeps-on_reader :
      (n k : ℕ) (s : Reader) (m : M F (Unit {0}))
      → IsValid s
      → Keeps (size s) k m
      → Keeps n 0 (on_reader s m)
  Keeps-on_reader n k s m vs h p r i v b = restored (size s) k r (m p s) v (h p s i vs (le_refl _))
