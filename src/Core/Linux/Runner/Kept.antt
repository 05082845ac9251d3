-- ===== src/Core/Linux/Runner/Kept.antt =====
-- A property of the state that calls keep, whether they return or throw.
use iptsd_android.Prelude.{
  ℕ, List, inl, inr, Bool, true, false, Result, ok, err, Bool-cases, if◌then◌else◌,
}
use iptsd_android.Prelude.Act.{Act, continue}
use iptsd_android.Core.Linux.Runner.{Methods, recover, is_exception}

module _ {T : Type 0} (Q : T → Type 0) where
  pub continue-Kept :
      {A B : Type 0} (p : T × Result A) (f : A → Act T B)
      → Q p.0
      → ((a : A) (t : T) → Q t → Q (f a t).0)
      → Q (continue p f).0
  continue-Kept (t, ok a) f h k = k a t h
  continue-Kept (t, err e) f h k = h

  pub if-Kept :
      {A : Type 0} (b : Bool) (x y : T × Result A) → Q x.0 → Q y.0 → Q (if b then x else y).0
  if-Kept true x y hx hy = hx
  if-Kept false x y hx hy = hy

  -- For a choice between two methods.
  pub choice-Kept :
      {A : Type 0} (b : Bool) (m n : Act T A) (t : T)
      → Q (m t).0
      → Q (n t).0
      → let choice : Act T A = if b then m else n in Q (choice t).0
  choice-Kept true m n t hm hn = hm
  choice-Kept false m n t hm hn = hn

  pub recover-Kept : {A : Type 0} (a : A) (p : T × Result A) → Q p.0 → Q (recover a p).0
  recover-Kept a (t, ok b) h = h
  recover-Kept a (t, err e) h = elim (Bool-cases (is_exception e)) [
    | inl caught ↦ rw caught h
    | inr fatal ↦ rw fatal h
  ]

-- Every method of the application keeps it.
pub record Keeps {S : Type 0} (P : S → Type 0) (app : Methods S) : Type 0 where
  pub on_start : (s : S) → P s → P (app.on_start s).0
  pub process : (bytes : List ℕ) (s : S) → P s → P (app.process bytes s).0
  pub on_stop : (s : S) → P s → P (app.on_stop s).0
