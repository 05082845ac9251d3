-- ===== src/Core/Linux/FileRunner/Ends.antt =====
-- `FileRunner::run` ends.
use iptsd_android.Prelude.{
  ℕ, zero, suc, ◌+◌, ◌%◌, ◌≤◌, ◌<◌, ◌≡◌, refl, sym, subst, inl, inr, Bool, true, false, Option,
  ◌||◌, List, Result, ok, err, IsFueled, arith, ltb, ◌==◌, if◌then◌else◌, Bool-cases, ltb-false,
}
use iptsd_android.Prelude.Word.{u64_at, u64_mod}
use iptsd_android.Prelude.Act.{Act, continue}
use iptsd_android.Reader.{Reader, init, size, subspan}
use iptsd_android.Reader.Bounds.{
  IsValid, init-IsValid, chunk, advance, advance-IsValid, size-advance, read-ok, sub-ok,
}
use iptsd_android.Reader.Fueled.{subspan-IsFueled}
use iptsd_android.Core.Linux.Runner.{Methods, recover, is_exception}
use iptsd_android.Core.Device.{DeviceInfo}
use iptsd_android.Ipts.Data.{Metadata}
use iptsd_android.Core.Linux.FileRunner.Head.{IsInside, read_head-IsInside, opened-IsInside}
use iptsd_android.Core.Linux.FileRunner.{
  read_head, file_runner, FileRunner, Local, moved, value_of, with_application, take_next, and_then,
  loop, run_local, run, back,
}

module _ {S : Type 0} (app : Methods S) where
  -- No call of the application is stuck.
  pub record IsLive : Type 0 where
    pub on_start : (s : S) → IsFueled (app.on_start s).1
    pub process : (bytes : List ℕ) (s : S) → IsFueled (app.process bytes s).1
    pub on_stop : (s : S) → IsFueled (app.on_stop s).1

  -- The rest of a round once the length and the buffer are read.
  abbrev processed : Local S → Result (List ℕ) → Local S × Result (Unit {0})
  processed l r = continue (l, r) λ bytes m. with_application m (app.process bytes m.application)

  -- The reader of a round that has enough bytes.
  take_next_reader :
      (buffer_size : ℕ) (l : Local S)
      → IsValid l.local
      → 8 + buffer_size ≤ size l.local
      → let past : Local S = record l { local = advance buffer_size (advance 8 l.local) } in
        let buffer = init (chunk buffer_size (advance 8 l.local)) in
        take_next app buffer_size l
        ≡ processed past (value_of (moved buffer (subspan 1 (u64_at (chunk 8 l.local) 0) buffer)))
  unfolding take_next
  take_next_reader buffer_size l v h = rw (read-ok 8 l.local v (omega arith)) (
      rw
        (sub-ok buffer_size (advance 8 l.local) (advance-IsValid 8 l.local v (omega arith))
          (omega (arith, size-advance 8 l.local)))
        refl)

  -- A round leaves a reader, and is not stuck.
  record Past (r : Reader) (p : Local S × Result (Unit {0})) : Type 0 where
    reader : p.0.local ≡ r
    live : IsFueled p.1

  called-Past :
      (l : Local S) (p : S × Result (Unit {0})) → IsFueled p.1 → Past l.local (with_application l p)
  called-Past l (s, a) h = record { reader = refl; live = h }

  processed-Past :
      (l : Local S) (r : Result (List ℕ)) → IsLive → IsFueled r → Past l.local (processed l r)
  processed-Past l (ok bytes) alive h =
      called-Past l (app.process bytes l.application) (alive.process bytes l.application)
  processed-Past l (err e) alive h = record { reader = refl; live = λ p. h (cc) }

  moved-IsFueled :
      {A : Type 0} (r : Reader) (x : Result (A × Reader))
      → IsFueled x
      → IsFueled (value_of (moved r x))
  moved-IsFueled r (ok (a, r')) h = λ p. cc
  moved-IsFueled r (err e) h = λ p. h (cc)

  take_next-Past :
      (buffer_size : ℕ) (l : Local S)
      → IsLive
      → IsValid l.local
      → 8 + buffer_size ≤ size l.local
      → Past (advance buffer_size (advance 8 l.local)) (take_next app buffer_size l)
  take_next-Past buffer_size l alive v h =
      let past : Local S = record l { local = advance buffer_size (advance 8 l.local) } in
      let buffer = init (chunk buffer_size (advance 8 l.local)) in
      let n = u64_at (chunk 8 l.local) 0 in
      rw (take_next_reader buffer_size l v h) (
        processed-Past past (value_of (moved buffer (subspan 1 n buffer))) alive
          (moved-IsFueled buffer (subspan 1 n buffer) (subspan-IsFueled 1 n buffer)))

  recover-Past : (r : Reader) (p : Local S × Result (Unit {0})) → Past r p → Past r (recover tt p)
  recover-Past r (l, ok done) h = h
  recover-Past r (l, err e) h = elim (Bool-cases (is_exception e)) [
    | inl caught ↦ rw caught (record { reader = h.reader; live = λ p. cc })
    | inr fatal ↦ rw fatal h
  ]

  and_then-IsFueled :
      (r : Reader) (rest : Act (Local S) ℕ) (p : Local S × Result (Unit {0}))
      → Past r p
      → ((l : Local S) → l.local ≡ r → IsFueled (rest l).1)
      → IsFueled (and_then rest p).1
  and_then-IsFueled r rest (l, ok done) h k = k l (h.reader)
  and_then-IsFueled r rest (l, err e) h k = λ p. h.live (cc)

  if-IsFueled :
      {A B : Type 0} (b : Bool) (x y : B × Result A)
      → IsFueled x.1
      → (b ≡ false → IsFueled y.1)
      → IsFueled (if b then x else y).1
  if-IsFueled true x y hx hy = hx
  if-IsFueled false x y hx hy = hy refl

  ok-IsFueled : {A : Type 0} (a : A) → IsFueled (ok a)
  ok-IsFueled a = λ p. cc

  -- Every round reads the eight bytes of a length.
  loop-IsFueled :
      (stopped : ℕ → Bool) (buffer_size fuel k : ℕ) (l : Local S)
      → IsLive
      → 8 + buffer_size < u64_mod
      → IsValid l.local
      → size l.local < fuel
      → IsFueled (loop app stopped buffer_size fuel k l).1
  unfolding loop
  loop-IsFueled stopped buffer_size zero k l alive small v h = absurd (omega (arith, h))
  loop-IsFueled stopped buffer_size (suc fuel) k l alive small v h =
      if-IsFueled (stopped k || size l.local == 0) _ _ (ok-IsFueled (suc k)) λ more.
        if-IsFueled (ltb (size l.local) ((8 + buffer_size) % u64_mod)) _ _ (ok-IsFueled (suc k))
          λ enough.
            let e : (8 + buffer_size) % u64_mod ≡ 8 + buffer_size = omega (arith, small) in
            let fits : 8 + buffer_size ≤ size l.local =
              ltb-false (size l.local) (8 + buffer_size) (rw e at enough) in
            let valid : IsValid (advance buffer_size r8) =
              advance-IsValid buffer_size r8 (advance-IsValid 8 l.local v (omega (arith, fits)))
                (omega (arith, size-advance 8 l.local, fits)) in
            let r = advance buffer_size (advance 8 l.local) in
            and_then-IsFueled r (loop app stopped buffer_size fuel (suc k))
              (recover tt (take_next app buffer_size l))
              (recover-Past r (take_next app buffer_size l)
                (take_next-Past buffer_size l alive v fits))
              λ l' same.
                loop-IsFueled stopped buffer_size fuel (suc k) l' alive small
                  (subst IsValid (sym same) valid)
                  (subst (λ q. size q < fuel) (sym same) (shrunk fits))
    where
      r8 : Reader
      r8 = advance 8 l.local

      shrunk : 8 + buffer_size ≤ size l.local → size (advance buffer_size r8) < fuel
      shrunk fits = omega (arith, size-advance buffer_size r8, size-advance 8 l.local, h, fits)

  continue-IsFueled :
      {T A B : Type 0} (p : T × Result A) (f : A → Act T B)
      → IsFueled p.1
      → ((a : A) → IsFueled (f a p.0).1)
      → IsFueled (continue p f).1
  continue-IsFueled (s, ok a) f h k = k a
  continue-IsFueled (s, err e) f h k = λ p. h (cc)

  back-IsFueled :
      (f : FileRunner S) (p : Local S × Result Bool) → IsFueled p.1 → IsFueled (back f p).1
  back-IsFueled f (l, a) h = h

  run_local-IsFueled :
      (stopped : ℕ → Bool) (buffer_size fuel : ℕ) (l : Local S)
      → IsLive
      → 8 + buffer_size < u64_mod
      → IsValid l.local
      → size l.local < fuel
      → IsFueled (run_local app stopped buffer_size fuel l).1
  unfolding run_local
  run_local-IsFueled stopped buffer_size fuel l alive small v h =
      let begun = with_application l (app.on_start l.application) in
      let start = called-Past l (app.on_start l.application) (alive.on_start l.application) in
      continue-IsFueled begun _ (start.live) λ done.
        continue-IsFueled (loop app stopped buffer_size fuel 0 begun.0) _
          (loop-IsFueled stopped buffer_size fuel 0 begun.0 alive small
            (subst IsValid (sym start.reader) v) (subst (λ r. size r < fuel) (sym start.reader) h))
          λ k.
            let m = (loop app stopped buffer_size fuel 0 begun.0).0 in
            let stop = called-Past m (app.on_stop m.application) (alive.on_stop m.application) in
            continue-IsFueled (with_application m (app.on_stop m.application)) _ (stop.live)
              λ stopping. ok-IsFueled (stopped (suc k))

module _ {S : Type 0} (make : DeviceInfo → Option Metadata → Result S) where
  -- Let the calls of the application not be stuck, and let `8 + buffer_size` of the file's device info
  -- not wrap. Then `run` on a file that the constructor could open ends, whatever the file contains and
  -- whenever the flag is set: the fuel of one round for each byte is enough.
  pub run-IsFueled :
      (app : Methods S) (stopped : ℕ → Bool) (bytes : List ℕ) (f : FileRunner S)
      → IsLive app
      → file_runner make bytes ≡ ok f
      → 8 + f.info.buffer_size < u64_mod
      → IsFueled (run app stopped f).1
  unfolding run file_runner IsInside
  run-IsFueled app stopped bytes f alive open_run small =
      let valid =
        opened-IsInside make bytes (read_head (init bytes)) f
          (read_head-IsInside (init bytes) (init-IsValid bytes)) open_run in
      let l : Local S = record { application = f.application; local = f.reader } in
      back-IsFueled app f (run_local app stopped f.info.buffer_size (suc (size f.reader)) l) (
        run_local-IsFueled app stopped f.info.buffer_size (suc (size f.reader)) l alive small valid
          (omega arith))
