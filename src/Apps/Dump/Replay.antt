-- ===== src/Apps/Dump/Replay.antt =====
-- A file that `Dump` wrote is read back by `FileRunner` as it was recorded.
use iptsd_android.Prelude.{
  zeros, ℕ, zero, suc, ◌+◌, ◌-◌, ◌%◌, ◌≤◌, ◌<◌, ◌≡◌, refl, ◌∙◌, ap, subst, Bool, false, List, [],
  ◌∷◌, ◌++◌, Result, ok, err, arith, length, length-append, ltb, ◌==◌, All, if◌then◌else◌, ◌||◌,
  Bool-cases, inl, inr,
}
use iptsd_android.Prelude.Word.{u64_mod, le64, le64_lem}
use iptsd_android.Prelude.Act.{Act, ◌>>◌, continue, each, pure}
use iptsd_android.Reader.{init, size, subspan}
use iptsd_android.Reader.Bounds.{advance}
use iptsd_android.Reader.Ahead.{Ahead, init-Ahead, size-Ahead, read-Ahead, sub-Ahead, subspan-Ahead}
use iptsd_android.Core.Linux.Runner.{Methods, recover, is_exception}
use iptsd_android.Core.Linux.FileRunner.{
  Local, with_application, take_next, and_then, loop, run_local,
}
use iptsd_android.Apps.Dump.{frame_bytes}

-- The frames of a recording.
unfoldable pub frames_bytes : ℕ → List (List ℕ) → List ℕ
frames_bytes buffer_size [] = []
frames_bytes buffer_size (bytes ∷ more) =
    frame_bytes buffer_size bytes ++ frames_bytes buffer_size more

abbrev padded : ℕ → List ℕ → List ℕ
padded buffer_size bytes = bytes ++ zeros (buffer_size - length bytes)

length-zeros : (n : ℕ) → length (zeros n) ≡ n
length-zeros zero = refl
length-zeros (suc n) = ap suc (length-zeros n)

length-padded :
    (buffer_size : ℕ) (bytes : List ℕ)
    → length bytes ≤ buffer_size
    → length (padded buffer_size bytes) ≡ buffer_size
length-padded buffer_size bytes h = omega (
  arith,
  length-append bytes (zeros (buffer_size - length bytes)),
  length-zeros (buffer_size - length bytes),
  h,
)

frame-padded :
    (buffer_size : ℕ) (bytes : List ℕ)
    → length bytes ≤ buffer_size
    → buffer_size < u64_mod
    → frame_bytes buffer_size bytes ≡ le64 (length bytes) ++ padded buffer_size bytes
unfolding frame_bytes
frame-padded buffer_size bytes h small =
    let e : (buffer_size + (u64_mod - length bytes)) % u64_mod ≡ buffer_size - length bytes =
      omega (arith, h, small) in
    ap (λ n. le64 (length bytes) ++ (bytes ++ zeros n)) e

module _ {S : Type 0} (app : Methods S) where
  -- The application gets one buffer after the other; an exception ends only the call.
  abbrev pub replayed : List (List ℕ) → Act S (Unit {0})
  replayed = each λ bytes s. recover tt (app.process bytes s)

  abbrev pub replay : List (List ℕ) → Act S (Unit {0})
  replay buffers = app.on_start >> replayed buffers >> app.on_stop

  take_next-Ahead :
      (buffer_size : ℕ) (bytes post : List ℕ) (l : Local S)
      → length bytes ≤ buffer_size
      → buffer_size < u64_mod
      → Ahead (frame_bytes buffer_size bytes ++ post) l.local
      → let r = advance buffer_size (advance 8 l.local) in
        (take_next app buffer_size l
          ≡ with_application (record l { local = r }) (app.process bytes l.application))
        × Ahead post r
  unfolding take_next
  take_next-Ahead buffer_size bytes post l h small ahead =
      let framed =
        subst (λ bs. Ahead (bs ++ post) l.local) (frame-padded buffer_size bytes h small) ahead in
      let (e1, a1) =
        read-Ahead (le64 (length bytes)) (padded buffer_size bytes ++ post) 8 l.local refl framed in
      let (e2, a2) =
        sub-Ahead (padded buffer_size bytes) post buffer_size (advance 8 l.local)
          (length-padded buffer_size bytes h) a1 in
      let e3 =
        subspan-Ahead bytes (zeros (buffer_size - length bytes)) (length bytes)
          (init (padded buffer_size bytes)) refl (init-Ahead (padded buffer_size bytes)) in
      let e4 =
        ap (λ n. subspan 1 n (init (padded buffer_size bytes))) (le64_lem (length bytes)) ∙ e3 in
      (rw e1 (rw e2 (rw e4 refl)), a2)

  abbrev shown : {A : Type 0} → Local S × Result A → S × Result (Unit {0})
  shown (l, ok a) = (l.application, ok tt)
  shown (l, err e) = (l.application, err e)

  and_then-replayed :
      (rest : Act (Local S) ℕ) (l : Local S) (p : S × Result (Unit {0})) (more : List (List ℕ))
      → ((s : S) → shown (rest (record l { application = s })) ≡ replayed more s)
      → shown (and_then rest (recover tt (with_application l p)))
        ≡ continue (recover tt p) (λ done. replayed more)
  and_then-replayed rest l (s, ok done) more h = h s
  and_then-replayed rest l (s, err e) more h = elim (Bool-cases (is_exception e)) [
    | inl caught ↦ rw caught (h s)
    | inr fatal ↦ rw fatal refl
  ]

  length-frame :
      (buffer_size : ℕ) (bytes : List ℕ)
      → length bytes ≤ buffer_size
      → buffer_size < u64_mod
      → length (frame_bytes buffer_size bytes) ≡ 8 + buffer_size
  length-frame buffer_size bytes h small =
      ap length (frame-padded buffer_size bytes h small)
      ∙ omega (arith, length-padded buffer_size bytes h)

  if_off : {A : Type 0} (b : Bool) (x y : A) → b ≡ false → (if b then x else y) ≡ y
  if_off b x y e = rw e refl

  -- All the buffers are read, and nothing else.
  loop-replayed :
      (stopped : ℕ → Bool) (buffer_size fuel k : ℕ) (buffers : List (List ℕ)) (l : Local S)
      → ((i : ℕ) → stopped i ≡ false)
      → 8 + buffer_size < u64_mod
      → All (λ bytes. length bytes ≤ buffer_size) buffers
      → Ahead (frames_bytes buffer_size buffers) l.local
      → length buffers < fuel
      → shown (loop app stopped buffer_size fuel k l) ≡ replayed buffers l.application
  unfolding loop frames_bytes each
  loop-replayed stopped buffer_size zero k buffers l on small h ahead f = absurd (omega (arith, f))
  loop-replayed stopped buffer_size (suc fuel) k [] l on small h ahead f =
      let e : size l.local ≡ 0 = size-Ahead [] l.local ahead in rw (on k, e) refl
  loop-replayed stopped buffer_size (suc fuel) k (bytes ∷ more) l on small (h, hs) ahead f =
      let post = frames_bytes buffer_size more in
      let (e, behind) = take_next-Ahead buffer_size bytes post l h (omega (arith, small)) ahead in
      let l' : Local S = record l { local = advance buffer_size (advance 8 l.local) } in
      let rest = loop app stopped buffer_size fuel (suc k) in
      let round = and_then rest (recover tt (take_next app buffer_size l)) in
      let long : 8 + buffer_size ≤ size l.local = omega (
        arith,
        size-Ahead (frame_bytes buffer_size bytes ++ post) l.local ahead,
        length-append (frame_bytes buffer_size bytes) post,
        length-frame buffer_size bytes h (omega (arith, small)),
      ) in
      let more_test : (stopped k || size l.local == 0) ≡ false = rw (on k) (ground (arith, long)) in
      let e8 : (8 + buffer_size) % u64_mod ≡ 8 + buffer_size = omega (arith, small) in
      let fits_test : ltb (size l.local) ((8 + buffer_size) % u64_mod) ≡ false =
        rw e8 (ground (arith, long)) in
      ap shown (if_off (stopped k || size l.local == 0) (l, ok (suc k)) _ more_test)
      ∙ ap shown (
          if_off (ltb (size l.local) ((8 + buffer_size) % u64_mod)) (l, ok (suc k)) round fits_test)
      ∙ ap (λ p. shown (and_then rest (recover tt p))) e
      ∙ and_then-replayed rest l' (app.process bytes l.application) more λ s.
        loop-replayed stopped buffer_size fuel (suc k) more (record l' { application = s }) on small
          hs behind (omega (arith, f))

  -- What a run comes to, but for the reader.
  abbrev pub result : Local S × Result Bool → S × Result Bool
  result (l, a) = (l.application, a)

  abbrev pub unstopped : S × Result (Unit {0}) → S × Result Bool
  unstopped (s, ok done) = (s, ok false)
  unstopped (s, err e) = (s, err e)

  stop-unstopped :
      (b : Bool) (l : Local S) (p : S × Result (Unit {0}))
      → b ≡ false
      → result (continue (with_application l p) λ done. pure b) ≡ unstopped p
  stop-unstopped b l (s, ok done) off = ap (λ c. (s, ok c)) off
  stop-unstopped b l (s, err e) off = refl

  loop-unstopped :
      (stopped : ℕ → Bool) (p : Local S × Result ℕ)
      → ((i : ℕ) → stopped i ≡ false)
      → result (
          continue p λ k m.
            continue
              (with_application m (app.on_stop m.application))
              λ done. pure (stopped (suc k)))
        ≡ unstopped (continue (shown p) λ done. app.on_stop)
  loop-unstopped stopped (l, ok k) on =
      stop-unstopped (stopped (suc k)) l (app.on_stop l.application) (on (suc k))
  loop-unstopped stopped (l, err e) on = refl

  start-unstopped :
      (stopped : ℕ → Bool) (buffer_size fuel : ℕ) (buffers : List (List ℕ)) (l : Local S)
      (p : S × Result (Unit {0}))
      → ((i : ℕ) → stopped i ≡ false)
      → 8 + buffer_size < u64_mod
      → All (λ bytes. length bytes ≤ buffer_size) buffers
      → Ahead (frames_bytes buffer_size buffers) l.local
      → length buffers < fuel
      → result (
          continue (with_application l p) λ started m.
            continue (loop app stopped buffer_size fuel 0 m) λ k m'.
              continue
                (with_application m' (app.on_stop m'.application))
                λ done. pure (stopped (suc k)))
        ≡ unstopped (continue (continue p λ started. replayed buffers) λ done. app.on_stop)
  start-unstopped stopped buffer_size fuel buffers l (s, err e) on small h ahead f = refl
  start-unstopped stopped buffer_size fuel buffers l (s, ok done) on small h ahead f =
      let m : Local S = record l { application = s } in
      loop-unstopped stopped (loop app stopped buffer_size fuel 0 m) on
      ∙ ap (λ q. unstopped (continue q λ done'. app.on_stop))
          (loop-replayed stopped buffer_size fuel 0 buffers m on small h ahead f)

  pub run_local-replay :
      (stopped : ℕ → Bool) (buffer_size fuel : ℕ) (buffers : List (List ℕ)) (l : Local S)
      → ((i : ℕ) → stopped i ≡ false)
      → 8 + buffer_size < u64_mod
      → All (λ bytes. length bytes ≤ buffer_size) buffers
      → Ahead (frames_bytes buffer_size buffers) l.local
      → length buffers < fuel
      → result (run_local app stopped buffer_size fuel l) ≡ unstopped (replay buffers l.application)
  unfolding run_local
  run_local-replay stopped buffer_size fuel buffers l on small h ahead f =
      start-unstopped stopped buffer_size fuel buffers l (app.on_start l.application) on small h
        ahead f
