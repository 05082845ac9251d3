-- ===== src/Core/Linux/DeviceRunner/Ends.antt =====
-- `DeviceRunner::run` ends once it is stopped, and once the device fails.
use iptsd_android.Prelude.{
  ℕ, zero, suc, ◌+◌, ◌≤◌, ◌<◌, ◌≡◌, refl, sym, subst, ◌⊎◌, inl, inr, Bool, true, false, List,
  Result, ok, err, Error, arith, leb, Option, none, some, [], ◌∷◌, invalid_device,
  invalid_set_mode_report, if◌then◌else◌,
}
use iptsd_android.Hid.Report.{Report}
use iptsd_android.Prelude.Act.{Act, continue}
use iptsd_android.Ipts.Device.{
  find_modesetting_report, Device, Mode, mode_value, singletouch, multitouch, set_mode,
  is_touch_data,
}
use iptsd_android.Core.Linux.Runner.{Methods, recover, is_exception, Throws, IsException, IsCaught}
use iptsd_android.Core.Linux.DeviceRunner.{
  DeviceRunner, Hidraw, Outcome, failed, with_application, fill, errors_after, switch_mode, round,
  and_then, loop, run,
}

module _ {S : Type 0} (app : Methods S) (hid : Hidraw) (stopped : ℕ → Bool) where
  -- The processing of a buffer and every system call return or throw an exception.
  pub record IsSafe : Type 0 where
    pub process : (bytes : List ℕ) (s : S) → IsCaught (app.process bytes s).1
    pub read : (k : ℕ) → IsCaught (hid.read k)
    pub set_feature : (report : List ℕ) → IsCaught (hid.set_feature report)

  -- What the change into multitouch mode throws, or the handler of the start or of the stop.
  pub data IsPassedOn (r : DeviceRunner S) (e : Error) : Type 0 where
    by_multitouch : (switch_mode app hid stopped multitouch r).1 ≡ err e → IsPassedOn r e
    by_start : (s : S) → (app.on_start s).1 ≡ err e → IsPassedOn r e
    by_stop : (s : S) → (app.on_stop s).1 ≡ err e → IsPassedOn r e

  -- The read of round `k` throws an exception.
  abbrev pub Fails : ℕ → Type 0
  Fails k = (e : Error) × (hid.read k ≡ err e) × (is_exception e ≡ true)

  -- In round `j` the flag is set, or there begin fifty reads that fail.
  abbrev pub Stops : ℕ → Type 0
  Stops j = (stopped j ≡ true) ⊎ ((i : ℕ) → i < 50 → Fails (j + i))

  module _ (Q : Error → Type 0) where
    continue-Throws :
        {T A B : Type 0} (p : T × Result A) (f : A → Act T B)
        → Throws Q p.1
        → ((a : A) (t : T) → Throws Q (f a t).1)
        → Throws Q (continue p f).1
    continue-Throws (s, ok a) f h k = k a s
    continue-Throws (s, err e) f h k = h

    with_application-Throws :
        {A : Type 0} (r : DeviceRunner S) (p : S × Result A)
        → Throws Q p.1
        → Throws Q (with_application r p).1
    with_application-Throws r (s, ok a) h = h
    with_application-Throws r (s, err e) h = h

    if-Throws :
        {T A : Type 0} (b : Bool) (x y : T × Result A)
        → Throws Q x.1
        → (b ≡ false → Throws Q y.1)
        → Throws Q (if b then x else y).1
    if-Throws true x y hx hy = hx
    if-Throws false x y hx hy = hy refl

    all-Throws : {A : Type 0} (m : Result A) → ((e : Error) → m ≡ err e → Q e) → Throws Q m
    all-Throws (ok a) h = tt
    all-Throws (err e) h = h e refl

    recover-Throws :
        {T : Type 0} (p : T × Result (Unit {0})) → IsCaught p.1 → Throws Q (recover tt p).1
    recover-Throws (s, ok a) h = tt
    recover-Throws (s, err e) h = rw h tt

    and_then-Throws :
        (rest : ℕ → Act (DeviceRunner S) ℕ) (errors : ℕ) (p : DeviceRunner S × Result Outcome)
        → IsCaught p.1
        → ((o : Outcome) (r : DeviceRunner S) → Throws Q (rest (errors_after o errors) r).1)
        → Throws Q (and_then app hid stopped rest errors (recover failed p)).1
    and_then-Throws rest errors (r, ok o) h k = k o r
    and_then-Throws rest errors (r, err e) h k = rw h (k failed r)

  round-IsCaught : (k : ℕ) (r : DeviceRunner S) → IsSafe → IsCaught (round app hid stopped k r).1
  unfolding round
  round-IsCaught k r safe =
      continue-Throws IsException (r, hid.read k) _ (safe.read k)
        λ bytes q.
          if-Throws IsException (is_touch_data (fill bytes q).buffer q.device) _ _
            (continue-Throws IsException
              (with_application (fill bytes q) (app.process bytes q.application)) _
              (with_application-Throws IsException (fill bytes q) (app.process bytes q.application)
                (safe.process bytes q.application))
              λ done t. tt)
            λ off. tt

  failing :
      {A : Type 0} (m : Result A) (f : A → Act (DeviceRunner S) Outcome) (r : DeviceRunner S)
      (e : Error)
      → m ≡ err e
      → is_exception e ≡ true
      → recover failed (continue (r, m) f) ≡ (r, ok failed)
  failing m f r e fails caught =
      subst (λ m'. recover failed (continue (r, m') f) ≡ (r, ok failed)) (sym fails)
        (rw caught refl)

  -- A round whose read fails counts.
  round_failed :
      (k : ℕ) (r : DeviceRunner S)
      → Fails k
      → recover failed (round app hid stopped k r) ≡ (r, ok failed)
  unfolding round
  round_failed k r (e, fails, caught) = failing (hid.read k) _ r e fails caught

  loop_failing :
      (Q : Error → Type 0) (n fuel k errors : ℕ) (r : DeviceRunner S)
      → 50 ≤ errors + n
      → n < fuel
      → ((i : ℕ) → i < n → Fails (k + i))
      → Throws Q (loop app hid stopped fuel k errors r).1
  unfolding loop
  loop_failing Q n zero k errors r many f fails = absurd (omega (arith, f))
  loop_failing Q zero (suc fuel) k errors r many f fails =
      if-Throws Q (stopped k) _ _ tt
        λ going. if-Throws Q (leb 50 errors) _ _ tt λ few. absurd (ground (arith, many, few))
  loop_failing Q (suc n) (suc fuel) k errors r many f fails =
      if-Throws Q (stopped k) _ _ tt λ going. if-Throws Q (leb 50 errors) _ _ tt λ few.
        let here : Fails k = subst Fails (omega arith) (fails 0 (omega arith)) in
        let rest = loop app hid stopped fuel (suc k) in
        subst (λ p. Throws Q (and_then app hid stopped rest errors p).1)
          (sym (round_failed k r here))
          (loop_failing Q n fuel (suc k) (suc errors) r (omega (arith, many)) (omega (arith, f))
            λ i less. subst Fails (omega arith) (fails (suc i) (omega (arith, less))))

  loop-Throws :
      (Q : Error → Type 0) (d fuel k errors : ℕ) (r : DeviceRunner S)
      → IsSafe
      → Stops (k + d)
      → d + 50 < fuel
      → Throws Q (loop app hid stopped fuel k errors r).1
  unfolding loop
  loop-Throws Q d zero k errors r safe stops f = absurd (omega (arith, f))
  loop-Throws Q zero (suc fuel) k errors r safe stops f = elim stops [
    | inl stop ↦
        let here : stopped k ≡ true = subst (λ j. stopped j ≡ true) (omega arith) stop in rw here tt
    | inr fails ↦
        loop_failing Q 50 (suc fuel) k errors r (omega arith) (omega (arith, f))
          λ i less. subst (λ j. Fails (j + i)) (omega arith) (fails i less)
  ]
  loop-Throws Q (suc d) (suc fuel) k errors r safe stops f = if-Throws Q (stopped k) _ _ tt λ going.
      if-Throws Q (leb 50 errors) _ _ tt λ few.
        and_then-Throws Q (loop app hid stopped fuel (suc k)) errors (round app hid stopped k r)
          (round-IsCaught k r safe)
          λ o q.
            loop-Throws Q d fuel (suc k) (errors_after o errors) q safe
              (subst Stops (omega arith) stops) (omega (arith, f))

  id_answer : Mode → Option ℕ → Result (List ℕ)
  id_answer mode m = elim m [
    | none ↦ err invalid_set_mode_report
    | some id ↦ ok (id ∷ mode_value mode ∷ [])
  ]

  mode_answer : Mode → Option Report → Result (List ℕ)
  mode_answer mode m = elim m [ none ↦ err invalid_device | some r ↦ id_answer mode r.id ]

  id_answer-IsCaught : (mode : Mode) (m : Option ℕ) → IsCaught (id_answer mode m)
  unfolding id_answer
  id_answer-IsCaught mode none = refl
  id_answer-IsCaught mode (some id) = tt

  mode_answer-IsCaught : (mode : Mode) (m : Option Report) → IsCaught (mode_answer mode m)
  unfolding mode_answer
  mode_answer-IsCaught mode none = refl
  mode_answer-IsCaught mode (some r) = id_answer-IsCaught mode r.id

  set_mode-IsCaught : (mode : Mode) (d : Device) → IsCaught (set_mode mode d)
  unfolding set_mode id_answer mode_answer
  set_mode-IsCaught mode d = mode_answer-IsCaught mode (find_modesetting_report d.descriptor)

  switch_mode-IsCaught :
      (mode : Mode) (r : DeviceRunner S) → IsSafe → IsCaught (switch_mode app hid stopped mode r).1
  unfolding switch_mode
  switch_mode-IsCaught mode r safe =
      continue-Throws IsException (r, set_mode mode r.device) _ (set_mode-IsCaught mode r.device)
        λ report q. safe.set_feature report

  -- Let the processing of a buffer and every system call return or throw an exception. If the flag is
  -- set in some round `j`, or fifty reads in succession from round `j` on throw, then `run` is over
  -- after at most `j + 51` rounds: it returns, or it passes on what the change into multitouch mode,
  -- the handler of the start or the handler of the stop threw. Nothing that a read, the processing of
  -- a buffer or the change back into singletouch mode throws leaves it.
  pub run-Throws :
      (j : ℕ) (r : DeviceRunner S)
      → IsSafe
      → Stops j
      → Throws (IsPassedOn r) (run app hid stopped (j + 51) r).1
  unfolding run
  run-Throws j r safe stops =
      let Q : Error → Type 0 = IsPassedOn r in
      continue-Throws Q (switch_mode app hid stopped multitouch r) _
        (all-Throws Q _ λ e. by_multitouch)
        λ switched q.
          continue-Throws Q (with_application q (app.on_start q.application)) _
            (with_application-Throws Q q (app.on_start q.application)
              (all-Throws Q _ λ e. by_start q.application))
            λ started t.
              continue-Throws Q (loop app hid stopped (j + 51) 0 0 t) _
                (loop-Throws Q j (j + 51) 0 0 t safe (subst Stops (omega arith) stops)
                  (omega arith))
                λ k u.
                  continue-Throws Q (with_application u (app.on_stop u.application)) _
                    (with_application-Throws Q u (app.on_stop u.application)
                      (all-Throws Q _ λ e. by_stop u.application))
                    λ done v.
                      continue-Throws Q (recover tt (switch_mode app hid stopped singletouch v)) _
                        (recover-Throws Q (switch_mode app hid stopped singletouch v)
                          (switch_mode-IsCaught singletouch v safe))
                        λ restored w. tt
