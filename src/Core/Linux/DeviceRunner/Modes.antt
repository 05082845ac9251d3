-- ===== src/Core/Linux/DeviceRunner/Modes.antt =====
-- The reports that `DeviceRunner::run` sends to change the mode of the device.
use mathlib.Core.List.{append_assoc}
use iptsd_android.Prelude.{
  ℕ, zero, suc, ◌≡◌, refl, sym, ◌∙◌, ap, inl, inr, Bool, Option, none, some, List, [], ◌∷◌, ◌++◌,
  Result, ok, err, leb, Bool-cases, invalid_device, invalid_set_mode_report,
}
use iptsd_android.Prelude.Act.{Act, continue}
use iptsd_android.Hid.Report.{Report}
use iptsd_android.Ipts.Device.{
  find_modesetting_report, Device, Mode, mode_value, singletouch, multitouch, set_mode,
  is_touch_data,
}
use iptsd_android.Core.Linux.Runner.{Methods, recover, is_exception}
use iptsd_android.Core.Linux.Runner.Kept.{continue-Kept, if-Kept, recover-Kept}
use iptsd_android.Core.Linux.DeviceRunner.{
  DeviceRunner, Hidraw, Outcome, failed, with_application, fill, log, errors_after, switch_mode,
  round, and_then, loop, run,
}

-- Both modes are set by the same report.
id_answer : Mode → Option ℕ → Result (List ℕ)
id_answer mode m = elim m [
  | none ↦ err invalid_set_mode_report
  | some id ↦ ok (id ∷ mode_value mode ∷ [])
]

mode_answer : Mode → Option Report → Result (List ℕ)
mode_answer mode m = elim m [ none ↦ err invalid_device | some r ↦ id_answer mode r.id ]

abbrev IsPair : (first second : Result (List ℕ)) → List ℕ → Type 0
IsPair first second report = (id : ℕ) × (report ≡ id ∷ 1 ∷ []) × (second ≡ ok (id ∷ 0 ∷ []))

payload : List ℕ → Result (List ℕ) → List ℕ
payload bs (ok report) = report
payload bs (err e) = bs

id_answer-IsPair :
    (m : Option ℕ) (report : List ℕ)
    → id_answer multitouch m ≡ ok report
    → IsPair (id_answer multitouch m) (id_answer singletouch m) report
unfolding id_answer payload
id_answer-IsPair none report e = absurd (cc)
id_answer-IsPair (some id) report e = (id, ap (payload report) (sym e), refl)

mode_answer-IsPair :
    (m : Option Report) (report : List ℕ)
    → mode_answer multitouch m ≡ ok report
    → IsPair (mode_answer multitouch m) (mode_answer singletouch m) report
unfolding mode_answer
mode_answer-IsPair none report e = absurd (cc)
mode_answer-IsPair (some r) report e = id_answer-IsPair r.id report e

set_mode-IsPair :
    (d : Device) (report : List ℕ)
    → set_mode multitouch d ≡ ok report
    → IsPair (set_mode multitouch d) (set_mode singletouch d) report
unfolding set_mode id_answer mode_answer
set_mode-IsPair d report e = mode_answer-IsPair (find_modesetting_report d.descriptor) report e

module _ {S : Type 0} where
  -- The same device, to which nothing more was sent.
  record Untouched (r q : DeviceRunner S) : Type 0 where
    device : q.device ≡ r.device
    sent : q.sent ≡ r.sent

  with_application-Untouched :
      {A : Type 0} (r q : DeviceRunner S) (p : S × Result A)
      → Untouched r q
      → Untouched r (with_application q p).0
  with_application-Untouched r q (s, a) h = record { device = h.device; sent = h.sent }

module _ {S : Type 0} (app : Methods S) (hid : Hidraw) (stopped : ℕ → Bool) where
  round-Untouched :
      (k : ℕ) (r q : DeviceRunner S) → Untouched r q → Untouched r (round app hid stopped k q).0
  unfolding round
  round-Untouched k r q h =
      continue-Kept (Untouched r) (q, hid.read k) _ h
        λ bytes t i.
          let u = fill bytes t in
          let j : Untouched r u = record { device = i.device; sent = i.sent } in
          if-Kept (Untouched r) (is_touch_data u.buffer u.device) _ _
            (continue-Kept (Untouched r) (with_application u (app.process bytes u.application)) _
              (with_application-Untouched r u (app.process bytes u.application) j) λ done v l. l)
            j

  and_then-Untouched :
      (rest : ℕ → Act (DeviceRunner S) ℕ) (errors : ℕ) (r : DeviceRunner S)
      (p : DeviceRunner S × Result Outcome)
      → Untouched r p.0
      → ((e : ℕ) (q : DeviceRunner S) → Untouched r q → Untouched r (rest e q).0)
      → Untouched r (and_then app hid stopped rest errors p).0
  and_then-Untouched rest errors r (q, ok o) h k = k (errors_after o errors) q h
  and_then-Untouched rest errors r (q, err e) h k = h

  loop-Untouched :
      (fuel k errors : ℕ) (r q : DeviceRunner S)
      → Untouched r q
      → Untouched r (loop app hid stopped fuel k errors q).0
  unfolding loop
  loop-Untouched zero k errors r q h = h
  loop-Untouched (suc fuel) k errors r q h =
      let tried = recover failed (round app hid stopped k q) in
      if-Kept (Untouched r) (stopped k) _ _ h (
        if-Kept (Untouched r) (leb 50 errors) _ _ h (
          and_then-Untouched (loop app hid stopped fuel (suc k)) errors r tried
            (recover-Kept (Untouched r) failed (round app hid stopped k q)
              (round-Untouched k r q h))
            λ e t i. loop-Untouched fuel (suc k) e r t i))

  continue-eq-ok :
      {T A B : Type 0} (p : T × Result A) (f : A → Act T B) (out : T) (b : B)
      → continue p f ≡ (out, ok b)
      → (a : A) × (p.1 ≡ ok a) × (f a p.0 ≡ (out, ok b))
  continue-eq-ok (s, ok a) f out b e = (a, refl, e)
  continue-eq-ok (s, err x) f out b e = absurd (cc)

  -- A change of the mode that returns has sent its report.
  switched :
      (r : DeviceRunner S) (x : Result (List ℕ)) (u : Unit {0})
      → (continue (r, x) λ report q. (log report q, hid.set_feature report)).1 ≡ ok u
      → (report : List ℕ) × (x ≡ ok report)
        × ((continue (r, x) λ report q. (log report q, hid.set_feature report)).0 ≡ log report r)
  switched r (ok report) u e = (report, refl, refl)
  switched r (err x) u e = absurd (cc)

  recover_state : {T A : Type 0} (a : A) (p : T × Result A) → (recover a p).0 ≡ p.0
  recover_state a (s, ok b) = refl
  recover_state a (s, err e) = elim (Bool-cases (is_exception e)) [
    | inl caught ↦ rw caught refl
    | inr fatal ↦ rw fatal refl
  ]

  -- The report is sent also if the device refuses it.
  switch_mode-sent :
      (mode : Mode) (r : DeviceRunner S) (report : List ℕ)
      → set_mode mode r.device ≡ ok report
      → (recover tt (switch_mode app hid stopped mode r)).0 ≡ log report r
  unfolding switch_mode
  switch_mode-sent mode r report e =
      recover_state tt (switch_mode app hid stopped mode r)
      ∙ ap (λ x. (continue (r, x) λ report' q. (log report' q, hid.set_feature report')).0) e

  -- A run that returns has handed the device exactly two reports, of one ID: the first asks for
  -- multitouch mode, and the last, which the device may refuse, for singletouch mode again. This is so
  -- for any number of rounds, whatever is read and whatever the application does.
  pub run-sent :
      (fuel : ℕ) (r out : DeviceRunner S) (b : Bool)
      → run app hid stopped fuel r ≡ (out, ok b)
      → (id : ℕ) × (out.sent ≡ r.sent ++ (id ∷ 1 ∷ []) ∷ (id ∷ 0 ∷ []) ∷ [])
  unfolding run switch_mode
  run-sent fuel r out b e =
      let first = switch_mode app hid stopped multitouch r in
      let (u, first_ok, e1) = continue-eq-ok first _ out b e in
      let (report, found, logged) = switched r (set_mode multitouch r.device) u first_ok in
      let (id, pair, again) = set_mode-IsPair r.device report found in
      let p = first.0 in
      let start = with_application p (app.on_start p.application) in
      let (u2, start_ok, e2) = continue-eq-ok start _ out b e1 in
      let looped = loop app hid stopped fuel 0 0 start.0 in
      let (k, loop_ok, e3) = continue-eq-ok looped _ out b e2 in
      let m = looped.0 in
      let stop = with_application m (app.on_stop m.application) in
      let (u4, stop_ok, e4) = continue-eq-ok stop _ out b e3 in
      let v = stop.0 in
      let last = recover tt (switch_mode app hid stopped singletouch v) in
      let (u5, last_ok, e5) = continue-eq-ok last _ out b e4 in
      let same : last.0 ≡ out = ap (λ q. q.0) e5 in
      let kept : Untouched p v = with_application-Untouched p m (app.on_stop m.application) (
        loop-Untouched fuel 0 0 p start.0 (
          with_application-Untouched p p (app.on_start p.application)
            (record { device = refl; sent = refl }))) in
      let device : v.device ≡ r.device = kept.device ∙ ap (λ q. q.device) logged in
      let second =
        switch_mode-sent singletouch v (id ∷ 0 ∷ []) (ap (set_mode singletouch) device ∙ again) in
      let sent : v.sent ≡ r.sent ++ report ∷ [] = kept.sent ∙ ap (λ q. q.sent) logged in
      (
        id,
        ap (λ q. q.sent) (sym same ∙ second)
            ∙ ap (λ s. s ++ (id ∷ 0 ∷ []) ∷ []) (sent ∙ ap (λ report'. r.sent ++ report' ∷ []) pair)
            ∙ append_assoc r.sent ((id ∷ 1 ∷ []) ∷ []) ((id ∷ 0 ∷ []) ∷ []),
      )
