-- ===== src/Tests/Runs.antt =====
-- Runs of the runners, with an application that keeps the buffers it gets and refuses some of them.
use iptsd_android.Prelude.{
  ℕ, zero, suc, ◌+◌, ◌≡◌, refl, subst, inr, Bool, true, false, Option, none, List, [], ◌∷◌, ◌++◌,
  Result, ok, err, IsFueled, narrowing, syscall_failed, arith, leb,
}
use iptsd_android.Prelude.Act.{Act, pure, each}
use iptsd_android.Reader.{init, read, size, subspan, gsl_subspan, skip}
use iptsd_android.Ipts.Data.{Metadata}
use iptsd_android.Core.Device.{DeviceInfo, device_info}
use iptsd_android.Core.Linux.Runner.{Methods, Throws, IsCaught}
use iptsd_android.Core.Linux.FileRunner.{FileRunner, file_runner, read_head}
use iptsd_android.Core.Linux.FileRunner as FileRunner
use iptsd_android.Core.Linux.FileRunner.Ends.{IsLive, run-IsFueled}
use iptsd_android.Core.Linux.DeviceRunner.{DeviceRunner, Hidraw}
use iptsd_android.Core.Linux.DeviceRunner as DeviceRunner
use iptsd_android.Core.Linux.DeviceRunner.Ends.{IsSafe, IsPassedOn, run-Throws}
use iptsd_android.Core.Linux.DeviceRunner.Modes.{run-sent}
use iptsd_android.Apps.Dump.Replay.{replay, unstopped}
use iptsd_android.Apps.Dump.Recording.{recording, outcome, run-recording}
use iptsd_android.Hid.Report.{find_usage}
use iptsd_android.Ipts.Device.{set_mode, find_modesetting_report, is_set_mode_report, is_touch_data}
use iptsd_android.Tests.Setup.{a_device}

abbrev taken : List ℕ → Act (List (List ℕ)) (Unit {0})
taken [] s = (s, err narrowing)
taken (b ∷ bytes) s = (s ++ (b ∷ bytes) ∷ [], ok tt)

abbrev keeper : Methods (List (List ℕ))
keeper = record { on_start = pure tt; process = taken; on_stop = pure tt }

abbrev made_keeper : DeviceInfo → Option Metadata → Result (List (List ℕ))
made_keeper i meta = ok []

abbrev never : ℕ → Bool
never k = false

abbrev pub an_info : DeviceInfo
an_info = record { vendor = 1118; product = 3167; padding = 0 ∷ 0 ∷ 0 ∷ 0 ∷ []; buffer_size = 4 }

abbrev three_buffers : List (List ℕ)
three_buffers = (7 ∷ 8 ∷ []) ∷ [] ∷ (1 ∷ 2 ∷ 3 ∷ 4 ∷ []) ∷ []

run-recording_example :
    (f : FileRunner (List (List ℕ))) × (file_runner made_keeper
        (recording an_info none three_buffers)
      ≡ ok f)
    × (outcome (FileRunner.run keeper never f) ≡ unstopped keeper (replay keeper three_buffers []))
run-recording_example =
    run-recording made_keeper keeper never an_info none three_buffers [] refl tt (omega arith)
      (omega arith, (omega arith, (omega arith, tt))) refl (λ k. refl)

-- The two buffers that are not refused.
replay_run : replay keeper three_buffers [] ≡ ((7 ∷ 8 ∷ []) ∷ (1 ∷ 2 ∷ 3 ∷ 4 ∷ []) ∷ [], ok tt)
unfolding each
replay_run = refl

keeper-IsLive : IsLive keeper
keeper-IsLive = record { on_start = λ s e. cc; process = process; on_stop = λ s e. cc }
  where
    process : (bytes : List ℕ) (s : List (List ℕ)) → IsFueled (taken bytes s).1
    process [] s = λ e. cc
    process (b ∷ bytes) s = λ e. cc

-- A file whose last buffer is cut off.
abbrev short_file : List ℕ
short_file =
    94 ∷ 4 ∷ 95 ∷ 12 ∷ 0 ∷ 0 ∷ 0 ∷ 0 ∷ 2 ∷ 0 ∷ 0 ∷ 0 ∷ 0 ∷ 0 ∷ 0 ∷ 0 ∷ 0 ∷ 1 ∷ 0 ∷ 0 ∷ 0 ∷ 0 ∷ 0 ∷ 0
    ∷ 0 ∷ 5 ∷ 0 ∷ 1 ∷ 0 ∷ 0 ∷ []

abbrev short_runner : FileRunner (List (List ℕ))
short_runner = record {
  file = short_file;
  info = record { vendor = 1118; product = 3167; padding = 0 ∷ 0 ∷ 0 ∷ 0 ∷ []; buffer_size = 2 };
  application = [];
  reader = record { bytes = short_file; index = 17 };
}

short_open : file_runner made_keeper short_file ≡ ok short_runner
unfolding file_runner read_head device_info init read size subspan gsl_subspan skip
short_open = refl

run-IsFueled_example : IsFueled (FileRunner.run keeper never short_runner).1
run-IsFueled_example =
    run-IsFueled made_keeper keeper never short_file short_runner keeper-IsLive short_open
      (omega arith)

-- The device answers once.
abbrev one_read : ℕ → Result (List ℕ)
one_read zero = ok (64 ∷ 1 ∷ 2 ∷ [])
one_read (suc k) = err syscall_failed

abbrev hidraw : Hidraw
hidraw = record { read = one_read; set_feature = λ report. ok tt }

abbrev device_keeper : DeviceRunner (List (List ℕ))
device_keeper = record {
  device = a_device;
  buffer = 0 ∷ 0 ∷ 0 ∷ 0 ∷ [];
  application = [];
  sent = [];
}

-- The same device, but it refuses to be changed into singletouch mode.
abbrev refused : List ℕ → Result (Unit {0})
refused (id ∷ zero ∷ []) = err syscall_failed
refused _ = ok tt

abbrev stubborn : Hidraw
stubborn = record { read = one_read; set_feature = refused }

keeper-IsSafe : IsSafe keeper stubborn never
keeper-IsSafe = record { process = process; read = read; set_feature = set_feature }
  where
    process : (bytes : List ℕ) (s : List (List ℕ)) → IsCaught (taken bytes s).1
    process [] s = refl
    process (b ∷ bytes) s = tt

    read : (k : ℕ) → IsCaught (one_read k)
    read zero = tt
    read (suc k) = refl

    set_feature : (report : List ℕ) → IsCaught (refused report)
    set_feature [] = tt
    set_feature (id ∷ []) = tt
    set_feature (id ∷ zero ∷ []) = refl
    set_feature (id ∷ suc mode ∷ []) = tt
    set_feature (id ∷ zero ∷ b ∷ rest) = tt
    set_feature (id ∷ suc mode ∷ b ∷ rest) = tt

run-Throws_example :
    Throws
      (IsPassedOn keeper stubborn never device_keeper)
      (DeviceRunner.run keeper stubborn never 52 device_keeper).1
run-Throws_example =
    run-Throws keeper stubborn never 1 device_keeper keeper-IsSafe
      (inr λ i less. (syscall_failed, failing i, refl))
  where
    failing : (i : ℕ) → one_read (1 + i) ≡ err syscall_failed
    failing i =
        let e : suc i ≡ 1 + i = omega arith in subst (λ k. one_read k ≡ err syscall_failed) e refl

abbrev second : ℕ → Bool
second k = leb 2 k

abbrev device_after : DeviceRunner (List (List ℕ))
device_after = record {
  device = a_device;
  buffer = 64 ∷ 1 ∷ 2 ∷ 0 ∷ [];
  application = (64 ∷ 1 ∷ 2 ∷ []) ∷ [];
  sent = (11 ∷ 1 ∷ []) ∷ (11 ∷ 0 ∷ []) ∷ [];
}

device_run : DeviceRunner.run keeper hidraw second 5 device_keeper ≡ (device_after, ok true)
unfolding DeviceRunner.run DeviceRunner.switch_mode DeviceRunner.loop DeviceRunner.round
    DeviceRunner.on_report set_mode find_modesetting_report is_set_mode_report is_touch_data
    find_usage
device_run = refl

run-sent_example :
    (id : ℕ) × (device_after.sent ≡ device_keeper.sent ++ (id ∷ 1 ∷ []) ∷ (id ∷ 0 ∷ []) ∷ [])
run-sent_example = run-sent keeper hidraw second 5 device_keeper device_after true device_run
