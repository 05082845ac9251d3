-- ===== src/Apps/Dump/Recording.antt =====
-- What `Dump` writes in a run, and its playback.
use mathlib.Core.List.{append-nil, append_assoc}
use iptsd_android.Prelude.{
  ℕ, suc, ◌+◌, ◌≤◌, ◌<◌, ◌≡◌, refl, sym, ◌∙◌, ap, subst, Bool, true, false, Option, none, some,
  List, [], ◌∷◌, ◌++◌, Result, ok, arith, length, length-append, All,
}
use iptsd_android.Prelude.Word.{u64_mod}
use iptsd_android.Prelude.Act.{continue, each}
use iptsd_android.Reader.{Reader, init, size}
use iptsd_android.Reader.Bounds.{advance}
use iptsd_android.Reader.Ahead.{Ahead, init-Ahead, size-Ahead, read-Ahead}
use iptsd_android.Ipts.Data.{Metadata}
use iptsd_android.Core.Device.{
  DeviceInfo, device_info_bytes, metadata_bytes, IsInfo, IsMetadata, info_width, metadata_width,
  device_info-device_info_bytes, length-device_info_bytes, metadata_of-metadata_bytes,
  length-metadata_bytes,
}
use iptsd_android.Core.Linux.Runner.{Methods, recover}
use iptsd_android.Core.Linux.FileRunner.{
  FileRunner, Local, read_head, made, opened, file_runner, run, back, run_local,
}
use iptsd_android.Apps.Dump.{Dump, dump, meta_bytes, frame_bytes, start, on_data}
use iptsd_android.Apps.Dump.Replay.{frames_bytes, replay, unstopped, result, run_local-replay}

-- A dump with a file to write to.
abbrev pub dump_of : DeviceInfo → Option Metadata → List ℕ → Dump
dump_of i meta bytes = record { has_out = true; info = i; metadata = meta; written = bytes }

-- The file after a runner started the dump, fed it the buffers, and stopped it.
unfoldable pub recording : DeviceInfo → Option Metadata → List (List ℕ) → List ℕ
recording i meta buffers = (replay dump buffers (dump_of i meta [])).0.written

each-on_data :
    (i : DeviceInfo) (meta : Option Metadata) (buffers : List (List ℕ)) (written : List ℕ)
    → each (λ bytes s. recover tt (dump.process bytes s)) buffers (dump_of i meta written)
      ≡ (dump_of i meta (written ++ frames_bytes i.buffer_size buffers), ok tt)
unfolding each on_data frames_bytes
each-on_data i meta [] written = λ t. (dump_of i meta (sym (append-nil written) t), ok tt)
each-on_data i meta (bytes ∷ more) written =
    each-on_data i meta more (written ++ frame_bytes i.buffer_size bytes)
    ∙ ap (λ bs. (dump_of i meta bs, ok tt))
        (append_assoc written (frame_bytes i.buffer_size bytes) (frames_bytes i.buffer_size more))

abbrev head_bytes : DeviceInfo → Option Metadata → List ℕ
head_bytes i meta = device_info_bytes i ++ meta_bytes meta

recording_lem :
    (i : DeviceInfo) (meta : Option Metadata) (buffers : List (List ℕ))
    → recording i meta buffers ≡ head_bytes i meta ++ frames_bytes i.buffer_size buffers
unfolding recording start
recording_lem i meta buffers =
    ap (λ p. (continue p λ done. dump.on_stop).0.written)
      (each-on_data i meta buffers (head_bytes i meta))

-- The arrays of the metadata, if there is any, have the sizes of their types.
abbrev pub HasArrays : Option Metadata → Type 0
HasArrays none = Unit
HasArrays (some m) = IsMetadata m

record Headed (i : DeviceInfo) (meta : Option Metadata) (post : List ℕ) (r : Reader) : Type 0 where
  rest : Reader
  run : read_head r ≡ (rest, ok (i, meta))
  ahead : Ahead post rest

read_head-Headed :
    (i : DeviceInfo) (meta : Option Metadata) (post : List ℕ) (r : Reader)
    → IsInfo i
    → HasArrays meta
    → Ahead (device_info_bytes i ++ (meta_bytes meta ++ post)) r
    → Headed i meta post r
unfolding read_head
read_head-Headed i none post r hi hm ahead =
    let (e1, a1) =
      read-Ahead (device_info_bytes i) (0 ∷ post) info_width r (length-device_info_bytes i hi)
        ahead in
    let (e2, a2) = read-Ahead (0 ∷ []) post 1 (advance info_width r) refl a1 in
    record {
      rest = advance 1 (advance info_width r);
      run = rw e1 (rw e2 (rw (device_info-device_info_bytes i hi) refl));
      ahead = a2;
    }
read_head-Headed i (some m) post r hi hm ahead =
    let (e1, a1) =
      read-Ahead (device_info_bytes i) (1 ∷ (metadata_bytes m ++ post)) info_width r
        (length-device_info_bytes i hi) ahead in
    let (e2, a2) =
      read-Ahead (1 ∷ []) (metadata_bytes m ++ post) 1 (advance info_width r) refl a1 in
    let (e3, a3) =
      read-Ahead (metadata_bytes m) post metadata_width (advance 1 (advance info_width r))
        (length-metadata_bytes m hm) a2 in
    record {
      rest = advance metadata_width (advance 1 (advance info_width r));
      run = rw e1 (
          rw e2 (
            rw e3 (rw (device_info-device_info_bytes i hi, metadata_of-metadata_bytes m hm) refl)));
      ahead = a3;
    }

count_le_size :
    (buffer_size : ℕ) (buffers : List (List ℕ))
    → length buffers ≤ length (frames_bytes buffer_size buffers)
unfolding frames_bytes frame_bytes
count_le_size buffer_size [] = omega arith
count_le_size buffer_size (bytes ∷ more) = omega (
  arith,
  count_le_size buffer_size more,
  length-append (frame_bytes buffer_size bytes) (frames_bytes buffer_size more),
)

-- What a run of the file runner leaves of the application, and returns.
abbrev pub outcome : {S : Type 0} → FileRunner S × Result Bool → S × Result Bool
outcome (f, a) = (f.application, a)

module _ {S : Type 0} (make : DeviceInfo → Option Metadata → Result S) (app : Methods S) where
  outcome-back : (f : FileRunner S) (p : Local S × Result Bool) → outcome (back f p) ≡ result app p
  outcome-back f (l, a) = refl

  -- Let a device's info and metadata have arrays of the sizes of their types and a buffer size whose
  -- sum with 8 is less than 2 ^ 64, let no recorded buffer be longer than that size, let the
  -- constructor of an application return for that info and metadata, and let the flag not be set.
  -- Then `FileRunner` can open the file that `Dump` wrote in a run over the buffers, with that info
  -- and metadata, and its run comes to what starting the application, feeding it the same buffers in
  -- the same order, each to its end or to an exception, and stopping it come to.
  pub run-recording :
      (stopped : ℕ → Bool) (i : DeviceInfo) (meta : Option Metadata) (buffers : List (List ℕ))
      (s : S)
      → IsInfo i
      → HasArrays meta
      → 8 + i.buffer_size < u64_mod
      → All (λ bytes. length bytes ≤ i.buffer_size) buffers
      → make i meta ≡ ok s
      → ((k : ℕ) → stopped k ≡ false)
      → (f : FileRunner S) × (file_runner make (recording i meta buffers) ≡ ok f)
        × (outcome (run app stopped f) ≡ unstopped app (replay app buffers s))
  unfolding run file_runner
  run-recording stopped i meta buffers s hi hm small h e on =
      let post = frames_bytes i.buffer_size buffers in
      let bytes = recording i meta buffers in
      let parts : bytes ≡ device_info_bytes i ++ (meta_bytes meta ++ post) =
        recording_lem i meta buffers ∙ append_assoc (device_info_bytes i) (meta_bytes meta) post in
      let ahead = subst (λ bs. Ahead bs (init bytes)) parts (init-Ahead bytes) in
      let head = read_head-Headed i meta post (init bytes) hi hm ahead in
      let f : FileRunner S = record {
        file = bytes;
        info = i;
        application = s;
        reader = head.rest;
      } in
      let l : Local S = record { application = s; local = head.rest } in
      (
        f,
        ap (opened make bytes) head.run ∙ ap (λ a. made bytes i (head.rest, a)) e,
        outcome-back f (run_local app stopped i.buffer_size (suc (size head.rest)) l)
            ∙ run_local-replay app stopped i.buffer_size (suc (size head.rest)) buffers l on small h
                (head.ahead)
                (omega (
                  arith,
                  count_le_size i.buffer_size buffers,
                  size-Ahead post head.rest (head.ahead),
                )),
      )
