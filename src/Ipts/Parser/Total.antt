-- ===== src/Ipts/Parser/Total.antt =====
-- The loops of the parser end within their fuel, and the whole parser keeps its invariant.
use native.Mathlib.Nat.{le_refl}
use iptsd_android.Prelude.{
  ℕ, zero, suc, ◌+◌, ◌-◌, ◌%◌, ◌≤◌, ◌<◌, ◌≡◌, ◌≢◌, refl, Bool, true, false, List, length, arith,
  ◌==◌, ◌||◌, if◌then◌else◌, err, out_of_fuel, ok, All, Result,
}
use iptsd_android.Prelude.Word.{u32_at, u64_mod}
use iptsd_android.Prelude.Float.{Float}
use iptsd_android.Reader.{Reader, size}
use iptsd_android.Reader
use iptsd_android.Reader.Bounds.{IsValid, init-IsValid, size-init}
use iptsd_android.Ipts.Data.{hid_header, report_header, group_header}
use iptsd_android.Ipts.Parser.{Parser}
use iptsd_android.Ipts.Parser.Monad.{M, ◌>>=◌, pure, on_reader, skipping}
use iptsd_android.Ipts.Parser.Frames.{
  parse_heatmap_frame, report_payload, parse_report_frame, report_frames, parse_report_frames,
  legacy_group, legacy_groups, parse_legacy_frame, hid_payload, hid_frame, hid_frames,
  parse_with_header,
}
use iptsd_android.Ipts.Parser.Invariant.{
  Inv, parse_heatmap_data-Keeps, parse_dft_window-Keeps, parse_dft_metadata-Keeps,
  parse_heatmap_dimensions-Keeps, parse_metadata_frame-Keeps, parse_stylus_mpp_1_0-Keeps,
  parse_stylus_mpp_1_51-Keeps, IsSoundCall,
}
use iptsd_android.Ipts.Parser.Rules.{
  Outcome, Keeps, Keeps-mono, Keeps-bind, Keeps-pure, Keeps-bytes, Keeps-skipping, Keeps-remaining,
  Keeps-split, Keeps-on_reader,
}

-- A test between two handlers.
if-Keeps :
    {F A : Type 0} (n k : ℕ) (b : Bool) (m m' : M F A)
    → Keeps Inv n k m
    → Keeps Inv n k m'
    → Keeps Inv n k (if b then m else m')
if-Keeps n k true m m' h h' = h
if-Keeps n k false m m' h h' = h'

-- The same, where the second handler relies on the test.
test-Keeps :
    {F A : Type 0} (n k : ℕ) (b : Bool) (m m' : M F A)
    → Keeps Inv n k m
    → (b ≡ false → Keeps Inv n k m')
    → Keeps Inv n k (if b then m else m')
test-Keeps n k true m m' h h' = h
test-Keeps n k false m m' h h' = h' refl

module _ {F : Type 0} where
  parse_heatmap_frame-Keeps : (n : ℕ) → Keeps {F = F} Inv n 0 parse_heatmap_frame
  unfolding parse_heatmap_frame
  parse_heatmap_frame-Keeps n = Keeps-mono Inv n n 9 0 _ (le_refl _) (omega arith) (
      Keeps-bind Inv n 9 0 _ _ (Keeps-bytes Inv n 9) λ header.
        Keeps-split Inv _ (u32_at header 5) 0 _
          λ s v b. Keeps-on_reader Inv _ 0 s _ v (parse_heatmap_data-Keeps (size s)))

module _ {F : Type 0} ⦃fl : Float F⦄ where
  report_payload-Keeps : (n type : ℕ) → Keeps {F = F} Inv n 0 (report_payload type)
  unfolding report_payload
  report_payload-Keeps n type = if-Keeps n 0 (type == 0x10) _ _ (parse_stylus_mpp_1_0-Keeps n) (
      if-Keeps n 0 (type == 0x60) _ _ (parse_stylus_mpp_1_51-Keeps n) (
        if-Keeps n 0 (type == 0x03) _ _ (parse_heatmap_dimensions-Keeps n) (
          if-Keeps n 0 (type == 0x25) _ _ (parse_heatmap_data-Keeps n) (
            if-Keeps n 0 (type == 0x5F) _ _ (parse_dft_metadata-Keeps n)
              (if-Keeps n 0 (type == 0x5C) _ _ (parse_dft_window-Keeps n) (Keeps-pure Inv n tt))))))

  parse_report_frame-Keeps : (n : ℕ) → Keeps {F = F} Inv n 4 parse_report_frame
  unfolding parse_report_frame
  parse_report_frame-Keeps n = Keeps-bind Inv n 4 0 _ _ (Keeps-bytes Inv n 4) λ bs.
      let frame = report_header bs in
      Keeps-split Inv _ frame.size 0 _
        λ s v b. Keeps-on_reader Inv _ 0 s _ v (report_payload-Keeps (size s) frame.type)

  report_frames-Keeps : (fuel n : ℕ) → n < fuel → Keeps {F = F} Inv n 0 (report_frames fuel)
  unfolding report_frames
  report_frames-Keeps zero n h = absurd (omega arith)
  report_frames-Keeps (suc fuel) n h =
      let rest : M F (Unit {0}) = parse_report_frame >>= λ _. report_frames fuel in
      Keeps-remaining Inv n 0 (λ left. if left == 0 then pure tt else rest)
        λ left b. test-Keeps left 0 (left == 0) (pure tt) rest (Keeps-pure Inv left tt) λ more.
          Keeps-mono Inv left left 4 0 rest (le_refl _) (omega arith) (
            Keeps-bind Inv left 4 0 _ _ (parse_report_frame-Keeps left)
              λ _. report_frames-Keeps fuel (left - 4) (ground arith))

  parse_report_frames-Keeps : (n : ℕ) → Keeps {F = F} Inv n 0 parse_report_frames
  unfolding parse_report_frames
  parse_report_frames-Keeps n =
      Keeps-remaining Inv n 0 _ λ left b. report_frames-Keeps (left + 1) left (omega arith)

  legacy_group-Keeps : (n : ℕ) → Keeps {F = F} Inv n 0 legacy_group
  unfolding legacy_group
  legacy_group-Keeps n = Keeps-mono Inv n n 16 0 _ (le_refl _) (omega arith) (
      Keeps-bind Inv n 16 0 _ _ (Keeps-bytes Inv n 16) λ bs.
        let group = group_header bs in
        Keeps-split Inv _ group.size 0 _ λ s v b.
          if-Keeps _ 0 (group.type == 6 || group.type == 8) _ _
            (Keeps-on_reader Inv _ 0 s _ v (parse_report_frames-Keeps (size s)))
            (Keeps-pure Inv _ tt))

  legacy_groups-Keeps : (elements n : ℕ) → Keeps {F = F} Inv n 0 (legacy_groups elements)
  unfolding legacy_groups
  legacy_groups-Keeps zero n = Keeps-pure Inv n tt
  legacy_groups-Keeps (suc elements) n =
      Keeps-bind Inv n 0 0 _ _ (legacy_group-Keeps n) λ _. legacy_groups-Keeps elements (n - 0)

  parse_legacy_frame-Keeps : (n : ℕ) → Keeps {F = F} Inv n 0 parse_legacy_frame
  unfolding parse_legacy_frame
  parse_legacy_frame-Keeps n = Keeps-mono Inv n n 12 0 _ (le_refl _) (omega arith) (
      Keeps-bind Inv n 12 0 _ _ (Keeps-bytes Inv n 12)
        λ header. legacy_groups-Keeps (u32_at header 4) (n - 12))

  hid_payload-Keeps :
      (n type : ℕ) (s : Reader) (frames : M F (Unit {0}))
      → IsValid s
      → Keeps {F = F} Inv (size s) 0 frames
      → Keeps {F = F} Inv n 0 (hid_payload type s frames)
  unfolding hid_payload
  hid_payload-Keeps n type s frames v h =
      if-Keeps n 0 (type == 0x00) _ _ (Keeps-on_reader Inv n 0 s _ v h) (
        if-Keeps n 0 (type == 0x01) _ _
          (Keeps-on_reader Inv n 0 s _ v (parse_heatmap_frame-Keeps (size s)))
          (if-Keeps n 0 (type == 0x02) _ _
            (Keeps-on_reader Inv n 0 s _ v (parse_metadata_frame-Keeps (size s)))
            (if-Keeps n 0 (type == 0xEE) _ _
              (Keeps-on_reader Inv n 0 s _ v (parse_legacy_frame-Keeps (size s)))
              (if-Keeps n 0 (type == 0xFF) _ _
                (Keeps-remaining Inv n 0
                  (λ left. if left == 4 then pure tt else on_reader s parse_report_frames)
                  λ left b.
                    if-Keeps left 0 (left == 4) (pure tt) (on_reader s parse_report_frames)
                      (Keeps-pure Inv left tt)
                      (Keeps-on_reader Inv left 0 s _ v (parse_report_frames-Keeps (size s))))
                (Keeps-pure Inv n tt)))))

  -- A HID frame consumes its header at least, and hands on fewer bytes than it was given.
  hid_frame-Keeps :
      (n : ℕ) (frames : M F (Unit {0}))
      → ((k : ℕ) → k ≤ n - 7 → Keeps {F = F} Inv k 0 frames)
      → Keeps {F = F} Inv n 7 (hid_frame frames)
  unfolding hid_frame
  hid_frame-Keeps n frames h = Keeps-bind Inv n 7 0 _ _ (Keeps-bytes Inv n 7) λ bs.
      let frame = hid_header bs in
      Keeps-split Inv _ ((frame.size + u64_mod - 7) % u64_mod) 0 _
        λ s v b. hid_payload-Keeps _ frame.type s frames v (h (size s) b)

  hid_frames-Keeps : (fuel n : ℕ) → n < fuel → Keeps {F = F} Inv n 0 (hid_frames fuel)
  unfolding hid_frames
  hid_frames-Keeps zero n h = absurd (omega arith)
  hid_frames-Keeps (suc fuel) n h =
      let rest : M F (Unit {0}) = hid_frame (hid_frames fuel) >>= λ _. hid_frames fuel in
      Keeps-remaining Inv n 0 (λ left. if left == 0 then pure tt else rest)
        λ left b. test-Keeps left 0 (left == 0) (pure tt) rest (Keeps-pure Inv left tt) λ more.
          let first =
            hid_frame-Keeps left (hid_frames fuel) λ k l. hid_frames-Keeps fuel k (ground arith) in
          Keeps-mono Inv left left 7 0 rest (le_refl _) (omega arith)
            (Keeps-bind Inv left 7 0 _ _ first λ _. hid_frames-Keeps fuel (left - 7) (ground arith))

  pub parse_with_header-Inv :
      (header : ℕ) (buffer : List ℕ) (p : Parser F)
      → Inv p
      → let out = parse_with_header header buffer p in
        Inv out.0 × All IsSoundCall out.0.emitted × (out.1 ≢ err out_of_fuel)
  unfolding parse_with_header
  parse_with_header-Inv header buffer p i =
      let body = hid_frame (hid_frames (length buffer + 1)) in
      let n = length buffer in
      let handler : Keeps {F = F} Inv n 0 (skipping header >>= λ _. body) =
        Keeps-mono Inv n n header 0 _ (le_refl _) (omega arith) (
          Keeps-mono Inv n n (header + 0) header _ (le_refl _) (omega arith) (
            Keeps-bind Inv n header 0 _ _ (Keeps-skipping Inv n header) λ _.
              Keeps-mono Inv _ _ 7 0 _ (le_refl _) (omega arith) (
                hid_frame-Keeps (n - header) (hid_frames (n + 1))
                  λ k l. hid_frames-Keeps (n + 1) k (omega arith)))) in
      finish _ _
        (handler p (Reader.init buffer) i (init-IsValid buffer) (omega (arith, size-init buffer)))
    where
      finish :
          (left : ℕ) (o : Parser F × Result (Unit {0} × Reader))
          → Outcome Inv left 0 o
          → Inv o.0 × All IsSoundCall o.0.emitted × (o.1 ≢ err out_of_fuel)
      finish left (q, ok a) h = (h.0, h.0.sound, λ e. cc)
      finish left (q, err e) h = (h.0, h.0.sound, λ f. h.1 (cc))
