-- ===== src/Ipts/Parser/Invariant.antt =====
-- What every handler of the parser keeps: heatmaps are as large as their dimensions say, with a
-- maximal value to normalise by, and DFT windows have as many rows on both axes.
use native.Mathlib.Nat.{le_refl}
use iptsd_android.Prelude.Word.{u8_at}
use iptsd_android.Prelude.{
  ℕ, zero, suc, ◌+◌, ◌-◌, ◌*◌, ◌<◌, ◌≡◌, refl, sym, ◌∙◌, ◌⊎◌, inl, inr, Bool, true, false, List,
  All, All-append, length, arith, if◌then◌else◌, drop,
}
use iptsd_android.Prelude.Float.{Float}
use iptsd_android.Reader.Bounds.{subspan_cases, chunk, length-chunk, size-advance, advance-IsValid}
use iptsd_android.Ipts.Data.{Dimensions, rows, row_width}
use iptsd_android.Ipts.Parser.{
  Parser, Call, Event, stylus_event, heatmap_event, dft_event, metadata_event, emit,
}
use iptsd_android.Ipts.Parser.Monad.{rows_of}
use iptsd_android.Ipts.Parser.Reports.{
  skip_samples, emit_stylus, parse_stylus_mpp_1_0, parse_stylus_mpp_1_51, store_dimensions,
  parse_heatmap_dimensions, heatmap, emit_heatmap, parse_heatmap_data, dft_window, emit_dft,
  parse_dft_window, parse_dft_metadata, emit_metadata, parse_metadata_frame,
}
use iptsd_android.Ipts.Parser.Rules.{
  Keeps, Keeps-mono, Keeps-bind, Keeps-pure, Keeps-modify, Keeps-parser, Keeps-bytes,
  Keeps-skipping,
}

abbrev pub IsScaled : (rows max_value : ℕ) → Type 0
IsScaled rows max_value = (rows ≡ 0) ⊎ (0 < max_value)

abbrev pub IsSound : {F : Type 0} → Event F → Type 0
IsSound (stylus_event d) = Unit
IsSound (heatmap_event h) = (length h.pixels ≡ h.rows * h.columns) × IsScaled h.rows h.max_value
IsSound (dft_event w) = length w.x ≡ length w.y
IsSound (metadata_event m) = Unit

-- A sound call, of a parser with sound dimensions.
abbrev pub IsSoundCall : {F : Type 0} → Call F → Type 0
IsSoundCall c = IsSound c.event × IsScaled c.dim.rows c.dim.z_max

-- The invariant of the parser.
pub record Inv {F : Type 0} (p : Parser F) : Type 0 where
  pub scaled : IsScaled p.dim.rows p.dim.z_max
  pub sound : All IsSoundCall p.emitted

length-rows : (n : ℕ) (bs : List ℕ) → length (rows n bs) ≡ n
unfolding rows
length-rows zero bs = refl
length-rows (suc n) bs = omega (arith, length-rows n (drop row_width bs))

module _ {F : Type 0} where
  emit-Inv : (p : Parser F) (e : Event F) → Inv p → IsSound e → Inv (emit e p)
  emit-Inv p e i h = record {
    scaled = i.scaled;
    sound = All-append IsSoundCall p.emitted _ i.sound ((h, i.scaled), tt);
  }

  emitting-Inv :
      (b : Bool) (p : Parser F) (e : Event F) → Inv p → IsSound e → Inv (if b then emit e p else p)
  emitting-Inv true p e i h = emit-Inv p e i h
  emitting-Inv false p e i h = i

  pub parse_heatmap_data-Keeps : (n : ℕ) → Keeps {F = F} Inv n 0 parse_heatmap_data
  unfolding parse_heatmap_data rows_of heatmap emit_heatmap
  parse_heatmap_data-Keeps n p r i v b =
      let count = p.dim.rows * p.dim.columns in
      elim (subspan_cases 1 count r v) [
        | inl (h, k, e) ↦
            let sized : length (chunk (count * 1) r) ≡ count =
              omega (arith, length-chunk (count * 1) r k) in
            let event : Event F = heatmap_event (heatmap p.dim (chunk (count * 1) r)) in
            rw e (
              emitting-Inv p.on_heatmap p event i (sized, i.scaled),
              advance-IsValid (count * 1) r v k,
              omega (arith, size-advance (count * 1) r),
            )
        | inr (inl (h, e)) ↦ rw e (i, λ x. cc)
        | inr (inr (h, k, e)) ↦ rw e (i, λ x. cc)
      ]

  Keeps-rows_of : (n width count : ℕ) → Keeps {F = F} Inv n 0 (rows_of width count)
  unfolding rows_of
  Keeps-rows_of n width count p r i v b = elim (subspan_cases width count r v) [
    | inl (h, k, e) ↦
        rw e
          (i, advance-IsValid (count * width) r v k, omega (arith, size-advance (count * width) r))
    | inr (inl (h, e)) ↦ rw e (i, λ x. cc)
    | inr (inr (h, k, e)) ↦ rw e (i, λ x. cc)
  ]

  dft_window-IsSound :
      (p : Parser F) (bs x y : List ℕ) → IsSound {F = F} (dft_event (dft_window p bs x y))
  unfolding dft_window
  dft_window-IsSound p bs x y = length-rows _ x ∙ sym (length-rows _ y)

  pub parse_dft_window-Keeps : (n : ℕ) → Keeps {F = F} Inv n 0 parse_dft_window
  unfolding parse_dft_window emit_dft
  parse_dft_window-Keeps n = Keeps-mono Inv n n 12 0 _ (le_refl _) (omega arith) (
      Keeps-bind Inv n 12 0 _ _ (Keeps-bytes Inv n 12) λ bs.
        Keeps-bind Inv _ 0 0 _ _ (Keeps-rows_of _ row_width (u8_at bs 4)) λ x.
          Keeps-bind Inv _ 0 0 _ _ (Keeps-rows_of _ row_width (u8_at bs 4)) λ y.
            Keeps-parser Inv _ 0 (λ q. emit_dft (dft_window q bs x y))
              λ q.
                let event : Event F = dft_event (dft_window q bs x y) in
                Keeps-modify Inv _ (λ p. if p.on_dft then emit event p else p)
                  λ p i. emitting-Inv p.on_dft p event i (dft_window-IsSound q bs x y))

  pub parse_dft_metadata-Keeps : (n : ℕ) → Keeps {F = F} Inv n 0 parse_dft_metadata
  unfolding parse_dft_metadata
  parse_dft_metadata-Keeps n = Keeps-mono Inv n n 16 0 _ (le_refl _) (omega arith) (
      Keeps-bind Inv n 16 0 _ _ (Keeps-bytes Inv n 16)
        λ bs. Keeps-modify Inv _ _ λ p i. record { scaled = i.scaled; sound = i.sound })

  store_dimensions-Inv : (d : Dimensions) (p : Parser F) → Inv p → Inv (store_dimensions d p)
  unfolding store_dimensions
  store_dimensions-Inv d p i = record { scaled = inr (ground arith); sound = i.sound }

  pub parse_heatmap_dimensions-Keeps : (n : ℕ) → Keeps {F = F} Inv n 0 parse_heatmap_dimensions
  unfolding parse_heatmap_dimensions
  parse_heatmap_dimensions-Keeps n = Keeps-mono Inv n n 8 0 _ (le_refl _) (omega arith) (
      Keeps-bind Inv n 8 0 _ _ (Keeps-bytes Inv n 8)
        λ bs. Keeps-modify Inv _ _ (store_dimensions-Inv _))

  pub parse_metadata_frame-Keeps : (n : ℕ) → Keeps {F = F} Inv n 0 parse_metadata_frame
  unfolding parse_metadata_frame emit_metadata
  parse_metadata_frame-Keeps n = Keeps-mono Inv n n 105 0 _ (le_refl _) (omega arith) (
      Keeps-bind Inv n 16 89 _ _ (Keeps-bytes Inv n 16) λ d.
        Keeps-bind Inv _ 1 88 _ _ (Keeps-bytes Inv _ 1) λ b.
          Keeps-bind Inv _ 24 64 _ _ (Keeps-bytes Inv _ 24) λ transform.
            Keeps-bind Inv _ 64 0 _ _ (Keeps-bytes Inv _ 64)
              λ unknown. Keeps-modify Inv _ _ λ p i. emitting-Inv p.on_metadata p _ i tt)

module _ {F : Type 0} ⦃fl : Float F⦄ where
  skip_samples-Keeps : (n width count : ℕ) → Keeps {F = F} Inv n 0 (skip_samples width count)
  unfolding skip_samples
  skip_samples-Keeps n width zero = Keeps-pure Inv n tt
  skip_samples-Keeps n width (suc count) = Keeps-mono Inv n n width 0 _ (le_refl _) (omega arith) (
      Keeps-mono Inv n n (width + 0) width _ (le_refl _) (omega arith) (
        Keeps-bind Inv n width 0 _ _ (Keeps-skipping Inv n width)
          λ _. skip_samples-Keeps (n - width) width count))

  pub parse_stylus_mpp_1_0-Keeps : (n : ℕ) → Keeps {F = F} Inv n 0 parse_stylus_mpp_1_0
  unfolding parse_stylus_mpp_1_0 emit_stylus
  parse_stylus_mpp_1_0-Keeps n = Keeps-mono Inv n n 20 0 _ (le_refl _) (omega arith) (
      Keeps-bind Inv n 8 12 _ _ (Keeps-bytes Inv n 8) λ report.
        Keeps-bind Inv _ 0 12 _ _ (skip_samples-Keeps _ 12 _) λ _.
          Keeps-bind Inv _ 12 0 _ _ (Keeps-bytes Inv _ 12)
            λ bs. Keeps-modify Inv _ _ λ p i. emitting-Inv p.on_stylus p _ i tt)

  pub parse_stylus_mpp_1_51-Keeps : (n : ℕ) → Keeps {F = F} Inv n 0 parse_stylus_mpp_1_51
  unfolding parse_stylus_mpp_1_51 emit_stylus
  parse_stylus_mpp_1_51-Keeps n = Keeps-mono Inv n n 24 0 _ (le_refl _) (omega arith) (
      Keeps-bind Inv n 8 16 _ _ (Keeps-bytes Inv n 8) λ report.
        Keeps-bind Inv _ 0 16 _ _ (skip_samples-Keeps _ 16 _) λ _.
          Keeps-bind Inv _ 16 0 _ _ (Keeps-bytes Inv _ 16)
            λ bs. Keeps-modify Inv _ _ λ p i. emitting-Inv p.on_stylus p _ i tt)
