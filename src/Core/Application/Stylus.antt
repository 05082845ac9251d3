-- ===== src/Core/Application/Stylus.antt =====
-- The stylus of an application stays valid, whatever data comes in.
use iptsd_android.Prelude.{
  ℕ, Bool, true, false, List, [], ◌∷◌, Result, ok, err, All, if◌then◌else◌, ◌==◌, ◌||◌,
}
use iptsd_android.Prelude.Float.{Float}
use iptsd_android.Prelude.Act.{Act, continue, each, lift}
use iptsd_android.Ipts.Data.{Heatmap, DftWindow}
use iptsd_android.Ipts.Parser.{Event, Call, stylus_event, heatmap_event, dft_event, metadata_event}
use iptsd_android.Ipts.Parser.Frames.{parse}
use iptsd_android.Ipts.Parser.Invariant.{Inv, IsSound, IsSoundCall}
use iptsd_android.Ipts.Parser.Total.{parse_with_header-Inv}
use iptsd_android.Contacts.Finder.{find_contacts}
use iptsd_android.Core.Dft.Valid.{HasUnits, IsStylus, HasExtent}
use iptsd_android.Core.Dft.Safe.{input-Keeps}
use iptsd_android.Core.Dft.Input.{input}
use iptsd_android.Core.Application.{
  Application, Setup, after_input, process_stylus, process_dft, process_heatmap, process_event,
  process_call, left_at, process,
}
use iptsd_android.Core.Dft.{DftStylus}

module _ {F : Type 0} ⦃fl : Float F⦄ (units : HasUnits F) (setup : Setup F) where
  -- The parser's invariant, and a valid stylus.
  pub record Ready (a : Application F) : Type 0 where
    pub parser : Inv a.parser
    pub stylus : IsStylus F a.dft.stylus

  -- Kept also where there is an exception.
  abbrev pub Kept : {A : Type 0} → Act (Application F) A → Type 0
  Kept m = (a : Application F) → Ready a → Ready (m a).0

  continue-Kept :
      {A B : Type 0} (p : Application F × Result A) (f : A → Act (Application F) B)
      → Ready p.0
      → ((a : A) → Kept (f a))
      → Ready (continue p f).0
  continue-Kept (s, ok a) f i h = h a s i
  continue-Kept (s, err e) f i h = i

  if-Kept :
      {A : Type 0} (b : Bool) (m n : Act (Application F) A)
      → Kept m
      → Kept n
      → Kept (if b then m else n)
  if-Kept true m n hm hn = hm
  if-Kept false m n hm hn = hn

  process_heatmap-Kept : (h : Heatmap) → Kept (process_heatmap setup h)
  unfolding process_heatmap
  process_heatmap-Kept h =
      if-Kept (h.rows == 0 || h.columns == 0) _ _ (λ a i. i)
        λ a i.
          continue-Kept (lift (find_contacts setup.means _ h.rows h.columns a.finder) a) _ i
            λ found b j. record { parser = j.parser; stylus = j.stylus }

  process_dft-Kept :
      (w : DftWindow)
      → HasExtent setup.metadata
      → IsSound {F = F} (dft_event w)
      → Kept (process_dft setup w)
  unfolding process_dft process_stylus
  process_dft-Kept w hm even a i =
      go (input setup.dft_config setup.metadata w a.dft)
        (input-Keeps units setup.dft_config setup.metadata w hm even a.dft (i.stylus)).0
    where
      go :
          (out : DftStylus F × Result (Unit {0}))
          → IsStylus F out.0.stylus
          → Ready (after_input setup a out).0
      go (dft, err e) h = record { parser = i.parser; stylus = h }
      go (dft, ok done) h = record { parser = i.parser; stylus = h }

  process_event-Kept :
      (e : Event F) → HasExtent setup.metadata → IsSound e → Kept (process_event setup e)
  unfolding process_event process_stylus
  process_event-Kept (stylus_event d) hm h a i = record { parser = i.parser; stylus = i.stylus }
  process_event-Kept (heatmap_event m) hm h a i = process_heatmap-Kept m a i
  process_event-Kept (dft_event w) hm h a i = process_dft-Kept w hm h a i
  process_event-Kept (metadata_event m) hm h a i = i

  left_at-Ready :
      (c : Call F) (p : Application F × Result (Unit {0}))
      → IsSoundCall c
      → Ready p.0
      → Ready (left_at setup c p).0
  left_at-Ready c (a, ok done) h i = i
  left_at-Ready c (a, err e) h i = record {
    parser = record { scaled = h.1; sound = i.parser.sound };
    stylus = i.stylus;
  }

  pub process_call-Kept :
      (c : Call F) → HasExtent setup.metadata → IsSoundCall c → Kept (process_call setup c)
  unfolding process_call
  process_call-Kept c hm h a i =
      left_at-Ready c (process_event setup c.event a) h (process_event-Kept c.event hm h.0 a i)

  each-Kept :
      (calls : List (Call F))
      → HasExtent setup.metadata
      → All IsSoundCall calls
      → Kept (each (process_call setup) calls)
  unfolding each
  each-Kept [] hm h a i = i
  each-Kept (c ∷ calls) hm (h, hs) a i =
      continue-Kept (process_call setup c a) _ (process_call-Kept c hm h a i)
        λ done. each-Kept calls hm hs

  -- Let the metadata of the device, if it has any, count less than 256 rows and columns. Then every
  -- buffer, whether it is processed to its end or ends with an exception, leaves the application ready
  -- where it found it so.
  pub process-Ready :
      (buffer : List ℕ) (a : Application F)
      → HasExtent setup.metadata
      → Ready a
      → Ready (process setup buffer a).0
  unfolding process parse
  process-Ready buffer a hm i =
      let (inv, sound, _) = parse_with_header-Inv 3 buffer a.parser (i.parser) in
      let p = (parse buffer a.parser).0 in
      let r = (parse buffer a.parser).1 in
      let cleared : Inv (record p { emitted = [] }) = record { scaled = inv.scaled; sound = tt } in
      let b = record a { parser = record p { emitted = [] } } in
      continue-Kept (each (process_call setup) p.emitted b) _
        (each-Kept p.emitted hm sound b (record { parser = cleared; stylus = i.stylus }))
        λ done c j. continue-Kept (lift r c) _ j λ rest d k. k
