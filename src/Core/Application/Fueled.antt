-- ===== src/Core/Application/Fueled.antt =====
-- Every buffer is processed to an end: no loop that it runs through goes on without end.
use iptsd_android.Prelude.{
  ℕ, Bool, true, false, List, [], ◌∷◌, Result, ok, err, All, IsFueled, ◌==◌, ◌||◌, if◌then◌else◌,
}
use iptsd_android.Prelude.Float.{Float}
use iptsd_android.Prelude.Act.{Act, continue, each, lift}
use iptsd_android.Ipts.Data.{Heatmap, DftWindow}
use iptsd_android.Ipts.Parser.{Event, Call, stylus_event, heatmap_event, dft_event, metadata_event}
use iptsd_android.Ipts.Parser.Frames.{parse}
use iptsd_android.Ipts.Parser.Invariant.{Inv, IsSound, IsSoundCall}
use iptsd_android.Ipts.Parser.Total.{parse_with_header-Inv}
use iptsd_android.Contacts.Finder.{find_contacts}
use iptsd_android.Contacts.Finder.Fueled.{find_contacts-IsFueled}
use iptsd_android.Core.Dft.{DftStylus}
use iptsd_android.Core.Dft.Rules.{Returns}
use iptsd_android.Core.Dft.Valid.{HasUnits, HasExtent}
use iptsd_android.Core.Dft.Safe.{input-Keeps}
use iptsd_android.Core.Dft.Input.{input}
use iptsd_android.Core.Application.{
  Application, Setup, Output, after_input, process_stylus, process_dft, process_heatmap,
  process_event, process_call, left_at, process,
}
use iptsd_android.Core.Application.Stylus.{Ready, process_call-Kept}
use iptsd_android.Core.Application.Create.{Reachable, Reachable-Ready}

continue-IsFueled :
    {S A B : Type 0} (p : S × Result A) (f : A → Act S B)
    → IsFueled p.1
    → ((a : A) → IsFueled (f a p.0).1)
    → IsFueled (continue p f).1
continue-IsFueled (s, ok a) f h k = k a
continue-IsFueled (s, err e) f h k = λ p. h (cc)

module _ {F : Type 0} ⦃fl : Float F⦄ (units : HasUnits F) (setup : Setup F) where
  -- Every call of a handler ends.
  abbrev pub HasHandler : Type 0
  HasHandler = (before : List (Output F)) (o : Output F) → IsFueled (setup.handler before o)

  process_dft-IsFueled :
      (w : DftWindow) (a : Application F)
      → HasHandler
      → HasExtent setup.metadata
      → IsSound {F = F} (dft_event w)
      → Ready units setup a
      → IsFueled (process_dft setup w a).1
  unfolding process_dft process_stylus
  process_dft-IsFueled w a live hm even i =
      go (input setup.dft_config setup.metadata w a.dft)
        (input-Keeps units setup.dft_config setup.metadata w hm even a.dft i.stylus).1
    where
      go :
          (out : DftStylus F × Result (Unit {0}))
          → Returns out.1
          → IsFueled (after_input setup a out).1
      go (dft, err e) (r, h) = λ p. cc
      go (dft, ok done) h = live _ _

  abbrev IsLive : {A : Type 0} → Act (Application F) A → Type 0
  IsLive m = (a : Application F) → IsFueled (m a).1

  if-IsLive :
      {A : Type 0} (b : Bool) (m n : Act (Application F) A)
      → IsLive m
      → IsLive n
      → IsLive (if b then m else n)
  if-IsLive true m n hm hn = hm
  if-IsLive false m n hm hn = hn

  process_heatmap-IsLive : (h : Heatmap) → HasHandler → IsLive (process_heatmap setup h)
  unfolding process_heatmap
  process_heatmap-IsLive h live =
      if-IsLive (h.rows == 0 || h.columns == 0) _ _ (λ a p. cc)
        λ a.
          continue-IsFueled (lift (find_contacts setup.means _ h.rows h.columns a.finder) a) _
            (find_contacts-IsFueled setup.means _ h.rows h.columns a.finder) λ found. live _ _

  process_event-IsFueled :
      (e : Event F) (a : Application F)
      → HasHandler
      → HasExtent setup.metadata
      → IsSound e
      → Ready units setup a
      → IsFueled (process_event setup e a).1
  unfolding process_event process_stylus
  process_event-IsFueled (stylus_event d) a live hm h i = live _ _
  process_event-IsFueled (heatmap_event m) a live hm h i = process_heatmap-IsLive m live a
  process_event-IsFueled (dft_event w) a live hm h i = process_dft-IsFueled w a live hm h i
  process_event-IsFueled (metadata_event m) a live hm h i = λ p. cc

  left_at-IsFueled :
      (c : Call F) (p : Application F × Result (Unit {0}))
      → IsFueled p.1
      → IsFueled (left_at setup c p).1
  left_at-IsFueled c (a, ok done) h = h
  left_at-IsFueled c (a, err e) h = h

  process_call-IsFueled :
      (c : Call F) (a : Application F)
      → HasHandler
      → HasExtent setup.metadata
      → IsSoundCall c
      → Ready units setup a
      → IsFueled (process_call setup c a).1
  unfolding process_call
  process_call-IsFueled c a live hm h i =
      left_at-IsFueled c (process_event setup c.event a)
        (process_event-IsFueled c.event a live hm h.0 i)

  each-IsFueled :
      (calls : List (Call F)) (a : Application F)
      → HasHandler
      → HasExtent setup.metadata
      → All IsSoundCall calls
      → Ready units setup a
      → IsFueled (each (process_call setup) calls a).1
  unfolding each
  each-IsFueled [] a live hm hs i = λ p. cc
  each-IsFueled (c ∷ calls) a live hm (h, hs) i =
      continue-IsFueled (process_call setup c a) _ (process_call-IsFueled c a live hm h i) λ done.
        each-IsFueled calls (process_call setup c a).0 live hm hs
          (process_call-Kept units setup c hm h a i)

  -- Let `<` and `<=` be as IEEE 754 has them, let the metadata of the device, if it has any, count less
  -- than 256 rows and columns, and let every call of a handler end. Then every application that a run
  -- can come to processes every buffer to an end: none of the loops of the parser, of the search for
  -- clusters and of the tracking runs out of its fuel. It returns, throws, or ends the program at a
  -- broken precondition.
  pub process-IsFueled :
      (buffer : List ℕ) (a : Application F)
      → HasHandler
      → HasExtent setup.metadata
      → Reachable setup a
      → IsFueled (process setup buffer a).1
  unfolding process parse
  process-IsFueled buffer a live hm reached =
      let i = Reachable-Ready units setup a hm reached in
      let (inv, sound, fueled) = parse_with_header-Inv 3 buffer a.parser i.parser in
      let p = (parse buffer a.parser).0 in
      let r = (parse buffer a.parser).1 in
      let cleared : Inv (record p { emitted = [] }) = record { scaled = inv.scaled; sound = tt } in
      let b = record a { parser = record p { emitted = [] } } in
      continue-IsFueled (each (process_call setup) p.emitted b) _
        (each-IsFueled p.emitted b live hm sound (record { parser = cleared; stylus = i.stylus }))
        λ done. continue-IsFueled (lift r _) _ fueled λ rest q. cc
