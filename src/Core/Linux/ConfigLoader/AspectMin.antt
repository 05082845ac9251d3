-- ===== src/Core/Linux/ConfigLoader/AspectMin.antt =====
-- The option that no file sets.
use iptsd_android.Prelude.{
  ◌≡◌, refl, sym, ◌∙◌, ap, subst, Bool, true, false, not, Option, none, some, List, [], ◌∷◌, Result,
  ok, err, guard, ◌>>=◌, >>=-eq-ok, parsing_failed,
}
use iptsd_android.Prelude.Float.{Float}
use iptsd_android.Ipts.Data.{Metadata}
use iptsd_android.Core.Device.{DeviceInfo}
use iptsd_android.Core.Config.Options.{Config, defaults}
use iptsd_android.Core.Linux.ConfigLoader.{
  Ini, Entry, Files, get_usize, load_file, is_meant, load_if, load_entries, load_dir,
  load_if_exists, with_metadata, config_loader,
}

module _ {F : Type 0} where
  payload : Config F → Result (Config F) → Config F
  payload c (ok c') = c'
  payload c (err e) = c

  -- What is read of a file leaves the least aspect ratio as it was.
  load_file-aspect_min :
      (ini : Ini F) (c c' : Config F)
      → load_file ini c ≡ ok c'
      → c'.contacts_aspect_min ≡ c.contacts_aspect_min
  unfolding load_file payload
  load_file-aspect_min ini c c' e =
      let (u, _, e1) = >>=-eq-ok (guard (not ini.failed) parsing_failed) _ e in
      let (n1, _, e2) =
        >>=-eq-ok (get_usize ini "DFT" "PositionMinAmp" c.dft_position_min_amp) _ e1 in
      let (n2, _, e3) =
        >>=-eq-ok (get_usize ini "DFT" "PositionMinMag" c.dft_position_min_mag) _ e2 in
      let (n3, _, e4) = >>=-eq-ok (get_usize ini "DFT" "ButtonMinMag" c.dft_button_min_mag) _ e3 in
      let (n4, _, e5) = >>=-eq-ok (get_usize ini "DFT" "FreqMinMag" c.dft_freq_min_mag) _ e4 in
      let (n5, _, e6) = >>=-eq-ok (get_usize ini "DFT" "TiltMinMag" c.dft_tilt_min_mag) _ e5 in
      let (n6, _, e7) =
        >>=-eq-ok (get_usize ini "DFT" "Mpp2ContactMinMag" c.dft_mpp2_contact_min_mag) _ e6 in
      let (n7, _, e8) =
        >>=-eq-ok (get_usize ini "DFT" "Mpp2ButtonMinMag" c.dft_mpp2_button_min_mag) _ e7 in
      sym (ap (λ r. (payload c r).contacts_aspect_min) e8)

  module _ (P : Config F → Type 0) where
    -- What every file keeps.
    abbrev KeptByFiles : Type 0
    KeptByFiles = (ini : Ini F) (c c' : Config F) → load_file ini c ≡ ok c' → P c → P c'

    load_if-Kept :
        (b : Bool) (ini : Ini F) (c c' : Config F)
        → KeptByFiles
        → load_if b ini c ≡ ok c'
        → P c
        → P c'
    unfolding payload
    load_if-Kept true ini c c' keeps e h = keeps ini c c' e h
    load_if-Kept false ini c c' keeps e h = subst P (ap (payload c) e) h

    load_entries-Kept :
        (i : DeviceInfo) (check_device : Bool) (entries : List (Entry F)) (c c' : Config F)
        → KeptByFiles
        → load_entries i check_device entries c ≡ ok c'
        → P c
        → P c'
    unfolding load_entries payload
    load_entries-Kept i check_device [] c c' keeps e h = subst P (ap (payload c) e) h
    load_entries-Kept i check_device (entry ∷ entries) c c' keeps e h =
        let (meant, _, e1) = >>=-eq-ok (is_meant i check_device entry) _ e in
        let (next, loaded, e2) = >>=-eq-ok (load_if meant entry.ini c) _ e1 in
        load_entries-Kept i check_device entries next c' keeps e2
          (load_if-Kept meant entry.ini c next keeps loaded h)

    load_dir-Kept :
        (i : DeviceInfo) (check_device : Bool) (dir : Option (List (Entry F))) (c c' : Config F)
        → KeptByFiles
        → load_dir i check_device dir c ≡ ok c'
        → P c
        → P c'
    unfolding load_dir payload
    load_dir-Kept i check_device none c c' keeps e h = subst P (ap (payload c) e) h
    load_dir-Kept i check_device (some entries) c c' keeps e h =
        load_entries-Kept i check_device entries c c' keeps e h

    load_if_exists-Kept :
        (file : Option (Ini F)) (c c' : Config F)
        → KeptByFiles
        → load_if_exists file c ≡ ok c'
        → P c
        → P c'
    unfolding payload
    load_if_exists-Kept none c c' keeps e h = subst P (ap (payload c) e) h
    load_if_exists-Kept (some ini) c c' keeps e h = keeps ini c c' e h

    abbrev main_from :
        DeviceInfo
        → Option (Ini F)
        → Option (Ini F)
        → Option (List (Entry F))
        → Config F
        → Result (Config F)
    main_from i env_file config_file config_dir c = elim env_file [
      | some ini ↦ load_file ini c
      | none ↦ (load_if_exists config_file c >>= load_dir i false config_dir)
    ]

    load_main-Kept :
        (i : DeviceInfo) (env_file config_file : Option (Ini F))
        (config_dir : Option (List (Entry F))) (c c' : Config F)
        → KeptByFiles
        → main_from i env_file config_file config_dir c ≡ ok c'
        → P c
        → P c'
    load_main-Kept i (some ini) config_file config_dir c c' keeps e h = keeps ini c c' e h
    load_main-Kept i none config_file config_dir c c' keeps e h =
        let (next, loaded, rest) = >>=-eq-ok (load_if_exists config_file c) _ e in
        load_dir-Kept i false config_dir next c' keeps rest
          (load_if_exists-Kept config_file c next keeps loaded h)

module _ {F : Type 0} ⦃fl : Float F⦄ where
  with_metadata-aspect_min :
      (metadata : Option Metadata) (c : Config F)
      → (with_metadata metadata c).contacts_aspect_min ≡ c.contacts_aspect_min
  with_metadata-aspect_min none c = refl
  with_metadata-aspect_min (some m) c = refl

  -- If the loader returns a configuration, then its least aspect ratio of a contact is the default, 1,
  -- whatever the files contain: no option of a file sets it.
  pub config_loader-aspect_min :
      (i : DeviceInfo) (metadata : Option Metadata) (files : Files F) (c : Config F)
      → config_loader i metadata files ≡ ok c
      → c.contacts_aspect_min ≡ fl.of_nat 1
  unfolding config_loader
  config_loader-aspect_min i metadata files c e =
      let IsDefault : Config F → Type 0 = λ d. d.contacts_aspect_min ≡ fl.of_nat 1 in
      let keeps =
        λ (ini : Ini F) (d d' : Config F) (loaded : load_file ini d ≡ ok d') (h : IsDefault d).
          load_file-aspect_min ini d d' loaded ∙ h in
      let (c1, e1, rest) =
        >>=-eq-ok (load_dir i true files.preset_dir (with_metadata metadata defaults)) _ e in
      let (c2, e2, main) = >>=-eq-ok (load_dir i true files.local_presets c1) _ rest in
      load_main-Kept IsDefault i files.env_file files.config_file files.config_dir c2 c keeps main (
        load_dir-Kept IsDefault i true files.local_presets c1 c2 keeps e2 (
          load_dir-Kept IsDefault i true files.preset_dir _ c1 keeps e1
            (with_metadata-aspect_min metadata defaults)))
