-- ===== src/Core/Linux/ConfigLoader/Presets.antt =====
-- Which presets the configuration of a device is made of.
use iptsd_android.Prelude.{
  ℕ, ◌<◌, ◌≡◌, ◌≢◌, ◌⊎◌, inl, inr, ◌&&◌, ◌==◌, arith, refl, sym, ◌∙◌, ap, true, false, Option, none,
  some, List, [], ◌∷◌, Result, ok, err, ◌>>=◌,
}
use iptsd_android.Prelude.Int.{pos}
use iptsd_android.Prelude.Word.{u16_mod}
use iptsd_android.Prelude.Float.{Float}
use iptsd_android.Ipts.Data.{Metadata}
use iptsd_android.Core.Device.{DeviceInfo}
use iptsd_android.Core.Config.Options.{Config, defaults}
use iptsd_android.Core.Linux.ConfigLoader.{
  Ini, Entry, Files, to_u16, load_device, load_file, is_meant, load_if, load_entries, load_dir,
  with_metadata, load_main, config_loader,
}

to_u16-fits : (n : ℕ) → n < u16_mod → to_u16 (pos n) ≡ ok n
to_u16-fits n h = ground (arith, h)

differs_lem :
    (i : DeviceInfo) (vendor product : ℕ)
    → (i.vendor ≢ vendor) ⊎ (i.product ≢ product)
    → (i.vendor == vendor && i.product == product) ≡ false
differs_lem i vendor product (inl h) = ground (arith, h)
differs_lem i vendor product (inr h) = ground (arith, h)

module _ {F : Type 0} where
  -- The entry is a file that can be parsed and names a device by two numbers of 16 bits.
  pub record Names (e : Entry F) (vendor product : ℕ) : Type 0 where
    pub regular : e.is_regular_file ≡ true
    pub parsed : e.ini.failed ≡ false
    pub vendor_read : e.ini.get_integer "Device" "Vendor" (pos 0) ≡ pos vendor
    pub product_read : e.ini.get_integer "Device" "Product" (pos 0) ≡ pos product
    pub vendor_fits : vendor < u16_mod
    pub product_fits : product < u16_mod

  -- Which of the entries of a directory are files that name the device, in their order. The others are
  -- no regular files, or name a device with another vendor or another product.
  pub data Presets (i : DeviceInfo) : List (Entry F) → List (Ini F) → Type 0 where
    finished : Presets i [] []
    irregular :
        (e : Entry F) (entries : List (Entry F)) (inis : List (Ini F))
        → e.is_regular_file ≡ false
        → Presets i entries inis
        → Presets i (e ∷ entries) inis
    foreign :
        (e : Entry F) (entries : List (Entry F)) (inis : List (Ini F)) (vendor product : ℕ)
        → Names e vendor product
        → (i.vendor ≢ vendor) ⊎ (i.product ≢ product)
        → Presets i entries inis
        → Presets i (e ∷ entries) inis
    own :
        (e : Entry F) (entries : List (Entry F)) (inis : List (Ini F))
        → Names e i.vendor i.product
        → Presets i entries inis
        → Presets i (e ∷ entries) (e.ini ∷ inis)

  -- The same for a directory that may be missing.
  abbrev pub DirPresets : DeviceInfo → Option (List (Entry F)) → List (Ini F) → Type 0
  DirPresets i none inis = inis ≡ []
  DirPresets i (some entries) inis = Presets i entries inis

  -- One file after the other.
  abbrev pub load_all : List (Ini F) → Config F → Result (Config F)
  load_all [] c = ok c
  load_all (ini ∷ inis) c = load_file ini c >>= load_all inis

  load_device-Names :
      (e : Entry F) (vendor product : ℕ)
      → Names e vendor product
      → load_device e.ini ≡ ok (vendor, product)
  unfolding load_device
  load_device-Names e vendor product n =
      rw
        (
          n.parsed,
          n.vendor_read,
          n.product_read,
          to_u16-fits vendor n.vendor_fits,
          to_u16-fits product n.product_fits,
        )
        refl

  is_meant-Names :
      (i : DeviceInfo) (e : Entry F) (vendor product : ℕ)
      → Names e vendor product
      → is_meant i true e ≡ ok (i.vendor == vendor && i.product == product)
  unfolding is_meant
  is_meant-Names i e vendor product n = rw (n.regular, load_device-Names e vendor product n) refl

  is_meant-irregular :
      (i : DeviceInfo) (e : Entry F) → e.is_regular_file ≡ false → is_meant i true e ≡ ok false
  unfolding is_meant
  is_meant-irregular i e h = rw h refl

  then_same :
      (r : Result (Config F)) (f g : Config F → Result (Config F))
      → ((c : Config F) → f c ≡ g c)
      → (r >>= f) ≡ (r >>= g)
  then_same (ok c) f g h = h c
  then_same (err e) f g h = refl

  load_entries-Presets :
      (i : DeviceInfo) (entries : List (Entry F)) (inis : List (Ini F)) (c : Config F)
      → Presets i entries inis
      → load_entries i true entries c ≡ load_all inis c
  unfolding load_entries
  load_entries-Presets i _ _ c finished = refl
  load_entries-Presets i _ _ c (irregular e entries inis h rest) =
      ap (λ m. m >>= λ meant. load_if meant e.ini c >>= load_entries i true entries)
        (is_meant-irregular i e h)
      ∙ load_entries-Presets i entries inis c rest
  load_entries-Presets i _ _ c (foreign e entries inis vendor product names other rest) =
      ap (λ m. m >>= λ meant. load_if meant e.ini c >>= load_entries i true entries)
        (is_meant-Names i e vendor product names ∙ ap ok (differs_lem i vendor product other))
      ∙ load_entries-Presets i entries inis c rest
  load_entries-Presets i _ _ c (own e entries inis names rest) =
      let same : (i.vendor == i.vendor && i.product == i.product) ≡ true = ground arith in
      ap (λ m. m >>= λ meant. load_if meant e.ini c >>= load_entries i true entries)
        (is_meant-Names i e i.vendor i.product names ∙ ap ok same)
      ∙ then_same (load_file e.ini c) (load_entries i true entries) (load_all inis)
          (λ d. load_entries-Presets i entries inis d rest)

  load_dir-Presets :
      (i : DeviceInfo) (dir : Option (List (Entry F))) (inis : List (Ini F)) (c : Config F)
      → DirPresets i dir inis
      → load_dir i true dir c ≡ load_all inis c
  unfolding load_dir
  load_dir-Presets i none inis c h = sym (ap (λ l. load_all l c) h)
  load_dir-Presets i (some entries) inis c h = load_entries-Presets i entries inis c h

module _ {F : Type 0} ⦃fl : Float F⦄ where
  -- Let every regular file in the two directories with presets be parsed and name a device by a vendor and
  -- a product of 16 bits. Then exactly those are loaded that name the vendor and the product of this
  -- device, in their order, those of the first directory first, on top of the defaults and the
  -- metadata. The main file and its overlays, or the file that the environment names, come after.
  pub config_loader-Presets :
      (i : DeviceInfo) (metadata : Option Metadata) (files : Files F) (inis inis' : List (Ini F))
      → DirPresets i files.preset_dir inis
      → DirPresets i files.local_presets inis'
      → config_loader i metadata files ≡ (
          load_all inis (with_metadata metadata defaults) >>= λ c.
          load_all inis' c >>= load_main i files)
  unfolding config_loader
  config_loader-Presets i metadata files inis inis' h h' =
      let c = with_metadata metadata defaults in
      ap (λ r. r >>= λ d. load_dir i true files.local_presets d >>= load_main i files)
        (load_dir-Presets i files.preset_dir inis c h)
      ∙ then_same (load_all inis c) _ _ (λ d.
        ap (λ r. r >>= load_main i files) (load_dir-Presets i files.local_presets inis' d h'))
