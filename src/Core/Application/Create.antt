-- ===== src/Core/Application/Create.antt =====
-- The constructor of `Application`, and what a run can come to. The constructor, with those of its
-- members, is of src/core/generic/application.hpp.
use iptsd_android.Prelude.{
  ℕ, ◌≡◌, refl, ap, subst, inl, inr, Bool, true, false, not, ◌||◌, List, [], Result, ok, err, guard,
  ◌>>=◌, ◌>>◌, >>=-eq-ok, invalid_screen_size,
}
use iptsd_android.Prelude.Float.{Float}
use iptsd_android.Ipts.Parser
use iptsd_android.Contacts.Finder.{Finder}
use iptsd_android.Core.Config.{ContactOptions, ContactsConfig, contacts}
use iptsd_android.Core.Dft
use iptsd_android.Core.Dft.Valid.{HasUnits, HasExtent, zero-IsFraction}
use iptsd_android.Core.Application.{Application, Setup, process}
use iptsd_android.Core.Application.Stylus.{Ready, process-Ready}

module _ {F : Type 0} ⦃fl : Float F⦄ where
  abbrev pub new_finder : ContactsConfig F → Finder F
  new_finder config = record {
    detector = record {
      rows = 0;
      cols = 0;
      input_diagonal = fl.of_nat 0;
      blurred = λ i. fl.of_nat 0;
      last_edge_cases = [];
      counter = 0;
      neutral = fl.of_nat 0;
    };
    tracker = record { last = [] };
    stabilizer = record { position_threshold = config.stability.position_threshold; last = [] };
    validator = record { config = config.validation; last = [] };
  }

  abbrev pub new_application : ContactsConfig F → Application F
  new_application config = record {
    parser = Parser.init true true true false;
    finder = new_finder config;
    dft = Dft.init;
    outputs = [];
  }

  -- `m_config.width == 0 || m_config.height == 0`
  abbrev pub has_no_size : ContactOptions F → Bool
  has_no_size options = fl.eq options.width (fl.of_nat 0) || fl.eq options.height (fl.of_nat 0)

  unfoldable pub create : ContactOptions F → Result (Application F)
  create options = do
    config ← contacts options
    guard (not (has_no_size options)) invalid_screen_size
    ok (new_application config)

  -- The applications that a run can come to: created, and fed one buffer after the other, each to its
  -- end or to an exception.
  pub data Reachable (setup : Setup F) : Application F → Type 0 where
    created :
        (options : ContactOptions F) (a : Application F) → create options ≡ ok a → Reachable setup a
    processed :
        (buffer : List ℕ) (a : Application F)
        → Reachable setup a
        → Reachable setup (process setup buffer a).0

  value : Application F → Result (Application F) → Application F
  value a (ok b) = b
  value a (err e) = a

  new_application-Ready :
      (units : HasUnits F) (setup : Setup F) (config : ContactsConfig F)
      → Ready units setup (new_application config)
  new_application-Ready units setup config = record {
    parser = record { scaled = inl refl; sound = tt };
    stylus = record {
      ends = refl;
      x = inr (zero-IsFraction units);
      y = inr (zero-IsFraction units);
      pressure = zero-IsFraction units;
    };
  }

  create-Ready :
      (units : HasUnits F) (setup : Setup F) (options : ContactOptions F) (a : Application F)
      → create options ≡ ok a
      → Ready units setup a
  unfolding create value
  create-Ready units setup options a run =
      let (config, _, rest) = >>=-eq-ok (contacts options) _ run in
      let (done, _, same) =
        >>=-eq-ok (guard (not (has_no_size options)) invalid_screen_size)
          (λ done. ok (new_application config)) rest in
      let fresh = new_application config in
      let same_application : fresh ≡ a = ap (value fresh) same in
      subst (Ready units setup) same_application (new_application-Ready units setup config)

  -- Let `<` and `<=` be as IEEE 754 has them, and let the metadata of the device, if it has any, count
  -- less than 256 rows and columns. Then in every application that a run can come to, through any
  -- buffers, with any handlers, and after exceptions of the parser, of a callback or of a handler, the
  -- parser keeps its invariant, the button and the rubber of the stylus are not both held, its
  -- pressure is from 0 to 1 and no NaN, and each coordinate is from 0 to 1 or NaN.
  pub Reachable-Ready :
      (units : HasUnits F) (setup : Setup F) (a : Application F)
      → HasExtent setup.metadata
      → Reachable setup a
      → Ready units setup a
  Reachable-Ready units setup _ hm (created options a run) = create-Ready units setup options a run
  Reachable-Ready units setup _ hm (processed buffer a r) =
      process-Ready units setup buffer a hm (Reachable-Ready units setup a hm r)
