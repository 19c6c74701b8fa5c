-- ===== src/Startup/Run/Validated.antt =====
-- A run of cmd/incuse/main.go from a configuration that passes Validate: only the outside can stop it.
use incuse.Base.{◌≡◌, refl, ◌⊎◌, inl, inr, Text, Option, none, some, List, [], ◌∷◌, All}
use incuse.Config.{Config, ScaleSetConfig}
use incuse.Config.Defaults.{apply_defaults}
use incuse.Config.Validate.{validate}
use incuse.Config.Validity.{Given}
use incuse.Config.Specs.{scale_set_specs}
use incuse.Incus.Connect.{ConnectError, RealClient, connect}
use incuse.Scaleset.Bootstrap.{ScaleSet, BootstrapError, bootstrap, new_scale_set}
use incuse.Orchestrator.Setup
use incuse.Orchestrator.Setup.{SetupError, Built, built}
use incuse.Startup.{CredsError, read_auth_creds, scale_set_options, orchestrator_setup}
use incuse.Startup.Classes.{Fits}
use incuse.Startup.Laws.{Starts, specs-Starts}
use incuse.Startup.Connection.{incus_config}
use incuse.Startup.Run.{
  Event, RunError, scale_set_refused, orchestrator_refused, group_failed, World, RuntimeSet, Round,
  dropped, half, whole, Looped, after_round, with_orchestrator, bootstrapped, checked, start_class,
  start_classes, start_all, with_creds, with_client, run,
}

-- What stopped a run was Incus, GitHub, a file or a goroutine, and no constructor of the program.
abbrev pub IsOutside : Option RunError → Type 0
IsOutside none = Unit
IsOutside (some (scale_set_refused name e)) = ⊥
IsOutside (some (orchestrator_refused name e)) = ⊥
IsOutside (some e) = Unit

module _ {Client Session : Type 0} where
  abbrev stopped : Round Client Session → Option RunError
  stopped (dropped e) = some e
  stopped (half set e) = some e
  stopped (whole set) = none

  after_round-IsOutside :
      (r : List (Event Session) × Round Client Session) (rest : Looped Client Session)
      → IsOutside (stopped r.1)
      → IsOutside rest.2
      → IsOutside (after_round r rest).2
  unfolding after_round
  after_round-IsOutside (es, dropped e) rest h k = h
  after_round-IsOutside (es, half set e) rest h k = h
  after_round-IsOutside (es, whole set) rest h k = k

module _ {Conn Client Session : Type 0} (parse_url : Text → Option (Text × Text))
    (w : World Conn Client Session) (raw : Config) where
  abbrev c : Config
  c = apply_defaults raw

  bootstrapped-IsOutside :
      (spec : ScaleSetConfig)
      → Setup.new (orchestrator_setup c spec) ≡ inr (built (orchestrator_setup c spec))
      → (r : ScaleSet Client Session (Unit {0}) × Option BootstrapError)
      → IsOutside (stopped (bootstrapped w c spec r).1)
  unfolding bootstrapped with_orchestrator
  bootstrapped-IsOutside spec q (s, some e) = tt
  bootstrapped-IsOutside spec q (s, none) = rw (q, with_orchestrator) tt

  class-IsOutside :
      (pat key : Text) (spec : ScaleSetConfig)
      → Starts parse_url raw pat key spec
      → IsOutside (stopped (start_class w c pat key spec).1)
  unfolding start_class checked
  class-IsOutside pat key spec (passes, builds) =
      rw (passes, checked)
        (bootstrapped-IsOutside spec builds
          (bootstrap (w.api spec) w.version (new_scale_set (scale_set_options c pat key spec))))

  classes-IsOutside :
      (pat key : Text) (specs : List ScaleSetConfig)
      → All (Starts parse_url raw pat key) specs
      → IsOutside (start_classes w c pat key specs).2
  unfolding start_classes
  classes-IsOutside pat key [] a = tt
  classes-IsOutside pat key (spec ∷ specs) (here, there) =
      after_round-IsOutside (start_class w c pat key spec) (start_classes w c pat key specs)
        (class-IsOutside pat key spec here) (classes-IsOutside pat key specs there)

  all-IsOutside :
      (sets : List (RuntimeSet Client Session)) (e : Option RunError)
      → IsOutside e
      → IsOutside (start_all w c sets e).1
  unfolding start_all
  all-IsOutside sets none h = waited w.wait
    where
      waited :
          (r : Option Text) → IsOutside (elim r [ none ↦ none | some e ↦ some (group_failed e) ])
      waited none = tt
      waited (some e) = tt
  all-IsOutside sets (some e) h = h

  module _ (passed : validate parse_url (apply_defaults raw) ≡ [])
      (fits : All Fits (apply_defaults raw).scale_sets.classes)
      (given : (pat key : Text)
        → read_auth_creds w.read_file (apply_defaults raw).github.auth ≡ inr (pat, key)
        → Given pat ⊎ Given key) where
    creds-IsOutside :
        (r : CredsError ⊎ (Text × Text))
        → read_auth_creds w.read_file c.github.auth ≡ r
        → IsOutside (with_creds w c r).1
    unfolding with_creds
    creds-IsOutside (inl e) q = tt
    creds-IsOutside (inr (pat, key)) q =
        let looped : Looped Client Session = start_classes w c pat key (scale_set_specs c) in
        all-IsOutside looped.1 looped.2 (
          classes-IsOutside pat key (scale_set_specs c)
            (specs-Starts parse_url w.read_file raw pat key passed fits q (given pat key q)))

    client-IsOutside : (r : ConnectError ⊎ RealClient Conn) → IsOutside (with_client w c r).1
    unfolding with_client
    client-IsOutside (inl e) = tt
    client-IsOutside (inr client) = creds-IsOutside _ refl

    -- From a file that passes Validate after the defaults, with memory sizes below 2^53 GiB and
    -- credentials that, where they can be read, are not both empty, a run is stopped by Incus, GitHub,
    -- a file or a goroutine at most: neither `scaleset.New` nor `orchestrator.New` refuses a class.
    pub run-IsOutside : IsOutside (run w c).1
    unfolding run
    run-IsOutside = client-IsOutside (connect w.read_file w.dial (incus_config c.incus w.version))
