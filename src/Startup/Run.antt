-- ===== src/Startup/Run.antt =====
-- cmd/incuse/main.go: `run` as the sequence of what it does to the libraries and the goroutines, its
-- deferred calls included. What Incus, GitHub, the files and the goroutines answer is a parameter.
pub mod Monitor
pub mod Sessions
pub mod Laws
pub mod Validated
pub mod Tests
use incuse.Base.{
  ℤ, Text, is_empty, Bool, true, false, not, Option, none, some, Result, ok, err, List, [], ◌∷◌,
  ◌++◌, map, ◌⊎◌, inl, inr, if◌then◌else◌,
}
use incuse.Config.{Config, ScaleSetConfig}
use incuse.Config.Specs.{scale_set_specs}
use incuse.Incus.Connect.{Dial, ConnectError, RealClient, connect}
use incuse.Scaleset.{Options, OptionsError, new_error}
use incuse.Scaleset.Bootstrap.{Api, ScaleSet, BootstrapError, new_scale_set, bootstrap}
use incuse.Scaleset.Methods.{close}
use incuse.Orchestrator.Setup
use incuse.Orchestrator.Setup.{SetupError, Built}
use incuse.Startup.{CredsError, read_auth_creds, scale_set_options, orchestrator_setup}
use incuse.Startup.Connection.{incus_config}

-- What happens outside: sessions and the client are opened and closed, goroutines start.
pub data Event (Session : Type 0) : Type 0 where
  connects : Event Session
  opens closes : Text → Session → Event Session
  marks_healthy marks_ready : Event Session
  serves : Event Session
  listens orchestrates : Text → Event Session
  -- `g.Wait`: every goroutine has returned
  waits : Event Session
  disconnects : Event Session

pub data RunError : Type 0 where
  connect_failed : ConnectError → RunError
  creds_failed : CredsError → RunError
  scale_set_refused : Text → OptionsError → RunError
  bootstrap_failed : Text → BootstrapError → RunError
  orchestrator_refused : Text → SetupError → RunError
  group_failed : Text → RunError

-- What the outside answers to one run.
pub record World (Conn Client Session : Type 0) : Type 0 where
  pub read_file : Text → Result Text
  pub dial : Dial → Result Conn
  pub api : ScaleSetConfig → Api Client Session
  pub version : Text
  -- the first error of a goroutine, if one returns an error
  pub wait : Option Text

-- `runtimeSet`
pub record RuntimeSet (Client Session : Type 0) : Type 0 where
  pub spec : ScaleSetConfig
  pub scale_set : ScaleSet Client Session (Unit {0})
  pub orchestrator : Option Built

-- One round of the loop over the classes: nothing is kept of it, its scale set is, or all of it is.
pub data Round (Client Session : Type 0) : Type 0 where
  dropped : RunError → Round Client Session
  half : RuntimeSet Client Session → RunError → Round Client Session
  whole : RuntimeSet Client Session → Round Client Session

module _ {Session : Type 0} where
  abbrev pub session_events :
      (Text → Session → Event Session) → Text → Option Session → List (Event Session)
  session_events f name none = []
  session_events f name (some s) = f name s ∷ []

module _ {Client Session : Type 0} where
  -- The deferred function that closes the sessions.
  unfoldable pub close_sets : List (RuntimeSet Client Session) → List (Event Session)
  unfolding close
  close_sets [] = []
  close_sets (set ∷ sets) =
      session_events closes set.spec.name (close set.scale_set) ++ close_sets sets

  unfoldable pub start_sets : List (RuntimeSet Client Session) → List (Event Session)
  start_sets [] = []
  start_sets (set ∷ sets) = listens set.spec.name ∷ orchestrates set.spec.name ∷ start_sets sets

abbrev pub Looped : Type 0 → Type 0 → Type 0
Looped Client Session = List (Event Session) × List (RuntimeSet Client Session) × Option RunError

module _ {Client Session : Type 0} where
  -- The loop after a round, over what its other rounds come to.
  unfoldable pub after_round :
      List (Event Session) × Round Client Session → Looped Client Session → Looped Client Session
  after_round (es, dropped e) rest = (es, [], some e)
  after_round (es, half set e) rest = (es, set ∷ [], some e)
  after_round (es, whole set) rest = (es ++ rest.0, set ∷ rest.1, rest.2)

module _ {Conn Client Session : Type 0} (w : World Conn Client Session) (c : Config) where
  -- From the orchestrator's constructor on.
  unfoldable pub with_orchestrator :
      ScaleSetConfig
      → ScaleSet Client Session (Unit {0})
      → SetupError ⊎ Built
      → Round Client Session
  with_orchestrator spec s (inl e) =
      half (record { spec = spec; scale_set = s; orchestrator = none })
        (orchestrator_refused spec.name e)
  with_orchestrator spec s (inr o) =
      whole (record { spec = spec; scale_set = s; orchestrator = some o })

  -- What a round does, and what comes of it. A session that a bootstrap has opened is an event also
  -- where the bootstrap returns an error.
  unfoldable pub bootstrapped :
      ScaleSetConfig
      → ScaleSet Client Session (Unit {0}) × Option BootstrapError
      → List (Event Session) × Round Client Session
  unfolding with_orchestrator
  bootstrapped spec (s, some e) =
      (session_events opens spec.name s.msg_client, dropped (bootstrap_failed spec.name e))
  bootstrapped spec (s, none) = (
    session_events opens spec.name s.msg_client,
    with_orchestrator spec s (Setup.new (orchestrator_setup c spec)),
  )

  unfoldable pub checked :
      ScaleSetConfig → Options → Option OptionsError → List (Event Session) × Round Client Session
  unfolding bootstrapped
  checked spec o (some e) = ([], dropped (scale_set_refused spec.name e))
  checked spec o none = bootstrapped spec (bootstrap (w.api spec) w.version (new_scale_set o))

  unfoldable pub start_class :
      Text → Text → ScaleSetConfig → List (Event Session) × Round Client Session
  unfolding checked
  start_class pat app_key spec =
      let o = scale_set_options c pat app_key spec in checked spec o (new_error o)

  -- The loop: its events, the sets that are kept, and the error that ends it, if one does.
  unfoldable pub start_classes : Text → Text → List ScaleSetConfig → Looped Client Session
  unfolding start_class after_round
  start_classes pat app_key [] = ([], [], none)
  start_classes pat app_key (spec ∷ specs) =
      after_round (start_class pat app_key spec) (start_classes pat app_key specs)

  abbrev pub has_server : Bool
  has_server = not (is_empty c.observability.listen_addr)

  -- An action of the metrics server, if there is one.
  abbrev pub if_served : Event Session → List (Event Session)
  if_served e = if has_server then e ∷ [] else []

  -- What follows the loop, before the deferred calls.
  unfoldable pub start_all :
      List (RuntimeSet Client Session) → Option RunError → List (Event Session) × Option RunError
  unfolding start_sets
  start_all sets (some e) = ([], some e)
  start_all sets none = (
    if_served marks_healthy
        ++ (if_served serves ++ (start_sets sets ++ (if_served marks_ready ++ waits ∷ []))),
    elim w.wait [ none ↦ none | some e ↦ some (group_failed e) ],
  )

  -- With the client: the deferred calls run last to first.
  unfoldable pub with_creds : CredsError ⊎ (Text × Text) → List (Event Session) × Option RunError
  unfolding start_all start_classes close_sets
  with_creds (inl e) = (disconnects ∷ [], some (creds_failed e))
  with_creds (inr (pat, app_key)) =
      let (es, sets, stopped) = start_classes pat app_key (scale_set_specs c) in
      let (started, failed) = start_all sets stopped in
      (es ++ (started ++ (close_sets sets ++ disconnects ∷ [])), failed)

  unfoldable pub with_client :
      ConnectError ⊎ RealClient Conn → List (Event Session) × Option RunError
  unfolding with_creds
  with_client (inl e) = ([], some (connect_failed e))
  with_client (inr client) =
      let (es, failed) = with_creds (read_auth_creds w.read_file c.github.auth) in
      (connects ∷ es, failed)

  unfoldable pub run : List (Event Session) × Option RunError
  unfolding with_client
  run = with_client (connect w.read_file w.dial (incus_config c.incus w.version))
