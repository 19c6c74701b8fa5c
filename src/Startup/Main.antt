-- ===== src/Startup/Main.antt =====
-- cmd/incuse/main.go: `main`. The flags, the files and the decoder, and what the outside answers to
-- `run` are parameters; so is whether an error wraps `context.Canceled`.
pub mod Laws
mod Tests
use incuse.Base.{
  ℕ, Text, Bool, true, false, Option, none, some, Result, ok, err, List, [], ◌∷◌, ◌⊎◌, inl, inr,
  if◌then◌else◌,
}
use incuse.Config.{Config}
use incuse.Config.Load.{LoadError, load}
use incuse.Config.Preflight.{FileInfo, FileProblem, preflight}
use incuse.Startup.Run.{Event, RunError, World, run}

pub record Flags : Type 0 where
  pub config_path : Text
  pub show_version : Bool
  pub validate : Bool

pub data MainError : Type 0 where
  load_failed : LoadError → MainError
  preflight_failed : List FileProblem → MainError
  run_failed : RunError → MainError

-- What the program says last.
pub data Ended : Type 0 where
  version_printed config_ok stopped : Ended
  exited : MainError → Ended

abbrev pub exit_code : Ended → ℕ
exit_code (exited e) = 1
exit_code _ = 0

pub record Outside (Conn Client Session : Type 0) : Type 0 where
  pub world : World Conn Client Session
  pub parse_url : Text → Option (Text × Text)
  pub decode : Text → Result Config
  pub stat : Text → Result FileInfo
  pub is_canceled : RunError → Bool

module _ {Conn Client Session : Type 0} (o : Outside Conn Client Session) (flags : Flags) where
  unfoldable pub after_run : List (Event Session) × Option RunError → List (Event Session) × Ended
  after_run (es, none) = (es, stopped)
  after_run (es, some e) = (es, if o.is_canceled e then stopped else exited (run_failed e))

  unfoldable pub after_preflight : Config → List FileProblem → List (Event Session) × Ended
  unfolding after_run
  after_preflight c [] =
      let ran = after_run (run o.world c) in if flags.validate then ([], config_ok) else ran
  after_preflight c (p ∷ ps) = ([], exited (preflight_failed (p ∷ ps)))

  unfoldable pub after_load : LoadError ⊎ Config → List (Event Session) × Ended
  unfolding after_preflight
  after_load (inl e) = ([], exited (load_failed e))
  after_load (inr c) = after_preflight c (preflight o.stat c)

  unfoldable pub main : List (Event Session) × Ended
  unfolding after_load
  main =
      let rest = after_load (load o.parse_url o.decode o.world.read_file flags.config_path) in
      if flags.show_version then ([], version_printed) else rest
