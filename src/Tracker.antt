-- ===== src/Tracker.antt =====
-- internal/orchestrator/tracker.go: the registry of runners, keyed by name. A method runs under the
-- lock of the registry, so it is one function of the map. A time is a number of nanoseconds since
-- the zero value of `time.Time`.
pub mod Laws
pub mod Refinement
pub mod States
mod Tests
use incuse.Base.{ℕ, ℤ, Text, text_eq, Bool, true, false, Option, none, some, List, length}
use incuse.Base.Dict
use incuse.Base.Dict.{Dict}
use incuse.Config.{RunnerSpec}

pub data RunnerState : Type 0 where
  launching idle busy : RunnerState

pub record TrackedRunner : Type 0 where
  pub name : Text
  pub runner_id : ℤ
  pub minted_at : ℕ
  pub ready_at : ℕ
  pub busy_at : ℕ
  pub spec : RunnerSpec
  pub scale_set_id : ℤ
  pub state : RunnerState
  pub termination_pending : Bool

abbrev pub Tracker : Type 0
Tracker = Dict Text TrackedRunner

abbrev pub new_tracker : Tracker
new_tracker = List.[]

unfoldable pub add : TrackedRunner → Tracker → Tracker
add r t = Dict.insert r.name r t

unfoldable pub remove : Text → Tracker → Tracker
remove name t = Dict.erase name t

unfoldable pub get : Text → Tracker → Option TrackedRunner
get name t = Dict.lookup name t

-- `v.State == statusLaunching`
abbrev pub is_launching : RunnerState → Bool
is_launching launching = true
is_launching _ = false

abbrev pub set_idle : RunnerState → ℕ → TrackedRunner → TrackedRunner
set_idle launching now v = record v { state = idle; ready_at = now }
set_idle _ now v = v

-- Whether termination was requested during the launch; `none` for an unknown name.
unfoldable pub mark_idle : Text → ℕ → Tracker → Option Bool × Tracker
mark_idle name now t = elim (Dict.lookup name t) [
  | none ↦ (none, t)
  | some v ↦ (some v.termination_pending, Dict.insert name (set_idle v.state now v) t)
]

-- The previous state; `none` for an unknown name.
unfoldable pub mark_busy : Text → ℕ → Tracker → Option RunnerState × Tracker
mark_busy name now t = elim (Dict.lookup name t) [
  | none ↦ (none, t)
  | some v ↦ (some v.state, Dict.insert name (record v { busy_at = now; state = busy }) t)
]

-- The state; `none` for an unknown name.
unfoldable pub mark_for_termination : Text → Tracker → Option RunnerState × Tracker
mark_for_termination name t = elim (Dict.lookup name t) [
  | none ↦ (none, t)
  | some v ↦ (some v.state, Dict.insert name (record v { termination_pending = true }) t)
]

unfoldable pub is_termination_pending : Text → Tracker → Bool
is_termination_pending name t = elim (Dict.lookup name t) [
  | none ↦ false
  | some v ↦ v.termination_pending
]

unfoldable pub snapshot : Tracker → List TrackedRunner
snapshot t = Dict.values t

unfoldable pub names : Tracker → List Text
names t = Dict.keys t

unfoldable pub size : Tracker → ℕ
size t = length t
