-- ===== src/Orchestrator/Tests/Lifecycle.antt =====
-- The life of a runner over steps of internal/orchestrator, at a concrete state.
use incuse.Base.{text_eq, true, [], ◌∷◌, refl}
use incuse.Base.Dict
use incuse.Tracker
use incuse.Tracker.{TrackedRunner, busy}
use incuse.Tracker.States.{Advances}
use incuse.Orchestrator.Program.{mark_busy, mark_for_termination, act, halt}
use incuse.Orchestrator.System.{System, Shared, acts, perform}
use incuse.Orchestrator.System.Lifecycle.{here, onward, runner-Advances}
use incuse.Orchestrator.Samples.{sample, limits, reserved, runner_a}

abbrev tracking : Shared
tracking = record (reserved.last.shared) { tracker = (runner_a.name, runner_a) ∷ [] }

-- A job begins, and then the runner's end is asked for.
abbrev working : System
working = record {
  shared = tracking;
  code =
      act (mark_busy runner_a.name 120) (λ r. act (mark_for_termination runner_a.name) (λ q. halt))
      ∷ [];
}

abbrev ended : TrackedRunner
ended = record runner_a { state = busy; busy_at = 120; termination_pending = true }

runner-Advances_example : Advances runner_a ended
unfolding perform Tracker.get Tracker.mark_busy Tracker.mark_for_termination text_eq Dict.insert
    Dict.lookup
runner-Advances_example =
    runner-Advances limits sample runner_a.name working _ runner_a ended
      (onward
        (onward here (acts [] [] (mark_busy runner_a.name 120) _ _ refl refl refl) tt (_, refl))
        (acts [] [] (mark_for_termination runner_a.name) (λ q. halt) _ refl refl refl) tt (_, refl))
      refl refl
