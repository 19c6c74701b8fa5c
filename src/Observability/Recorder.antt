-- ===== src/Observability/Recorder.antt =====
-- internal/observability/recorder.go: what `New` and each method of a recorder write to the
-- collectors. Prometheus is a library: a method is the list of its calls. Floats are a parameter.
pub mod Collectors
pub mod Laws
pub mod Kinds
mod Tests
use incuse.Base.{
  ℤ, pos, Text, codes, is_empty, Option, none, some, List, [], ◌∷◌, ◌++◌, if◌then◌else◌,
}
use incuse.Observability.Recorder.Collectors.{
  Family, runners_spawned, jobs_started, jobs_completed, launches, reaps, launch_duration,
  runner_lifetime, tracked_instances, desired_runners, total_available_jobs, total_acquired_jobs,
  total_assigned_jobs, total_running_jobs, total_registered_runners, total_busy_runners,
  total_idle_runners, build_info,
}

-- The fields of `ssapi.RunnerScaleSetStatistic`.
pub record Statistic : Type 0 where
  pub available_jobs : ℤ
  pub acquired_jobs : ℤ
  pub assigned_jobs : ℤ
  pub running_jobs : ℤ
  pub registered_runners : ℤ
  pub busy_runners : ℤ
  pub idle_runners : ℤ

-- A call of `WithLabelValues`, and of a method of what it returns.
pub data Write (Float : Type 0) : Type 0 where
  touch inc : Family → List Text → Write Float
  set observe : Family → List Text → Float → Write Float

-- The calls of the listener and of the orchestrator that a recorder takes.
pub data Event (Float : Type 0) : Type 0 where
  statistics : Option Statistic → Event Float
  -- of `JobStarted` nothing is read; of `JobCompleted`, its result
  job_started : Event Float
  job_completed : Option Text → Event Float
  desired : ℤ → Event Float
  spawned launch_ok launch_fail : Event Float
  launch_took lived : Float → Event Float
  reap : Text → Event Float
  tracked : ℤ → Event Float

-- The label of a job's end.
unfoldable pub job_result : Option Text → Text
job_result none = codes "unknown"
job_result (some r) = if is_empty r then codes "unknown" else r

module _ {Float : Type 0} where
  -- `ForScaleSet`
  unfoldable pub for_scale_set : Text → List (Write Float)
  for_scale_set name =
      let labels = name ∷ [] in
      touch tracked_instances labels
      ∷ touch desired_runners labels
      ∷ touch total_available_jobs labels
      ∷ touch total_acquired_jobs labels
      ∷ touch total_assigned_jobs labels
      ∷ touch total_running_jobs labels
      ∷ touch total_registered_runners labels
      ∷ touch total_busy_runners labels
      ∷ touch total_idle_runners labels
      ∷ []

module _ {Float : Type 0} (float64 : ℤ → Float) where
  -- `New`, before the registration
  unfoldable pub new_recorder : Text → Text → List (Write Float)
  new_recorder version commit = set build_info (version ∷ commit ∷ []) (float64 (pos 1)) ∷ []

  unfoldable pub record_statistics : Text → Option Statistic → List (Write Float)
  record_statistics name none = []
  record_statistics name (some s) =
      let labels = name ∷ [] in
      set total_available_jobs labels (float64 s.available_jobs)
      ∷ set total_acquired_jobs labels (float64 s.acquired_jobs)
      ∷ set total_assigned_jobs labels (float64 s.assigned_jobs)
      ∷ set total_running_jobs labels (float64 s.running_jobs)
      ∷ set total_registered_runners labels (float64 s.registered_runners)
      ∷ set total_busy_runners labels (float64 s.busy_runners)
      ∷ set total_idle_runners labels (float64 s.idle_runners)
      ∷ []

  unfoldable pub record_job_started : Text → List (Write Float)
  record_job_started name = inc jobs_started (name ∷ []) ∷ []

  unfoldable pub record_job_completed : Text → Option Text → List (Write Float)
  unfolding job_result
  record_job_completed name event = inc jobs_completed (name ∷ job_result event ∷ []) ∷ []

  unfoldable pub record_desired_runners : Text → ℤ → List (Write Float)
  record_desired_runners name count = set desired_runners (name ∷ []) (float64 count) ∷ []

  unfoldable pub record_runner_spawned : Text → List (Write Float)
  record_runner_spawned name = inc runners_spawned (name ∷ []) ∷ []

  unfoldable pub record_launch_ok : Text → List (Write Float)
  record_launch_ok name = inc launches (name ∷ codes "ok" ∷ []) ∷ []

  unfoldable pub record_launch_fail : Text → List (Write Float)
  record_launch_fail name = inc launches (name ∷ codes "fail" ∷ []) ∷ []

  unfoldable pub record_launch_duration : Text → Float → List (Write Float)
  record_launch_duration name seconds = observe launch_duration (name ∷ []) seconds ∷ []

  unfoldable pub record_runner_lifetime : Text → Float → List (Write Float)
  record_runner_lifetime name seconds = observe runner_lifetime (name ∷ []) seconds ∷ []

  unfoldable pub record_reap : Text → Text → List (Write Float)
  record_reap name reason = inc reaps (name ∷ reason ∷ []) ∷ []

  unfoldable pub record_tracked_instances : Text → ℤ → List (Write Float)
  record_tracked_instances name n = set tracked_instances (name ∷ []) (float64 n) ∷ []

  -- The method of a `ScaleSetRecorder` that takes the call.
  unfoldable pub observed : Text → Event Float → List (Write Float)
  unfolding record_statistics record_job_started record_job_completed record_desired_runners
      record_runner_spawned record_launch_ok record_launch_fail record_launch_duration
      record_runner_lifetime record_reap record_tracked_instances
  observed name (statistics s) = record_statistics name s
  observed name job_started = record_job_started name
  observed name (job_completed r) = record_job_completed name r
  observed name (desired count) = record_desired_runners name count
  observed name spawned = record_runner_spawned name
  observed name launch_ok = record_launch_ok name
  observed name launch_fail = record_launch_fail name
  observed name (launch_took seconds) = record_launch_duration name seconds
  observed name (lived seconds) = record_runner_lifetime name seconds
  observed name (reap reason) = record_reap name reason
  observed name (tracked n) = record_tracked_instances name n

  -- The same method of a `Recorder`: that of the recorder of no class.
  unfoldable pub observed_unbound : Event Float → List (Write Float)
  unfolding observed for_scale_set
  observed_unbound e = for_scale_set [] ++ observed [] e

  -- What recorders of several classes write, each call with its class.
  unfoldable pub all_observed : List (Text × Event Float) → List (Write Float)
  unfolding observed
  all_observed [] = []
  all_observed ((name, e) ∷ es) = observed name e ++ all_observed es
