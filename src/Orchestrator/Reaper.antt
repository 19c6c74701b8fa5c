-- ===== src/Orchestrator/Reaper.antt =====
-- internal/orchestrator/reaper.go: one sweep of the reaper.
pub mod Drift
pub mod Overdue
use incuse.Base.{
  ℕ, ℤ, sub_ℕ, ltb_ℤ, itoa, Text, codes, text_eq, ◌==◌, contains, Bool, true, false, not, ◌&&◌,
  Option, none, some, Result, ok, err, List, [], ◌∷◌, map, keep_if, if◌then◌else◌,
}
use incuse.Base.Dict
use incuse.Base.Dict.{Dict}
use incuse.Incus.{Instance}
use incuse.Tracker.{TrackedRunner, RunnerState, launching, idle, busy}
use incuse.Orchestrator.Launch.{meta_managed, meta_scale_set_id}
use incuse.Orchestrator.Terminate.{destroy, terminate_instance, remove_runner_by_id}
use incuse.Orchestrator.Program.{
  Config, Proc, Context, running, ◌>>=◌, ◌>>◌, return, call, go, Action, wait_add, wait_done, wait,
  acquire_launch, release_launch, snapshot, names, now, is_done, metric, reap, incus_list,
}

-- The deferred calls of the goroutine release the permit first. If a permit is refused, the rest of
-- the work is dropped.
unfoldable pub parallel_reap : Context → List (Proc (Unit {0})) → Proc (Unit {0})
parallel_reap ctx [] = call wait
parallel_reap ctx (work ∷ rest) = do
  acquired ← call (acquire_launch ctx)
  if acquired
      then (do
        call wait_add
        go (work >> call release_launch >> call wait_done)
        parallel_reap ctx rest)
      else call wait

-- `v, ok := m[k]` with the zero value for a missing key
unfoldable pub config_value : Text → Dict Text Text → Text
config_value k m = elim (Dict.lookup k m) [ none ↦ [] | some v ↦ v ]

module _ (cfg : Config) where
  -- Which time a runner has run over, if it has: the reason that the reaper reports.
  unfoldable pub overdue : RunnerState → TrackedRunner → ℕ → Option Text
  overdue busy r t =
      if ltb_ℤ cfg.runner_cfg.max_job_duration (sub_ℕ t r.busy_at)
      then some (codes "max_job_duration")
      else none
  overdue _ r t =
      if ltb_ℤ cfg.runner_cfg.registration_timeout (sub_ℕ t r.minted_at)
      then some (codes "registration_timeout")
      else none

  -- The runner goes if there is a reason.
  unfoldable pub reap_for : Context → TrackedRunner → Option Text → Proc (Unit {0})
  reap_for ctx r none = return tt
  reap_for ctx r (some reason) = do
    call (metric (reap reason))
    terminate_instance ctx r.name
    remove_runner_by_id ctx r.runner_id

  unfoldable pub reap_tracked : Context → TrackedRunner → ℕ → Proc (Unit {0})
  unfolding overdue reap_for
  reap_tracked ctx r t = reap_for ctx r (overdue r.state r t)

  -- An instance of this scale set that the tracker does not know.
  unfoldable pub is_orphan : List Text → Instance → Bool
  unfolding config_value
  is_orphan known inst =
      config_value meta_managed inst.config == codes "true"
      && config_value meta_scale_set_id inst.config == itoa cfg.scale_set_id
      && not (contains known inst.name)

  unfoldable pub reap_orphan : Context → Instance → Proc (Unit {0})
  reap_orphan ctx inst = do call (metric (reap (codes "drift_sweep"))); destroy ctx inst.name

  unfoldable pub drift_sweep : Context → Proc (Unit {0})
  unfolding parallel_reap is_orphan reap_orphan
  drift_sweep ctx = do
    listed ← call (incus_list ctx cfg.incus_cfg.project)
    elim listed [
      | err e ↦ return tt
      | ok remote ↦ do
        known ← call names
        parallel_reap ctx (map (reap_orphan ctx) (keep_if (is_orphan known) remote))
    ]

  unfoldable pub reap_once : Context → Proc (Unit {0})
  unfolding parallel_reap reap_tracked drift_sweep
  reap_once ctx = do
    t ← call now
    tracked ← call snapshot
    parallel_reap ctx (map (λ r. reap_tracked ctx r t) tracked)
    done ← call (is_done ctx)
    if done then return tt else drift_sweep ctx
