-- ===== src/Orchestrator/Handlers.antt =====
-- internal/orchestrator/orchestrator.go: the three calls of the listener, `sslistener.Scaler`.
use incuse.Base.{
  ℕ, zero, suc, ℤ, pos, ltb_ℤ, pos_part, Text, codes, is_empty, Bool, true, false, Option, none,
  some, if◌then◌else◌,
}
use incuse.Orchestrator.Terminate.{terminate_instance}
use incuse.Orchestrator.Spawn.{spawn_idle_runner}
use incuse.Orchestrator.Program.{
  Config, Proc, Context, ◌>>=◌, ◌>>◌, return, call, go, reserve, unreserve, start_task, finish_task,
  mark_busy, get, now, metric, reap,
}

-- The fields of `ssapi.JobStarted` and `ssapi.JobCompleted` that the handlers act on.
pub record JobEvent : Type 0 where
  pub runner_name : Text

-- `min(count, max)`, and no less than 0
unfoldable pub target_count : ℤ → ℤ → ℤ
target_count max count =
    let target = if ltb_ℤ max count then max else count in
    if ltb_ℤ target (pos 0) then pos 0 else target

module _ (cfg : Config) where
  -- The task of one spawn: `tasks.Add` before `go`, `tasks.Done` at its end.
  unfoldable pub spawn_task : Proc (Unit {0})
  spawn_task = spawn_idle_runner cfg >> call finish_task

  unfoldable pub start_spawn_task : Proc Bool
  unfolding spawn_task
  start_spawn_task = do
    started ← call start_task
    if started then (do go spawn_task; return true) else return false

  -- The loop over `scaleUp`.
  unfoldable pub start_spawn_tasks : ℕ → Proc (Unit {0})
  start_spawn_tasks zero = return tt
  start_spawn_tasks (suc n) = do
    started ← start_spawn_task
    if started then return tt else call unreserve
    start_spawn_tasks n

  unfoldable pub handle_desired_runner_count : ℤ → Proc ℤ
  unfolding start_spawn_tasks target_count
  handle_desired_runner_count count = do
    let target = target_count cfg.scale_set.max_runners count
    scale_up ← call (reserve target)
    start_spawn_tasks (pos_part scale_up)
    return target

-- The runner that an event names: none for a nil event or an empty name.
abbrev named_runner : Option JobEvent → Option Text
named_runner none = none
named_runner (some e) = if is_empty e.runner_name then none else some e.runner_name

unfoldable pub mark_started : Option Text → Proc (Unit {0})
mark_started none = return tt
mark_started (some name) = do t ← call now; _ ← call (mark_busy name t); return tt

unfoldable pub handle_job_started : Option JobEvent → Proc (Unit {0})
unfolding mark_started
handle_job_started event = mark_started (named_runner event)

unfoldable pub end_completed : Context → Option Text → Proc (Unit {0})
end_completed ctx none = return tt
end_completed ctx (some name) = do
  known ← call (get name)
  elim known [
    | none ↦ return tt
    | some r ↦ do call (metric (reap (codes "job_completed"))); terminate_instance ctx name
  ]

unfoldable pub handle_job_completed : Context → Option JobEvent → Proc (Unit {0})
unfolding end_completed
handle_job_completed ctx event = end_completed ctx (named_runner event)
