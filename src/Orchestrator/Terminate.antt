-- ===== src/Orchestrator/Terminate.antt =====
-- internal/orchestrator/orchestrator.go: the teardown of an instance and of a runner registration.
use incuse.Base.{ℤ, pos, sub_ℕ, Text, Bool, false, Option, none, some, ◌==◌, int_eq, if◌then◌else◌}
use incuse.Tracker.{RunnerState, TrackedRunner, is_launching}
use incuse.Orchestrator.Program.{
  Proc, Context, fresh, ◌>>=◌, ◌>>◌, return, call, mark_for_termination, get, remove, size, now,
  is_done, metric, runner_lifetime, set_tracked_instances, remove_runner, incus_stop, incus_delete,
}

-- Drop a name from the tracker and report the new size.
unfoldable pub forget : Text → Proc (Unit {0})
forget name = do call (remove name); n ← call size; call (metric (set_tracked_instances n))

abbrev pub observe_lifetime : Option TrackedRunner → Proc (Unit {0})
observe_lifetime none = return tt
observe_lifetime (some r) = do t ← call now; call (metric (runner_lifetime (sub_ℕ t r.minted_at)))

-- Stop and delete; errors are logged only.
unfoldable pub destroy : Context → Text → Proc (Unit {0})
destroy ctx name = do _ ← call (incus_stop ctx name); _ ← call (incus_delete ctx name); return tt

-- After `markForTermination`, unless the launch is still in flight.
unfoldable pub tear_down : Context → Text → Proc (Unit {0})
unfolding forget destroy
tear_down ctx name = do r ← call (get name); observe_lifetime r; forget name; destroy ctx name

-- `ok && state == statusLaunching`
abbrev pub in_flight : Option RunnerState → Bool
in_flight none = false
in_flight (some s) = is_launching s

unfoldable pub terminate_instance : Context → Text → Proc (Unit {0})
unfolding tear_down
terminate_instance ctx name = do
  marked ← call (mark_for_termination name)
  if in_flight marked then return tt else tear_down ctx name

unfoldable pub remove_runner_by_id : Context → ℤ → Proc (Unit {0})
remove_runner_by_id ctx runner_id = if runner_id == pos 0 then return tt else (do
  done ← call (is_done ctx)
  _ ← call (remove_runner (if done then fresh else ctx) runner_id)
  return tt)

unfoldable pub remove_runner_best_effort : Context → Option ℤ → Proc (Unit {0})
unfolding remove_runner_by_id
remove_runner_best_effort ctx none = return tt
remove_runner_best_effort ctx (some id) = remove_runner_by_id ctx id

unfoldable pub runner_ref_id : Option ℤ → ℤ
runner_ref_id none = pos 0
runner_ref_id (some id) = id
