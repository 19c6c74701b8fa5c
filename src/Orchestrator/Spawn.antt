-- ===== src/Orchestrator/Spawn.antt =====
-- internal/orchestrator/orchestrator.go: the task that mints, tracks and launches one runner.
pub mod Cleanup
pub mod Payload
use incuse.Base.{
  ℕ, ℤ, sub_ℕ, Text, codes, text_eq, ◌++◌, [], Bool, true, false, Option, none, some, Result, ok,
  err, if◌then◌else◌,
}
use incuse.Config.{RunnerSpec}
use incuse.Runner.{Release, CloudInitSpec}
use incuse.Incus.{LaunchRequest, Instance}
use incuse.Tracker.{TrackedRunner, launching}
use incuse.Orchestrator.Names.{make_runner_name}
use incuse.Orchestrator.Launch.{LaunchInputs, build_launch_request, is_container}
use incuse.Orchestrator.Terminate.{
  forget, terminate_instance, remove_runner_by_id, remove_runner_best_effort, runner_ref_id,
}
use incuse.Orchestrator.Program.{
  Config, Proc, Context, lifecycle, ◌>>=◌, ◌>>◌, return, call, Action, unreserve, commit,
  acquire_mint, acquire_launch, release_mint, release_launch, mark_idle, termination_pending, size,
  now, name_suffix, panic, metric, runner_spawned, launch_ok, launch_fail, launch_duration,
  set_tracked_instances, resolve, generate_jit_config, incus_launch,
}

-- After a successful launch: the runner becomes idle, or goes if its end was asked for meanwhile.
unfoldable pub settle : Context → TrackedRunner → Proc (Unit {0})
settle ctx tracked = do
  call (metric launch_ok)
  t ← call now
  requested ← call (mark_idle tracked.name t)
  elim requested [
    | some true ↦ do terminate_instance ctx tracked.name; remove_runner_by_id ctx tracked.runner_id
    | _ ↦ return tt
  ]

-- The end of a launch that did not come about.
unfoldable pub abandon_launch : Context → TrackedRunner → Proc (Unit {0})
abandon_launch ctx tracked = do forget tracked.name; remove_runner_by_id ctx tracked.runner_id

-- The part of `launch` that holds a launch permit.
unfoldable pub launch_permitted : Context → LaunchRequest → TrackedRunner → Proc (Unit {0})
unfolding settle abandon_launch
launch_permitted ctx req tracked = do
  pending ← call (termination_pending tracked.name)
  if pending then abandon_launch ctx tracked else (do
    start ← call now
    launched ← call (incus_launch ctx req)
    end ← call now
    call (metric (launch_duration (sub_ℕ end start)))
    elim launched [
      | err e ↦ do call (metric launch_fail); abandon_launch ctx tracked
      | ok inst ↦ settle ctx tracked
    ])

unfoldable pub launch : Context → LaunchRequest → TrackedRunner → Proc (Unit {0})
unfolding launch_permitted abandon_launch
launch ctx req tracked = do
  acquired ← call (acquire_launch ctx)
  if acquired
      then (do launch_permitted ctx req tracked; call release_launch)
      else abandon_launch ctx tracked

module _ (cfg : Config) where
  abbrev spec : RunnerSpec
  spec = cfg.scale_set.runner

  abbrev no_release : Release
  no_release = record { version = []; download_url = []; sha256 = [] }

  -- A baked image needs no release.
  unfoldable pub resolve_unless : Bool → Proc (Result Release)
  resolve_unless true = return (ok no_release)
  resolve_unless false = call (resolve lifecycle spec.arch)

  unfoldable pub resolve_release : Proc (Result Release)
  unfolding resolve_unless
  resolve_release = resolve_unless cfg.runner_cfg.use_baked_image

  abbrev pub cloud_init_spec : Release → Text → Text → CloudInitSpec
  cloud_init_spec release name jit = record {
    release = release;
    jit_config = jit;
    work_folder = cfg.runner_cfg.work_folder;
    runner_name = name;
    baked = cfg.runner_cfg.use_baked_image;
    container = is_container cfg.runner_cfg;
  }

  unfoldable pub launch_request : Text → Text → ℕ → LaunchRequest
  launch_request name cloud_init minted_at = build_launch_request (record {
    runner_name = name;
    spec = spec;
    incus_cfg = cfg.incus_cfg;
    runner_cfg = cfg.runner_cfg;
    cloud_init = cloud_init;
    scale_set_id = cfg.scale_set_id;
    minted_at = minted_at;
    description = codes "incuse runner " ++ name;
  })

  unfoldable pub new_tracked : Text → Option ℤ → ℕ → TrackedRunner
  unfolding runner_ref_id
  new_tracked name ref minted_at = record {
    name = name;
    runner_id = runner_ref_id ref;
    minted_at = minted_at;
    ready_at = 0;
    busy_at = 0;
    spec = spec;
    scale_set_id = cfg.scale_set_id;
    state = launching;
    termination_pending = false;
  }

  -- What the deferred calls of an early return do: the mint permit first, then the reservation.
  unfoldable pub give_up : Proc (Unit {0})
  give_up = do call release_mint; call unreserve

  -- From the rendered payload on.
  unfoldable pub track_and_launch : Text → Option ℤ → Text → Proc (Unit {0})
  track_and_launch name ref cloud_init = do
    minted_at ← call now
    let tracked = new_tracked name ref minted_at
    call (commit tracked)
    call (metric runner_spawned)
    n ← call size
    call (metric (set_tracked_instances n))
    call release_mint
    launch lifecycle (launch_request name cloud_init minted_at) tracked

  -- The runner's registration is dropped if there is no payload for it.
  unfoldable pub launch_rendered : Text → Option ℤ → Result Text → Proc (Unit {0})
  unfolding track_and_launch give_up
  launch_rendered name ref (err e) = do remove_runner_best_effort lifecycle ref; give_up
  launch_rendered name ref (ok cloud_init) = track_and_launch name ref cloud_init

  -- `none` is a panic of `makeRunnerName`: it runs the deferred calls, and then ends the program.
  unfoldable pub mint_named : Release → Option Text → Proc (Unit {0})
  unfolding launch_rendered give_up
  mint_named release none = do give_up; never ← call panic; absurd never
  mint_named release (some name) = do
    minted ← call (generate_jit_config lifecycle name cfg.runner_cfg.work_folder)
    elim minted [
      | err e ↦ give_up
      | ok (jit, ref) ↦ launch_rendered name ref (cfg.render (cloud_init_spec release name jit))
    ]

  unfoldable pub mint : Release → Proc (Unit {0})
  unfolding mint_named
  mint release = do
    suffix ← call name_suffix
    mint_named release (make_runner_name cfg.scale_set.name suffix)

  unfoldable pub mint_release : Result Release → Proc (Unit {0})
  unfolding mint give_up
  mint_release (err e) = give_up
  mint_release (ok release) = mint release

  unfoldable pub spawn_idle_runner : Proc (Unit {0})
  unfolding mint_release resolve_release
  spawn_idle_runner = do
    acquired ← call (acquire_mint lifecycle)
    if acquired then (do resolved ← resolve_release; mint_release resolved) else call unreserve
