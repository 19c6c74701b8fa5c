-- ===== src/Orchestrator/Setup.antt =====
-- internal/orchestrator/orchestrator.go: `New` and `NewLimiter`.
use mathlib.Core.Option
use incuse.Base.{
  zero, ℤ, pos, text_eq, ◌==◌, is_empty, Bool, not, ◌&&◌, ◌||◌, Option, none, some, List, [], ◌∷◌,
  ◌⊎◌, inl, inr, first_failed,
}
use incuse.Config.{ScaleSetConfig, IncusConfig, RunnerConfig, arch_amd64, arch_arm64}
use incuse.Config.Validate.{is_positive}
use incuse.Tracker.{Tracker, new_tracker}

-- The fields of `Config` that `New` looks at. A collaborator is given or nil, a limiter is given by
-- its capacity; the duration is in nanoseconds.
pub record Setup : Type 0 where
  pub has_incus_client : Bool
  pub has_scale_set : Bool
  pub has_release_resolver : Bool
  pub has_logger : Bool
  pub spec : ScaleSetConfig
  pub incus_cfg : IncusConfig
  pub runner_cfg : RunnerConfig
  pub reap_interval : ℤ
  pub mint_limiter : Option ℤ
  pub launch_limiter : Option ℤ

pub data SetupError : Type 0 where
  no_incus_client no_scale_set no_release_resolver no_logger no_project no_default_profile :
      SetupError
  bad_registration_timeout bad_max_job_duration bad_parallel_mints bad_parallel_launches :
      SetupError
  bad_max_runners bad_shape bad_arch : SetupError

unfoldable pub setup_checks : Setup → List (Bool × SetupError)
setup_checks s =
    (s.has_incus_client, no_incus_client)
    ∷ (s.has_scale_set, no_scale_set)
    ∷ (s.has_release_resolver, no_release_resolver)
    ∷ (s.has_logger, no_logger)
    ∷ (not (is_empty s.incus_cfg.project), no_project)
    ∷ (not (is_empty s.incus_cfg.default_profile), no_default_profile)
    ∷ (is_positive s.runner_cfg.registration_timeout, bad_registration_timeout)
    ∷ (is_positive s.runner_cfg.max_job_duration, bad_max_job_duration)
    ∷ (is_positive s.runner_cfg.max_parallel_mints, bad_parallel_mints)
    ∷ (is_positive s.runner_cfg.max_parallel_launches, bad_parallel_launches)
    ∷ (is_positive s.spec.max_runners, bad_max_runners)
    ∷ (
      is_positive s.spec.runner.vcpus
          && is_positive s.spec.runner.memory_mb
          && is_positive s.spec.runner.disk_gb,
      bad_shape,
    )
    ∷ (s.spec.runner.arch == arch_amd64 || s.spec.runner.arch == arch_arm64, bad_arch)
    ∷ []

-- What `New` makes of the settings: the interval of the reaper, the capacities of the limiters, an
-- empty registry.
pub record Built : Type 0 where
  pub reap_interval : ℤ
  pub mints : ℤ
  pub launches : ℤ
  pub tracker : Tracker

-- 30 seconds, unless another interval is given
unfoldable pub reap_interval_or_default : ℤ → ℤ
reap_interval_or_default (pos zero) = pos 30000000000
reap_interval_or_default n = n

unfoldable pub built : Setup → Built
unfolding reap_interval_or_default
built s = record {
  reap_interval = reap_interval_or_default s.reap_interval;
  mints = Option.get_or s.mint_limiter s.runner_cfg.max_parallel_mints;
  launches = Option.get_or s.launch_limiter s.runner_cfg.max_parallel_launches;
  tracker = new_tracker;
}

unfoldable pub new : Setup → SetupError ⊎ Built
unfolding setup_checks built
new s = elim (first_failed (setup_checks s)) [ none ↦ inr (built s) | some e ↦ inl e ]
