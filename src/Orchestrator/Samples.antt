-- ===== src/Orchestrator/Samples.antt =====
-- A small scale set and some reachable states of its orchestrator, for the tests of
-- internal/orchestrator.
use incuse.Base.{◌+ℤ◌, arith, ◌-ℤ◌, pos, codes, true, false, none, ok, [], ◌∷◌, refl}
use incuse.Config.{ScaleSetConfig, IncusConfig, RunnerConfig, RunnerSpec, arch_amd64}
use incuse.Config
use incuse.Tracker
use incuse.Tracker.{TrackedRunner, launching, idle, busy}
use incuse.Orchestrator.Program.{Config, reserve, unreserve, start_task}
use incuse.Orchestrator.Handlers.{handle_desired_runner_count, start_spawn_tasks, start_spawn_task}
use incuse.Orchestrator.System.{
  System, Limits, Reach, initial, next, desires, acts, forks, ends, stops, shares, perform,
}

abbrev pub spec : RunnerSpec
spec = record { vcpus = pos 2; memory_mb = pos 4096; disk_gb = pos 20; arch = arch_amd64 }

abbrev pub runner_cfg : RunnerConfig
runner_cfg = record {
  image_server = [];
  image_protocol = [];
  image_alias = codes "incuse-runner";
  work_folder = codes "_work";
  registration_timeout = pos 600;
  max_job_duration = pos 3600;
  release_cache_ttl = none;
  max_parallel_mints = pos 4;
  max_parallel_launches = pos 2;
  instance_type = Config.instance_type_container;
  privileged = false;
  use_baked_image = true;
}

abbrev pub incus_cfg : IncusConfig
incus_cfg = record {
  url = [];
  socket_path = codes "/var/lib/incus/unix.socket";
  cert_file = [];
  key_file = [];
  server_cert_file = [];
  insecure_skip_verify = false;
  project = codes "incuse";
  default_profile = codes "incuse-runner";
  storage_pool = codes "default";
  request_timeout = pos 600;
}

abbrev pub sample : Config
sample = record {
  scale_set = record {
    name = codes "linux";
    runner_group = codes "Default";
    base_labels = codes "linux" ∷ [];
    max_runners = pos 2;
    runner = spec;
  };
  scale_set_id = pos 7;
  incus_cfg = incus_cfg;
  runner_cfg = runner_cfg;
  render = λ s. ok s.jit_config;
}

abbrev pub limits : Limits
limits = record { mints = 4; launches = 2 }

abbrev pub runner_a : TrackedRunner
runner_a = record {
  name = codes "linux-a";
  runner_id = pos 9;
  minted_at = 100;
  ready_at = 0;
  busy_at = 0;
  spec = spec;
  scale_set_id = pos 7;
  state = launching;
  termination_pending = false;
}

pub record Reached : Type 0 where
  pub last : System
  pub reached : Reach limits sample last

-- GitHub asks for five runners, and two are reserved.
unfoldable pub reserved : Reached
unfolding handle_desired_runner_count perform Tracker.size ◌+ℤ◌ ◌-ℤ◌
reserved = record {
  last = _;
  reached =
      next (next initial (desires (pos 5) refl))
        (acts [] [] (reserve (pos 2)) _ (pos 2) refl refl refl);
}

-- The orchestrator stops before the first of the two spawns begins.
unfoldable pub stopped : Reached
unfolding reserved start_spawn_tasks start_spawn_task
stopped = record {
  last = _;
  reached =
      next (next reserved.reached (stops refl refl))
        (acts [] [] start_task (λ r. _) false refl refl refl);
}

-- Both reservations are given back, and the call is over.
unfoldable pub finished : Reached
unfolding stopped
finished = record {
  last = _;
  reached =
      next
        (next
          (next (next stopped.reached (acts [] [] unreserve _ tt refl tt refl))
            (acts [] [] start_task _ false refl refl refl))
          (acts [] [] unreserve _ tt refl tt refl))
        (ends [] [] refl refl);
}

-- The first of the two spawns has begun, and other classes hold all permits of a limiter but one.
unfoldable pub spawning : Reached
unfolding reserved start_spawn_tasks start_spawn_task
spawning = record {
  last = _;
  reached =
      next
        (next (next reserved.reached (acts [] [] start_task (λ r. _) true refl refl refl))
          (forks [] [] _ _ refl refl))
        (shares 3 1 (omega arith) (omega arith) refl);
}
