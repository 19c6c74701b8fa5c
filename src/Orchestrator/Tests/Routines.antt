-- ===== src/Orchestrator/Tests/Routines.antt =====
-- The theorems about single routines of internal/orchestrator at concrete inputs.
use incuse.Base.{pos, codes, lower_rune, true, false, none, [], ◌≡◌, refl, text_eq, replicate}
use incuse.Incus.{Instance}
use incuse.Orchestrator.Names.{make_runner_name, sanitize_name_part}
use incuse.Orchestrator.Names.Bounds.{runner_name_panics}
use incuse.Orchestrator.Program.{running, goroutine}
use incuse.Orchestrator.Launch.{LaunchInputs, build_launch_request}
use incuse.Orchestrator.Spawn.{spawn_idle_runner}
use incuse.Orchestrator.Spawn.Cleanup.{Cleans, spawn-Cleans_up}
use incuse.Orchestrator.Reaper.{is_orphan, drift_sweep}
use incuse.Orchestrator.Reaper.{reap_once}
use incuse.Orchestrator.Reaper.Overdue.{EndsDue, untold, reap_once-EndsDue}
use incuse.Orchestrator.Reaper.Drift.{
  SparesOthers, drift_sweep_targets, is_orphan-launched, is_orphan-foreign,
}
use incuse.Orchestrator.Samples.{sample, spec, incus_cfg, runner_cfg}

runner_name_panics_example : make_runner_name (codes "linux") (replicate 62 b'a') ≡ none
unfolding sanitize_name_part lower_rune
runner_name_panics_example = runner_name_panics (codes "linux") (replicate 62 b'a') refl refl

spawn-Cleans_up_example : Cleans none (goroutine (spawn_idle_runner sample))
spawn-Cleans_up_example = spawn-Cleans_up sample

drift_sweep_targets_example :
    SparesOthers sample
      (record { listed = []; known = none })
      (goroutine (drift_sweep sample running))
drift_sweep_targets_example = drift_sweep_targets sample running

abbrev inputs : LaunchInputs
inputs = record {
  runner_name = codes "linux-a";
  spec = spec;
  incus_cfg = incus_cfg;
  runner_cfg = runner_cfg;
  cloud_init = codes "#cloud-config";
  scale_set_id = pos 7;
  minted_at = 0;
  description = [];
}

abbrev launched : Instance
launched = record {
  name = codes "linux-a";
  description = [];
  instance_type = codes "container";
  status = codes "Running";
  project = codes "incuse";
  config = (build_launch_request inputs).config;
}

is_orphan-launched_example : is_orphan sample [] launched ≡ true
unfolding build_launch_request
is_orphan-launched_example = is_orphan-launched sample inputs launched [] (refl, refl, refl) refl

is_orphan-foreign_example : is_orphan (record sample { scale_set_id = pos 8 }) [] launched ≡ false
unfolding build_launch_request
is_orphan-foreign_example =
    is_orphan-foreign (record sample { scale_set_id = pos 8 }) inputs launched [] (refl, refl, refl)
      (λ e. cc)

reap_once-EndsDue_example : EndsDue sample (untold sample) (goroutine (reap_once sample running))
reap_once-EndsDue_example = reap_once-EndsDue sample running
