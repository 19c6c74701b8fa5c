-- ===== src/Tracker/Tests.antt =====
-- The theorems about internal/orchestrator/tracker.go at concrete operations.
use incuse.Base.{pos, Text, codes, text_eq, none, false, List, [], ◌∷◌, ◌≡◌}
use incuse.Config.{arch_amd64}
use incuse.Tracker.{TrackedRunner, new_tracker, launching, get}
use incuse.Tracker.Refinement.{Op, adds, idles, busies, removes, run, spec_run, run-refines}

abbrev runner : TrackedRunner
runner = record {
  name = codes "linux-a";
  runner_id = pos 9;
  minted_at = 100;
  ready_at = 0;
  busy_at = 0;
  spec = record { vcpus = pos 2; memory_mb = pos 4096; disk_gb = pos 20; arch = arch_amd64 };
  scale_set_id = pos 7;
  state = launching;
  termination_pending = false;
}

abbrev ops : List Op
ops = adds runner ∷ busies runner.name 120 ∷ idles runner.name 130 ∷ removes (codes "b") ∷ []

run-refines_example :
    ((run ops new_tracker).0 ≡ (spec_run ops (λ n. none)).0)
    × ((n : Text) → get n (run ops new_tracker).1 ≡ (spec_run ops (λ n. none)).1 n)
run-refines_example = run-refines ops
