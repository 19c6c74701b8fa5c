-- ===== src/Orchestrator/Tests/System.antt =====
-- The theorems of internal/orchestrator at concrete states, and tests of its definitions.
use incuse.Base.{arith, ◌+◌, ◌≤◌, pos, pos_part, ◌≤ℤ◌, ◌+ℤ◌, ◌≡◌, ◌⊎◌, refl, [], true}
use incuse.Tracker
use incuse.Orchestrator.Program.{unreserve}
use incuse.Orchestrator.System.{System, Step, acts, perform}
use incuse.Orchestrator.System.Safety.{pool_bounded, nothing_leaks, releases_are-Backed}
use incuse.Orchestrator.System.Spawns.{
  at_mint, at_launch, at_spawn, total, limiters_bounded, no_spawn_after_stop,
}
use incuse.Orchestrator.System.Drain.{Settles, IsDrained, HasPanicked, goroutines_drain}
use incuse.Orchestrator.Samples.{sample, limits, reserved, spawning, stopped, finished}

pool_bounded_example :
    (pos 0 ≤ℤ reserved.last.shared.spawn_inflight)
    × (Tracker.size reserved.last.shared.tracker + pos_part reserved.last.shared.spawn_inflight ≤ 2)
pool_bounded_example = pool_bounded limits sample reserved.reached

reserved_two : reserved.last.shared.spawn_inflight ≡ pos 2
unfolding reserved perform ◌+ℤ◌
reserved_two = refl

limiters_bounded_example :
    (total at_mint spawning.last.code + spawning.last.shared.mint_elsewhere ≤ 4)
    × (total at_launch spawning.last.code + spawning.last.shared.launch_elsewhere ≤ 2)
limiters_bounded_example = limiters_bounded limits sample spawning.reached

nothing_leaks_example :
    (finished.last.shared.spawn_inflight ≡ pos 0)
    × (finished.last.shared.mint_held ≡ 0)
    × (finished.last.shared.launch_held ≡ 0)
    × (finished.last.shared.tasks ≡ 0)
    × (finished.last.shared.reaping ≡ 0)
unfolding finished
nothing_leaks_example = nothing_leaks limits sample finished.reached refl

releases_are-Backed_example : 1 ≤ pos_part stopped.last.shared.spawn_inflight
unfolding stopped
releases_are-Backed_example =
    releases_are-Backed limits sample stopped.reached [] [] unreserve _ refl

after_stop : (t : System) × Step limits sample stopped.last t
unfolding stopped
after_stop = (_, acts [] [] unreserve _ tt refl tt refl)

no_spawn_after_stop_example :
    (after_stop.0.shared.shutting_down ≡ true)
    × (after_stop.0.shared.tasks ≤ stopped.last.shared.tasks)
    × (total at_spawn after_stop.0.code ≤ after_stop.0.shared.tasks)
unfolding stopped
no_spawn_after_stop_example = no_spawn_after_stop limits sample stopped.reached after_stop.1 refl

goroutines_drain_example :
    Settles limits sample
      (λ t. IsDrained limits sample t ⊎ HasPanicked limits sample t)
      spawning.last
unfolding spawning perform
goroutines_drain_example =
    goroutines_drain limits sample spawning.last spawning.reached (omega arith, omega arith)
