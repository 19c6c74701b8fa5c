-- ===== src/Orchestrator/System/Sweeps.antt =====
-- The goroutines of a sweep of the reaper of internal/orchestrator hold what they should from their
-- start to their end.
use incuse.Base.{
  ℕ, ◌≡◌, refl, Text, true, false, Option, none, some, ok, err, List, [], ◌∷◌, map, All, arith,
}
use incuse.Incus.{Instance}
use incuse.Tracker.{TrackedRunner}
use incuse.Orchestrator.Program.{Config, Context, Code, Proc, goroutine, call, ◌>>◌, finish_sweep}
use incuse.Orchestrator.Terminate.{remove_runner_by_id}
use incuse.Orchestrator.Reaper.{
  parallel_reap, reap_for, reap_tracked, reap_orphan, drift_sweep, reap_once,
}
use incuse.Orchestrator.System.Held.{Held, nothing, Free, Holds}
use incuse.Orchestrator.System.Routines.{
  Keeps, destroy-Keeps, terminate_instance-Keeps, remove_runner_by_id-Keeps,
}
use incuse.Orchestrator.System.Tasks.{cap}

module _ (cfg : Config) where
  -- The goroutines of a sweep take a permit and a place in the wait group each, and give them back.
  parallel_reap-Keeps :
      (ctx : Context) (works : List (Proc (Unit {0})))
      → All (Keeps (cap cfg)) works
      → (h : Held) → Free h × (h.waits ≡ 0)
      → (k : Unit {0} → Code) → Holds (cap cfg) h (k tt)
      → Holds (cap cfg) h (parallel_reap ctx works k)
  unfolding parallel_reap
  parallel_reap-Keeps ctx [] all h f k e = (f, λ _. e)
  parallel_reap-Keeps ctx (w ∷ ws) (kw, all) h f k e = (
    f.0,
    elim [
      | true ↦ (
        tt,
        λ _. (
          record { reserved = 0; mint = 0; launch = 1; task = 0; waits = 1 },
          h,
          omega arith,
          kw _ _ (omega arith, λ _. (omega arith, λ _. omega arith)),
          parallel_reap-Keeps ctx ws all h f k e,
        ),
      )
      | false ↦ (f, λ _. e)
    ],
  )

  reap_for-Keeps :
      (ctx : Context) (r : TrackedRunner) (o : Option Text) → Keeps (cap cfg) (reap_for cfg ctx r o)
  unfolding reap_for
  reap_for-Keeps ctx r none h k e = e
  reap_for-Keeps ctx r (some reason) h k e = (
    tt,
    λ _.
        terminate_instance-Keeps (cap cfg) ctx r.name h (λ _. remove_runner_by_id ctx r.runner_id k)
          (remove_runner_by_id-Keeps (cap cfg) ctx r.runner_id h k e),
  )

  reaps-Keep :
      (ctx : Context) (t : ℕ) (rs : List TrackedRunner)
      → All (Keeps (cap cfg)) (map (λ r. reap_tracked cfg ctx r t) rs)
  unfolding reap_tracked
  reaps-Keep ctx t [] = tt
  reaps-Keep ctx t (r ∷ rs) = (reap_for-Keeps ctx r _, reaps-Keep ctx t rs)

  orphans-Keep :
      (ctx : Context) (is : List Instance) → All (Keeps (cap cfg)) (map (reap_orphan cfg ctx) is)
  unfolding reap_orphan
  orphans-Keep ctx [] = tt
  orphans-Keep ctx (i ∷ is) =
      (λ h k e. (tt, λ _. destroy-Keeps (cap cfg) ctx i.name h k e), orphans-Keep ctx is)

  drift_sweep-Keeps :
      (ctx : Context) (h : Held)
      → Free h × (h.waits ≡ 0)
      → (k : Unit {0} → Code) → Holds (cap cfg) h (k tt)
      → Holds (cap cfg) h (drift_sweep cfg ctx k)
  unfolding drift_sweep
  drift_sweep-Keeps ctx h f k e = (
    tt,
    elim [
      | err x ↦ e
      | ok remote ↦ (tt, λ known. parallel_reap-Keeps ctx _ (orphans-Keep ctx _) h f k e)
    ],
  )

  pub sweep-Holds :
      (ctx : Context) → Holds (cap cfg) nothing (goroutine (reap_once cfg ctx >> call finish_sweep))
  unfolding reap_once
  sweep-Holds ctx = (
    tt,
    λ t. (
      tt,
      λ rs.
          parallel_reap-Keeps ctx _ (reaps-Keep ctx t rs) nothing ((refl, refl), refl) _
            (
              tt,
              elim [
                | true ↦ (tt, λ _. omega arith)
                | false ↦
                    drift_sweep-Keeps ctx nothing ((refl, refl), refl) _ (tt, λ _. omega arith)
              ],
            ),
    ),
  )
