-- ===== src/Orchestrator/System/Routines.antt =====
-- Each routine of internal/orchestrator holds what it should: it gives back what it took, on every
-- path and whatever its calls answer.
use incuse.Base.{
  ◌≤◌, ℕ, suc, ℤ, pos, Text, true, false, Option, none, some, ok, err, arith, Bool-cases, inl, inr,
  ◌==◌, int_eq,
}
use incuse.Incus.{LaunchRequest}
use incuse.Tracker.{TrackedRunner, launching, idle, busy}
use incuse.Orchestrator.Program.{Context, Code, Proc}
use incuse.Orchestrator.Terminate.{
  forget, destroy, tear_down, terminate_instance, remove_runner_by_id, remove_runner_best_effort,
}
use incuse.Orchestrator.Spawn.{settle, abandon_launch, launch_permitted, launch}
use incuse.Orchestrator.System.Held.{Held, Ready, Holds}

module _ (cap : ℕ) where
  -- A routine that leaves what is held as it was.
  abbrev pub Keeps : Proc (Unit {0}) → Type 0
  Keeps m = (h : Held) (k : Unit {0} → Code) → Holds cap h (k tt) → Holds cap h (m k)

  forget-Keeps : (name : Text) → Keeps (forget name)
  unfolding forget
  forget-Keeps name h k e = (tt, λ _. (tt, λ n. (tt, λ _. e)))

  pub destroy-Keeps : (ctx : Context) (name : Text) → Keeps (destroy ctx name)
  unfolding destroy
  destroy-Keeps ctx name h k e = (tt, λ _. (tt, λ _. e))

  tear_down-Keeps : (ctx : Context) (name : Text) → Keeps (tear_down ctx name)
  unfolding tear_down
  tear_down-Keeps ctx name h k e = (
    tt,
    elim [
      | none ↦ forget-Keeps name h (λ _. destroy ctx name k) (destroy-Keeps ctx name h k e)
      | some r ↦ (
        tt,
        λ t.
            (tt, λ _. forget-Keeps name h (λ _. destroy ctx name k) (destroy-Keeps ctx name h k e)),
      )
    ],
  )

  pub terminate_instance-Keeps : (ctx : Context) (name : Text) → Keeps (terminate_instance ctx name)
  unfolding terminate_instance
  terminate_instance-Keeps ctx name h k e = (
    tt,
    elim [
      | none ↦ tear_down-Keeps ctx name h k e
      | some launching ↦ e
      | some idle ↦ tear_down-Keeps ctx name h k e
      | some busy ↦ tear_down-Keeps ctx name h k e
    ],
  )

  pub remove_runner_by_id-Keeps : (ctx : Context) (id : ℤ) → Keeps (remove_runner_by_id ctx id)
  unfolding remove_runner_by_id
  remove_runner_by_id-Keeps ctx id h k e = elim (Bool-cases (id == pos 0)) [
    | inl z ↦ rw (z, remove_runner_by_id) e
    | inr z ↦ rw (z, remove_runner_by_id) (tt, λ done. (tt, λ _. e))
  ]

  pub remove_runner_best_effort-Keeps :
      (ctx : Context) (ref : Option ℤ) → Keeps (remove_runner_best_effort ctx ref)
  unfolding remove_runner_best_effort
  remove_runner_best_effort-Keeps ctx none h k e = e
  remove_runner_best_effort-Keeps ctx (some id) h k e = remove_runner_by_id-Keeps ctx id h k e

  settle-Keeps : (ctx : Context) (r : TrackedRunner) → Keeps (settle ctx r)
  unfolding settle
  settle-Keeps ctx r h k e = (
    tt,
    λ _. (
      tt,
      λ t. (
        tt,
        elim [
          | none ↦ e
          | some false ↦ e
          | some true ↦
              terminate_instance-Keeps ctx r.name h (λ _. remove_runner_by_id ctx r.runner_id k)
                (remove_runner_by_id-Keeps ctx r.runner_id h k e)
        ],
      ),
    ),
  )

  abandon_launch-Keeps : (ctx : Context) (r : TrackedRunner) → Keeps (abandon_launch ctx r)
  unfolding abandon_launch
  abandon_launch-Keeps ctx r h k e =
      forget-Keeps r.name h (λ _. remove_runner_by_id ctx r.runner_id k)
        (remove_runner_by_id-Keeps ctx r.runner_id h k e)

  launch_permitted-Keeps :
      (ctx : Context) (req : LaunchRequest) (r : TrackedRunner) (h : Held)
      → (1 ≤ h.launch) × (1 ≤ h.task)
      → (k : Unit {0} → Code) → Holds cap h (k tt)
      → Holds cap h (launch_permitted ctx req r k)
  unfolding launch_permitted
  launch_permitted-Keeps ctx req r h l k e = (
    tt,
    elim [
      | true ↦ abandon_launch-Keeps ctx r h k e
      | false ↦ (
        tt,
        λ start. (
          l,
          elim [
            | err x ↦ (tt, λ end. (tt, λ _. (tt, λ _. abandon_launch-Keeps ctx r h k e)))
            | ok inst ↦ (tt, λ end. (tt, λ _. settle-Keeps ctx r h k e))
          ],
        ),
      )
    ],
  )

  -- A routine of a task that does so while it holds no permit.
  abbrev pub KeepsReady : Proc (Unit {0}) → Type 0
  KeepsReady m =
      (h : Held) → Ready h → (k : Unit {0} → Code) → Holds cap h (k tt) → Holds cap h (m k)

  pub launch-Keeps :
      (ctx : Context) (req : LaunchRequest) (r : TrackedRunner) → KeepsReady (launch ctx req r)
  unfolding launch
  launch-Keeps ctx req r h f k e = (
    f.0,
    elim [
      | true ↦
          launch_permitted-Keeps ctx req r (record h { launch = suc h.launch }) (omega arith, f.1) _
            (omega arith, λ _. e)
      | false ↦ abandon_launch-Keeps ctx r h k e
    ],
  )
