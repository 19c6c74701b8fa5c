-- ===== src/Orchestrator/System/Tasks.antt =====
-- The goroutines of internal/orchestrator hold what they should from their start to their end: the
-- task of a spawn and the three calls of the listener.
use incuse.Base.{
  refl, ℕ, zero, suc, ◌+◌, ◌≤◌, ℤ, pos_part, ◌≡◌, Text, Bool, true, false, Option, none, some,
  Result, ok, err, arith,
}
use incuse.Runner.{Release}
use incuse.Orchestrator.Program.{Config, Context, lifecycle, Code, Proc, halt, goroutine}
use incuse.Orchestrator.Spawn.{
  launch_request, new_tracked, resolve_unless, resolve_release, give_up, track_and_launch,
  launch_rendered, mint_named, mint_release, spawn_idle_runner,
}
use incuse.Orchestrator.Handlers.{
  JobEvent, spawn_task, start_spawn_task, start_spawn_tasks, target_count,
  handle_desired_runner_count, mark_started, end_completed, handle_job_started,
  handle_job_completed,
}
use incuse.Orchestrator.System.Held.{Held, nothing, Ready, Holds}
use incuse.Orchestrator.System.Routines.{
  terminate_instance-Keeps, launch-Keeps, remove_runner_best_effort-Keeps,
}

module _ (cfg : Config) where
  -- The greatest pool that the scale set allows.
  abbrev pub cap : ℕ
  cap = pos_part cfg.scale_set.max_runners

  -- With a mint permit and a reservation more than `h`.
  abbrev minting : Held → Held
  minting h = record h { mint = suc h.mint; reserved = suc h.reserved }

  -- A routine that ends with what it was given, which is no permit, less the permit and the reservation.
  abbrev Spends : Proc (Unit {0}) → Type 0
  Spends m =
      (h : Held)
      → Ready h
      → (k : Unit {0} → Code) → Holds cap h (k tt)
      → Holds cap (minting h) (m k)

  give_up-Spends : Spends (give_up cfg)
  unfolding give_up
  give_up-Spends h f k e = (omega arith, λ _. (omega arith, λ _. e))

  track_and_launch-Spends :
      (name : Text) (ref : Option ℤ) (cloud_init : Text)
      → Spends (track_and_launch cfg name ref cloud_init)
  unfolding track_and_launch
  track_and_launch-Spends name ref cloud_init h f k e = (
    tt,
    λ t. (
      omega arith,
      λ _. (
        tt,
        λ _. (
          tt,
          λ n. (
            tt,
            λ _. (
              omega arith,
              λ _.
                  launch-Keeps cap lifecycle (launch_request cfg name cloud_init t)
                    (new_tracked cfg name ref t) h f k e,
            ),
          ),
        ),
      ),
    ),
  )

  launch_rendered-Spends :
      (name : Text) (ref : Option ℤ) (r : Result Text) → Spends (launch_rendered cfg name ref r)
  unfolding launch_rendered
  launch_rendered-Spends name ref (err x) h f k e =
      remove_runner_best_effort-Keeps cap lifecycle ref (minting h) (λ _. give_up cfg k)
        (give_up-Spends h f k e)
  launch_rendered-Spends name ref (ok c) h f k e = track_and_launch-Spends name ref c h f k e

  mint_named-Spends : (release : Release) (o : Option Text) → Spends (mint_named cfg release o)
  unfolding mint_named
  mint_named-Spends release none h f k e =
      (omega arith, λ _. (omega arith, λ _. (tt, λ never. absurd never)))
  mint_named-Spends release (some name) h f k e = (
    (omega arith, f.1),
    elim [
      | err x ↦ give_up-Spends h f k e
      | ok (jit, ref) ↦ launch_rendered-Spends name ref _ h f k e
    ],
  )

  mint_release-Spends : (r : Result Release) → Spends (mint_release cfg r)
  unfolding mint_release
  mint_release-Spends (err x) h f k e = give_up-Spends h f k e
  mint_release-Spends (ok release) h f k e = (tt, λ suffix. mint_named-Spends release _ h f k e)

  resolve_unless-Spends :
      (baked : Bool) → Spends (λ k. resolve_unless cfg baked (λ r. mint_release cfg r k))
  unfolding resolve_unless
  resolve_unless-Spends true h f k e = mint_release-Spends (ok _) h f k e
  resolve_unless-Spends false h f k e = (tt, λ r. mint_release-Spends r h f k e)

  -- A spawn spends one reservation.
  pub spawn_idle_runner-Holds :
      (h : Held)
      → Ready h
      → (k : Unit {0} → Code) → Holds cap h (k tt)
      → Holds cap (record h { reserved = suc h.reserved }) (spawn_idle_runner cfg k)
  unfolding spawn_idle_runner resolve_release
  spawn_idle_runner-Holds h f k e =
      (f, elim [ false ↦ (omega arith, λ _. e) | true ↦ resolve_unless-Spends _ h f k e ])

  -- `n` more, in the shape in which the loop counts down.
  abbrev more : ℕ → ℕ → ℕ
  more zero m = m
  more (suc n) m = suc (more n m)

  more-eq : (n m : ℕ) → more n m ≡ m + n
  more-eq zero m = omega arith
  more-eq (suc n) m = omega (arith, more-eq n m)

  spawn_tasks-Holds :
      (n : ℕ) (h : Held) (k : Unit {0} → Code)
      → Holds cap h (k tt)
      → Holds cap (record h { reserved = more n h.reserved }) (start_spawn_tasks cfg n k)
  unfolding start_spawn_tasks start_spawn_task spawn_task
  spawn_tasks-Holds zero h k e = e
  spawn_tasks-Holds (suc n) h k e = (
    tt,
    elim [
      | true ↦ (
        record { reserved = 1; mint = 0; launch = 0; task = 1; waits = 0 },
        record h { reserved = more n h.reserved },
        omega arith,
        spawn_idle_runner-Holds (record { reserved = 0; mint = 0; launch = 0; task = 1; waits = 0 })
            ((refl, refl), omega arith) _ (omega arith, λ _. omega arith),
        spawn_tasks-Holds n h k e,
      )
      | false ↦ (omega arith, λ _. spawn_tasks-Holds n h k e)
    ],
  )

  target-le : (count : ℤ) → pos_part (target_count cfg.scale_set.max_runners count) ≤ cap
  unfolding target_count
  target-le count = ground arith

  -- The listener's calls hold nothing when they begin.
  pub desired-Holds :
      (count : ℤ) → Holds cap nothing (handle_desired_runner_count cfg count (λ _. halt))
  unfolding handle_desired_runner_count
  desired-Holds count = (
    target-le count,
    λ r. rw (← more-eq (pos_part r) 0) (spawn_tasks-Holds (pos_part r) nothing _ (omega arith)),
  )

  pub started-Holds : (e : Option JobEvent) → Holds cap nothing (goroutine (handle_job_started e))
  unfolding handle_job_started
  started-Holds e = marked _
    where
      marked : (o : Option Text) → Holds cap nothing (mark_started o (λ _. halt))
      marked none = omega arith
      marked (some name) = (tt, λ t. (tt, λ _. omega arith))

  pub completed-Holds :
      (ctx : Context) (e : Option JobEvent)
      → Holds cap nothing (goroutine (handle_job_completed ctx e))
  unfolding handle_job_completed
  completed-Holds ctx e = ended _
    where
      ended : (o : Option Text) → Holds cap nothing (end_completed ctx o (λ _. halt))
      ended none = omega arith
      ended (some name) = (
        tt,
        elim [
          | none ↦ omega arith
          | some r ↦ (tt, λ _. terminate_instance-Keeps cap ctx name nothing _ (omega arith))
        ],
      )
