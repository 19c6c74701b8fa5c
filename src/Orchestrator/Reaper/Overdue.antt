-- ===== src/Orchestrator/Reaper/Overdue.antt =====
-- Which runners the timeouts of internal/orchestrator/reaper.go end.
use mathlib.Core.List.{Memᴰ}
use incuse.Base.{
  ℕ, ℤ, sub_ℕ, ◌≤ℤ◌, ltb_ℤ, if◌then◌else◌, arith, pos, int_eq, ◌==◌, Text, true, false, Option,
  none, some, List, [], ◌∷◌, map, ◌≡◌, refl, All, inl, inr, Bool-cases, ok, err, keep_if,
}
use incuse.Incus.{Instance}
use incuse.Tracker.{TrackedRunner, RunnerState, launching, idle, busy}
use incuse.Orchestrator.Terminate.{
  forget, destroy, observe_lifetime, tear_down, in_flight, terminate_instance, remove_runner_by_id,
}
use incuse.Orchestrator.Reaper.{
  parallel_reap, overdue, reap_for, reap_tracked, is_orphan, reap_orphan, drift_sweep, reap_once,
}
use incuse.Orchestrator.Program.{
  Config, Context, Action, Reply, Code, halt, act, fork, Proc, goroutine, now, snapshot,
  mark_for_termination, remove, remove_runner,
}

-- What a goroutine has been told: the time of the sweep, and the tracker's runners.
pub record Told : Type 0 where
  pub time : Option ℕ
  pub runners : List TrackedRunner

abbrev pub first : Option ℕ → ℕ → Option ℕ
first none t = some t
first (some u) t = some u

abbrev pub told_after : Told → (a : Action) → Reply a → Told
told_after s now t = record s { time = first s.time t }
told_after s snapshot rs = record s { runners = rs }
told_after s _ _ = s

exceeds :
    (elapsed limit : ℤ) (a b : Text)
    → (if ltb_ℤ limit elapsed then some a else none) ≡ some b
    → (elapsed ≤ℤ limit)
    → ⊥
exceeds elapsed limit a b h = ground arith

module _ (cfg : Config) where
  -- The time of a busy runner is that of its job; that of any other one is the time to register.
  abbrev pub IsLate : RunnerState → TrackedRunner → ℕ → Type 0
  IsLate busy r t = (sub_ℕ t r.busy_at ≤ℤ cfg.runner_cfg.max_job_duration) → ⊥
  IsLate launching r t = (sub_ℕ t r.minted_at ≤ℤ cfg.runner_cfg.registration_timeout) → ⊥
  IsLate idle r t = (sub_ℕ t r.minted_at ≤ℤ cfg.runner_cfg.registration_timeout) → ⊥

  overdue-IsLate :
      (st : RunnerState) (r : TrackedRunner) (t : ℕ) (reason : Text)
      → overdue cfg st r t ≡ some reason
      → IsLate st r t
  unfolding overdue
  overdue-IsLate busy r t reason h =
      exceeds (sub_ℕ t r.busy_at) cfg.runner_cfg.max_job_duration _ reason h
  overdue-IsLate launching r t reason h =
      exceeds (sub_ℕ t r.minted_at) cfg.runner_cfg.registration_timeout _ reason h
  overdue-IsLate idle r t reason h =
      exceeds (sub_ℕ t r.minted_at) cfg.runner_cfg.registration_timeout _ reason h

  -- A runner of the snapshot that has run over its time at the time of the sweep: its job's, if it was
  -- busy, or else the time to register.
  pub record IsDue (s : Told) (r : TrackedRunner) : Type 0 where
    pub is_listed : Memᴰ r s.runners
    pub at : ℕ
    pub is_time : s.time ≡ some at
    pub is_late : IsLate r.state r at

  abbrev pub Permits : Told → Action → Type 0
  Permits s (mark_for_termination n) = (r : TrackedRunner) × IsDue s r × (r.name ≡ n)
  Permits s (remove n) = (r : TrackedRunner) × IsDue s r × (r.name ≡ n)
  Permits s (remove_runner ctx id) = (r : TrackedRunner) × IsDue s r × (r.runner_id ≡ id)
  Permits s _ = Unit

  -- On every path a runner is ended, and its registration removed, only if it is due.
  abbrev pub EndsDue : Told → Code → Type 0
  EndsDue s halt = Unit
  EndsDue s (act a k) = Permits s a × ((r : Reply a) → EndsDue (told_after s a r) (k r))
  EndsDue s (fork c k) = EndsDue s c × EndsDue s k

  module _ (t : ℕ) (rs : List TrackedRunner) where
    abbrev told : Told
    told = record { time = some t; runners = rs }

    abbrev Fine : Proc (Unit {0}) → Type 0
    Fine m = (k : Unit {0} → Code) → EndsDue told (k tt) → EndsDue told (m k)

    destroy-Fine : (ctx : Context) (n : Text) → Fine (destroy ctx n)
    unfolding destroy
    destroy-Fine ctx n k e = (tt, λ _. (tt, λ _. e))

    observe_lifetime-Fine : (o : Option TrackedRunner) → Fine (observe_lifetime o)
    observe_lifetime-Fine none k e = e
    observe_lifetime-Fine (some r) k e = (tt, λ _. (tt, λ _. e))

    forget-Fine : (r : TrackedRunner) → IsDue told r → Fine (forget r.name)
    unfolding forget
    forget-Fine r d k e = ((r, d, refl), λ _. (tt, λ _. (tt, λ _. e)))

    tear_down-Fine :
        (ctx : Context) (r : TrackedRunner) → IsDue told r → Fine (tear_down ctx r.name)
    unfolding tear_down
    tear_down-Fine ctx r d k e =
        let last = destroy-Fine ctx r.name k e in
        (
          tt,
          λ o.
              observe_lifetime-Fine o (λ _. forget r.name (λ _. destroy ctx r.name k))
                (forget-Fine r d (λ _. destroy ctx r.name k) last),
        )

    terminate_instance-Fine :
        (ctx : Context) (r : TrackedRunner) → IsDue told r → Fine (terminate_instance ctx r.name)
    unfolding terminate_instance
    terminate_instance-Fine ctx r d k e = (
      (r, d, refl),
      λ marked. elim (Bool-cases (in_flight marked)) [
        | inl f ↦ rw f e
        | inr f ↦ rw f (tear_down-Fine ctx r d k e)
      ],
    )

    remove_runner_by_id-Fine :
        (ctx : Context) (r : TrackedRunner)
        → IsDue told r
        → Fine (remove_runner_by_id ctx r.runner_id)
    unfolding remove_runner_by_id
    remove_runner_by_id-Fine ctx r d k e = elim (Bool-cases (r.runner_id == pos 0)) [
      | inl z ↦ rw z e
      | inr z ↦ rw z (tt, λ _. ((r, d, refl), λ _. e))
    ]

    reap_for-Fine :
        (ctx : Context) (r : TrackedRunner) (o : Option Text)
        → Memᴰ r rs
        → overdue cfg r.state r t ≡ o
        → Fine (reap_for cfg ctx r o)
    unfolding reap_for
    reap_for-Fine ctx r none m q k e = e
    reap_for-Fine ctx r (some reason) m q k e =
        let d : IsDue told r = record {
          is_listed = m;
          at = t;
          is_time = refl;
          is_late = overdue-IsLate r.state r t reason q;
        } in
        (
          tt,
          λ _.
              terminate_instance-Fine ctx r d (λ _. remove_runner_by_id ctx r.runner_id k)
                (remove_runner_by_id-Fine ctx r d k e),
        )

    parallel_reap-Fine :
        (ctx : Context) (ms : List (Proc (Unit {0}))) → All Fine ms → Fine (parallel_reap ctx ms)
    unfolding parallel_reap
    parallel_reap-Fine ctx [] h k e = (tt, λ _. e)
    parallel_reap-Fine ctx (m ∷ ms) (f, h) k e = (
      tt,
      elim [
        | true ↦ (tt, λ _. (f _ (tt, λ _. (tt, λ _. tt)), parallel_reap-Fine ctx ms h k e))
        | false ↦ (tt, λ _. e)
      ],
    )

    reaps-Fine :
        (ctx : Context) (some_rs : List TrackedRunner)
        → ((r : TrackedRunner) → Memᴰ r some_rs → Memᴰ r rs)
        → All Fine (map (λ r. reap_tracked cfg ctx r t) some_rs)
    unfolding reap_tracked
    reaps-Fine ctx [] sub = tt
    reaps-Fine ctx (r ∷ more) sub = (
      (λ k e. reap_for-Fine ctx r (overdue cfg r.state r t) (sub r (Memᴰ.head refl)) refl k e),
      reaps-Fine ctx more (λ q m. sub q (Memᴰ.tail m)),
    )

    orphans-Fine :
        (ctx : Context) (known : List Text) (is : List Instance)
        → All Fine (map (reap_orphan cfg ctx) (keep_if (is_orphan cfg known) is))
    unfolding reap_orphan
    orphans-Fine ctx known [] = tt
    orphans-Fine ctx known (i ∷ is) =
        let rest = orphans-Fine ctx known is in
        elim (Bool-cases (is_orphan cfg known i)) [
          | inl h ↦ rw h ((λ k e. (tt, λ _. destroy-Fine ctx i.name k e)), rest)
          | inr h ↦ rw h rest
        ]

    drift_sweep-Fine : (ctx : Context) → Fine (drift_sweep cfg ctx)
    unfolding drift_sweep
    drift_sweep-Fine ctx k e = (
      tt,
      elim [
        | err x ↦ e
        | ok remote ↦ (tt, λ known. parallel_reap-Fine ctx _ (orphans-Fine ctx known remote) k e)
      ],
    )

  abbrev pub untold : Told
  untold = record { time = none; runners = [] }

  -- On every path of a sweep, whatever the tracker holds and whatever happens meanwhile, a runner is
  -- marked for termination, dropped from the tracker or its registration removed only if the snapshot
  -- of this sweep has it and shows it over its time at the time of the sweep: busy for longer than
  -- max_job_duration, or else minted longer ago than registration_timeout.
  pub reap_once-EndsDue : (ctx : Context) → EndsDue untold (goroutine (reap_once cfg ctx))
  unfolding reap_once
  reap_once-EndsDue ctx = (
    tt,
    λ t. (
      tt,
      λ rs.
          parallel_reap-Fine t rs ctx _ (reaps-Fine t rs ctx rs (λ r m. m)) _
            (tt, elim [ true ↦ tt | false ↦ drift_sweep-Fine t rs ctx _ tt ]),
    ),
  )
