-- ===== src/Orchestrator/Program.antt =====
-- The goroutines of internal/orchestrator as trees of atomic actions. An action is a call of
-- another component, or a block that the code runs under one lock; between two actions of a
-- goroutine any other goroutine may run. `go` is `fork`.
use incuse.Base.{ℕ, ℤ, Text, Bool, Option, List, Result}
use incuse.Config.{ScaleSetConfig, IncusConfig, RunnerConfig}
use incuse.Incus.{LaunchRequest, Instance}
use incuse.Runner.{Release, CloudInitSpec}
use incuse.Tracker.{TrackedRunner, RunnerState}

-- The collaborators' constants and the tunables of `Config`. Its clients are the actions below.
pub record Config : Type 0 where
  pub scale_set : ScaleSetConfig
  pub scale_set_id : ℤ
  pub incus_cfg : IncusConfig
  pub runner_cfg : RunnerConfig
  pub render : CloudInitSpec → Result Text

-- The calls of `MetricsHook`; a duration is in nanoseconds.
pub data Metric : Type 0 where
  runner_spawned launch_ok launch_fail : Metric
  launch_duration runner_lifetime : ℤ → Metric
  reap : Text → Metric
  set_tracked_instances : ℕ → Metric

-- The context that a call is given: the orchestrator's own, that of `Run`, that of the listener's
-- call, or one made afresh with a timeout.
pub data Context : Type 0 where
  lifecycle running listener fresh : Context

pub data Action : Type 0 where
  -- spawnInflight, under spawnMu: read and add; decrement; add to the tracker and decrement
  reserve : ℤ → Action
  unreserve : Action
  commit : TrackedRunner → Action
  -- the task group, under taskMu: join it unless the orchestrator shuts down; leave it
  start_task finish_task : Action
  -- the wait group of one parallelReap
  wait_add wait_done wait : Action
  -- back to the `select` of `Run`
  finish_sweep : Action
  -- the limiters
  acquire_mint acquire_launch : Context → Action
  release_mint release_launch : Action
  -- the tracker's methods
  mark_busy mark_idle : Text → ℕ → Action
  mark_for_termination get remove termination_pending : Text → Action
  snapshot names size : Action
  -- the clock, the random suffix, the context, the metrics
  now name_suffix : Action
  is_done : Context → Action
  metric : Metric → Action
  -- an unrecovered panic, which nothing follows
  panic : Action
  -- the clients
  resolve : Context → Text → Action
  generate_jit_config : Context → Text → Text → Action
  remove_runner : Context → ℤ → Action
  incus_launch : Context → LaunchRequest → Action
  incus_stop incus_delete incus_list : Context → Text → Action

-- What an action answers. A call that returns only an error answers its text, if there is one; a
-- minted runner comes with the id of its reference, if it has one.
abbrev pub Reply : Action → Type 0
Reply (reserve _) = ℤ
Reply start_task = Bool
Reply (acquire_mint _) = Bool
Reply (acquire_launch _) = Bool
Reply (mark_busy _ _) = Option RunnerState
Reply (mark_idle _ _) = Option Bool
Reply (mark_for_termination _) = Option RunnerState
Reply (get _) = Option TrackedRunner
Reply (termination_pending _) = Bool
Reply snapshot = List TrackedRunner
Reply names = List Text
Reply size = ℕ
Reply now = ℕ
Reply name_suffix = Text
Reply (is_done _) = Bool
Reply panic = ⊥
Reply (resolve _ _) = Result Release
Reply (generate_jit_config _ _ _) = Result (Text × Option ℤ)
Reply (remove_runner _ _) = Option Text
Reply (incus_launch _ _) = Result Instance
Reply (incus_stop _ _) = Option Text
Reply (incus_delete _ _) = Option Text
Reply (incus_list _ _) = Result (List Instance)
Reply _ = Unit {0}

pub data Code : Type 0 where
  halt : Code
  act : (a : Action) → (Reply a → Code) → Code
  fork : Code → Code → Code

-- A piece of code that returns an `A` to what follows.
abbrev pub Proc : Type 0 → Type 0
Proc A = (A → Code) → Code

infixl 5 ◌>>=◌ ◌>>◌
abbrev pub ◌>>=◌ : {A B : Type 0} → Proc A → (A → Proc B) → Proc B
◌>>=◌ m f k = m (λ a. f a k)

abbrev pub ◌>>◌ : {B : Type 0} → Proc (Unit {0}) → Proc B → Proc B
◌>>◌ m n k = m (λ _. n k)

abbrev pub return : {A : Type 0} → A → Proc A
return a k = k a

abbrev pub call : (a : Action) → Proc (Reply a)
call a k = act a k

-- A whole goroutine.
abbrev pub goroutine : Proc (Unit {0}) → Code
goroutine m = m (λ _. halt)

abbrev pub go : Proc (Unit {0}) → Proc (Unit {0})
go m k = fork (goroutine m) (k tt)
