-- ===== src/Orchestrator/Spawn/Cleanup.antt =====
-- What becomes of the registrations that the spawn of internal/orchestrator mints at GitHub.
use incuse.Base.{
  ℤ, pos, int_eq, ◌==◌, Text, Bool, true, false, Option, none, some, Result, ok, err, ◌≡◌, refl,
  inl, inr, Bool-cases, eq_self, if◌then◌else◌, arith,
}
use incuse.Runner.{Release}
use incuse.Incus.{LaunchRequest}
use incuse.Tracker.{TrackedRunner, launching, idle, busy}
use incuse.Orchestrator.Program.{
  Config, Context, lifecycle, Action, Reply, Code, halt, act, fork, Proc, goroutine,
  generate_jit_config, remove_runner, incus_launch,
}
use incuse.Orchestrator.Terminate.{
  forget, tear_down, terminate_instance, remove_runner_by_id, remove_runner_best_effort,
  runner_ref_id,
}
use incuse.Orchestrator.Spawn.{
  settle, abandon_launch, launch_permitted, launch, resolve_unless, resolve_release, give_up,
  new_tracked, launch_rendered, mint_named, mint_release, spawn_idle_runner,
}

-- The registration of a reference: an id of zero stands for none.
abbrev pub owes : ℤ → Option ℤ
owes id = if id == pos 0 then none else some id

abbrev settles : Option ℤ → ℤ → Option ℤ
settles none id = none
settles (some owed) id = if owed == id then none else some owed

-- The registration that the goroutine still has to see to: a mint adds one, and a launched instance
-- or a call of RemoveRunner with its id takes it off.
abbrev pub owed_after : Option ℤ → (a : Action) → Reply a → Option ℤ
owed_after o (generate_jit_config _ _ _) (ok (jit, ref)) = owes (runner_ref_id ref)
owed_after o (generate_jit_config _ _ _) (err e) = o
owed_after o (remove_runner _ id) _ = settles o id
owed_after o (incus_launch _ _) (ok inst) = none
owed_after o (incus_launch _ _) (err e) = o
owed_after o _ _ = o

-- On every path, whatever the actions answer, nothing is owed at the end.
abbrev pub Cleans : Option ℤ → Code → Type 0
Cleans o halt = o ≡ none
Cleans o (act a k) = (r : Reply a) → Cleans (owed_after o a r) (k r)
Cleans o (fork c k) = Cleans none c × Cleans o k

abbrev Keeps : Proc (Unit {0}) → Type 0
Keeps m = (o : Option ℤ) (k : Unit {0} → Code) → Cleans o (k tt) → Cleans o (m k)

forget-Keeps : (name : Text) → Keeps (forget name)
unfolding forget
forget-Keeps name o k e = λ _ n _. e

tear_down-Keeps : (ctx : Context) (name : Text) → Keeps (tear_down ctx name)
unfolding tear_down
tear_down-Keeps ctx name o k e = elim [ none ↦ λ _ _ _ _ _. e | some r ↦ λ _ _ _ _ _ _ _. e ]

terminate_instance-Keeps : (ctx : Context) (name : Text) → Keeps (terminate_instance ctx name)
unfolding terminate_instance
terminate_instance-Keeps ctx name o k e = elim [
  | none ↦ tear_down-Keeps ctx name o k e
  | some launching ↦ e
  | some idle ↦ tear_down-Keeps ctx name o k e
  | some busy ↦ tear_down-Keeps ctx name o k e
]

settles-owes : (id : ℤ) → settles (owes id) id ≡ none
settles-owes id = ground arith

remove_runner_by_id-Cleans :
    (ctx : Context) (id : ℤ) (k : Unit {0} → Code)
    → Cleans none (k tt)
    → Cleans (owes id) (remove_runner_by_id ctx id k)
unfolding remove_runner_by_id
remove_runner_by_id-Cleans ctx id k e = elim (Bool-cases (id == pos 0)) [
  | inl z ↦ rw (z, remove_runner_by_id) e
  | inr z ↦ rw (z, remove_runner_by_id) (λ done x. rw (eq_self id) e)
]

remove_runner_by_id-Keeps :
    (ctx : Context) (id : ℤ) (k : Unit {0} → Code)
    → Cleans none (k tt)
    → Cleans none (remove_runner_by_id ctx id k)
unfolding remove_runner_by_id
remove_runner_by_id-Keeps ctx id k e = elim (Bool-cases (id == pos 0)) [
  | inl z ↦ rw (z, remove_runner_by_id) e
  | inr z ↦ rw (z, remove_runner_by_id) (λ done x. e)
]

remove_runner_best_effort-Cleans :
    (ctx : Context) (ref : Option ℤ) (k : Unit {0} → Code)
    → Cleans none (k tt)
    → Cleans (owes (runner_ref_id ref)) (remove_runner_best_effort ctx ref k)
unfolding remove_runner_best_effort runner_ref_id int_eq
remove_runner_best_effort-Cleans ctx none k e = e
remove_runner_best_effort-Cleans ctx (some id) k e = remove_runner_by_id-Cleans ctx id k e

settle-Cleans :
    (ctx : Context) (r : TrackedRunner) (k : Unit {0} → Code)
    → Cleans none (k tt)
    → Cleans none (settle ctx r k)
unfolding settle
settle-Cleans ctx r k e = λ _ t. elim [
  | none ↦ e
  | some false ↦ e
  | some true ↦
      terminate_instance-Keeps ctx r.name none (λ _. remove_runner_by_id ctx r.runner_id k)
        (remove_runner_by_id-Keeps ctx r.runner_id k e)
]

module _ (ctx : Context) (r : TrackedRunner) (k : Unit {0} → Code) (e : Cleans none (k tt)) where
  abandon_launch-Cleans : Cleans (owes r.runner_id) (abandon_launch ctx r k)
  unfolding abandon_launch
  abandon_launch-Cleans =
      forget-Keeps r.name (owes r.runner_id) (λ _. remove_runner_by_id ctx r.runner_id k)
        (remove_runner_by_id-Cleans ctx r.runner_id k e)

  launch_permitted-Cleans :
      (req : LaunchRequest) → Cleans (owes r.runner_id) (launch_permitted ctx req r k)
  unfolding launch_permitted
  launch_permitted-Cleans req = elim [
    | true ↦ abandon_launch-Cleans
    | false ↦ λ start. elim [
      | err x ↦ λ end _ _. abandon_launch-Cleans
      | ok inst ↦ λ end _. settle-Cleans ctx r k e
    ]
  ]

launch-Cleans :
    (ctx : Context) (r : TrackedRunner) (k : Unit {0} → Code)
    → Cleans none (k tt)
    → (req : LaunchRequest) → Cleans (owes r.runner_id) (launch ctx req r k)
unfolding launch
launch-Cleans ctx r k e req = elim [
  | true ↦ launch_permitted-Cleans ctx r _ (λ _. e) req
  | false ↦ abandon_launch-Cleans ctx r k e
]

module _ (cfg : Config) (k : Unit {0} → Code) (e : Cleans none (k tt)) where
  give_up-Cleans : Cleans none (give_up cfg k)
  unfolding give_up
  give_up-Cleans = λ _ _. e

  launch_rendered-Cleans :
      (name : Text) (ref : Option ℤ) (c : Result Text)
      → Cleans (owes (runner_ref_id ref)) (launch_rendered cfg name ref c k)
  unfolding launch_rendered new_tracked
  launch_rendered-Cleans name ref (err x) =
      remove_runner_best_effort-Cleans lifecycle ref (λ _. give_up cfg k) give_up-Cleans
  launch_rendered-Cleans name ref (ok c) = λ t _ _ n _ _. launch-Cleans lifecycle _ k e _

  mint_named-Cleans :
      (release : Release) (o : Option Text) → Cleans none (mint_named cfg release o k)
  unfolding mint_named
  mint_named-Cleans release none = λ _ _ never. absurd never
  mint_named-Cleans release (some name) = elim [
    | err x ↦ give_up-Cleans
    | ok (jit, ref) ↦ launch_rendered-Cleans name ref _
  ]

  mint_release-Cleans : (r : Result Release) → Cleans none (mint_release cfg r k)
  unfolding mint_release
  mint_release-Cleans (err x) = give_up-Cleans
  mint_release-Cleans (ok release) = λ suffix. mint_named-Cleans release _

  resolve-Cleans :
      (baked : Bool) → Cleans none (resolve_unless cfg baked (λ r. mint_release cfg r k))
  unfolding resolve_unless
  resolve-Cleans true = mint_release-Cleans (ok _)
  resolve-Cleans false = mint_release-Cleans

-- On every path of the task of a spawn, whatever its calls answer, a runner that was registered at
-- GitHub under a non-zero id is by the end either that of an instance that Incus reported as
-- launched, or one whose removal was asked of GitHub.
pub spawn-Cleans_up : (cfg : Config) → Cleans none (goroutine (spawn_idle_runner cfg))
unfolding spawn_idle_runner resolve_release
spawn-Cleans_up cfg = elim [
  | true ↦ resolve-Cleans cfg (λ _. halt) refl cfg.runner_cfg.use_baked_image
  | false ↦ λ _. refl
]
