-- ===== src/Orchestrator/System/Spawns.antt =====
-- How many goroutines of internal/orchestrator are at work for a spawn in a reachable state: against the
-- limiters, and once the orchestrator shuts down.
use incuse.Base.{ℕ, ◌+◌, ◌≤◌, ◌≡◌, refl, true, List, [], ◌∷◌, arith}
use incuse.Orchestrator.Program.{
  Config, Action, Reply, Code, act, acquire_mint, acquire_launch, start_task, generate_jit_config,
  incus_launch,
}
use incuse.Orchestrator.System.{
  Shared, Limits, System, Answers, perform, Step, acts, forks, ends, desires, begins, completes,
  ticks, stops, shares, Reach, next,
}
use incuse.Orchestrator.System.Held.{Held, Holds, Owned}
use incuse.Orchestrator.System.Tasks.{cap}
use incuse.Orchestrator.System.Invariant.{Inv, Reach-Inv}

-- The next thing that a goroutine does is to ask GitHub for a JIT configuration.
abbrev pub at_mint : Code → ℕ
at_mint (act (generate_jit_config ctx n f) k) = 1
at_mint _ = 0

-- It is to have Incus launch an instance.
abbrev pub at_launch : Code → ℕ
at_launch (act (incus_launch ctx req) k) = 1
at_launch _ = 0

-- It is one of these, or to wait for the permit with which a spawn begins.
abbrev pub at_spawn : Code → ℕ
at_spawn (act (acquire_mint ctx) k) = 1
at_spawn (act (generate_jit_config ctx n f) k) = 1
at_spawn (act (incus_launch ctx req) k) = 1
at_spawn _ = 0

-- How many goroutines there are of a kind.
abbrev pub total : (Code → ℕ) → List Code → ℕ
total at [] = 0
total at (c ∷ cs) = at c + total at cs

module _ (cap : ℕ) where
  mint-le : (c : Code) (g : Held) → Holds cap g c → at_mint c ≤ g.mint
  mint-le (act (generate_jit_config ctx n f) k) g h = omega arith
  mint-le c g h = omega arith

  launch-le : (c : Code) (g : Held) → Holds cap g c → at_launch c ≤ g.launch
  launch-le (act (incus_launch ctx req) k) g h = omega arith
  launch-le c g h = omega arith

  spawn-le : (c : Code) (g : Held) → Holds cap g c → at_spawn c ≤ g.task
  spawn-le (act (acquire_mint ctx) k) g h = omega arith
  spawn-le (act (generate_jit_config ctx n f) k) g h = omega arith
  spawn-le (act (incus_launch ctx req) k) g h = omega arith
  spawn-le c g h = omega arith

  total-le :
      (cs : List Code) (h : Held)
      → Owned cap h cs
      → (total at_mint cs ≤ h.mint) × (total at_launch cs ≤ h.launch) × (total at_spawn cs ≤ h.task)
  total-le [] h o = (omega arith, omega arith, omega arith)
  total-le (c ∷ cs) h (g, r, p, hc, o) =
      let rest = total-le cs r o in
      let m = mint-le c g hc in
      let l = launch-le c g hc in let t = spawn-le c g hc in (omega arith, omega arith, omega arith)

module _ (limits : Limits) (cfg : Config) where
  -- In every reachable state the goroutines that are asking GitHub for a JIT configuration, and those
  -- that are having Incus launch an instance, are each, together with the permits that other classes
  -- hold, within the capacity of their limiter.
  pub limiters_bounded :
      {s : System}
      → Reach limits cfg s
      → (total at_mint s.code + s.shared.mint_elsewhere ≤ limits.mints)
        × (total at_launch s.code + s.shared.launch_elsewhere ≤ limits.launches)
  unfolding Inv
  limiters_bounded {s} reached =
      let (h, v, o) = Reach-Inv limits cfg reached in
      let bounds = total-le (cap cfg) s.code h o in (omega arith, omega arith)

  spawns-le : {s : System} → Reach limits cfg s → total at_spawn s.code ≤ s.shared.tasks
  unfolding Inv
  spawns-le {s} reached =
      let (h, v, o) = Reach-Inv limits cfg reached in
      let bounds = total-le (cap cfg) s.code h o in omega arith

tasks_fall :
    (limits : Limits) (s : Shared) (a : Action) (r : Reply a)
    → Answers limits s a r
    → s.shutting_down ≡ true
    → ((perform a r s).shutting_down ≡ true) × ((perform a r s).tasks ≤ s.tasks)
unfolding perform
tasks_fall limits s start_task true e d = ground arith
tasks_fall limits s (acquire_mint _) true e d = ground arith
tasks_fall limits s (acquire_launch _) true e d = ground arith
tasks_fall limits s a r e d = ground arith

tasks_fall_in :
    (limits : Limits) (cfg : Config) {s t : System}
    → Step limits cfg s t
    → s.shared.shutting_down ≡ true
    → (t.shared.shutting_down ≡ true) × (t.shared.tasks ≤ s.shared.tasks)
tasks_fall_in limits cfg {s} (acts _ _ a k r e ans q) d =
    rw q (tasks_fall limits s.shared a r ans d)
tasks_fall_in limits cfg (forks _ _ c k e q) d = rw q (d, omega arith)
tasks_fall_in limits cfg (ends _ _ e q) d = rw q (d, omega arith)
tasks_fall_in limits cfg (desires count q) d = rw q (d, omega arith)
tasks_fall_in limits cfg (begins e q) d = rw q (d, omega arith)
tasks_fall_in limits cfg (completes e q) d = rw q (d, omega arith)
tasks_fall_in limits cfg (ticks i q) d = rw q (d, omega arith)
tasks_fall_in limits cfg (stops i q) d = rw q (refl, omega arith)
tasks_fall_in limits cfg (shares m l x y q) d = rw q (d, omega arith)

-- Once the orchestrator shuts down in a reachable state it stays so, and a step does not raise the
-- number of tasks that `Run` waits for, nor is any goroutine then beginning a spawn, asking GitHub
-- for a JIT configuration or having Incus launch an instance beyond that number: whatever the
-- listener asks for.
pub no_spawn_after_stop :
    (limits : Limits) (cfg : Config) {s t : System}
    → Reach limits cfg s
    → Step limits cfg s t
    → s.shared.shutting_down ≡ true
    → (t.shared.shutting_down ≡ true)
      × (t.shared.tasks ≤ s.shared.tasks)
      × (total at_spawn t.code ≤ t.shared.tasks)
no_spawn_after_stop limits cfg reached st d =
    let (stays, fall) = tasks_fall_in limits cfg st d in
    (stays, fall, spawns-le limits cfg (next reached st))
