-- ===== src/Orchestrator/System/Safety.antt =====
-- What internal/orchestrator guarantees in every reachable state: the size of the pool, the groups of
-- goroutines, and what is left when they have ended.
use incuse.Base.{
  ℕ, ◌+◌, ◌≤◌, pos, pos_part, eq_of_parts, ◌≤ℤ◌, ◌≡◌, subst, List, [], ◌∷◌, ◌++◌, arith,
}
use incuse.Tracker
use incuse.Orchestrator.Program.{
  Config, Action, Reply, Code, act, unreserve, commit, finish_task, wait_done, release_mint,
  release_launch,
}
use incuse.Orchestrator.System.{Shared, Limits, System, Reach}
use incuse.Orchestrator.System.Held.{Held, Splits, Holds, Owned, take_out}
use incuse.Orchestrator.System.Tasks.{cap}
use incuse.Orchestrator.System.Invariant.{Accounts, Inv, Reach-Inv}

module _ (limits : Limits) (cfg : Config) {s : System} (reached : Reach limits cfg s) where
  -- In every reachable state the tracked runners and those still being spawned are together no more
  -- than max_runners (none, if that is negative), and the count of those being spawned is not
  -- negative: however HandleDesiredRunnerCount calls, spawns, job events and sweeps interleave.
  pub pool_bounded :
      (pos 0 ≤ℤ s.shared.spawn_inflight)
      × (Tracker.size s.shared.tracker + pos_part s.shared.spawn_inflight
          ≤ pos_part cfg.scale_set.max_runners)
  unfolding Inv
  pool_bounded = let (h, v, o) = Reach-Inv limits cfg reached in omega arith

  -- In a reachable state with no goroutine left nothing has leaked: no runner counts as being
  -- spawned, no permit of either limiter is held, and the task group and the wait group are empty.
  pub nothing_leaks :
      s.code ≡ []
      → (s.shared.spawn_inflight ≡ pos 0)
        × (s.shared.mint_held ≡ 0)
        × (s.shared.launch_held ≡ 0)
        × (s.shared.tasks ≡ 0)
        × (s.shared.reaping ≡ 0)
  unfolding Inv
  nothing_leaks e =
      let (h, v, o) = Reach-Inv limits cfg reached in
      let empty = subst (Owned (cap cfg) h) e o in
      (
        eq_of_parts s.shared.spawn_inflight (pos 0) (omega arith),
        omega arith,
        omega arith,
        omega arith,
        omega arith,
      )

-- What must not be at zero when an action gives it back: the counters and the groups of goroutines
-- would turn negative (a panic for a group), and a release of a limiter would block.
abbrev pub Backed : Shared → Action → Type 0
Backed s unreserve = 1 ≤ pos_part s.spawn_inflight
Backed s (commit _) = 1 ≤ pos_part s.spawn_inflight
Backed s finish_task = 1 ≤ s.tasks
Backed s wait_done = 1 ≤ s.reaping
Backed s release_mint = 1 ≤ s.mint_held
Backed s release_launch = 1 ≤ s.launch_held
Backed s _ = Unit

backed :
    {limits : Limits} {cap : ℕ} (s : Shared) (h g r : Held) (a : Action) (k : Reply a → Code)
    → Accounts limits cap h s
    → Splits h g r
    → Holds cap g (act a k)
    → Backed s a
backed s h g r unreserve k v p c = omega arith
backed s h g r (commit _) k v p c = omega arith
backed s h g r finish_task k v p c = omega arith
backed s h g r wait_done k v p c = omega arith
backed s h g r release_mint k v p c = omega arith
backed s h g r release_launch k v p c = omega arith
backed s h g r _ k v p c = tt

-- In every reachable state, whichever goroutine acts next: if it ends a spawn, leaves the task group
-- or the wait group, or releases a permit, then that count is at least one.
pub releases_are-Backed :
    (limits : Limits) (cfg : Config) {s : System}
    → Reach limits cfg s
    → (before after : List Code) (a : Action) (k : Reply a → Code)
    → s.code ≡ before ++ act a k ∷ after
    → Backed s.shared a
unfolding Inv
releases_are-Backed limits cfg {s} reached before after a k e =
    let (h, v, o) = Reach-Inv limits cfg reached in
    let (g, r, p, c, rest) =
      take_out (cap cfg) before after (act a k) (subst (Owned (cap cfg) h) e o) in
    backed s.shared h g r a k v p c
