-- ===== src/Orchestrator/System.antt =====
-- internal/orchestrator: the whole orchestrator as a step relation. Its goroutines run interleaved,
-- an atomic action at a time; clocks, clients and contexts answer anything that they may.
pub mod Held
pub mod Routines
pub mod Tasks
pub mod Sweeps
pub mod Invariant
pub mod Safety
pub mod Spawns
pub mod Progress
pub mod Drain
pub mod Lifecycle
use incuse.Base.{
  ℕ, suc, ◌+◌, ◌-◌, ◌<◌, ◌≤◌, ℤ, pos, ◌+ℤ◌, ◌-ℤ◌, ltb_ℤ, ◌≡◌, Bool, true, false, not, Option, List,
  [], ◌∷◌, ◌++◌, if◌then◌else◌,
}
use incuse.Tracker
use incuse.Tracker.{Tracker, new_tracker}
use incuse.Orchestrator.Reaper.{reap_once}
use incuse.Orchestrator.Handlers.{
  JobEvent, handle_desired_runner_count, handle_job_started, handle_job_completed,
}
use incuse.Orchestrator.Program.{
  Config, Context, lifecycle, running, listener, fresh, Action, Reply, Code, halt, act, fork, call,
  goroutine, ◌>>=◌, ◌>>◌, reserve, unreserve, commit, start_task, finish_task, wait_add, wait_done,
  wait, finish_sweep, acquire_mint, acquire_launch, release_mint, release_launch, mark_busy,
  mark_idle, mark_for_termination, get, remove, termination_pending, snapshot, names, size, is_done,
}

-- The fields of `Orchestrator` that change, with the permits of the limiters that its goroutines
-- hold. Classes share the limiters: `elsewhere` counts the permits that other classes hold.
pub record Shared : Type 0 where
  pub tracker : Tracker
  pub spawn_inflight : ℤ
  pub mint_held : ℕ
  pub launch_held : ℕ
  pub mint_elsewhere : ℕ
  pub launch_elsewhere : ℕ
  pub shutting_down : Bool
  pub tasks : ℕ
  pub reaping : ℕ
  pub sweeping : Bool

-- The capacities of the two limiters.
pub record Limits : Type 0 where
  pub mints : ℕ
  pub launches : ℕ

-- `target - (o.tracker.size() + o.spawnInflight)`
abbrev pub scale_up : ℤ → Shared → ℤ
scale_up target s = target -ℤ (pos (Tracker.size s.tracker) +ℤ s.spawn_inflight)

-- The state after an action that answers `r`. `wait_group.Done` of a group at 0 is a panic, which
-- `-` does not show: see System/Invariant.
unfoldable pub perform : (a : Action) → Reply a → Shared → Shared
perform (reserve _) r s = record s {
  spawn_inflight = if ltb_ℤ (pos 0) r then s.spawn_inflight +ℤ r else s.spawn_inflight;
}
perform unreserve _ s = record s { spawn_inflight = s.spawn_inflight -ℤ pos 1 }
perform (commit r) _ s = record s {
  tracker = Tracker.add r s.tracker;
  spawn_inflight = s.spawn_inflight -ℤ pos 1;
}
perform start_task true s = record s { tasks = s.tasks + 1 }
perform finish_task _ s = record s { tasks = s.tasks - 1 }
perform wait_add _ s = record s { reaping = s.reaping + 1 }
perform wait_done _ s = record s { reaping = s.reaping - 1 }
perform finish_sweep _ s = record s { sweeping = false }
perform (acquire_mint _) true s = record s { mint_held = s.mint_held + 1 }
perform (acquire_launch _) true s = record s { launch_held = s.launch_held + 1 }
perform release_mint _ s = record s { mint_held = s.mint_held - 1 }
perform release_launch _ s = record s { launch_held = s.launch_held - 1 }
perform (mark_busy n t) _ s = record s { tracker = (Tracker.mark_busy n t s.tracker).1 }
perform (mark_idle n t) _ s = record s { tracker = (Tracker.mark_idle n t s.tracker).1 }
perform (mark_for_termination n) _ s = record s {
  tracker = (Tracker.mark_for_termination n s.tracker).1;
}
perform (remove n) _ s = record s { tracker = Tracker.remove n s.tracker }
perform _ _ s = s

-- Whether a context may be done: the orchestrator's own is cancelled as it begins to shut down, and
-- those of the callers end whenever they like.
abbrev pub MayBeDone : Context → Shared → Type 0
MayBeDone lifecycle s = s.shutting_down ≡ true
MayBeDone _ s = Unit

abbrev Acquires : ℕ → Context → Bool → Shared → Type 0
Acquires free ctx true s = 0 < free
Acquires free ctx false s = MayBeDone ctx s

abbrev IsDone : Context → Bool → Shared → Type 0
IsDone lifecycle r s = r ≡ s.shutting_down
IsDone _ r s = Unit

module _ (limits : Limits) where
  -- Which answers an action may get.
  abbrev pub Answers : Shared → (a : Action) → Reply a → Type 0
  Answers s (reserve target) r = r ≡ scale_up target s
  Answers s start_task r = r ≡ not s.shutting_down
  Answers s wait r = s.reaping ≡ 0
  Answers s (acquire_mint ctx) r =
      Acquires (limits.mints - (s.mint_held + s.mint_elsewhere)) ctx r s
  Answers s (acquire_launch ctx) r =
      Acquires (limits.launches - (s.launch_held + s.launch_elsewhere)) ctx r s
  Answers s (mark_busy n t) r = r ≡ (Tracker.mark_busy n t s.tracker).0
  Answers s (mark_idle n t) r = r ≡ (Tracker.mark_idle n t s.tracker).0
  Answers s (mark_for_termination n) r = r ≡ (Tracker.mark_for_termination n s.tracker).0
  Answers s (get n) r = r ≡ Tracker.get n s.tracker
  Answers s (termination_pending n) r = r ≡ Tracker.is_termination_pending n s.tracker
  Answers s snapshot r = r ≡ Tracker.snapshot s.tracker
  Answers s names r = r ≡ Tracker.names s.tracker
  Answers s size r = r ≡ Tracker.size s.tracker
  Answers s (is_done ctx) r = IsDone ctx r s
  Answers s _ r = Unit

pub record System : Type 0 where
  pub shared : Shared
  pub code : List Code

-- A class whose permits are taken by others as the environment likes.
abbrev pub elsewhere : ℕ → ℕ → Shared → Shared
elsewhere m l s = record s { mint_elsewhere = m; launch_elsewhere = l }

abbrev pub start : System → Code → System
start s c = record s { code = c ∷ s.code }

module _ (limits : Limits) (cfg : Config) where
  pub data Step (s t : System) : Type 0 where
    -- a goroutine acts
    acts :
        (before after : List Code) (a : Action) (k : Reply a → Code) (r : Reply a)
        → s.code ≡ before ++ act a k ∷ after
        → Answers limits s.shared a r
        → t ≡ record { shared = perform a r s.shared; code = before ++ k r ∷ after }
        → Step s t
    -- a goroutine starts another
    forks :
        (before after : List Code) (c k : Code)
        → s.code ≡ before ++ fork c k ∷ after
        → t ≡ record { shared = s.shared; code = before ++ c ∷ k ∷ after }
        → Step s t
    -- a goroutine is over
    ends :
        (before after : List Code)
        → s.code ≡ before ++ halt ∷ after
        → t ≡ record { shared = s.shared; code = before ++ after }
        → Step s t
    -- the listener's calls
    desires :
        (count : ℤ) → t ≡ start s (handle_desired_runner_count cfg count (λ _. halt)) → Step s t
    begins : (e : Option JobEvent) → t ≡ start s (goroutine (handle_job_started e)) → Step s t
    completes :
        (e : Option JobEvent) → t ≡ start s (goroutine (handle_job_completed listener e)) → Step s t
    -- the ticker of `Run`, and the end of its context
    ticks :
        s.shared.sweeping ≡ false
        → t ≡ record {
          shared = record (s.shared) { sweeping = true };
          code = goroutine (reap_once cfg running >> call finish_sweep) ∷ s.code;
        }
        → Step s t
    stops :
        s.shared.sweeping ≡ false
        → t ≡ record { shared = record (s.shared) { shutting_down = true }; code = s.code }
        → Step s t
    -- other classes take and give back permits
    shares :
        (m l : ℕ)
        → s.shared.mint_held + m ≤ limits.mints
        → s.shared.launch_held + l ≤ limits.launches
        → t ≡ record { shared = elsewhere m l s.shared; code = s.code }
        → Step s t

  pub data Reach : System → Type 0 where
    initial : Reach (record {
      shared = record {
        tracker = new_tracker;
        spawn_inflight = pos 0;
        mint_held = 0;
        launch_held = 0;
        mint_elsewhere = 0;
        launch_elsewhere = 0;
        shutting_down = false;
        tasks = 0;
        reaping = 0;
        sweeping = false;
      };
      code = [];
    })
    next : {s t : System} → Reach s → Step s t → Reach t
