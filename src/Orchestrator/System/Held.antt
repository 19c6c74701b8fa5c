-- ===== src/Orchestrator/System/Held.antt =====
-- What the goroutines of internal/orchestrator hold between two actions: reservations of runners
-- that are not yet tracked, permits of the limiters, places in the task group and the wait group.
use Prim.Native.Nat.{pred}
use incuse.Base.{ℕ, suc, ◌+◌, ◌≤◌, ◌≡◌, pos_part, true, List, [], ◌∷◌, ◌++◌, arith}
use incuse.Orchestrator.Program.{
  Action, Reply, Code, halt, act, fork, reserve, unreserve, commit, start_task, finish_task,
  wait_add, wait_done, wait, acquire_mint, acquire_launch, release_mint, release_launch,
  generate_jit_config, incus_launch,
}

pub record Held : Type 0 where
  pub reserved : ℕ
  pub mint : ℕ
  pub launch : ℕ
  pub task : ℕ
  pub waits : ℕ

abbrev pub nothing : Held
nothing = record { reserved = 0; mint = 0; launch = 0; task = 0; waits = 0 }

abbrev pub Splits : Held → Held → Held → Type 0
Splits h g r =
    (h.reserved ≡ g.reserved + r.reserved)
    × (h.mint ≡ g.mint + r.mint)
    × (h.launch ≡ g.launch + r.launch)
    × (h.task ≡ g.task + r.task)
    × (h.waits ≡ g.waits + r.waits)

-- Both together.
abbrev pub join : Held → Held → Held
join g r = record {
  reserved = g.reserved + r.reserved;
  mint = g.mint + r.mint;
  launch = g.launch + r.launch;
  task = g.task + r.task;
  waits = g.waits + r.waits;
}

-- What is held after an action.
abbrev pub after : Held → (a : Action) → Reply a → Held
after h (reserve _) r = record h { reserved = h.reserved + pos_part r }
after h unreserve _ = record h { reserved = pred h.reserved }
after h (commit _) _ = record h { reserved = pred h.reserved }
after h start_task true = record h { task = suc h.task }
after h finish_task _ = record h { task = pred h.task }
after h wait_add _ = record h { waits = suc h.waits }
after h wait_done _ = record h { waits = pred h.waits }
after h (acquire_mint _) true = record h { mint = suc h.mint }
after h (acquire_launch _) true = record h { launch = suc h.launch }
after h release_mint _ = record h { mint = pred h.mint }
after h release_launch _ = record h { launch = pred h.launch }
after h _ _ = h

-- No permit of a limiter.
abbrev pub Free : Held → Type 0
Free h = (h.mint ≡ 0) × (h.launch ≡ 0)

-- A place in the task group, and no permit.
abbrev pub Ready : Held → Type 0
Ready h = Free h × (1 ≤ h.task)

module _ (cap : ℕ) where
  -- What an action needs: no reservation is made up to a pool of more than `cap` runners, no
  -- goroutine waits for a permit, or for others, while it holds a permit, and a spawn belongs to the
  -- task group and asks GitHub and Incus under a permit of the limiter that is meant for it.
  abbrev pub Can : Held → Action → Type 0
  Can h (reserve target) = pos_part target ≤ cap
  Can h unreserve = 1 ≤ h.reserved
  Can h (commit _) = 1 ≤ h.reserved
  Can h finish_task = 1 ≤ h.task
  Can h wait_done = 1 ≤ h.waits
  Can h (acquire_mint _) = Ready h
  Can h (acquire_launch _) = Free h
  Can h (generate_jit_config _ _ _) = (1 ≤ h.mint) × (1 ≤ h.task)
  Can h (incus_launch _ _) = (1 ≤ h.launch) × (1 ≤ h.task)
  Can h wait = Free h × (h.waits ≡ 0)
  Can h release_mint = 1 ≤ h.mint
  Can h release_launch = 1 ≤ h.launch
  Can h _ = Unit

  -- A goroutine that holds `h` never gives back what it does not hold, whatever its actions answer,
  -- and has given back everything when it ends.
  abbrev pub Holds : Held → Code → Type 0
  Holds h halt = Splits h nothing nothing
  Holds h (act a k) = Can h a × ((r : Reply a) → Holds (after h a r) (k r))
  Holds h (fork c k) = (g r : Held) × Splits h g r × Holds g c × Holds r k

  -- What all the goroutines hold together.
  abbrev pub Owned : Held → List Code → Type 0
  Owned h [] = Splits h nothing nothing
  Owned h (c ∷ cs) = (g r : Held) × Splits h g r × Holds g c × Owned r cs

  -- One goroutine of many, wherever it stands.
  pub take_out :
      (before after : List Code) (c : Code) {h : Held}
      → Owned h (before ++ c ∷ after)
      → (g r : Held) × Splits h g r × Holds g c × Owned r (before ++ after)
  take_out [] after c o = o
  take_out (b ∷ before) after c {h} (g, r, s, hb, o) =
      let (g', r', s', hc, o') = take_out before after c o in
      (g', join g r', omega arith, hc, (g, r', omega arith, hb, o'))

  pub put_back :
      (before after : List Code) (c : Code) (g r : Held)
      → Holds g c
      → Owned r (before ++ after)
      → Owned (join g r) (before ++ c ∷ after)
  put_back [] after c g r hc o = (g, r, omega arith, hc, o)
  put_back (b ∷ before) after c g r hc (gb, rb, s, hb, o) =
      (gb, join g rb, omega arith, hb, put_back before after c g rb hc o)

  pub same_total : (cs : List Code) (g h : Held) → Splits h g nothing → Owned g cs → Owned h cs
  same_total [] g h s o = omega arith
  same_total (c ∷ cs) g h s (a, b, p, hc, o) = (a, b, omega arith, hc, o)
