-- ===== src/Orchestrator/System/Invariant.antt =====
-- What holds in every state of the orchestrator of internal/orchestrator, however its goroutines
-- interleave and whatever the clients answer.
use incuse.Base.{
  ℕ, ◌+◌, ◌≤◌, ℤ, pos, negsuc, pos_part, neg_part, ◌+ℤ◌, ◌-ℤ◌, ltb_ℤ, ◌≡◌, sym, subst, true, false,
  List, ◌∷◌, ◌++◌, arith, if◌then◌else◌,
}
use incuse.Tracker
use incuse.Tracker.Laws.{
  size-add-le, size-remove-le, size-mark_busy, size-mark_idle, size-mark_for_termination,
}
use incuse.Orchestrator.Program.{
  Config, running, listener, Action, Reply, Code, halt, act, fork, reserve, unreserve, commit,
  start_task, finish_task, wait_add, wait_done, acquire_mint, acquire_launch, release_mint,
  release_launch, mark_busy, mark_idle, mark_for_termination, remove,
}
use incuse.Orchestrator.System.{
  Shared, Limits, perform, Answers, System, Step, acts, forks, ends, desires, begins, completes,
  ticks, stops, shares, Reach, initial, next,
}
use incuse.Orchestrator.System.Held.{
  Held, nothing, Can, after, Holds, Owned, join, take_out, put_back, same_total,
}
use incuse.Orchestrator.System.Tasks.{cap, desired-Holds, started-Holds, completed-Holds}
use incuse.Orchestrator.System.Sweeps.{sweep-Holds}

-- The shared counters against what the goroutines hold together.
pub record Accounts (limits : Limits) (cap : ℕ) (h : Held) (s : Shared) : Type 0 where
  pub inflight : pos_part s.spawn_inflight ≡ h.reserved
  pub inflight_nonneg : neg_part s.spawn_inflight ≡ 0
  pub mints : s.mint_held ≡ h.mint
  pub launches : s.launch_held ≡ h.launch
  pub in_tasks : s.tasks ≡ h.task
  pub in_reaping : s.reaping ≡ h.waits
  pub mint_room : s.mint_held + s.mint_elsewhere ≤ limits.mints
  pub launch_room : s.launch_held + s.launch_elsewhere ≤ limits.launches
  pub pool : Tracker.size s.tracker + h.reserved ≤ cap

-- What `HandleDesiredRunnerCount` reserves fits under the cap.
reserve_room :
    (cap n m : ℕ) (x target r : ℤ)
    → pos_part x ≡ m
    → neg_part x ≡ 0
    → r ≡ target -ℤ (pos n +ℤ x)
    → pos_part target ≤ cap
    → n + m ≤ cap
    → let x' = if ltb_ℤ (pos 0) r then x +ℤ r else x in
      (pos_part x' ≡ m + pos_part r) × (neg_part x' ≡ 0) × (n + (m + pos_part r) ≤ cap)
unfolding ◌+ℤ◌ ◌-ℤ◌
reserve_room cap n m (negsuc x) target r p q e t c = absurd (omega arith)
reserve_room cap n m (pos x) target r p q e t c = ground arith

-- A decrement of a counter that is not zero.
decrement :
    (x : ℤ) (m : ℕ)
    → pos_part x ≡ m
    → neg_part x ≡ 0
    → 1 ≤ m
    → (pos_part (x -ℤ pos 1) + 1 ≡ m) × (neg_part (x -ℤ pos 1) ≡ 0)
unfolding ◌-ℤ◌
decrement (negsuc x) m p q h = absurd (omega arith)
decrement (pos x) m p q h = ground arith

module _ {limits : Limits} {cap : ℕ} (g rest : Held) where
  perform-Accounts :
      (a : Action) (r : Reply a) (s : Shared)
      → Can cap g a
      → Answers limits s a r
      → Accounts limits cap (join g rest) s
      → Accounts limits cap (join (after g a r) rest) (perform a r s)
  unfolding perform
  perform-Accounts (reserve target) r s c e v =
      let (p, q, room) =
        reserve_room cap (Tracker.size s.tracker) (g.reserved + rest.reserved) s.spawn_inflight
          target r v.inflight v.inflight_nonneg e c v.pool in
      omega arith
  perform-Accounts unreserve r s c e v =
      let d = decrement s.spawn_inflight _ v.inflight v.inflight_nonneg (omega arith) in
      ground (arith, d)
  perform-Accounts (commit t) r s c e v =
      let d = decrement s.spawn_inflight _ v.inflight v.inflight_nonneg (omega arith) in
      ground (arith, d, size-add-le t s.tracker)
  perform-Accounts start_task true s c e v = omega arith
  perform-Accounts start_task false s c e v = omega arith
  perform-Accounts finish_task r s c e v = ground arith
  perform-Accounts wait_add r s c e v = omega arith
  perform-Accounts wait_done r s c e v = ground arith
  perform-Accounts (acquire_mint _) true s c e v = omega arith
  perform-Accounts (acquire_mint _) false s c e v = omega arith
  perform-Accounts (acquire_launch _) true s c e v = omega arith
  perform-Accounts (acquire_launch _) false s c e v = omega arith
  perform-Accounts release_mint r s c e v = ground arith
  perform-Accounts release_launch r s c e v = ground arith
  perform-Accounts (mark_busy n t) r s c e v = omega (arith, size-mark_busy n t s.tracker)
  perform-Accounts (mark_idle n t) r s c e v = omega (arith, size-mark_idle n t s.tracker)
  perform-Accounts (mark_for_termination n) r s c e v =
      omega (arith, size-mark_for_termination n s.tracker)
  perform-Accounts (remove n) r s c e v = omega (arith, size-remove-le n s.tracker)
  perform-Accounts _ r s c e v = omega arith

-- The invariant: some holding of the goroutines accounts for the shared state.
unfoldable pub Inv : Limits → Config → System → Type 0
Inv limits cfg s = (h : Held) × Accounts limits (cap cfg) h s.shared × Owned (cap cfg) h s.code

module _ (limits : Limits) (cfg : Config) where
  acts-Inv :
      (s : System) (before after' : List Code) (a : Action) (k : Reply a → Code) (r : Reply a)
      → s.code ≡ before ++ act a k ∷ after'
      → Answers limits s.shared a r
      → Inv limits cfg s
      → Inv limits cfg (record { shared = perform a r s.shared; code = before ++ k r ∷ after' })
  unfolding Inv
  acts-Inv s before after' a k r e ans (h, v, o) =
      let (g, rest, split, (can, follow), others) =
        take_out (cap cfg) before after' (act a k) (subst (Owned (cap cfg) h) e o) in
      (
        join (after g a r) rest,
        perform-Accounts g rest a r s.shared can ans (omega arith),
        put_back (cap cfg) before after' (k r) (after g a r) rest (follow r) others,
      )

  forks-Inv :
      (s : System) (before after' : List Code) (c k : Code)
      → s.code ≡ before ++ fork c k ∷ after'
      → Inv limits cfg s
      → Inv limits cfg (record { shared = s.shared; code = before ++ c ∷ k ∷ after' })
  unfolding Inv
  forks-Inv s before after' c k e (h, v, o) =
      let (g, rest, split, (g₁, g₂, split', hc, hk), others) =
        take_out (cap cfg) before after' (fork c k) (subst (Owned (cap cfg) h) e o) in
      (
        join g₁ (join g₂ rest),
        omega arith,
        put_back (cap cfg) before (k ∷ after') c g₁ (join g₂ rest) hc
            (put_back (cap cfg) before after' k g₂ rest hk others),
      )

  ends-Inv :
      (s : System) (before after' : List Code)
      → s.code ≡ before ++ halt ∷ after'
      → Inv limits cfg s
      → Inv limits cfg (record { shared = s.shared; code = before ++ after' })
  unfolding Inv
  ends-Inv s before after' e (h, v, o) =
      let (g, rest, split, gone, others) =
        take_out (cap cfg) before after' halt (subst (Owned (cap cfg) h) e o) in
      (h, v, same_total (cap cfg) (before ++ after') rest h (omega arith) others)

  start-Inv :
      (s : System) (c : Code)
      → Holds (cap cfg) nothing c
      → Inv limits cfg s
      → Inv limits cfg (record { shared = s.shared; code = c ∷ s.code })
  unfolding Inv
  start-Inv s c hc (h, v, o) = (h, v, (nothing, h, omega arith, hc, o))

  pub Step-Inv : {s t : System} → Step limits cfg s t → Inv limits cfg s → Inv limits cfg t
  unfolding Inv
  Step-Inv {s} (acts before after' a k r e ans q) v =
      subst (Inv limits cfg) (sym q) (acts-Inv s before after' a k r e ans v)
  Step-Inv {s} (forks before after' c k e q) v =
      subst (Inv limits cfg) (sym q) (forks-Inv s before after' c k e v)
  Step-Inv {s} (ends before after' e q) v =
      subst (Inv limits cfg) (sym q) (ends-Inv s before after' e v)
  Step-Inv {s} (desires count q) v =
      subst (Inv limits cfg) (sym q) (start-Inv s _ (desired-Holds cfg count) v)
  Step-Inv {s} (begins e q) v =
      subst (Inv limits cfg) (sym q) (start-Inv s _ (started-Holds cfg e) v)
  Step-Inv {s} (completes e q) v =
      subst (Inv limits cfg) (sym q) (start-Inv s _ (completed-Holds cfg listener e) v)
  Step-Inv {s} (ticks i q) (h, v, o) =
      subst (Inv limits cfg) (sym q)
        (h, omega arith, (nothing, h, omega arith, sweep-Holds cfg running, o))
  Step-Inv {s} (stops i q) (h, v, o) = subst (Inv limits cfg) (sym q) (h, omega arith, o)
  Step-Inv {s} (shares m l x y q) (h, v, o) = subst (Inv limits cfg) (sym q) (h, omega arith, o)

  pub Reach-Inv : {s : System} → Reach limits cfg s → Inv limits cfg s
  unfolding Inv Tracker.size
  Reach-Inv initial = (nothing, omega arith, omega arith)
  Reach-Inv (next r st) = Step-Inv st (Reach-Inv r)
