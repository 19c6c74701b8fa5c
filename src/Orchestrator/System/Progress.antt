-- ===== src/Orchestrator/System/Progress.antt =====
-- The goroutines of internal/orchestrator never wait for one another in a circle.
use incuse.Base.{
  ℕ, ◌+◌, ◌<◌, ◌≡◌, refl, sym, subst, ap, ◌⊎◌, inl, inr, true, not, none, err, List, [], ◌∷◌, ◌++◌,
  All, arith,
}
use incuse.Orchestrator.Program.{
  Config, lifecycle, Reply, Code, halt, act, fork, reserve, start_task, wait, acquire_mint,
  acquire_launch, mark_busy, mark_idle, mark_for_termination, get, termination_pending, snapshot,
  names, size, now, name_suffix, is_done, panic, resolve, generate_jit_config, remove_runner,
  incus_launch, incus_stop, incus_delete, incus_list,
}
use incuse.Orchestrator.System.{Shared, Limits, System, Answers, scale_up, Reach}
use incuse.Orchestrator.System.Held.{Held, Free, Holds, Owned}
use incuse.Orchestrator.System.Tasks.{cap}
use incuse.Orchestrator.System.Invariant.{Inv, Reach-Inv}

-- The three actions that may have to wait.
abbrev Blocks : Code → Type 0
Blocks (act (acquire_mint ctx) k) = Unit
Blocks (act (acquire_launch ctx) k) = Unit
Blocks (act wait k) = Unit
Blocks _ = ⊥

abbrev IsWaiting : Code → Type 0
IsWaiting (act wait k) = Unit
IsWaiting _ = ⊥

abbrev pub Panics : Code → Type 0
Panics (act panic k) = Unit
Panics _ = ⊥

module _ (limits : Limits) where
  -- The goroutine is not held up: its next action has an answer, or needs none.
  abbrev pub CanMove : Shared → Code → Type 0
  CanMove s (act a k) = (r : Reply a) × Answers limits s a r
  CanMove s _ = Unit

  status : (s : Shared) (c : Code) → (CanMove s c ⊎ Panics c) ⊎ Blocks c
  status s halt = inl (inl tt)
  status s (fork c k) = inl (inl tt)
  status s (act (acquire_mint ctx) k) = inr tt
  status s (act (acquire_launch ctx) k) = inr tt
  status s (act wait k) = inr tt
  status s (act panic k) = inl (inr tt)
  status s (act (reserve target) k) = inl (inl (scale_up target s, refl))
  status s (act start_task k) = inl (inl (not s.shutting_down, refl))
  status s (act (mark_busy n t) k) = inl (inl (_, refl))
  status s (act (mark_idle n t) k) = inl (inl (_, refl))
  status s (act (mark_for_termination n) k) = inl (inl (_, refl))
  status s (act (get n) k) = inl (inl (_, refl))
  status s (act (termination_pending n) k) = inl (inl (_, refl))
  status s (act snapshot k) = inl (inl (_, refl))
  status s (act names k) = inl (inl (_, refl))
  status s (act size k) = inl (inl (_, refl))
  status s (act (is_done lifecycle) k) = inl (inl (s.shutting_down, refl))
  status s (act (is_done _) k) = inl (inl (true, tt))
  status s (act now k) = inl (inl (0, tt))
  status s (act name_suffix k) = inl (inl ([], tt))
  status s (act (resolve ctx arch) k) = inl (inl (err [], tt))
  status s (act (generate_jit_config ctx n f) k) = inl (inl (err [], tt))
  status s (act (remove_runner ctx id) k) = inl (inl (none, tt))
  status s (act (incus_launch ctx req) k) = inl (inl (err [], tt))
  status s (act (incus_stop ctx n) k) = inl (inl (none, tt))
  status s (act (incus_delete ctx n) k) = inl (inl (none, tt))
  status s (act (incus_list ctx p) k) = inl (inl (err [], tt))
  status s (act _ k) = inl (inl (tt, tt))

  -- One of the goroutines moves on, or has panicked.
  abbrev pub SomeMoves : Shared → List Code → Type 0
  SomeMoves s cs =
      (before : List Code) × (c : Code) × (after : List Code) × (cs ≡ before ++ c ∷ after)
      × (CanMove s c ⊎ Panics c)

  later : (s : Shared) (c : Code) (cs : List Code) → SomeMoves s cs → SomeMoves s (c ∷ cs)
  later s c cs (before, d, after, e, m) = (c ∷ before, d, after, ap (λ z. c ∷ z) e, m)

  scan : (s : Shared) (cs : List Code) → SomeMoves s cs ⊎ All Blocks cs
  scan s [] = inr tt
  scan s (c ∷ cs) = elim (status s c) [
    | inl m ↦ inl ([], c, cs, refl, m)
    | inr b ↦ elim (scan s cs) [ inl m ↦ inl (later s c cs m) | inr bs ↦ inr (b, bs) ]
  ]

  -- With a permit left of each limiter only `Wait` holds a goroutine up.
  permitted :
      (s : Shared) (c : Code)
      → s.mint_held + s.mint_elsewhere < limits.mints
      → s.launch_held + s.launch_elsewhere < limits.launches
      → Blocks c
      → CanMove s c ⊎ IsWaiting c
  permitted s (act (acquire_mint ctx) k) m l b = inl (true, omega arith)
  permitted s (act (acquire_launch ctx) k) m l b = inl (true, omega arith)
  permitted s (act wait k) m l b = inr tt
  permitted s c m l b = inl (absurd b)

  scan_permitted :
      (s : Shared) (cs : List Code)
      → s.mint_held + s.mint_elsewhere < limits.mints
      → s.launch_held + s.launch_elsewhere < limits.launches
      → All Blocks cs
      → SomeMoves s cs ⊎ All IsWaiting cs
  scan_permitted s [] m l bs = inr tt
  scan_permitted s (c ∷ cs) m l (b, bs) = elim (permitted s c m l b) [
    | inl moves ↦ inl ([], c, cs, refl, inl moves)
    | inr w ↦ elim (scan_permitted s cs m l bs) [
      | inl moves ↦ inl (later s c cs moves)
      | inr ws ↦ inr (w, ws)
    ]
  ]

  none_reaping :
      (s : Shared) (c : Code) (cs : List Code)
      → s.reaping ≡ 0
      → All IsWaiting (c ∷ cs)
      → SomeMoves s (c ∷ cs)
  none_reaping s (act wait k) cs e ws = ([], act wait k, cs, refl, inl (tt, e))
  none_reaping s c cs e (w, ws) = absurd w

module _ (cap : ℕ) where
  blocked-Free : (c : Code) (g : Held) → Blocks c → Holds cap g c → Free g
  blocked-Free (act (acquire_mint ctx) k) g b ((free, in_task), follow) = free
  blocked-Free (act (acquire_launch ctx) k) g b (free, follow) = free
  blocked-Free (act wait k) g b ((free, none_left), follow) = free
  blocked-Free c g b h = absurd b

  all_blocked-Free : (cs : List Code) (h : Held) → All Blocks cs → Owned cap h cs → Free h
  all_blocked-Free [] h bs o = omega arith
  all_blocked-Free (c ∷ cs) h (b, bs) (g, r, p, hc, o) =
      let free = blocked-Free c g b hc in let free' = all_blocked-Free cs r bs o in omega arith

  waiting_alone : (c : Code) (g : Held) → IsWaiting c → Holds cap g c → g.waits ≡ 0
  waiting_alone (act wait k) g w ((free, none_left), follow) = none_left
  waiting_alone c g w h = absurd w

  all_waiting : (cs : List Code) (h : Held) → All IsWaiting cs → Owned cap h cs → h.waits ≡ 0
  all_waiting [] h ws o = omega arith
  all_waiting (c ∷ cs) h (w, ws) (g, r, p, hc, o) =
      let one = waiting_alone c g w hc in let others = all_waiting cs r ws o in omega arith

-- In every reachable state in which the other classes leave a permit of each limiter free, if there
-- are goroutines then one of them is not held up, or has panicked: the goroutines of a class never
-- all wait, for permits or for the teardowns of a sweep, at once.
pub no_deadlock :
    (limits : Limits) (cfg : Config) {s : System}
    → Reach limits cfg s
    → s.shared.mint_elsewhere < limits.mints
    → s.shared.launch_elsewhere < limits.launches
    → (c : Code) (cs : List Code) → s.code ≡ c ∷ cs
    → SomeMoves limits s.shared s.code
unfolding Inv
no_deadlock limits cfg {s} reached m l c cs e =
    let (h, v, o) = Reach-Inv limits cfg reached in
    elim (scan limits s.shared s.code) [
      | inl moves ↦ moves
      | inr bs ↦
          (let free = all_blocked-Free (cap cfg) s.code h bs o in
            elim (scan_permitted limits s.shared s.code (omega arith) (omega arith) bs) [
              | inl moves ↦ moves
              | inr ws ↦
                  (let alone = all_waiting (cap cfg) s.code h ws o in
                    subst (SomeMoves limits s.shared) (sym e) (
                      none_reaping limits s.shared c cs (omega arith) (subst (All IsWaiting) e ws)))
            ])
    ]
