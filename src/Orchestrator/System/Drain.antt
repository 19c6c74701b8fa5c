-- ===== src/Orchestrator/System/Drain.antt =====
-- The goroutines of internal/orchestrator come to an end, whatever order they run in.
use mathlib.Core.WellFounded.{Acc}
use incuse.Base.{true, ◌<◌, pos, ◌≡◌, refl, sym, subst, ap, ◌⊎◌, inl, inr, List, [], ◌∷◌, ◌++◌}
use incuse.Orchestrator.Program.{
  Config, Action, Reply, Code, halt, act, fork, start_task, acquire_mint, acquire_launch,
}
use incuse.Orchestrator.System.{
  Shared, Limits, System, perform, Step, acts, forks, ends, Reach, next,
}
use incuse.Orchestrator.System.Safety.{nothing_leaks}
use incuse.Orchestrator.System.Progress.{CanMove, Panics, no_deadlock}

-- What the first of some goroutines makes of them all when it moves.
abbrev FirstMoves : Code → List Code → List Code → Type 0
FirstMoves halt cs ds = ds ≡ cs
FirstMoves (act a k) cs ds = (r : Reply a) × (ds ≡ k r ∷ cs)
FirstMoves (fork c k) cs ds = ds ≡ c ∷ k ∷ cs

abbrev Moved : List Code → List Code → Type 0
Moved [] ds = ⊥
Moved (c ∷ cs) ds = FirstMoves c cs ds ⊎ ((es : List Code) × Moved cs es × (ds ≡ c ∷ es))

-- No infinite sequence of moves starts here.
abbrev Ends : List Code → Type 0
Ends cs = Acc (λ ds cs. Moved cs ds) cs

Ends-cons : (c : Code) (cs : List Code) → Ends cs → Ends (c ∷ cs)
Ends-cons halt cs (Acc.intro _ f) = Acc.intro (halt ∷ cs) (λ ds m. elim m [
  | inl e ↦ subst Ends (sym e) (Acc.intro cs f)
  | inr (es, m', e) ↦ subst Ends (sym e) (Ends-cons halt es (f es m'))
])
Ends-cons (act a k) cs (Acc.intro _ f) = Acc.intro (act a k ∷ cs) (λ ds m. elim m [
  | inl (r, e) ↦ subst Ends (sym e) (Ends-cons (k r) cs (Acc.intro cs f))
  | inr (es, m', e) ↦ subst Ends (sym e) (Ends-cons (act a k) es (f es m'))
])
Ends-cons (fork c k) cs (Acc.intro _ f) = Acc.intro (fork c k ∷ cs) (λ ds m. elim m [
  | inl e ↦ subst Ends (sym e) (Ends-cons c (k ∷ cs) (Ends-cons k cs (Acc.intro cs f)))
  | inr (es, m', e) ↦ subst Ends (sym e) (Ends-cons (fork c k) es (f es m'))
])

all_end : (cs : List Code) → Ends cs
all_end [] = Acc.intro [] (λ ds m. absurd m)
all_end (c ∷ cs) = Ends-cons c cs (all_end cs)

act_moves :
    (before after : List Code) (a : Action) (k : Reply a → Code) (r : Reply a)
    → Moved (before ++ act a k ∷ after) (before ++ k r ∷ after)
act_moves [] after a k r = inl (r, refl)
act_moves (b ∷ before) after a k r = inr (_, act_moves before after a k r, refl)

fork_moves :
    (before after : List Code) (c k : Code)
    → Moved (before ++ fork c k ∷ after) (before ++ c ∷ k ∷ after)
fork_moves [] after c k = inl refl
fork_moves (b ∷ before) after c k = inr (_, fork_moves before after c k, refl)

end_moves : (before after : List Code) → Moved (before ++ halt ∷ after) (before ++ after)
end_moves [] after = inl refl
end_moves (b ∷ before) after = inr (_, end_moves before after, refl)

module _ (limits : Limits) (cfg : Config) where
  -- A step of a goroutine that is there, and not one of the listener, the ticker or other classes.
  abbrev pub IsOwn : {s t : System} → Step limits cfg s t → Type 0
  IsOwn (acts _ _ _ _ _ _ _ _) = Unit
  IsOwn (forks _ _ _ _ _ _) = Unit
  IsOwn (ends _ _ _ _) = Unit
  IsOwn _ = ⊥

  -- Whichever goroutine moves at each step, and whatever it is answered: after finitely many steps
  -- none can move, and a state is reached that is as `P` says.
  pub data Settles (P : System → Type 0) : System → Type 0 where
    settles :
        (s : System)
        → ((t : System) (st : Step limits cfg s t) → IsOwn st → Settles P t)
        → ((t : System) × (st : Step limits cfg s t) × IsOwn st) ⊎ P s
        → Settles P s

  moves-with :
      (s t : System) (cs ds : List Code)
      → s.code ≡ cs
      → t.code ≡ ds
      → Moved cs ds
      → Moved s.code t.code
  moves-with s t cs ds p q m = subst (λ z. Moved z t.code) (sym p) (subst (Moved cs) (sym q) m)

  own_moves : (s t : System) (st : Step limits cfg s t) → IsOwn st → Moved s.code t.code
  own_moves s t (acts before after a k r e ans q) own =
      moves-with s t _ _ e (ap (λ z. z.code) q) (act_moves before after a k r)
  own_moves s t (forks before after c k e q) own =
      moves-with s t _ _ e (ap (λ z. z.code) q) (fork_moves before after c k)
  own_moves s t (ends before after e q) own =
      moves-with s t _ _ e (ap (λ z. z.code) q) (end_moves before after)
  own_moves s t _ own = absurd own

  -- Permits of each limiter that the other classes leave.
  abbrev pub HasRoom : Shared → Type 0
  HasRoom s = (s.mint_elsewhere < limits.mints) × (s.launch_elsewhere < limits.launches)

  perform-HasRoom : (a : Action) (r : Reply a) (s : Shared) → HasRoom s → HasRoom (perform a r s)
  unfolding perform
  perform-HasRoom start_task true s h = h
  perform-HasRoom (acquire_mint _) true s h = h
  perform-HasRoom (acquire_launch _) true s h = h
  perform-HasRoom a r s h = h

  own-HasRoom :
      (s t : System) (st : Step limits cfg s t) → IsOwn st → HasRoom s.shared → HasRoom t.shared
  own-HasRoom s t (acts _ _ a k r e ans q) own h =
      subst (λ z. HasRoom z.shared) (sym q) (perform-HasRoom a r s.shared h)
  own-HasRoom s t (forks _ _ c k e q) own h = subst (λ z. HasRoom z.shared) (sym q) h
  own-HasRoom s t (ends _ _ e q) own h = subst (λ z. HasRoom z.shared) (sym q) h
  own-HasRoom s t _ own h = absurd own

  -- No goroutine is left, and nothing of theirs.
  abbrev pub IsDrained : System → Type 0
  IsDrained s =
      (s.code ≡ [])
      × (s.shared.spawn_inflight ≡ pos 0)
      × (s.shared.mint_held ≡ 0)
      × (s.shared.launch_held ≡ 0)
      × (s.shared.tasks ≡ 0)
      × (s.shared.reaping ≡ 0)

  abbrev pub HasPanicked : System → Type 0
  HasPanicked s =
      (before : List Code) × (c : Code) × (after : List Code) × (s.code ≡ before ++ c ∷ after)
      × Panics c

  free_step :
      (s : System) (before after : List Code) (c : Code)
      → s.code ≡ before ++ c ∷ after
      → CanMove limits s.shared c
      → (t : System) × (st : Step limits cfg s t) × IsOwn st
  free_step s before after (act a k) e (r, ans) = (_, acts before after a k r e ans refl, tt)
  free_step s before after (fork c k) e m = (_, forks before after c k e refl, tt)
  free_step s before after halt e m = (_, ends before after e refl, tt)

  now_or_later :
      (s : System) (cs : List Code)
      → s.code ≡ cs
      → Reach limits cfg s
      → HasRoom s.shared
      → ((t : System) × (st : Step limits cfg s t) × IsOwn st) ⊎ (IsDrained s ⊎ HasPanicked s)
  now_or_later s [] e reached room =
      let (inflight, mints, launches, tasks, waits) = nothing_leaks limits cfg reached e in
      inr (inl (e, inflight, mints, launches, tasks, waits))
  now_or_later s (c ∷ cs) e reached (m, l) =
      let (before, d, after, at, moves) = no_deadlock limits cfg reached m l c cs e in
      elim moves [
        | inl free ↦ inl (free_step s before after d at free)
        | inr panics ↦ inr (inr (before, d, after, at, panics))
      ]

  settle :
      (cs : List Code)
      → Ends cs
      → (s : System) → s.code ≡ cs
      → Reach limits cfg s
      → HasRoom s.shared
      → Settles (λ t. IsDrained t ⊎ HasPanicked t) s
  settle cs (Acc.intro _ f) s e reached room =
      settles s
        (λ t st own.
          settle t.code (f t.code (subst (λ z. Moved z t.code) e (own_moves s t st own))) t refl
            (next reached st) (own-HasRoom s t st own room))
        (now_or_later s cs e reached room)

  -- From every reachable state in which the other classes leave a permit of each limiter free, while
  -- no call of the listener and no tick comes and the other classes keep what they have: in whatever
  -- order the goroutines act and whatever the clients answer, they all end after finitely many
  -- steps, and then no runner counts as being spawned, this class holds no permit, and the task
  -- group and the wait group are empty; unless one of them panics.
  pub goroutines_drain :
      (s : System)
      → Reach limits cfg s
      → HasRoom s.shared
      → Settles (λ t. IsDrained t ⊎ HasPanicked t) s
  goroutines_drain s reached room = settle s.code (all_end s.code) s refl reached room
