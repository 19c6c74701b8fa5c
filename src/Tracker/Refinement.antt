-- ===== src/Tracker/Refinement.antt =====
-- The registry of internal/orchestrator/tracker.go against the map that it stands for: a function
-- from names to runners.
use mathlib.Core.Option
use incuse.Base.{
  ℕ, Text, text_eq, ◌==◌, eq_of_true, Bool, true, Option, none, some, Option-cases, List, [], ◌∷◌,
  ◌≡◌, refl, sym, ◌∙◌, ap, subst, inl, inr, Bool-cases, if◌then◌else◌,
}
use incuse.Base.Dict
use incuse.Tracker.{
  RunnerState, launching, idle, busy, TrackedRunner, Tracker, new_tracker, add, remove, get,
  set_idle, mark_idle, mark_busy, mark_for_termination,
}

pub data Op : Type 0 where
  adds : TrackedRunner → Op
  removes : Text → Op
  idles busies : Text → ℕ → Op
  dooms : Text → Op

-- What an operation answers.
pub data Answer : Type 0 where
  done : Answer
  previous : Option RunnerState → Answer
  pending : Option Bool → Answer

abbrev pub step : Op → Tracker → Tracker
step (adds r) t = add r t
step (removes n) t = remove n t
step (idles n now) t = (mark_idle n now t).1
step (busies n now) t = (mark_busy n now t).1
step (dooms n) t = (mark_for_termination n t).1

abbrev pub answer : Op → Tracker → Answer
answer (adds r) t = done
answer (removes n) t = done
answer (idles n now) t = pending (mark_idle n now t).0
answer (busies n now) t = previous (mark_busy n now t).0
answer (dooms n) t = previous (mark_for_termination n t).0

-- The abstract registry.
abbrev pub Registry : Type 0
Registry = Text → Option TrackedRunner

abbrev pub idle_by : RunnerState → ℕ → TrackedRunner → TrackedRunner
idle_by launching now v = record v { state = idle; ready_at = now }
idle_by idle now v = v
idle_by busy now v = v

abbrev pub idle_at : ℕ → TrackedRunner → TrackedRunner
idle_at now v = idle_by v.state now v

abbrev pub busy_at : ℕ → TrackedRunner → TrackedRunner
busy_at now v = record v { busy_at = now; state = busy }

abbrev pub doomed : TrackedRunner → TrackedRunner
doomed v = record v { termination_pending = true }

abbrev pub update_at : Text → (TrackedRunner → TrackedRunner) → Registry → Registry
update_at m f reg n = if n == m then Option.map f (reg n) else reg n

abbrev pub spec_step : Op → Registry → Registry
spec_step (adds r) reg n = if n == r.name then some r else reg n
spec_step (removes m) reg n = if n == m then none else reg n
spec_step (idles m now) reg n = update_at m (idle_at now) reg n
spec_step (busies m now) reg n = update_at m (busy_at now) reg n
spec_step (dooms m) reg n = update_at m doomed reg n

abbrev pub spec_answer : Op → Registry → Answer
spec_answer (adds r) reg = done
spec_answer (removes m) reg = done
spec_answer (idles m now) reg = pending (Option.map (λ v. v.termination_pending) (reg m))
spec_answer (busies m now) reg = previous (Option.map (λ v. v.state) (reg m))
spec_answer (dooms m) reg = previous (Option.map (λ v. v.state) (reg m))

-- The concrete registry holds what the abstract one says.
abbrev pub Holds : Tracker → Registry → Type 0
Holds t reg = (n : Text) → get n t ≡ reg n

abbrev Simulates : Op → Tracker → Registry → Type 0
Simulates op t reg = Holds (step op t) (spec_step op reg) × (answer op t ≡ spec_answer op reg)

-- What the abstract registry has at a name that equals `m`.
entry-at :
    (m n : Text) (o : Option TrackedRunner) (t : Tracker) (reg : Registry)
    → Holds t reg
    → Dict.lookup m t ≡ o
    → (n == m) ≡ true
    → reg n ≡ o
unfolding get
entry-at m n o t reg h e q = sym (h n) ∙ ap (λ z. Dict.lookup z t) (eq_of_true n m q) ∙ e

-- An entry that is known, overwritten with what `f` makes of it.
insert-update :
    (m : Text) (v : TrackedRunner) (f : TrackedRunner → TrackedRunner) (t : Tracker)
    (reg : Registry)
    → Holds t reg
    → Dict.lookup m t ≡ some v
    → Holds (Dict.insert m (f v) t) (update_at m f reg)
unfolding get
insert-update m v f t reg h e n = Dict.lookup-insert n m (f v) t ∙ (elim (Bool-cases (n == m)) [
  | inl q ↦ rw (q, entry-at m n (some v) t reg h e q) refl
  | inr q ↦ rw q (h n)
])

keep-update :
    (m : Text) (f : TrackedRunner → TrackedRunner) (t : Tracker) (reg : Registry)
    → Holds t reg
    → Dict.lookup m t ≡ none
    → Holds t (update_at m f reg)
unfolding get
keep-update m f t reg h e n = elim (Bool-cases (n == m)) [
  | inl q ↦ let absent = entry-at m n none t reg h e q in rw (q, absent) (h n ∙ absent)
  | inr q ↦ rw q (h n)
]

same-entry :
    (m : Text) (o : Option TrackedRunner) (t : Tracker) (reg : Registry)
    → Holds t reg
    → Dict.lookup m t ≡ o
    → reg m ≡ o
unfolding get
same-entry m o t reg h e = sym (h m) ∙ e

set_idle-eq : (s : RunnerState) (v : TrackedRunner) (now : ℕ) → set_idle s now v ≡ idle_by s now v
set_idle-eq launching v now = refl
set_idle-eq idle v now = refl
set_idle-eq busy v now = refl

mark_idle-Simulates :
    (m : Text) (now : ℕ) (t : Tracker) (reg : Registry)
    → Holds t reg
    → Simulates (idles m now) t reg
unfolding mark_idle get
mark_idle-Simulates m now t reg h = elim (Option-cases (Dict.lookup m t)) [
  | inl e ↦
      let q : mark_idle m now t ≡ (none, t) = rw (e, mark_idle) refl in
      subst
        (λ p.
          Holds p.1 (update_at m (idle_at now) reg) × (pending p.0 ≡ spec_answer (idles m now) reg))
        (sym q)
        (
          keep-update m (idle_at now) t reg h e,
          ap (λ o. pending (Option.map (λ v. v.termination_pending) o))
              (sym (same-entry m none t reg h e)),
        )
  | inr (v, e) ↦
      let q : mark_idle m now t ≡ (some v.termination_pending, Dict.insert m (idle_at now v) t) =
        rw (e, mark_idle, set_idle-eq v.state v now) refl in
      subst
        (λ p.
          Holds p.1 (update_at m (idle_at now) reg) × (pending p.0 ≡ spec_answer (idles m now) reg))
        (sym q)
        (
          insert-update m v (idle_at now) t reg h e,
          ap (λ o. pending (Option.map (λ v. v.termination_pending) o))
              (sym (same-entry m (some v) t reg h e)),
        )
]

mark_busy-Simulates :
    (m : Text) (now : ℕ) (t : Tracker) (reg : Registry)
    → Holds t reg
    → Simulates (busies m now) t reg
unfolding mark_busy get
mark_busy-Simulates m now t reg h = elim (Option-cases (Dict.lookup m t)) [
  | inl e ↦
      let q : mark_busy m now t ≡ (none, t) = rw (e, mark_busy) refl in
      subst
        (λ p.
          Holds p.1 (update_at m (busy_at now) reg)
          × (previous p.0 ≡ spec_answer (busies m now) reg))
        (sym q)
        (
          keep-update m (busy_at now) t reg h e,
          ap (λ o. previous (Option.map (λ v. v.state) o)) (sym (same-entry m none t reg h e)),
        )
  | inr (v, e) ↦
      let q : mark_busy m now t ≡ (some v.state, Dict.insert m (busy_at now v) t) =
        rw (e, mark_busy) refl in
      subst
        (λ p.
          Holds p.1 (update_at m (busy_at now) reg)
          × (previous p.0 ≡ spec_answer (busies m now) reg))
        (sym q)
        (
          insert-update m v (busy_at now) t reg h e,
          ap (λ o. previous (Option.map (λ v. v.state) o)) (sym (same-entry m (some v) t reg h e)),
        )
]

mark_for_termination-Simulates :
    (m : Text) (t : Tracker) (reg : Registry) → Holds t reg → Simulates (dooms m) t reg
unfolding mark_for_termination get
mark_for_termination-Simulates m t reg h = elim (Option-cases (Dict.lookup m t)) [
  | inl e ↦
      let q : mark_for_termination m t ≡ (none, t) = rw (e, mark_for_termination) refl in
      subst (λ p. Holds p.1 (update_at m (doomed) reg) × (previous p.0 ≡ spec_answer (dooms m) reg))
        (sym q)
        (
          keep-update m (doomed) t reg h e,
          ap (λ o. previous (Option.map (λ v. v.state) o)) (sym (same-entry m none t reg h e)),
        )
  | inr (v, e) ↦
      let q : mark_for_termination m t ≡ (some v.state, Dict.insert m (doomed v) t) =
        rw (e, mark_for_termination) refl in
      subst (λ p. Holds p.1 (update_at m (doomed) reg) × (previous p.0 ≡ spec_answer (dooms m) reg))
        (sym q)
        (
          insert-update m v (doomed) t reg h e,
          ap (λ o. previous (Option.map (λ v. v.state) o)) (sym (same-entry m (some v) t reg h e)),
        )
]

pub step-Simulates : (op : Op) (t : Tracker) (reg : Registry) → Holds t reg → Simulates op t reg
unfolding add remove get
step-Simulates (adds r) t reg h = ((λ n. Dict.lookup-insert n r.name r t ∙ rw (h n) refl), refl)
step-Simulates (removes m) t reg h = ((λ n. Dict.lookup-erase n m t ∙ rw (h n) refl), refl)
step-Simulates (idles m now) t reg h = mark_idle-Simulates m now t reg h
step-Simulates (busies m now) t reg h = mark_busy-Simulates m now t reg h
step-Simulates (dooms m) t reg h = mark_for_termination-Simulates m t reg h

-- The answers of a sequence of operations, with the registry after them.
abbrev pub run : List Op → Tracker → List Answer × Tracker
run [] t = ([], t)
run (op ∷ ops) t = let (answers, after) = run ops (step op t) in (answer op t ∷ answers, after)

abbrev pub spec_run : List Op → Registry → List Answer × Registry
spec_run [] reg = ([], reg)
spec_run (op ∷ ops) reg =
    let (answers, after) = spec_run ops (spec_step op reg) in (spec_answer op reg ∷ answers, after)

run-Holds :
    (ops : List Op) (t : Tracker) (reg : Registry)
    → Holds t reg
    → ((run ops t).0 ≡ (spec_run ops reg).0) × Holds (run ops t).1 (spec_run ops reg).1
run-Holds [] t reg h = (refl, h)
run-Holds (op ∷ ops) t reg h =
    let (later, same) = step-Simulates op t reg h in
    let (answers, holds) = run-Holds ops (step op t) (spec_step op reg) later in
    (rw (same, answers) refl, holds)

-- Any sequence of operations of a new tracker answers what the same operations of a function from
-- names to runners answer, and leaves a registry that holds the same runner, or none, for each name.
pub run-refines :
    (ops : List Op)
    → ((run ops new_tracker).0 ≡ (spec_run ops (λ n. none)).0)
      × ((n : Text) → get n (run ops new_tracker).1 ≡ (spec_run ops (λ n. none)).1 n)
unfolding get
run-refines ops = run-Holds ops new_tracker (λ n. none) (λ n. Dict.lookup-nil n)
