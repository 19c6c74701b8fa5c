-- ===== src/Tracker/States.antt =====
-- The states of a runner in the registry of internal/orchestrator/tracker.go: launching, idle, busy,
-- in this order.
use incuse.Base.{
  ℕ, ◌≤◌, Text, text_eq, ◌==◌, true, false, none, some, ◌≡◌, refl, sym, ◌∙◌, subst, inl, inr,
  Bool-cases, arith,
}
use incuse.Tracker.{RunnerState, launching, idle, busy, TrackedRunner, Tracker, get}
use incuse.Tracker.Refinement.{
  Op, adds, removes, idles, busies, dooms, step, spec_step, Registry, idle_by, idle_at, busy_at,
  doomed, update_at, step-Simulates,
}

abbrev pub rank : RunnerState → ℕ
rank launching = 0
rank idle = 1
rank busy = 2

-- The state moves forward if at all, the requested termination stays requested, and it is the same
-- runner.
pub record Advances (v w : TrackedRunner) : Type 0 where
  pub forward : rank v.state ≤ rank w.state
  pub pending : v.termination_pending ≡ true → w.termination_pending ≡ true
  pub same_name : v.name ≡ w.name
  pub same_id : v.runner_id ≡ w.runner_id
  pub same_mint : v.minted_at ≡ w.minted_at

pub Advances-self : (v : TrackedRunner) → Advances v v
Advances-self v = record {
  forward = omega arith;
  pending = λ h. h;
  same_name = refl;
  same_id = refl;
  same_mint = refl;
}

idle_at-Advances : (now : ℕ) (v : TrackedRunner) → Advances v (idle_at now v)
idle_at-Advances now v = go v.state refl
  where
    go : (s : RunnerState) → v.state ≡ s → Advances v (idle_by s now v)
    go launching e = record {
      forward = subst (λ s. rank s ≤ 1) (sym e) (omega arith);
      pending = λ h. h;
      same_name = refl;
      same_id = refl;
      same_mint = refl;
    }
    go idle e = Advances-self v
    go busy e = Advances-self v

busy_at-Advances : (now : ℕ) (v : TrackedRunner) → Advances v (busy_at now v)
busy_at-Advances now v = record {
  forward = rank-le v.state;
  pending = λ h. h;
  same_name = refl;
  same_id = refl;
  same_mint = refl;
}
  where
    rank-le : (s : RunnerState) → rank s ≤ 2
    rank-le launching = omega arith
    rank-le idle = omega arith
    rank-le busy = omega arith

doomed-Advances : (v : TrackedRunner) → Advances v (doomed v)
doomed-Advances v = record {
  forward = omega arith;
  pending = λ h. refl;
  same_name = refl;
  same_id = refl;
  same_mint = refl;
}

pub none-some : (w : TrackedRunner) → none ≡ some w → ⊥
none-some w h = ground arith

pub some-eq : (v w : TrackedRunner) → some v ≡ some w → v ≡ w
some-eq v w h = cc

update-Advances :
    (f : TrackedRunner → TrackedRunner)
    → ((v : TrackedRunner) → Advances v (f v))
    → (m n : Text) (reg : Registry) (v w : TrackedRunner) → reg n ≡ some v
    → update_at m f reg n ≡ some w
    → Advances v w
update-Advances f fine m n reg v w before after = elim (Bool-cases (n == m)) [
  | inl q ↦
      let hit : update_at m f reg n ≡ some (f v) = rw (q, before) refl in
      subst (λ z. Advances v z) (some-eq (f v) w (sym hit ∙ after)) (fine v)
  | inr q ↦
      let miss : update_at m f reg n ≡ some v = rw (q, before) refl in
      subst (λ z. Advances v z) (some-eq v w (sym miss ∙ after)) (Advances-self v)
]

-- The operation does not track a new runner under this name.
abbrev pub Keeps : Op → Text → Type 0
Keeps (adds r) n = (n == r.name) ≡ false
Keeps _ n = Unit

spec_step-Advances :
    (op : Op) (n : Text) (reg : Registry) (v w : TrackedRunner)
    → Keeps op n
    → reg n ≡ some v
    → spec_step op reg n ≡ some w
    → Advances v w
spec_step-Advances (adds r) n reg v w k before after =
    let miss : spec_step (adds r) reg n ≡ some v = rw (k, before) refl in
    subst (λ z. Advances v z) (some-eq v w (sym miss ∙ after)) (Advances-self v)
spec_step-Advances (removes m) n reg v w k before after = elim (Bool-cases (n == m)) [
  | inl q ↦
      let gone : spec_step (removes m) reg n ≡ none = rw q refl in
      absurd (none-some w (sym gone ∙ after))
  | inr q ↦
      let miss : spec_step (removes m) reg n ≡ some v = rw (q, before) refl in
      subst (λ z. Advances v z) (some-eq v w (sym miss ∙ after)) (Advances-self v)
]
spec_step-Advances (idles m now) n reg v w k before after =
    update-Advances (idle_at now) (idle_at-Advances now) m n reg v w before after
spec_step-Advances (busies m now) n reg v w k before after =
    update-Advances (busy_at now) (busy_at-Advances now) m n reg v w before after
spec_step-Advances (dooms m) n reg v w k before after =
    update-Advances doomed doomed-Advances m n reg v w before after

-- An operation of the tracker other than the tracking of a new runner under the name leaves the
-- runner of a name as it is or moves it forward: from launching to idle or busy, from idle to busy,
-- never back; a requested termination stays requested; name, id and time of the mint stay.
pub step-Advances :
    (op : Op) (t : Tracker) (n : Text) (v w : TrackedRunner)
    → Keeps op n
    → get n t ≡ some v
    → get n (step op t) ≡ some w
    → Advances v w
step-Advances op t n v w k before after =
    spec_step-Advances op n (λ m. get m t) v w k before
      (sym ((step-Simulates op t (λ m. get m t) (λ m. refl)).0 n) ∙ after)
