-- ===== src/Orchestrator/System/Lifecycle.antt =====
-- A runner over the steps of the orchestrator of internal/orchestrator.
use incuse.Base.{
  Text, text_eq, ◌==◌, true, false, Option, none, some, ◌≡◌, refl, sym, ◌∙◌, ap, subst, arith,
}
use incuse.Tracker
use incuse.Tracker.{TrackedRunner, Tracker}
use incuse.Tracker.Refinement.{Op, adds, removes, idles, busies, dooms, step}
use incuse.Tracker.States.{Advances, Advances-self, step-Advances, some-eq}
use incuse.Orchestrator.Program.{
  Config, Action, Reply, commit, mark_busy, mark_idle, mark_for_termination, remove, start_task,
  acquire_mint, acquire_launch,
}
use incuse.Orchestrator.System.{
  Shared, Limits, System, perform, Step, acts, forks, ends, desires, begins, completes, ticks,
  stops, shares,
}

-- What an action does to the tracker.
abbrev tracker_op : Action → Option Op
tracker_op (commit r) = some (adds r)
tracker_op (remove n) = some (removes n)
tracker_op (mark_idle n t) = some (idles n t)
tracker_op (mark_busy n t) = some (busies n t)
tracker_op (mark_for_termination n) = some (dooms n)
tracker_op _ = none

abbrev tracker_after : Option Op → Tracker → Tracker
tracker_after none t = t
tracker_after (some op) t = step op t

perform-tracker :
    (a : Action) (r : Reply a) (s : Shared)
    → (perform a r s).tracker ≡ tracker_after (tracker_op a) s.tracker
unfolding perform
perform-tracker start_task true s = refl
perform-tracker (acquire_mint _) true s = refl
perform-tracker (acquire_launch _) true s = refl
perform-tracker a r s = refl

Advances-trans : (u v w : TrackedRunner) → Advances u v → Advances v w → Advances u w
Advances-trans u v w p q = record {
  forward = omega arith;
  pending = λ h. q.pending (p.pending h);
  same_name = p.same_name ∙ q.same_name;
  same_id = p.same_id ∙ q.same_id;
  same_mint = p.same_mint ∙ q.same_mint;
}

-- The action does not track a new runner under this name.
abbrev SparesIn : Action → Text → Type 0
SparesIn (commit r) n = (n == r.name) ≡ false
SparesIn _ n = Unit

unmoved :
    (t : Tracker) (n : Text) (v w : TrackedRunner)
    → Tracker.get n t ≡ some v
    → Tracker.get n t ≡ some w
    → Advances v w
unmoved t n v w before after =
    subst (Advances v) (some-eq v w (sym before ∙ after)) (Advances-self v)

op-Advances :
    (a : Action) (t : Tracker) (n : Text) (v w : TrackedRunner)
    → SparesIn a n
    → Tracker.get n t ≡ some v
    → Tracker.get n (tracker_after (tracker_op a) t) ≡ some w
    → Advances v w
op-Advances (commit r) t n v w spares before after =
    step-Advances (adds r) t n v w spares before after
op-Advances (remove m) t n v w spares before after =
    step-Advances (removes m) t n v w tt before after
op-Advances (mark_idle m now) t n v w spares before after =
    step-Advances (idles m now) t n v w tt before after
op-Advances (mark_busy m now) t n v w spares before after =
    step-Advances (busies m now) t n v w tt before after
op-Advances (mark_for_termination m) t n v w spares before after =
    step-Advances (dooms m) t n v w tt before after
op-Advances a t n v w spares before after = unmoved t n v w before after

act-Advances :
    (a : Action) (r : Reply a) (s : Shared) (n : Text) (v w : TrackedRunner)
    → SparesIn a n
    → Tracker.get n s.tracker ≡ some v
    → Tracker.get n (perform a r s).tracker ≡ some w
    → Advances v w
act-Advances a r s n v w spares before after =
    op-Advances a s.tracker n v w spares before
      (subst (λ z. Tracker.get n z ≡ some w) (perform-tracker a r s) after)

module _ (limits : Limits) (cfg : Config) (n : Text) where
  -- The step does not track a new runner under the name.
  abbrev pub Spares : {s t : System} → Step limits cfg s t → Type 0
  Spares (acts _ _ a _ _ _ _ _) = SparesIn a n
  Spares _ = Unit

  -- Steps during which a runner of the name is tracked, and no other takes its place.
  pub data Lifetime (s : System) : System → Type 0 where
    here : Lifetime s s
    onward :
        {t u : System}
        → Lifetime s t
        → (st : Step limits cfg t u) → Spares st
        → (v : TrackedRunner) × (Tracker.get n t.shared.tracker ≡ some v)
        → Lifetime s u

  tracker_kept :
      (s t : System) (z : Shared) (v w : TrackedRunner)
      → t.shared ≡ z
      → z.tracker ≡ s.shared.tracker
      → Tracker.get n s.shared.tracker ≡ some v
      → Tracker.get n t.shared.tracker ≡ some w
      → Advances v w
  tracker_kept s t z v w e k before after =
      unmoved s.shared.tracker n v w before
        (subst (λ x. Tracker.get n x ≡ some w) (ap (λ x. x.tracker) e ∙ k) after)

  single-Advances :
      (s t : System) (st : Step limits cfg s t) (v w : TrackedRunner)
      → Spares st
      → Tracker.get n s.shared.tracker ≡ some v
      → Tracker.get n t.shared.tracker ≡ some w
      → Advances v w
  single-Advances s t (acts _ _ a k r e ans q) v w spares before after =
      act-Advances a r s.shared n v w spares before
        (subst (λ z. Tracker.get n z.shared.tracker ≡ some w) q after)
  single-Advances s t (forks _ _ c k e q) v w spares before after =
      tracker_kept s t _ v w (ap (λ z. z.shared) q) refl before after
  single-Advances s t (ends _ _ e q) v w spares before after =
      tracker_kept s t _ v w (ap (λ z. z.shared) q) refl before after
  single-Advances s t (desires count q) v w spares before after =
      tracker_kept s t _ v w (ap (λ z. z.shared) q) refl before after
  single-Advances s t (begins e q) v w spares before after =
      tracker_kept s t _ v w (ap (λ z. z.shared) q) refl before after
  single-Advances s t (completes e q) v w spares before after =
      tracker_kept s t _ v w (ap (λ z. z.shared) q) refl before after
  single-Advances s t (ticks i q) v w spares before after =
      tracker_kept s t _ v w (ap (λ z. z.shared) q) refl before after
  single-Advances s t (stops i q) v w spares before after =
      tracker_kept s t _ v w (ap (λ z. z.shared) q) refl before after
  single-Advances s t (shares m l x y q) v w spares before after =
      tracker_kept s t _ v w (ap (λ z. z.shared) q) refl before after

  -- Over any steps of the orchestrator during which a runner of a name is tracked and no other takes
  -- its place, its state moves forward if at all, from launching to idle or busy and from idle to
  -- busy, never back; a requested termination stays requested; and its name, its id and the time of
  -- its mint stay.
  pub runner-Advances :
      (s t : System) (v w : TrackedRunner)
      → Lifetime s t
      → Tracker.get n s.shared.tracker ≡ some v
      → Tracker.get n t.shared.tracker ≡ some w
      → Advances v w
  runner-Advances s t v w here before after = unmoved s.shared.tracker n v w before after
  runner-Advances s t v w (onward {t = m} l st spares (x, e)) before after =
      Advances-trans v x w (runner-Advances s m v x l before e)
        (single-Advances m t st x w spares e after)
