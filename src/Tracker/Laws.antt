-- ===== src/Tracker/Laws.antt =====
-- How many runners the registry of internal/orchestrator/tracker.go has after an operation.
use incuse.Base.{ℕ, ◌+◌, ◌≤◌, ◌≡◌, Text, text_eq, some, Option-cases, length, inl, inr}
use incuse.Base.Dict
use incuse.Tracker.{
  TrackedRunner, Tracker, add, remove, mark_idle, mark_busy, mark_for_termination, size,
}

-- The size of the registry after each of its operations.
pub size-add-le : (r : TrackedRunner) (t : Tracker) → size (add r t) ≤ size t + 1
unfolding size add
size-add-le r t = Dict.length-insert-le r.name r t

pub size-remove-le : (name : Text) (t : Tracker) → size (remove name t) ≤ size t
unfolding size remove
size-remove-le name t = Dict.length-erase-le name t

-- A method that changes an entry in place.
length-update :
    (k : Text) (v w : TrackedRunner) (t : Tracker)
    → Dict.lookup k t ≡ some v
    → length (Dict.insert k w t) ≡ length t
length-update k v w t e = rw (Dict.length-insert k w t, e)

pub size-mark_busy : (name : Text) (now : ℕ) (t : Tracker) → size (mark_busy name now t).1 ≡ size t
unfolding size mark_busy
size-mark_busy name now t = elim (Option-cases (Dict.lookup name t)) [
  | inl e ↦ rw (e, mark_busy)
  | inr (v, e) ↦ rw (e, mark_busy) (length-update name v _ t e)
]

pub size-mark_idle : (name : Text) (now : ℕ) (t : Tracker) → size (mark_idle name now t).1 ≡ size t
unfolding size mark_idle
size-mark_idle name now t = elim (Option-cases (Dict.lookup name t)) [
  | inl e ↦ rw (e, mark_idle)
  | inr (v, e) ↦ rw (e, mark_idle) (length-update name v _ t e)
]

pub size-mark_for_termination :
    (name : Text) (t : Tracker) → size (mark_for_termination name t).1 ≡ size t
unfolding size mark_for_termination
size-mark_for_termination name t = elim (Option-cases (Dict.lookup name t)) [
  | inl e ↦ rw (e, mark_for_termination)
  | inr (v, e) ↦ rw (e, mark_for_termination) (length-update name v _ t e)
]
