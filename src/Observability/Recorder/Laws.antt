-- ===== src/Observability/Recorder/Laws.antt =====
-- What the collectors of internal/observability show after any sequence of observations. What the
-- code relies on of Prometheus is a record of operations and laws.
use incuse.Base.{
  ℕ, ◌+◌, ℤ, ◌≡◌, refl, ap, ◌∙◌, Text, codes, Eq, ℕ_discrete, text_eq, ◌==◌, Bool, false, ◌&&◌,
  Option, none, some, List, [], ◌∷◌, ◌++◌, arith, if◌then◌else◌,
}
use incuse.Observability.Recorder.{
  Statistic, Write, inc, set, observe, Event, statistics, job_started, job_completed, desired,
  spawned, launch_ok, launch_fail, launch_took, lived, reap, tracked, job_result, observed,
  all_observed,
}
use incuse.Observability.Recorder.Collectors.{
  Family, family_eq, runners_spawned, jobs_started, jobs_completed, launches, reaps,
  tracked_instances, desired_runners, total_available_jobs, total_acquired_jobs,
  total_assigned_jobs, total_running_jobs, total_registered_runners, total_busy_runners,
  total_idle_runners,
}

labels_discrete : Discrete (List Text)
unfolding ℕ_discrete
labels_discrete = hlevel ℕ_discrete

instance unfoldable pub labels_eq : Eq (List Text)
unfolding labels_discrete
labels_eq = record { dec = labels_discrete }

-- Whether a series is that of a collector's label values.
abbrev pub same_series : Family → List Text → Family → List Text → Bool
same_series f ls g ms = f == g && ls == ms

-- The documented behaviour of the library: a series of its own for each list of label values. `count`
-- reads a counter, which `inc` adds to, and `value` a gauge, which `set` overwrites; a collector is
-- used as one kind only (Kinds).
pub record Vectors (Float : Type 0) (float64 : ℤ → Float) : Type 1 where
  pub State : Type 0
  pub empty : State
  pub write : Write Float → State → State
  pub count : Family → List Text → State → ℕ
  pub value : Family → List Text → State → Option Float
  pub count_empty : (f : Family) (ls : List Text) → count f ls empty ≡ 0
  pub count_inc :
      (f g : Family) (ls ms : List Text) (s : State)
      → count f ls (write (inc g ms) s)
        ≡ (if same_series f ls g ms then count f ls s + 1 else count f ls s)
  pub count_set :
      (f g : Family) (ls ms : List Text) (x : Float) (s : State)
      → count f ls (write (set g ms x) s) ≡ count f ls s
  pub count_observe :
      (f g : Family) (ls ms : List Text) (x : Float) (s : State)
      → count f ls (write (observe g ms x) s) ≡ count f ls s
  pub value_empty : (f : Family) (ls : List Text) → value f ls empty ≡ none
  pub value_inc :
      (f g : Family) (ls ms : List Text) (s : State)
      → value f ls (write (inc g ms) s) ≡ value f ls s
  pub value_observe :
      (f g : Family) (ls ms : List Text) (x : Float) (s : State)
      → value f ls (write (observe g ms x) s) ≡ value f ls s
  pub value_set :
      (f g : Family) (ls ms : List Text) (x : Float) (s : State)
      → value f ls (write (set g ms x) s) ≡ (if same_series f ls g ms then some x else value f ls s)

abbrev pub is_series : Family → List Text → Option (Family × List Text) → Bool
is_series f ls none = false
is_series f ls (some (g, ms)) = same_series f ls g ms

module _ {Float : Type 0} where
  -- How many calls of a kind a class has made.
  abbrev pub calls : Text → (Event Float → Bool) → List (Text × Event Float) → ℕ
  calls c p [] = 0
  calls c p ((d, e) ∷ es) = (if c == d && p e then 1 else 0) + calls c p es

  -- The counter that a call adds to, and the labels behind the class.
  abbrev pub counts_in : Event Float → Option (Family × List Text)
  counts_in spawned = some (runners_spawned, [])
  counts_in job_started = some (jobs_started, [])
  counts_in (job_completed r) = some (jobs_completed, job_result r ∷ [])
  counts_in launch_ok = some (launches, codes "ok" ∷ [])
  counts_in launch_fail = some (launches, codes "fail" ∷ [])
  counts_in (reap reason) = some (reaps, reason ∷ [])
  counts_in _ = none

  -- The number that a call puts into a gauge.
  abbrev pub puts : Event Float → Family → Option ℤ
  puts (tracked n) tracked_instances = some n
  puts (desired n) desired_runners = some n
  puts (statistics (some x)) total_available_jobs = some x.available_jobs
  puts (statistics (some x)) total_acquired_jobs = some x.acquired_jobs
  puts (statistics (some x)) total_assigned_jobs = some x.assigned_jobs
  puts (statistics (some x)) total_running_jobs = some x.running_jobs
  puts (statistics (some x)) total_registered_runners = some x.registered_runners
  puts (statistics (some x)) total_busy_runners = some x.busy_runners
  puts (statistics (some x)) total_idle_runners = some x.idle_runners
  puts _ _ = none

module _ {Float : Type 0} (float64 : ℤ → Float) where
  -- What a gauge shows after one more call.
  abbrev shown : Option ℤ → Option Float → Option Float
  shown none x = x
  shown (some n) x = some (float64 n)

  -- What a gauge of a class shows after some calls, where it showed `x` before.
  abbrev pub last_put : Family → Text → List (Text × Event Float) → Option Float → Option Float
  last_put f c [] x = x
  last_put f c ((d, e) ∷ es) x = last_put f c es (if c == d then shown (puts e f) x else x)

module _ {Float : Type 0} (float64 : ℤ → Float) (v : Vectors Float float64) where
  open v use {State, empty, write, count, value}

  abbrev pub write_all : List (Write Float) → State → State
  write_all [] s = s
  write_all (w ∷ ws) s = write_all ws (write w s)

  write_all-append :
      (ws us : List (Write Float)) (s : State)
      → write_all (ws ++ us) s ≡ write_all us (write_all ws s)
  write_all-append [] us s = refl
  write_all-append (w ∷ ws) us s = write_all-append ws us (write w s)

  count_event :
      (f : Family) (c d : Text) (ls : List Text) (e : Event Float) (s : v.State)
      → count f (c ∷ ls) (write_all (observed float64 d e) s)
        ≡ (if c == d && is_series f ls (counts_in e) then 1 else 0) + count f (c ∷ ls) s
  unfolding observed
  count_event f c d ls spawned s = rw v.count_inc (ground arith)
  count_event f c d ls job_started s = rw v.count_inc (ground arith)
  count_event f c d ls (job_completed r) s = rw v.count_inc (ground arith)
  count_event f c d ls launch_ok s = rw v.count_inc (ground arith)
  count_event f c d ls launch_fail s = rw v.count_inc (ground arith)
  count_event f c d ls (reap reason) s = rw v.count_inc (ground arith)
  count_event f c d ls (statistics none) s = ground arith
  count_event f c d ls (statistics (some x)) s = simp v.count_set (ground arith)
  count_event f c d ls (launch_took x) s = rw v.count_observe (ground arith)
  count_event f c d ls (lived x) s = rw v.count_observe (ground arith)
  count_event f c d ls (desired n) s = rw v.count_set (ground arith)
  count_event f c d ls (tracked n) s = rw v.count_set (ground arith)

  -- After any calls of recorders of any classes, a counter's series of a class shows how many calls
  -- of this class there were that count in it, and no other.
  pub counters_lem :
      (es : List (Text × Event Float)) (f : Family) (c : Text) (ls : List Text) (s : v.State)
      → count f (c ∷ ls) (write_all (all_observed float64 es) s)
        ≡ calls c (λ e. is_series f ls (counts_in e)) es + count f (c ∷ ls) s
  unfolding all_observed
  counters_lem [] f c ls s = omega arith
  counters_lem ((d, e) ∷ es) f c ls s =
      rw (write_all-append (observed float64 d e) (all_observed float64 es) s) (
        omega (
          arith,
          counters_lem es f c ls (write_all (observed float64 d e) s),
          count_event f c d ls e s,
        ))

  -- What one call leaves in a gauge.
  abbrev Puts : Family → Event Float → Type 0
  Puts f e =
      (c d : Text) (s : v.State)
      → value f (c ∷ []) (write_all (observed float64 d e) s)
        ≡ (if c == d then shown float64 (puts e f) (value f (c ∷ []) s) else value f (c ∷ []) s)

  statistics-Puts : (f : Family) (x : Statistic) → Puts f (statistics (some x))
  unfolding observed family_eq
  statistics-Puts total_available_jobs x c d s = simp v.value_set (ground arith)
  statistics-Puts total_acquired_jobs x c d s = simp v.value_set (ground arith)
  statistics-Puts total_assigned_jobs x c d s = simp v.value_set (ground arith)
  statistics-Puts total_running_jobs x c d s = simp v.value_set (ground arith)
  statistics-Puts total_registered_runners x c d s = simp v.value_set (ground arith)
  statistics-Puts total_busy_runners x c d s = simp v.value_set (ground arith)
  statistics-Puts total_idle_runners x c d s = simp v.value_set (ground arith)
  statistics-Puts _ x c d s = simp v.value_set (ground arith)

  desired-Puts : (f : Family) (n : ℤ) → Puts f (desired n)
  unfolding observed family_eq
  desired-Puts desired_runners n c d s = rw v.value_set (ground arith)
  desired-Puts _ n c d s = rw v.value_set (ground arith)

  tracked-Puts : (f : Family) (n : ℤ) → Puts f (tracked n)
  unfolding observed family_eq
  tracked-Puts tracked_instances n c d s = rw v.value_set (ground arith)
  tracked-Puts _ n c d s = rw v.value_set (ground arith)

  event-Puts : (f : Family) (e : Event Float) → Puts f e
  unfolding observed
  event-Puts f (statistics (some x)) c d s = statistics-Puts f x c d s
  event-Puts f (statistics none) c d s = ground arith
  event-Puts f (desired n) c d s = desired-Puts f n c d s
  event-Puts f (tracked n) c d s = tracked-Puts f n c d s
  event-Puts f (launch_took x) c d s = rw v.value_observe (ground arith)
  event-Puts f (lived x) c d s = rw v.value_observe (ground arith)
  event-Puts f spawned c d s = rw v.value_inc (ground arith)
  event-Puts f _ c d s = rw v.value_inc (ground arith)

  -- After any calls of recorders of any classes, a gauge of a class shows the number of the last call
  -- of this class that puts one into it, and otherwise what it showed before.
  pub gauges_lem :
      (es : List (Text × Event Float)) (f : Family) (c : Text) (s : v.State)
      → value f (c ∷ []) (write_all (all_observed float64 es) s)
        ≡ last_put float64 f c es (value f (c ∷ []) s)
  unfolding all_observed
  gauges_lem [] f c s = refl
  gauges_lem ((d, e) ∷ es) f c s =
      rw (write_all-append (observed float64 d e) (all_observed float64 es) s) (
        gauges_lem es f c (write_all (observed float64 d e) s)
        ∙ ap (last_put float64 f c es) (event-Puts f e c d s))
