-- ===== src/Observability/Recorder/Tests.antt =====
-- The theorems of internal/observability/recorder.go at a run of two classes, over a registry that
-- keeps the list of its writes. Floats are whole numbers there.
use incuse.Base.{
  ℕ, ◌+◌, ℤ, pos, ◌≡◌, refl, Text, text_eq, codes, contains, true, Option, none, some, List, [],
  ◌∷◌, All, Nodup, if◌then◌else◌,
}
use incuse.Observability.Recorder.{
  Write, inc, set, Event, launch_ok, launch_fail, reap, tracked, observed, observed_unbound,
  all_observed, for_scale_set, new_recorder,
}
use incuse.Observability.Recorder.Collectors.{
  Family, family_eq, launches, tracked_instances, registered, full_name,
}
use incuse.Observability.Recorder.Laws.{
  same_series, labels_eq, Vectors, write_all, calls, counts_in, is_series, last_put, counters_lem,
  gauges_lem,
}
use incuse.Observability.Recorder.Kinds.{Fits, recorder-Fits}

abbrev float64 : ℤ → ℤ
float64 n = n

abbrev count : Family → List Text → List (Write ℤ) → ℕ
count f ls [] = 0
count f ls (inc g ms ∷ ws) = let n = count f ls ws in if same_series f ls g ms then n + 1 else n
count f ls (_ ∷ ws) = count f ls ws

abbrev value : Family → List Text → List (Write ℤ) → Option ℤ
value f ls [] = none
value f ls (set g ms x ∷ ws) = let y = value f ls ws in if same_series f ls g ms then some x else y
value f ls (_ ∷ ws) = value f ls ws

abbrev write_log : Vectors ℤ float64
write_log = record {
  State = List (Write ℤ);
  empty = [];
  write = λ w s. w ∷ s;
  count = count;
  value = value;
  count_empty = λ f ls. refl;
  count_inc = λ f g ls ms s. refl;
  count_set = λ f g ls ms x s. refl;
  count_observe = λ f g ls ms x s. refl;
  value_empty = λ f ls. refl;
  value_inc = λ f g ls ms s. refl;
  value_observe = λ f g ls ms x s. refl;
  value_set = λ f g ls ms x s. refl;
}

abbrev day : List (Text × Event ℤ)
day =
    (codes "small", tracked (pos 1))
    ∷ (codes "small", launch_ok)
    ∷ (codes "large", launch_ok)
    ∷ (codes "small", launch_ok)
    ∷ (codes "large", tracked (pos 9))
    ∷ (codes "small", launch_fail)
    ∷ []

abbrev after_day : List (Write ℤ)
after_day = write_all float64 write_log (all_observed float64 day) []

day_test : count launches (codes "small" ∷ codes "ok" ∷ []) after_day ≡ 2
unfolding all_observed observed family_eq labels_eq
day_test = refl

counters_lem_example :
    count launches (codes "small" ∷ codes "ok" ∷ []) after_day
    ≡ calls (codes "small") (λ e. is_series launches (codes "ok" ∷ []) (counts_in e)) day + 0
counters_lem_example =
    counters_lem float64 write_log day launches (codes "small") (codes "ok" ∷ []) []

gauges_lem_example :
    value tracked_instances (codes "small" ∷ []) after_day
    ≡ last_put float64 tracked_instances (codes "small") day none
gauges_lem_example = gauges_lem float64 write_log day tracked_instances (codes "small") []

gauges_test : last_put float64 tracked_instances (codes "small") day none ≡ some (pos 1)
unfolding text_eq
gauges_test = refl

recorder-Fits_example :
    ((f : Family) → contains registered f ≡ true)
    × Nodup registered
    × ((f g : Family) → full_name f ≡ full_name g → f ≡ g)
    × All Fits (new_recorder float64 (codes "v1") (codes "abc"))
    × All Fits (for_scale_set {Float = ℤ} (codes "small"))
    × All Fits (observed float64 (codes "small") (reap (codes "drift_sweep")))
    × All Fits (observed_unbound float64 (reap (codes "drift_sweep")))
recorder-Fits_example =
    recorder-Fits float64 (codes "v1") (codes "abc") (codes "small") (reap (codes "drift_sweep"))
