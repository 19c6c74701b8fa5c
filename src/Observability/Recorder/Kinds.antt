-- ===== src/Observability/Recorder/Kinds.antt =====
-- Each write of internal/observability against the collector that it is made on: Prometheus panics
-- on a collector that is registered twice and on a wrong number of label values.
use incuse.Base.{
  ℕ, ℤ, ◌≡◌, refl, Text, contains, true, none, some, List, [], length, All, All-append, Nodup,
  arith,
}
use incuse.Observability.Recorder.{
  Write, touch, inc, set, observe, Event, statistics, spawned, launch_took, lived, for_scale_set,
  new_recorder, observed, observed_unbound,
}
use incuse.Observability.Recorder.Collectors.{
  Family, family_eq, opts, counter, gauge, histogram, full_name, full_name-injective, registered,
  registered_all, registered-Nodup,
}

-- A value for each label.
abbrev Labelled : Family → List Text → Type 0
Labelled f ls = length ls ≡ length (opts f).labels

module _ {Float : Type 0} where
  -- The labels are those of the collector, and the method is one of its kind.
  abbrev pub Fits : Write Float → Type 0
  Fits (touch f ls) = Labelled f ls
  Fits (inc f ls) = Labelled f ls × ((opts f).kind ≡ counter)
  Fits (set f ls x) = Labelled f ls × ((opts f).kind ≡ gauge)
  Fits (observe f ls x) = Labelled f ls × ((buckets : List ℕ) × ((opts f).kind ≡ histogram buckets))

module _ {Float : Type 0} (float64 : ℤ → Float) where
  bound-Fits : (c : Text) → All Fits (for_scale_set {Float = Float} c)
  unfolding for_scale_set opts
  bound-Fits c = omega arith

  observed-Fits : (c : Text) (e : Event Float) → All Fits (observed float64 c e)
  unfolding observed opts
  observed-Fits c (statistics none) = tt
  observed-Fits c (statistics (some x)) = ground arith
  observed-Fits c (launch_took x) = ((refl, (_, refl)), tt)
  observed-Fits c (lived x) = ((refl, (_, refl)), tt)
  observed-Fits c spawned = ((refl, refl), tt)
  observed-Fits c _ = ((refl, refl), tt)

  -- The collectors that are registered are all those of the recorder, each once and under a name of
  -- its own; and what a recorder writes as it is made, as it is bound to a class and at a call has a
  -- value for each label of its collector, by a method of the collector's kind.
  pub recorder-Fits :
      (version commit c : Text) (e : Event Float)
      → ((f : Family) → contains registered f ≡ true)
        × Nodup registered
        × ((f g : Family) → full_name f ≡ full_name g → f ≡ g)
        × All Fits (new_recorder float64 version commit)
        × All Fits (for_scale_set {Float = Float} c)
        × All Fits (observed float64 c e)
        × All Fits (observed_unbound float64 e)
  unfolding new_recorder observed_unbound opts
  recorder-Fits version commit c e = (
    registered_all,
    registered-Nodup,
    full_name-injective,
    ((refl, refl), tt),
    bound-Fits c,
    observed-Fits c e,
    All-append Fits (for_scale_set []) (observed float64 [] e) (bound-Fits []) (observed-Fits [] e),
  )
