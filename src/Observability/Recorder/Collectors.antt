-- ===== src/Observability/Recorder/Collectors.antt =====
-- internal/observability/recorder.go: the fields of `Recorder` and the options that `New` gives each
-- of them.
use mathlib.Core.Option.{some-injective}
use incuse.Base.{
  ℕ, ◌≡◌, refl, sym, ap, ◌∙◌, Text, codes, text_eq, contains, Eq, is_empty, true, Option, some,
  List, [], ◌∷◌, ◌++◌, map, if◌then◌else◌, Nodup, is_fresh-Fresh, Fresh-Nodup,
}
use incuse.Base.Dict.{lookup}

pub data Family : Type 0 where
  runners_spawned jobs_started jobs_completed launches reaps : Family
  launch_duration runner_lifetime tracked_instances desired_runners : Family
  total_available_jobs total_acquired_jobs total_assigned_jobs total_running_jobs : Family
  total_registered_runners total_busy_runners total_idle_runners build_info : Family

pub data Kind : Type 0 where
  counter gauge : Kind
  -- the upper ends of the buckets, in seconds
  histogram : List ℕ → Kind

pub record Opts : Type 0 where
  pub kind : Kind
  pub subsystem : Text
  pub name : Text
  pub labels : List Text

abbrev class_label : List Text
class_label = codes "scale_set" ∷ []

abbrev plain : Kind → Text → List Text → Opts
plain k name labels = record { kind = k; subsystem = []; name = name; labels = labels }

-- `newStatGauge`
unfoldable pub new_stat_gauge : Text → Opts
new_stat_gauge name = record {
  kind = gauge;
  subsystem = codes "scaleset";
  name = name;
  labels = class_label;
}

unfoldable pub opts : Family → Opts
unfolding new_stat_gauge
opts runners_spawned = plain counter (codes "runners_spawned_total") class_label
opts jobs_started = plain counter (codes "jobs_started_total") class_label
opts jobs_completed =
    plain counter (codes "jobs_completed_total") (codes "scale_set" ∷ codes "result" ∷ [])
opts launches = plain counter (codes "launches_total") (codes "scale_set" ∷ codes "result" ∷ [])
opts reaps = plain counter (codes "reaps_total") (codes "scale_set" ∷ codes "reason" ∷ [])
opts launch_duration =
    plain (histogram (1 ∷ 2 ∷ 5 ∷ 10 ∷ 20 ∷ 30 ∷ 60 ∷ 120 ∷ 300 ∷ []))
      (codes "launch_duration_seconds") class_label
opts runner_lifetime =
    plain (histogram (30 ∷ 60 ∷ 120 ∷ 300 ∷ 600 ∷ 1800 ∷ 3600 ∷ 7200 ∷ 21600 ∷ []))
      (codes "runner_lifetime_seconds") class_label
opts tracked_instances = plain gauge (codes "tracked_instances") class_label
opts desired_runners = plain gauge (codes "desired_runners") class_label
opts total_available_jobs = new_stat_gauge (codes "total_available_jobs")
opts total_acquired_jobs = new_stat_gauge (codes "total_acquired_jobs")
opts total_assigned_jobs = new_stat_gauge (codes "total_assigned_jobs")
opts total_running_jobs = new_stat_gauge (codes "total_running_jobs")
opts total_registered_runners = new_stat_gauge (codes "total_registered_runners")
opts total_busy_runners = new_stat_gauge (codes "total_busy_runners")
opts total_idle_runners = new_stat_gauge (codes "total_idle_runners")
opts build_info = plain gauge (codes "build_info") (codes "version" ∷ codes "commit" ∷ [])

-- The arguments of `MustRegister`, in order.
unfoldable pub registered : List Family
registered =
    runners_spawned ∷ jobs_started ∷ jobs_completed ∷ launches ∷ reaps ∷ launch_duration
    ∷ runner_lifetime ∷ tracked_instances ∷ desired_runners ∷ total_available_jobs
    ∷ total_acquired_jobs ∷ total_assigned_jobs ∷ total_running_jobs ∷ total_registered_runners
    ∷ total_busy_runners ∷ total_idle_runners ∷ build_info ∷ []

family_discrete : Discrete Family
family_discrete = hlevel

-- The name under which a collector is registered: namespace, subsystem and name, joined by `_`,
-- without the parts that are empty.
unfoldable pub full_name : Family → Text
unfolding opts
full_name f =
    let o = opts f in
    codes "incuse_" ++ (if is_empty o.subsystem then [] else o.subsystem ++ codes "_") ++ o.name

instance unfoldable pub family_eq : Eq Family
unfolding family_discrete
family_eq = record { dec = family_discrete }

-- The collector of a name.
family_named : Text → Option Family
unfolding registered full_name text_eq
family_named t = lookup t (map (λ f. (full_name f, f)) registered)

family_named-full_name : (f : Family) → family_named (full_name f) ≡ some f
unfolding family_named lookup
family_named-full_name runners_spawned = refl
family_named-full_name _ = refl

pub full_name-injective : (f g : Family) → full_name f ≡ full_name g → f ≡ g
full_name-injective f g e =
    some-injective f g
      (sym (family_named-full_name f) ∙ ap family_named e ∙ family_named-full_name g)

pub registered_all : (f : Family) → contains registered f ≡ true
unfolding registered family_eq
registered_all runners_spawned = refl
registered_all _ = refl

pub registered-Nodup : Nodup registered
unfolding registered family_eq
registered-Nodup = Fresh-Nodup registered (is_fresh-Fresh [] registered refl)
