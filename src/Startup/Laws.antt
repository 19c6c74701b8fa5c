-- ===== src/Startup/Laws.antt =====
-- A configuration that passes `Validate` starts: cmd/incuse/main.go with the constructors of
-- internal/scaleset and internal/orchestrator.
use incuse.Base.{
  int_eq, Text, text_eq, is_empty, true, not, Option, none, Result, [], ◌≡◌, refl, ap, ◌⊎◌, inr,
  All, All-map, All-imp, All-zip, Passes, first_failed-none,
}
use incuse.Config.{Config, ScaleSetConfig, RunnerClassConfig}
use incuse.Config.Labels.{runner_spec}
use incuse.Config.Labels.Laws.{arch-known}
use incuse.Config.Defaults.{or_default-full, apply_defaults, scale_sets_defaults, incus_defaults}
use incuse.Config.Validate.{validate}
use incuse.Config.Validity.{Given, IsClass, IsValid, of_Given, of_Positive}
use incuse.Config.Validity.Sections.{validate_lem}
use incuse.Config.Specs.{scale_set_specs, scale_set_spec}
use incuse.Scaleset.{app_checks, options_checks, new_error}
use incuse.Orchestrator.Setup.{setup_checks, built, new}
use incuse.Startup.{read_auth_creds, scale_set_options, orchestrator_setup}
use incuse.Startup.Classes.{Fits, name-full, labels-full, creds-Passes, shape-Passes}

-- What both constructors need of a class of a valid configuration, over the parsed file.
module _ (parse_url : Text → Option (Text × Text)) (raw : Config) where
  abbrev c : Config
  c = apply_defaults raw

  abbrev pub Starts : Text → Text → ScaleSetConfig → Type 0
  Starts pat key spec =
      (new_error (scale_set_options c pat key spec) ≡ none)
      × (new (orchestrator_setup c spec) ≡ inr (built (orchestrator_setup c spec)))

  group-full : not (is_empty c.scale_sets.runner_group) ≡ true
  unfolding apply_defaults scale_sets_defaults
  group-full = ap not (or_default-full raw.scale_sets.runner_group _ _)

  project-full : not (is_empty c.incus.project) ≡ true
  unfolding apply_defaults incus_defaults
  project-full = ap not (or_default-full raw.incus.project _ _)

  profile-full : not (is_empty c.incus.default_profile) ≡ true
  unfolding apply_defaults incus_defaults
  profile-full = ap not (or_default-full raw.incus.default_profile _ _)

  module _ (valid : IsValid parse_url c) where
    options-Passes :
        (pat key : Text) (k : RunnerClassConfig)
        → All Passes (app_checks (scale_set_options c pat key (scale_set_spec c.scale_sets k)))
        → All Passes (options_checks (scale_set_options c pat key (scale_set_spec c.scale_sets k)))
    unfolding options_checks scale_set_options
    options-Passes pat key k creds = (
      refl,
      (
        of_Given c.github.config_url valid.url_given,
        (
          name-full k c.scale_sets.prefix,
          (group-full, (labels-full c.scale_sets.base_labels k c.scale_sets.prefix, creds)),
        ),
      ),
    )

    setup-Passes :
        (k : RunnerClassConfig)
        → IsClass c.scale_sets.prefix k
        → Fits k
        → All Passes (setup_checks (orchestrator_setup c (scale_set_spec c.scale_sets k)))
    unfolding setup_checks orchestrator_setup runner_spec
    setup-Passes k class fits =
        let r = c.runner in
        (
          refl,
          (
            refl,
            (
              refl,
              (
                refl,
                (
                  project-full,
                  (
                    profile-full,
                    (
                      of_Positive r.registration_timeout valid.runner.registration,
                      (
                        of_Positive r.max_job_duration valid.runner.max_job,
                        (
                          of_Positive r.max_parallel_mints valid.runner.mints,
                          (
                            of_Positive r.max_parallel_launches valid.runner.launches,
                            (
                              of_Positive k.max_runners class.max_runners,
                              (
                                shape-Passes k c.scale_sets.prefix class fits,
                                (arch-known k.arch class.arch, tt),
                              ),
                            ),
                          ),
                        ),
                      ),
                    ),
                  ),
                ),
              ),
            ),
          ),
        )

    class-Starts :
        (pat key : Text)
        → ((spec : ScaleSetConfig) → All Passes (app_checks (scale_set_options c pat key spec)))
        → (k : RunnerClassConfig) → IsClass c.scale_sets.prefix k × Fits k
        → Starts pat key (scale_set_spec c.scale_sets k)
    unfolding new_error new
    class-Starts pat key creds k (class, fits) =
        let spec = scale_set_spec c.scale_sets k in
        (
          first_failed-none (options_checks (scale_set_options c pat key spec))
              (options-Passes pat key k (creds spec)),
          rw
              (
                first_failed-none (setup_checks (orchestrator_setup c spec))
                    (setup-Passes k class fits),
                new,
              )
              refl,
        )

-- A file that passes `Parse` starts: for credentials that were read and of which one is not empty,
-- and memory sizes below 2^53 GiB, every scale set that `run` builds passes the checks of both
-- constructors, `scaleset.New` and `orchestrator.New`.
pub specs-Starts :
    (parse_url : Text → Option (Text × Text)) (read_file : Text → Result Text) (raw : Config)
    (pat key : Text)
    → validate parse_url (apply_defaults raw) ≡ []
    → All Fits (apply_defaults raw).scale_sets.classes
    → read_auth_creds read_file (apply_defaults raw).github.auth ≡ inr (pat, key)
    → (Given pat ⊎ Given key)
    → All (Starts parse_url raw pat key) (scale_set_specs (apply_defaults raw))
unfolding scale_set_specs
specs-Starts parse_url read_file raw pat key passed fits read given =
    let c : Config = apply_defaults raw in
    let valid = (validate_lem parse_url c).0 passed in
    let creds =
      λ (spec : ScaleSetConfig). creds-Passes read_file c spec pat key valid.auth read given in
    All-map (Starts parse_url raw pat key) (scale_set_spec c.scale_sets) c.scale_sets.classes (
      All-imp (λ k. IsClass c.scale_sets.prefix k × Fits k)
        (λ k. Starts parse_url raw pat key (scale_set_spec c.scale_sets k))
        (class-Starts parse_url raw valid pat key creds) c.scale_sets.classes
        (All-zip (IsClass c.scale_sets.prefix) Fits c.scale_sets.classes valid.scale_sets.classes
          fits))
