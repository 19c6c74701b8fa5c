-- ===== src/Config/Validity/Sections.antt =====
-- The sections of `Validate` in internal/config/config.go, and the whole.
use incuse.Base.{
  ℕ, ℤ, pos, negsuc, int_eq, Text, text_eq, is_empty, true, false, not, ◌||◌, Option, none, some,
  List, [], ◌∷◌, ◌≡◌, inl, inr, refl, arith, All, All-append, All-parts, Passes,
}
use incuse.Config.{Config, AuthConfig, IncusConfig, RunnerConfig}
use incuse.Config.Validate.{
  Check, when_set, auth_checks, scale_sets_checks, incus_checks, is_ttl, runner_checks, is_url,
  config_url_checks,
}
use incuse.Config.Validity.{
  Given, IsAuth, IsIncus, IsRunner, HasHost, IsValid, given, of_Given, positive, of_Positive,
}
use incuse.Config.Validity.Classes.{scale_sets-AreScaleSets, AreScaleSets-scale_sets}
use incuse.Config.Validate.{checks, validate}
use incuse.Base.{failed-All, All-failed, ◌↔◌}

auth_checks-IsAuth : (a : AuthConfig) → All Passes (auth_checks a) → IsAuth a
unfolding auth_checks
auth_checks-IsAuth a h =
    ground (arith, given a.pat_file, given a.app.client_id, given a.app.private_key_file)

IsAuth-auth_checks : (a : AuthConfig) → IsAuth a → All Passes (auth_checks a)
unfolding auth_checks
IsAuth-auth_checks a (inl (m, g)) = ground (arith, of_Given a.pat_file g)
IsAuth-auth_checks a (inr (m, i, k, n)) =
    ground (arith, of_Given a.app.client_id i, of_Given a.app.private_key_file k)

-- The checks under a setting that may be left out.
when_set-All : (s : Text) (cs : List Check) → All Passes (when_set s cs) → Given s → All Passes cs
unfolding when_set
when_set-All [] cs h g = absurd (g refl)
when_set-All (c ∷ s) cs h g = h

All-when_set : (s : Text) (cs : List Check) → (Given s → All Passes cs) → All Passes (when_set s cs)
unfolding when_set
All-when_set [] cs h = tt
All-when_set (c ∷ s) cs h = h (λ e. cc)

incus_checks-IsIncus : (c : IncusConfig) → All Passes (incus_checks c) → IsIncus c
unfolding incus_checks
incus_checks-IsIncus c h =
    let (certs, (p, (r, _))) = All-parts Passes (when_set c.url _) _ h in
    (
      (λ g.
          let (f, (k, _)) = when_set-All c.url _ certs g in
          (given c.cert_file f, given c.key_file k)),
      given c.storage_pool p,
      positive c.request_timeout r,
    )

IsIncus-incus_checks : (c : IncusConfig) → IsIncus c → All Passes (incus_checks c)
unfolding incus_checks
IsIncus-incus_checks c (certs, p, r) =
    All-append Passes (when_set c.url _) _
      (All-when_set c.url _
        (λ g. (of_Given c.cert_file (certs g).0, (of_Given c.key_file (certs g).1, tt))))
      (of_Given c.storage_pool p, (of_Positive c.request_timeout r, tt))

runner_checks-IsRunner : (c : RunnerConfig) → All Passes (runner_checks c) → IsRunner c
unfolding runner_checks is_ttl
runner_checks-IsRunner c (w, (r, (m, (t, (p, (l, (i, (v, _)))))))) = record {
  work_folder = w;
  registration = positive c.registration_timeout r;
  max_job = positive c.max_job_duration m;
  cache_ttl = ttl c.release_cache_ttl t;
  mints = positive c.max_parallel_mints p;
  launches = positive c.max_parallel_launches l;
  instance_type = ground arith;
}
  where
    ttl : (t : Option ℤ) → is_ttl t ≡ true → (n : ℕ) × (t ≡ some (pos n))
    ttl none h = cc
    ttl (some (pos n)) h = (n, refl)
    ttl (some (negsuc n)) h = ground arith

IsRunner-runner_checks : (c : RunnerConfig) → IsRunner c → All Passes (runner_checks c)
unfolding runner_checks is_ttl
IsRunner-runner_checks c h =
    let (n, t) = h.cache_ttl in
    let i = h.instance_type in
    (
      h.work_folder,
      (
        of_Positive c.registration_timeout h.registration,
        (
          of_Positive c.max_job_duration h.max_job,
          (
            ground arith,
            (
              of_Positive c.max_parallel_mints h.mints,
              (of_Positive c.max_parallel_launches h.launches, (ground arith, (ground arith, tt))),
            ),
          ),
        ),
      ),
    )

module _ (parse_url : Text → Option (Text × Text)) where
  url-HasHost : (s : Text) → is_url parse_url s ≡ true → HasHost (parse_url s)
  unfolding is_url
  url-HasHost s h = go (parse_url s) h
    where
      go :
          (u : Option (Text × Text))
          → (elim u [ none ↦ false | some (a, b) ↦ not (is_empty a || is_empty b) ]) ≡ true
          → HasHost u
      go none h = cc
      go (some ([], b)) h = cc
      go (some (x ∷ a, [])) h = cc
      go (some (x ∷ a, y ∷ b)) h = (x ∷ a, y ∷ b, refl, (λ e. cc), (λ e. cc))

  HasHost-url : (s : Text) → HasHost (parse_url s) → is_url parse_url s ≡ true
  unfolding is_url
  HasHost-url s (a, b, e, g, k) = rw (e, is_url) (go a b g k)
    where
      go : (a b : Text) → Given a → Given b → not (is_empty a || is_empty b) ≡ true
      go [] b g k = absurd (g refl)
      go (x ∷ a) [] g k = absurd (k refl)
      go (x ∷ a) (y ∷ b) g k = refl

  validate_sound : (c : Config) → validate parse_url c ≡ [] → IsValid parse_url c
  unfolding validate checks config_url_checks
  validate_sound c h =
      let (u, h1) =
        All-parts Passes (config_url_checks parse_url c.github.config_url) _
          (failed-All (checks parse_url c) h) in
      let (a, h2) = All-parts Passes (auth_checks c.github.auth) _ h1 in
      let (s, h3) =
        All-parts Passes (scale_sets_checks c.scale_sets c.runner.use_baked_image) _ h2 in
      let (i, r) = All-parts Passes (incus_checks c.incus) _ h3 in
      let g = given c.github.config_url u.0 in
      record {
        url = url-HasHost c.github.config_url (when_set-All c.github.config_url _ u.1 g).0;
        url_given = g;
        auth = auth_checks-IsAuth c.github.auth a;
        scale_sets = scale_sets-AreScaleSets c.scale_sets c.runner.use_baked_image s;
        incus = incus_checks-IsIncus c.incus i;
        runner = runner_checks-IsRunner c.runner r;
      }

  validate_complete : (c : Config) → IsValid parse_url c → validate parse_url c ≡ []
  unfolding validate checks config_url_checks
  validate_complete c v = All-failed (checks parse_url c) (
      All-append Passes (config_url_checks parse_url c.github.config_url) _
        (
          of_Given c.github.config_url v.url_given,
          All-when_set c.github.config_url _ (λ g. (HasHost-url c.github.config_url v.url, tt)),
        )
        (All-append Passes (auth_checks c.github.auth) _ (IsAuth-auth_checks c.github.auth v.auth) (
          All-append Passes (scale_sets_checks c.scale_sets c.runner.use_baked_image) _
            (AreScaleSets-scale_sets c.scale_sets c.runner.use_baked_image v.scale_sets)
            (All-append Passes (incus_checks c.incus) _ (IsIncus-incus_checks c.incus v.incus)
              (IsRunner-runner_checks c.runner v.runner)))))

  -- Validate reports no problem exactly if the configuration is valid, whatever url.Parse does:
  -- the URL has a scheme and a host, a token file or the three parts of an app's credentials are
  -- given, the classes are positive, of a known architecture, of one architecture under a baked
  -- image, and of distinct names of at most 54 bytes, and Incus and the runner are set up.
  pub validate_lem : (c : Config) → (validate parse_url c ≡ []) ↔ IsValid parse_url c
  validate_lem c = (validate_sound c, validate_complete c)
