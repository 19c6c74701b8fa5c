-- ===== src/Config/Validity.antt =====
-- What a valid configuration of internal/config/config.go is.
pub mod Classes
pub mod Sections
use incuse.Base.{
  ℕ, suc, ◌≤◌, leb, ltb, length, ℤ, pos, pos_part, neg_part, int_eq, ltb_ℤ, Text, text_eq, ◌==◌,
  eq_self, eq_of_true, is_empty, byte_len, Bool, true, false, not, ◌&&◌, ◌||◌, Option, none, some,
  List, [], ◌∷◌, ◌++◌, map, ◌≡◌, ◌≢◌, ◌⊎◌, inl, inr, refl, ap, arith, contains, Bool-cases, All,
  All-append, All-parts, Nodup, Fresh, Fresh-Nodup, Nodup-Fresh, Passes, subst, sym, ◌∙◌,
}
use incuse.Config.{
  Config, AuthConfig, GitHubConfig, RunnerClassConfig, ScaleSetsConfig, IncusConfig, RunnerConfig,
  auth_mode_pat, auth_mode_app, arch_amd64, arch_arm64, instance_type_vm, instance_type_container,
}
use incuse.Config.Labels.{scale_set_name}
use incuse.Config.Patterns.{valid_name_prefix, valid_work_folder}
use incuse.Config.Validate.{
  Check, is_positive, when_set, auth_checks, class_checks, first_arch, classes_checks,
  scale_sets_checks, incus_checks, is_ttl, runner_checks, is_url, config_url_checks,
}

abbrev pub Given : Text → Type 0
Given s = s ≢ []

abbrev pub Positive : ℤ → Type 0
Positive n = 1 ≤ pos_part n

-- A token file, or the three parts of an app's credentials.
abbrev pub IsAuth : AuthConfig → Type 0
IsAuth a =
    ((a.mode ≡ auth_mode_pat) × Given a.pat_file)
    ⊎ ((a.mode ≡ auth_mode_app)
        × Given a.app.client_id
        × Given a.app.private_key_file
        × (a.app.installation_id ≢ pos 0))

pub record IsClass (prefix : Text) (c : RunnerClassConfig) : Type 0 where
  pub vcpus : Positive c.vcpus
  pub memory : Positive c.memory_gib
  pub disk : Positive c.disk_gib
  pub max_runners : Positive c.max_runners
  pub arch : (c.arch ≡ arch_amd64) ⊎ (c.arch ≡ arch_arm64)
  pub short : byte_len (scale_set_name c prefix) ≤ 54

abbrev pub OneArch : List RunnerClassConfig → Type 0
OneArch cs = (a : Text) × All (λ c. c.arch ≡ a) cs

abbrev pub class_names : Text → List RunnerClassConfig → List Text
class_names prefix cs = map (λ c. scale_set_name c prefix) cs

pub record AreScaleSets (baked : Bool) (c : ScaleSetsConfig) : Type 0 where
  pub prefix : valid_name_prefix c.prefix ≡ true
  pub some_class : c.classes ≢ []
  pub classes : All (IsClass c.prefix) c.classes
  pub distinct : Nodup (class_names c.prefix c.classes)
  pub one_arch : baked ≡ true → OneArch c.classes

abbrev pub IsIncus : IncusConfig → Type 0
IsIncus c =
    (Given c.url → Given c.cert_file × Given c.key_file)
    × Given c.storage_pool
    × Positive c.request_timeout

pub record IsRunner (c : RunnerConfig) : Type 0 where
  pub work_folder : valid_work_folder c.work_folder ≡ true
  pub registration : Positive c.registration_timeout
  pub max_job : Positive c.max_job_duration
  pub cache_ttl : (ttl : ℕ) × (c.release_cache_ttl ≡ some (pos ttl))
  pub mints : Positive c.max_parallel_mints
  pub launches : Positive c.max_parallel_launches
  pub instance_type :
      (c.instance_type ≡ instance_type_container)
      ⊎ ((c.instance_type ≡ instance_type_vm) × (c.privileged ≡ false))

-- A URL with a scheme and a host.
abbrev pub HasHost : Option (Text × Text) → Type 0
HasHost u = (scheme : Text) × (host : Text) × (u ≡ some (scheme, host)) × Given scheme × Given host

pub record IsValid (parse_url : Text → Option (Text × Text)) (c : Config) : Type 0 where
  pub url : HasHost (parse_url c.github.config_url)
  pub url_given : Given c.github.config_url
  pub auth : IsAuth c.github.auth
  pub scale_sets : AreScaleSets c.runner.use_baked_image c.scale_sets
  pub incus : IsIncus c.incus
  pub runner : IsRunner c.runner

pub given : (s : Text) → not (is_empty s) ≡ true → Given s
given [] h = cc
given (c ∷ s) h = λ e. cc

pub of_Given : (s : Text) → Given s → not (is_empty s) ≡ true
of_Given [] h = absurd (h refl)
of_Given (c ∷ s) h = refl

pub positive : (n : ℤ) → is_positive n ≡ true → Positive n
positive n h = ground arith

pub of_Positive : (n : ℤ) → Positive n → is_positive n ≡ true
of_Positive n h = ground arith
