-- ===== src/Config.antt =====
-- internal/config: the schema of the YAML file, as records, and the constants of the package.
-- Go's `int` and `time.Duration` are integers, a duration a number of nanoseconds.
pub mod Labels
pub mod Defaults
pub mod Patterns
pub mod Validate
pub mod Validity
pub mod Specs
pub mod Preflight
pub mod Load
pub mod Tests
use incuse.Base.{ℕ, ℤ, Text, codes, Bool, Option, List}

pub record AppCredentials : Type 0 where
  pub client_id : Text
  pub private_key_file : Text
  pub installation_id : ℤ

pub record AuthConfig : Type 0 where
  pub mode : Text
  pub pat_file : Text
  pub app : AppCredentials

pub record GitHubConfig : Type 0 where
  pub config_url : Text
  pub auth : AuthConfig

pub record RunnerClassConfig : Type 0 where
  pub vcpus : ℤ
  pub memory_gib : ℤ
  pub disk_gib : ℤ
  pub arch : Text
  pub max_runners : ℤ

pub record ScaleSetsConfig : Type 0 where
  pub prefix : Text
  pub runner_group : Text
  pub base_labels : List Text
  pub classes : List RunnerClassConfig

-- The shape of every runner of one scale set.
pub record RunnerSpec : Type 0 where
  pub vcpus : ℤ
  pub memory_mb : ℤ
  pub disk_gb : ℤ
  pub arch : Text

pub record ScaleSetConfig : Type 0 where
  pub name : Text
  pub runner_group : Text
  pub base_labels : List Text
  pub max_runners : ℤ
  pub runner : RunnerSpec

pub record IncusConfig : Type 0 where
  pub url : Text
  pub socket_path : Text
  pub cert_file : Text
  pub key_file : Text
  pub server_cert_file : Text
  pub insecure_skip_verify : Bool
  pub project : Text
  pub default_profile : Text
  pub storage_pool : Text
  pub request_timeout : ℤ

pub record RunnerConfig : Type 0 where
  pub image_server : Text
  pub image_protocol : Text
  pub image_alias : Text
  pub work_folder : Text
  pub registration_timeout : ℤ
  pub max_job_duration : ℤ
  pub release_cache_ttl : Option ℤ
  pub max_parallel_mints : ℤ
  pub max_parallel_launches : ℤ
  pub instance_type : Text
  pub privileged : Bool
  pub use_baked_image : Bool

pub record ObservabilityConfig : Type 0 where
  pub listen_addr : Text

pub record Config : Type 0 where
  pub github : GitHubConfig
  pub scale_sets : ScaleSetsConfig
  pub incus : IncusConfig
  pub runner : RunnerConfig
  pub observability : ObservabilityConfig

abbrev pub instance_type_vm : Text
instance_type_vm = codes "vm"

abbrev pub instance_type_container : Text
instance_type_container = codes "container"

abbrev pub auth_mode_pat : Text
auth_mode_pat = codes "pat"

abbrev pub auth_mode_app : Text
auth_mode_app = codes "app"

abbrev pub arch_amd64 : Text
arch_amd64 = codes "amd64"

abbrev pub arch_arm64 : Text
arch_arm64 = codes "arm64"
