-- ===== src/Config/Defaults.antt =====
-- internal/config/config.go: `applyDefaults`, section by section.
pub mod Laws
use mathlib.Core.Option
use incuse.Base.{
  ℕ, zero, ◌*◌, ℤ, pos, Text, codes, is_empty, ◌&&◌, ◌≡◌, refl, Bool, true, false, some, none, [],
  ◌∷◌, if◌then◌else◌, Bool-cases, inl, inr, ap,
}
use incuse.Config.{Config, ScaleSetsConfig, IncusConfig, RunnerConfig, instance_type_vm}

-- `if s == "" { s = d }`
unfoldable pub or_default : Text → Text → Text
or_default [] d = d
or_default (c ∷ s) d = c ∷ s

-- `if n == 0 { n = d }`
unfoldable pub nonzero_or : ℤ → ℤ → ℤ
nonzero_or (pos zero) d = d
nonzero_or n d = n

-- `time.Minute` and `time.Hour`, in nanoseconds
abbrev minute : ℕ
minute = 60000000000

abbrev hour : ℕ
hour = 60 * minute

unfoldable pub scale_sets_defaults : ScaleSetsConfig → ScaleSetsConfig
unfolding or_default
scale_sets_defaults c = record c {
  prefix = or_default c.prefix (codes "incuse");
  runner_group = or_default c.runner_group (codes "Default");
}

unfoldable pub incus_defaults : IncusConfig → IncusConfig
unfolding or_default nonzero_or
incus_defaults c = record c {
  socket_path =
      if is_empty c.socket_path && is_empty c.url
      then codes "/var/lib/incus/unix.socket"
      else c.socket_path;
  project = or_default c.project (codes "incuse");
  default_profile = or_default c.default_profile (codes "incuse-runner");
  request_timeout = nonzero_or c.request_timeout (pos (10 * minute));
}

-- The image of a runner: a baked one is local, any other one remote.
unfoldable pub image_defaults : Bool → RunnerConfig → RunnerConfig
unfolding or_default
image_defaults true c = record c { image_alias = or_default c.image_alias (codes "incuse-runner") }
image_defaults false c = record c {
  image_server = or_default c.image_server (codes "https://images.linuxcontainers.org");
  image_protocol = or_default c.image_protocol (codes "simplestreams");
  image_alias = or_default c.image_alias (codes "ubuntu/24.04/cloud");
}

unfoldable pub runner_defaults : RunnerConfig → RunnerConfig
unfolding image_defaults or_default nonzero_or
runner_defaults c = record (image_defaults c.use_baked_image c) {
  work_folder = or_default c.work_folder (codes "_work");
  registration_timeout = nonzero_or c.registration_timeout (pos (10 * minute));
  max_job_duration = nonzero_or c.max_job_duration (pos (6 * hour));
  release_cache_ttl = some (Option.get_or c.release_cache_ttl (pos hour));
  max_parallel_mints = nonzero_or c.max_parallel_mints (pos 4);
  max_parallel_launches = nonzero_or c.max_parallel_launches (pos 2);
  instance_type = or_default c.instance_type instance_type_vm;
}

unfoldable pub apply_defaults : Config → Config
unfolding scale_sets_defaults incus_defaults runner_defaults
apply_defaults c = record c {
  scale_sets = scale_sets_defaults c.scale_sets;
  incus = incus_defaults c.incus;
  runner = runner_defaults c.runner;
}

pub or_default-full : (s : Text) (c : ℕ) (d : Text) → is_empty (or_default s (c ∷ d)) ≡ false
unfolding or_default
or_default-full [] c d = refl
or_default-full (x ∷ s) c d = refl
