-- ===== src/Config/Defaults/Laws.antt =====
-- The defaults of internal/config/config.go complete a minimal configuration.
use incuse.Base.{
  pos, Text, codes, false, Option, none, List, [], ◌≡◌, ◌≢◌, refl, All, Nodup, arith, inr,
}
use incuse.Config.{Config, GitHubConfig, RunnerClassConfig}
use incuse.Config.Defaults.{apply_defaults, scale_sets_defaults, runner_defaults}
use incuse.Config.Patterns.{valid_name_prefix, valid_work_folder}
use incuse.Config.Validate.{validate}
use incuse.Config.Validity.{Given, IsAuth, IsClass, class_names, HasHost}
use incuse.Config.Validity.Sections.{validate_lem}

-- A file that gives GitHub's section, the classes and the storage pool, and nothing else.
abbrev pub minimal : GitHubConfig → List RunnerClassConfig → Text → Config
minimal github classes pool = record {
  github = github;
  scale_sets = record { prefix = []; runner_group = []; base_labels = []; classes = classes };
  incus = record {
    url = [];
    socket_path = [];
    cert_file = [];
    key_file = [];
    server_cert_file = [];
    insecure_skip_verify = false;
    project = [];
    default_profile = [];
    storage_pool = pool;
    request_timeout = pos 0;
  };
  runner = record {
    image_server = [];
    image_protocol = [];
    image_alias = [];
    work_folder = [];
    registration_timeout = pos 0;
    max_job_duration = pos 0;
    release_cache_ttl = none;
    max_parallel_mints = pos 0;
    max_parallel_launches = pos 0;
    instance_type = [];
    privileged = false;
    use_baked_image = false;
  };
  observability = record { listen_addr = [] };
}

abbrev pub default_prefix : Text
default_prefix = codes "incuse"

-- A file that gives a URL with a host, the credentials of one mode, valid classes of distinct names
-- and the storage pool passes Validate once the defaults are applied.
pub minimal-IsValid :
    (parse_url : Text → Option (Text × Text)) (github : GitHubConfig)
    (classes : List RunnerClassConfig) (pool : Text)
    → HasHost (parse_url github.config_url)
    → Given github.config_url
    → IsAuth github.auth
    → classes ≢ []
    → All (IsClass default_prefix) classes
    → Nodup (class_names default_prefix classes)
    → Given pool
    → validate parse_url (apply_defaults (minimal github classes pool)) ≡ []
unfolding apply_defaults scale_sets_defaults runner_defaults valid_name_prefix valid_work_folder
minimal-IsValid parse_url github classes pool host url auth some_class ks distinct given =
    (validate_lem parse_url (apply_defaults (minimal github classes pool))).1 (record {
      url = host;
      url_given = url;
      auth = auth;
      scale_sets = record {
        prefix = refl;
        some_class = some_class;
        classes = ks;
        distinct = distinct;
        one_arch = λ b. cc;
      };
      incus = ((λ g. absurd (g refl)), given, omega arith);
      runner = record {
        work_folder = refl;
        registration = omega arith;
        max_job = omega arith;
        cache_ttl = (_, refl);
        mints = omega arith;
        launches = omega arith;
        instance_type = inr (refl, refl);
      };
    })
