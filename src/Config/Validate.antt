-- ===== src/Config/Validate.antt =====
-- internal/config/config.go: `Validate`. A problem stands for one message, with what the message
-- prints; the error is the list of the problems in the order of the code.
use incuse.Base.{
  ℕ, suc, ltb, leb, length, ℤ, pos, int_eq, ltb_ℤ, Text, text_eq, ◌==◌, is_empty, byte_len, Bool,
  false, not, ◌||◌, Option, none, some, List, [], ◌∷◌, ◌++◌, if◌then◌else◌, contains, failed,
}
use incuse.Config.{
  Config, AuthConfig, RunnerClassConfig, ScaleSetsConfig, IncusConfig, RunnerConfig, auth_mode_pat,
  auth_mode_app, arch_amd64, arch_arm64, instance_type_vm, instance_type_container,
}
use incuse.Config.Labels.{scale_set_name}
use incuse.Config.Patterns.{valid_name_prefix, valid_work_folder}

pub data Problem : Type 0 where
  no_config_url no_pat_file no_client_id no_private_key_file no_installation_id no_mode : Problem
  invalid_config_url unknown_mode unknown_instance_type : Text → Problem
  invalid_prefix no_classes : Problem
  no_vcpus no_memory no_disk no_max_runners unknown_arch : ℕ → Problem
  long_name duplicate_name : ℕ → Text → Problem
  several_archs : Problem
  no_cert_file no_key_file no_storage_pool no_request_timeout : Problem
  invalid_work_folder no_registration_timeout no_max_job_duration negative_cache_ttl : Problem
  no_parallel_mints no_parallel_launches privileged_vm : Problem

-- A condition, and the problem that is reported if it fails.
abbrev pub Check : Type 0
Check = Bool × Problem

abbrev pub is_positive : ℤ → Bool
is_positive n = ltb_ℤ (pos 0) n

abbrev pub max_scale_set_name_len : ℕ
max_scale_set_name_len = 54

-- The checks under `if s != ""`
unfoldable pub when_set : Text → List Check → List Check
when_set [] cs = []
when_set (_ ∷ _) cs = cs

unfoldable pub auth_checks : AuthConfig → List Check
auth_checks a =
    if a.mode == auth_mode_pat
    then (not (is_empty a.pat_file), no_pat_file) ∷ []
    else if a.mode == auth_mode_app
    then (not (is_empty a.app.client_id), no_client_id)
      ∷ (not (is_empty a.app.private_key_file), no_private_key_file)
      ∷ (not (a.app.installation_id == pos 0), no_installation_id)
      ∷ []
    else if is_empty a.mode
    then (false, no_mode) ∷ []
    else (false, unknown_mode a.mode) ∷ []

-- One round of the loop, over the names seen so far and the architecture of the first class, which
-- only a baked image needs.
unfoldable pub class_checks : Text → Bool → ℕ → List Text → Text → RunnerClassConfig → List Check
class_checks prefix baked i seen baked_arch c =
    let name = scale_set_name c prefix in
    (is_positive c.vcpus, no_vcpus i)
    ∷ (is_positive c.memory_gib, no_memory i)
    ∷ (is_positive c.disk_gib, no_disk i)
    ∷ (is_positive c.max_runners, no_max_runners i)
    ∷ (c.arch == arch_amd64 || c.arch == arch_arm64, unknown_arch i)
    ∷ (leb (byte_len name) max_scale_set_name_len, long_name i name)
    ∷ (not (contains seen name), duplicate_name i name)
    ∷ (not baked || c.arch == baked_arch, several_archs)
    ∷ []

-- `if bakedArch == "" { bakedArch = class.Arch }`
unfoldable pub first_arch : Text → Text → Text
first_arch [] arch = arch
first_arch (c ∷ s) arch = c ∷ s

unfoldable pub classes_checks :
    Text → Bool → ℕ → List Text → Text → List RunnerClassConfig → List Check
unfolding class_checks first_arch
classes_checks prefix baked i seen baked_arch [] = []
classes_checks prefix baked i seen baked_arch (c ∷ cs) =
    class_checks prefix baked i seen (first_arch baked_arch c.arch) c
    ++ classes_checks prefix baked (suc i) (scale_set_name c prefix ∷ seen)
        (first_arch baked_arch c.arch) cs

unfoldable pub scale_sets_checks : ScaleSetsConfig → Bool → List Check
unfolding classes_checks
scale_sets_checks c baked =
    (valid_name_prefix c.prefix, invalid_prefix)
    ∷ (ltb 0 (length c.classes), no_classes)
    ∷ classes_checks c.prefix baked 0 [] [] c.classes

unfoldable pub incus_checks : IncusConfig → List Check
unfolding when_set
incus_checks c =
    when_set c.url
      ((not (is_empty c.cert_file), no_cert_file) ∷ (not (is_empty c.key_file), no_key_file) ∷ [])
    ++ (not (is_empty c.storage_pool), no_storage_pool)
      ∷ (is_positive c.request_timeout, no_request_timeout)
      ∷ []

-- `ttl != nil && *ttl >= 0`
unfoldable pub is_ttl : Option ℤ → Bool
is_ttl none = false
is_ttl (some ttl) = not (ltb_ℤ ttl (pos 0))

unfoldable pub runner_checks : RunnerConfig → List Check
unfolding is_ttl
runner_checks c =
    (valid_work_folder c.work_folder, invalid_work_folder)
    ∷ (is_positive c.registration_timeout, no_registration_timeout)
    ∷ (is_positive c.max_job_duration, no_max_job_duration)
    ∷ (is_ttl c.release_cache_ttl, negative_cache_ttl)
    ∷ (is_positive c.max_parallel_mints, no_parallel_mints)
    ∷ (is_positive c.max_parallel_launches, no_parallel_launches)
    ∷ (
      c.instance_type == instance_type_vm || c.instance_type == instance_type_container,
      unknown_instance_type c.instance_type,
    )
    ∷ (not c.privileged || c.instance_type == instance_type_container, privileged_vm)
    ∷ []

-- `url.Parse` of the standard library: the scheme and the host, or `none` for an error.
module _ (parse_url : Text → Option (Text × Text)) where
  unfoldable pub is_url : Text → Bool
  is_url s = elim (parse_url s) [
    | none ↦ false
    | some (scheme, host) ↦ not (is_empty scheme || is_empty host)
  ]

  unfoldable pub config_url_checks : Text → List Check
  unfolding is_url when_set
  config_url_checks url =
      (not (is_empty url), no_config_url) ∷ when_set url ((is_url url, invalid_config_url url) ∷ [])

  unfoldable pub checks : Config → List Check
  unfolding config_url_checks auth_checks scale_sets_checks incus_checks runner_checks
  checks c =
      config_url_checks c.github.config_url
      ++ (auth_checks c.github.auth
          ++ (scale_sets_checks c.scale_sets c.runner.use_baked_image
              ++ (incus_checks c.incus ++ runner_checks c.runner)))

  -- No problem is the error nil.
  unfoldable pub validate : Config → List Problem
  unfolding checks
  validate c = failed (checks c)
