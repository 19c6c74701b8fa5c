-- ===== src/Orchestrator/Launch.antt =====
-- internal/orchestrator/launch.go: the request that launches an instance for a runner.
use incuse.Base.{
  ℕ, ℤ, Text, codes, itoa, text_eq, ◌==◌, is_empty, Bool, true, [], ◌∷◌, ◌++◌, if◌then◌else◌,
}
use incuse.Base.Dict
use incuse.Base.Dict.{Dict}
use incuse.Config
use incuse.Config.{RunnerSpec, IncusConfig, RunnerConfig}
use incuse.Incus
use incuse.Incus.{LaunchRequest, ImageSource}
use incuse.Orchestrator.Time.{format_rfc3339}

abbrev pub meta_managed : Text
meta_managed = codes "user.incuse.managed"

abbrev pub meta_runner_name : Text
meta_runner_name = codes "user.incuse.runner_name"

abbrev pub meta_scale_set_id : Text
meta_scale_set_id = codes "user.incuse.scale_set_id"

abbrev pub meta_minted_at : Text
meta_minted_at = codes "user.incuse.minted_at"

pub record LaunchInputs : Type 0 where
  pub runner_name : Text
  pub spec : RunnerSpec
  pub incus_cfg : IncusConfig
  pub runner_cfg : RunnerConfig
  pub cloud_init : Text
  pub scale_set_id : ℤ
  pub minted_at : ℕ
  pub description : Text

-- The keys that every instance gets.
unfoldable pub base_config : LaunchInputs → Dict Text Text
base_config i =
    (codes "limits.cpu", itoa i.spec.vcpus)
    ∷ (codes "limits.memory", itoa i.spec.memory_mb ++ codes "MiB")
    ∷ (codes "cloud-init.user-data", i.cloud_init)
    ∷ (meta_managed, codes "true")
    ∷ (meta_runner_name, i.runner_name)
    ∷ (meta_scale_set_id, itoa i.scale_set_id)
    ∷ (meta_minted_at, format_rfc3339 i.minted_at)
    ∷ []

unfoldable pub nesting_config : Dict Text Text → Dict Text Text
nesting_config m = Dict.insert (codes "security.syscalls.intercept.setxattr") (codes "true") (
    Dict.insert (codes "security.syscalls.intercept.mknod") (codes "true")
      (Dict.insert (codes "security.nesting") (codes "true") m))

unfoldable pub privileged_config : Dict Text Text → Dict Text Text
privileged_config m = Dict.insert (codes "security.privileged") (codes "true") m

-- `in.runnerCfg.InstanceType == config.InstanceTypeContainer`
abbrev pub is_container : RunnerConfig → Bool
is_container c = c.instance_type == Config.instance_type_container

unfoldable pub config_map : LaunchInputs → Dict Text Text
unfolding base_config nesting_config privileged_config
config_map i =
    if is_container i.runner_cfg
    then if i.runner_cfg.privileged
      then privileged_config (nesting_config (base_config i))
      else nesting_config (base_config i)
    else base_config i

abbrev root_device : LaunchInputs → Dict Text Text
root_device i =
    (codes "type", codes "disk")
    ∷ (codes "path", codes "/")
    ∷ (codes "pool", i.incus_cfg.storage_pool)
    ∷ (codes "size", itoa i.spec.disk_gb ++ codes "GiB")
    ∷ []

-- A local image has no protocol; a remote one has simplestreams unless another is given.
unfoldable pub image_protocol : RunnerConfig → Text
image_protocol c =
    if is_empty c.image_server
    then []
    else if is_empty c.image_protocol
    then codes "simplestreams"
    else c.image_protocol

unfoldable pub build_launch_request : LaunchInputs → LaunchRequest
unfolding config_map image_protocol
build_launch_request i = record {
  name = i.runner_name;
  architecture = i.spec.arch;
  instance_type =
      if is_container i.runner_cfg then Incus.instance_type_container else Incus.instance_type_vm;
  profiles = i.incus_cfg.default_profile ∷ [];
  image = record {
    server = i.runner_cfg.image_server;
    protocol = image_protocol i.runner_cfg;
    alias = i.runner_cfg.image_alias;
  };
  config = config_map i;
  devices = (codes "root", root_device i) ∷ [];
  ephemeral = true;
  description = i.description;
}
