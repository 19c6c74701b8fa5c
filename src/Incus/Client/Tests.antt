-- ===== src/Incus/Client/Tests.antt =====
-- The theorems about internal/incus/client.go at concrete answers of Incus.
use incuse.Base.{codes, pos, true, ok, none, [], ◌≡◌}
use incuse.Incus
use incuse.Incus.{LaunchRequest, Instance}
use incuse.Config.Labels.{runner_spec}
use incuse.Config.Defaults.Laws.{default_prefix}
use incuse.Config.Tests.{small, small-IsClass, raw}
use incuse.Orchestrator.Launch.{LaunchInputs, build_launch_request}
use incuse.Incus.Client.{got, LaunchServer, validate_launch}
use incuse.Incus.Client.Accepts.{for_class, validate_launch-build}

abbrev request : LaunchRequest
request = record {
  name = codes "linux-a";
  architecture = codes "amd64";
  instance_type = Incus.instance_type_vm;
  profiles = [];
  image = record { server = []; protocol = []; alias = codes "incuse-runner" };
  config = [];
  devices = [];
  ephemeral = true;
  description = [];
}

abbrev running : Instance
running = record {
  name = codes "linux-a";
  description = [];
  instance_type = Incus.instance_type_vm;
  status = codes "Running";
  project = codes "incuse";
  config = [];
}

abbrev server : LaunchServer
server = record {
  get_image_alias = λ alias. ok (codes "0123abcd");
  create_instance = λ post. none;
  wait_launch = λ post. none;
  get = λ name. got running;
}

abbrev inputs : LaunchInputs
inputs = record {
  runner_name = codes "linux-a";
  spec = runner_spec small;
  incus_cfg = raw.incus;
  runner_cfg = raw.runner;
  cloud_init = [];
  scale_set_id = pos 7;
  minted_at = 0;
  description = [];
}

validate_launch-build_example :
    validate_launch (build_launch_request (for_class small raw.runner inputs)) ≡ none
validate_launch-build_example =
    validate_launch-build default_prefix small raw.runner inputs small-IsClass (λ e. cc)
