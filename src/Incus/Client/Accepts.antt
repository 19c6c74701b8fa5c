-- ===== src/Incus/Client/Accepts.antt =====
-- What a launch of internal/incus/client.go answers, and that it accepts what the orchestrator of a
-- valid configuration asks for.
use incuse.Base.{
  Text, text_eq, is_empty, Bool, true, false, none, ok, ◌≡◌, refl, arith, if◌then◌else◌,
  first_failed-none,
}
use incuse.Config.{RunnerClassConfig, RunnerConfig}
use incuse.Config.Labels.Laws.{arch-known}
use incuse.Config.Labels.{runner_spec}
use incuse.Config.Defaults.{or_default-full, image_defaults, runner_defaults}
use incuse.Config.Validity.{Given, IsClass, of_Given}
use incuse.Incus
use incuse.Incus.{LaunchRequest, ImageSource, Instance}
use incuse.Orchestrator.Launch.{LaunchInputs, build_launch_request, is_container}
use incuse.Incus.Client.{
  launch_checks, validate_launch, image_source, launch_post, Source, got, LaunchServer,
}

module _ (s : LaunchServer) where
  -- What was created: an instance of the request, of an image that was found.
  abbrev pub Created : LaunchRequest → Instance → Type 0
  Created r i =
      (source : Source) × (image_source s.get_image_alias r.image ≡ ok source)
      × (s.create_instance (launch_post r source) ≡ none)
      × (s.wait_launch (launch_post r source) ≡ none)
      × (s.get r.name ≡ got i)

alias-full :
    (baked : Bool) (c : RunnerConfig) → is_empty (image_defaults baked c).image_alias ≡ false
unfolding image_defaults
alias-full true c = or_default-full c.image_alias _ _
alias-full false c = or_default-full c.image_alias _ _

-- The inputs of a launch for a runner of a class, over the completed runner section of the file.
abbrev pub for_class : RunnerClassConfig → RunnerConfig → LaunchInputs → LaunchInputs
for_class k c i = record i { spec = runner_spec k; runner_cfg = runner_defaults c }

type-full :
    (b : Bool)
    → is_empty (if b then Incus.instance_type_container else Incus.instance_type_vm) ≡ false
type-full true = refl
type-full false = refl

-- The request that the orchestrator builds for a runner with a name, of a valid class and with the
-- defaults applied to the runner section, passes the checks of Launch.
pub validate_launch-build :
    (prefix : Text) (k : RunnerClassConfig) (c : RunnerConfig) (i : LaunchInputs)
    → IsClass prefix k
    → Given i.runner_name
    → validate_launch (build_launch_request (for_class k c i)) ≡ none
unfolding validate_launch launch_checks build_launch_request runner_defaults runner_spec
validate_launch-build prefix k c i class name =
    first_failed-none (launch_checks (build_launch_request (for_class k c i))) (
      of_Given i.runner_name name,
      (
        arch-known k.arch class.arch,
        (
          ground (arith, type-full (is_container (runner_defaults c))),
          (ground (arith, alias-full c.use_baked_image c), tt),
        ),
      ),
    )
