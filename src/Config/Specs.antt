-- ===== src/Config/Specs.antt =====
-- internal/config/config.go: `ScaleSetSpecs`, and what a valid configuration makes of it.
use incuse.Base.{List, map}
use incuse.Config.{Config, RunnerClassConfig, ScaleSetConfig, ScaleSetsConfig}
use incuse.Config.Labels.{scale_set_name, scale_set_labels, runner_spec}

abbrev pub scale_set_spec : ScaleSetsConfig → RunnerClassConfig → ScaleSetConfig
scale_set_spec s c =
    let name = scale_set_name c s.prefix in
    record {
      name = name;
      runner_group = s.runner_group;
      base_labels = scale_set_labels s.base_labels name;
      max_runners = c.max_runners;
      runner = runner_spec c;
    }

unfoldable pub scale_set_specs : Config → List ScaleSetConfig
unfolding scale_set_labels
scale_set_specs c = map (scale_set_spec c.scale_sets) c.scale_sets.classes
