-- ===== src/Config/Labels.antt =====
-- internal/config/labels.go: the name, the shape and the labels of a runner class.
pub mod Laws
use incuse.Base.{
  pos, ◌*ℤ◌, wrap_int64, Text, codes, itoa, to_lower, is_empty, List, [], ◌∷◌, ◌++◌, contains,
  text_eq, if◌then◌else◌,
}
use incuse.Config.{RunnerClassConfig, RunnerSpec}

-- `%s-%dvcpu-%dgb-%dgb-%s`
unfoldable pub scale_set_name : RunnerClassConfig → Text → Text
scale_set_name c prefix =
    prefix
    ++ (codes "-"
        ++ (itoa c.vcpus
            ++ (codes "vcpu-"
                ++ (itoa c.memory_gib
                    ++ (codes "gb-" ++ (itoa c.disk_gib ++ (codes "gb-" ++ to_lower c.arch)))))))

unfoldable pub runner_spec : RunnerClassConfig → RunnerSpec
runner_spec c = record {
  vcpus = c.vcpus;
  memory_mb = wrap_int64 (c.memory_gib *ℤ pos 1024);
  disk_gb = c.disk_gib;
  arch = to_lower c.arch;
}

-- The closure `add`: `seen` holds the lower-case labels, and what it keeps comes before the rest.
unfoldable pub add_labels : List Text → List Text → List Text
add_labels seen [] = []
add_labels seen (l ∷ ls) =
    let skip = add_labels seen ls in
    let keep = l ∷ add_labels (to_lower l ∷ seen) ls in
    if is_empty l then skip else if contains seen (to_lower l) then skip else keep

unfoldable pub scale_set_labels : List Text → Text → List Text
unfolding add_labels
scale_set_labels base class_name = add_labels [] (base ++ (class_name ∷ []))
