-- ===== src/Config/Tests.antt =====
-- The theorems of internal/config at concrete inputs, over a small configuration.
use incuse.Base.{
  pos, Text, text_eq, codes, drop, length, contains, is_empty, to_lower, true, false, Option, none,
  some, Result, ok, [], ◌∷◌, map, ◌≡◌, ◌↔◌, refl, ap, inl, All, Nodup, arith, if◌then◌else◌,
  lower_rune, itoa, has_prefix, contains_text,
}
use incuse.Config.{Config, GitHubConfig, RunnerClassConfig, arch_amd64, auth_mode_pat}
use incuse.Config.Labels.{scale_set_name, scale_set_labels}
use incuse.Config.Labels.Laws.{scale_set_labels_lem}
use incuse.Config.Defaults.{apply_defaults}
use incuse.Config.Defaults.Laws.{minimal, default_prefix, minimal-IsValid}
use incuse.Config.Patterns.{valid_name_prefix, valid_work_folder}
use incuse.Config.Validate.{validate}
use incuse.Config.Validity.{IsClass, class_names, IsValid}
use incuse.Config.Validity.Sections.{validate_lem}
use incuse.Config.Patterns.Regex.{Matches, name_prefix_pattern, work_folder_pattern}
use incuse.Config.Patterns.Laws.{patterns_lem}
use incuse.Config.Preflight.{FileInfo, preflight}
use incuse.Config.Preflight.Laws.{FilesAreGuarded, preflight_lem}

-- A parser that knows one scheme.
unfoldable pub https_url : Text → Option (Text × Text)
unfolding has_prefix
https_url s = if has_prefix s (codes "https://") then some (codes "https", drop 8 s) else none

abbrev pub github : GitHubConfig
github = record {
  config_url = codes "https://github.com/org";
  auth = record {
    mode = auth_mode_pat;
    pat_file = codes "/etc/incuse/github.pat";
    app = record { client_id = []; private_key_file = []; installation_id = pos 0 };
  };
}

abbrev pub small : RunnerClassConfig
small = record {
  vcpus = pos 2;
  memory_gib = pos 4;
  disk_gib = pos 20;
  arch = arch_amd64;
  max_runners = pos 3;
}

abbrev pub large : RunnerClassConfig
large = record small { vcpus = pos 16; memory_gib = pos 64 }

abbrev pub raw : Config
raw = minimal github (small ∷ large ∷ []) (codes "default")

pub small-IsClass : IsClass default_prefix small
unfolding scale_set_name lower_rune itoa
small-IsClass = record {
  vcpus = omega arith;
  memory = omega arith;
  disk = omega arith;
  max_runners = omega arith;
  arch = inl refl;
  short = omega arith;
}

large-IsClass : IsClass default_prefix large
unfolding scale_set_name lower_rune itoa
large-IsClass = record {
  vcpus = omega arith;
  memory = omega arith;
  disk = omega arith;
  max_runners = omega arith;
  arch = inl refl;
  short = omega arith;
}

names-Nodup : Nodup (class_names default_prefix (small ∷ large ∷ []))
unfolding scale_set_name lower_rune itoa
names-Nodup = (((λ e. omega (arith, ap (λ s. length s) e)), tt), (tt, tt))

minimal-IsValid_example : validate https_url (apply_defaults raw) ≡ []
unfolding https_url
minimal-IsValid_example =
    minimal-IsValid https_url github (small ∷ large ∷ []) (codes "default")
      (codes "https", codes "github.com/org", refl, (λ e. cc), (λ e. cc)) (λ e. cc)
      (inl (refl, (λ e. cc))) (λ e. cc) (small-IsClass, (large-IsClass, tt)) names-Nodup (λ e. cc)

pub raw-passes : validate https_url (apply_defaults raw) ≡ []
unfolding https_url
raw-passes =
    minimal-IsValid https_url github (small ∷ large ∷ []) (codes "default")
      (codes "https", codes "github.com/org", refl, (λ e. cc), (λ e. cc)) (λ e. cc)
      (inl (refl, (λ e. cc))) (λ e. cc) (small-IsClass, (large-IsClass, tt)) names-Nodup (λ e. cc)

validate_lem_example :
    (validate https_url (apply_defaults raw) ≡ []) ↔ IsValid https_url (apply_defaults raw)
validate_lem_example = validate_lem https_url (apply_defaults raw)

scale_set_labels_lem_example :
    Nodup
      (map to_lower (scale_set_labels (codes "Linux" ∷ codes "linux" ∷ [] ∷ []) (codes "incuse-a")))
    × All
        (λ l.
          (contains (codes "Linux" ∷ codes "linux" ∷ [] ∷ codes "incuse-a" ∷ []) l ≡ true)
          × (is_empty l ≡ false))
        (scale_set_labels (codes "Linux" ∷ codes "linux" ∷ [] ∷ []) (codes "incuse-a"))
    × ((l : Text)
        → contains (codes "Linux" ∷ codes "linux" ∷ [] ∷ codes "incuse-a" ∷ []) l ≡ true
        → is_empty l ≡ false
        → contains
            (map to_lower
              (scale_set_labels (codes "Linux" ∷ codes "linux" ∷ [] ∷ []) (codes "incuse-a")))
            (to_lower l)
          ≡ true)
scale_set_labels_lem_example =
    scale_set_labels_lem (codes "Linux" ∷ codes "linux" ∷ [] ∷ []) (codes "incuse-a")

-- A token that only its owner reads.
abbrev stat : Text → Result FileInfo
stat path = ok (record { is_dir = false; perm = 0x180 })

preflight_lem_example : (preflight stat raw ≡ []) ↔ FilesAreGuarded stat raw
preflight_lem_example = preflight_lem stat raw

labels_test :
    scale_set_labels
      (codes "self-hosted" ∷ codes "Linux" ∷ codes "linux" ∷ [] ∷ [])
      (codes "incuse-a")
    ≡ codes "self-hosted" ∷ codes "Linux" ∷ codes "incuse-a" ∷ []
unfolding scale_set_labels text_eq lower_rune
labels_test = refl

name_test : scale_set_name small (codes "incuse") ≡ codes "incuse-2vcpu-4gb-20gb-amd64"
unfolding scale_set_name lower_rune itoa
name_test = refl

patterns_lem_example :
    ((valid_name_prefix (codes "a-b") ≡ true) ↔ Matches name_prefix_pattern (codes "a-b"))
    × ((valid_work_folder (codes "a-b") ≡ true) ↔ (
        (is_empty (codes "a-b") ≡ false)
        × (has_prefix (codes "a-b") (codes "/") ≡ false)
        × (contains_text (codes "a-b") (codes "..") ≡ false)
        × Matches work_folder_pattern (codes "a-b")))
patterns_lem_example = patterns_lem (codes "a-b")
