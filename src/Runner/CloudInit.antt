-- ===== src/Runner/CloudInit.antt =====
-- internal/runner/cloudinit.go: `Validate` and `Render`.
pub mod Template
pub mod Execute
pub mod Lines
pub mod Payload
pub mod Laws
mod Tests
use incuse.Base.{
  Text, is_empty, Bool, true, false, not, Option, none, some, Result, ok, err, List, [], ◌∷◌, ◌++◌,
  first_failed,
}
use incuse.Runner.{CloudInitSpec}
use incuse.Runner.CloudInit.Template.{Line, cloud_init_template, cloud_init_baked_template}
use incuse.Runner.CloudInit.Execute.{execute}

pub data CloudInitError : Type 0 where
  no_jit_config no_runner_name no_version no_download_url no_sha256 no_work_folder : CloudInitError

-- What only a plain image needs: `if s.Baked { return nil }`
unfoldable pub release_checks : Bool → CloudInitSpec → List (Bool × CloudInitError)
release_checks true s = []
release_checks false s =
    (not (is_empty s.release.version), no_version)
    ∷ (not (is_empty s.release.download_url), no_download_url)
    ∷ (not (is_empty s.release.sha256), no_sha256)
    ∷ (not (is_empty s.work_folder), no_work_folder)
    ∷ []

unfoldable pub spec_checks : CloudInitSpec → List (Bool × CloudInitError)
unfolding release_checks
spec_checks s =
    (not (is_empty s.jit_config), no_jit_config)
    ∷ (not (is_empty s.runner_name), no_runner_name)
    ∷ release_checks s.baked s

-- The error of `Validate`, if it has one.
unfoldable pub spec_error : CloudInitSpec → Option CloudInitError
unfolding spec_checks
spec_error s = first_failed (spec_checks s)

unfoldable pub template_for : Bool → List Line
template_for true = cloud_init_baked_template
template_for false = cloud_init_template

pub data Rendered : Type 0 where
  rendered : Text → Rendered
  incomplete : CloudInitError → Rendered
  not_rendered : Text → Rendered

unfoldable pub executed : Result Text → Rendered
executed (ok t) = rendered t
executed (err e) = not_rendered e

unfoldable pub render_checked : CloudInitSpec → Option CloudInitError → Rendered
unfolding executed execute
render_checked s (some e) = incomplete e
render_checked s none = executed (execute (template_for s.baked) s)

unfoldable pub render : CloudInitSpec → Rendered
unfolding render_checked spec_error
render s = render_checked s (spec_error s)
