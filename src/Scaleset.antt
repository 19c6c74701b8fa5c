-- ===== src/Scaleset.antt =====
-- internal/scaleset/scaleset.go: the options of a scale set and `New`. `ssapi` is GitHub's client
-- library; the records of it that the code builds and reads are those of its fields.
pub mod Labels
pub mod Reconcile
pub mod Session
pub mod Bootstrap
pub mod Methods
mod Tests
use incuse.Base.{
  ℤ, pos, int_eq, Text, ◌==◌, is_empty, length, ltb, Bool, not, Option, none, some, List, [], ◌∷◌,
  ◌++◌, first_failed,
}
use incuse.Config.{ScaleSetConfig}

pub record Options : Type 0 where
  pub spec : ScaleSetConfig
  pub configure_url : Text
  pub pat : Text
  pub app_client_id : Text
  pub app_private_key_pem : Text
  pub app_installation_id : ℤ
  pub has_logger : Bool

pub data OptionsError : Type 0 where
  no_logger no_configure_url no_name no_runner_group no_base_labels : OptionsError
  no_credentials no_app_client_id no_app_installation_id : OptionsError

-- The checks under `if opts.PAT == ""`
unfoldable pub app_checks : Options → List (Bool × OptionsError)
app_checks o = elim o.pat [
  | [] ↦
      (not (is_empty o.app_private_key_pem), no_credentials)
      ∷ (not (is_empty o.app_client_id), no_app_client_id)
      ∷ (not (o.app_installation_id == pos 0), no_app_installation_id)
      ∷ []
  | _ ∷ _ ↦ []
]

unfoldable pub options_checks : Options → List (Bool × OptionsError)
unfolding app_checks
options_checks o =
    (o.has_logger, no_logger)
    ∷ (not (is_empty o.configure_url), no_configure_url)
    ∷ (not (is_empty o.spec.name), no_name)
    ∷ (not (is_empty o.spec.runner_group), no_runner_group)
    ∷ (ltb 0 (length o.spec.base_labels), no_base_labels)
    ∷ app_checks o

-- `New`: its error, if it has one.
unfoldable pub new_error : Options → Option OptionsError
unfolding options_checks
new_error o = first_failed (options_checks o)
