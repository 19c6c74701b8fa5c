-- ===== src/Runner.antt =====
-- internal/runner: the release that a runner installs and the input of its cloud-init payload.
pub mod Resolver
pub mod CloudInit
use incuse.Base.{Text, Bool}

pub record Release : Type 0 where
  pub version : Text
  pub download_url : Text
  pub sha256 : Text

pub record CloudInitSpec : Type 0 where
  pub release : Release
  pub jit_config : Text
  pub work_folder : Text
  pub runner_name : Text
  pub baked : Bool
  pub container : Bool
