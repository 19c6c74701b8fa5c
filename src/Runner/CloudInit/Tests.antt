-- ===== src/Runner/CloudInit/Tests.antt =====
-- The theorems about internal/runner/cloudinit.go at concrete inputs.
use incuse.Base.{Text, codes, true, false, [], ◌≡◌, refl}
use incuse.Config.Validity.{given}
use incuse.Runner.{CloudInitSpec}
use incuse.Runner.CloudInit.{
  rendered, render, spec_error, no_work_folder, spec_checks, release_checks, incomplete,
  render_checked,
}
use incuse.Runner.CloudInit.Lines.{is_one_line, split_lines}
use incuse.Runner.CloudInit.Laws.{Explains, render-Explains}
use incuse.Runner.CloudInit.Payload.{Delivers, payload-Delivers}

abbrev baked : CloudInitSpec
baked = record {
  release = record { version = []; download_url = []; sha256 = [] };
  jit_config = codes "jit";
  work_folder = [];
  runner_name = codes "linux-a";
  baked = true;
  container = false;
}

abbrev vanilla : CloudInitSpec
vanilla = record {
  release = record {
    version = codes "2.328.0";
    download_url = codes "https://github.com/runner.tar.gz";
    sha256 = codes "aaaa";
  };
  jit_config = codes "ZmFrZQ==";
  work_folder = codes "_work";
  runner_name = codes "incuse-runner-abc123";
  baked = false;
  container = true;
}

render-Explains_example : Explains baked (render baked)
render-Explains_example = render-Explains baked

payload-Delivers_example :
    (t : Text) × (render vanilla ≡ rendered t) × Delivers vanilla (split_lines t)
unfolding is_one_line
payload-Delivers_example =
    payload-Delivers vanilla
      (
        given vanilla.jit_config refl,
        given vanilla.runner_name refl,
        (λ _. (
          given vanilla.release.version refl,
          given vanilla.release.download_url refl,
          given vanilla.release.sha256 refl,
          given vanilla.work_folder refl,
        )),
      )
      (refl, refl, (λ _. (refl, refl, refl)))

no_folder_test : render (record vanilla { work_folder = [] }) ≡ incomplete no_work_folder
unfolding render render_checked spec_error spec_checks release_checks
no_folder_test = refl
