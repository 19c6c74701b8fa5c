-- ===== src/Scaleset/Bootstrap/Tests.antt =====
-- A bootstrap of internal/scaleset at a GitHub that knows no scale set yet.
use incuse.Base.{ℕ, pos, Text, text_eq, codes, true, false, none, ok, err, [], ◌∷◌, ◌≡◌, refl}
use incuse.Scaleset.{Options}
use incuse.Scaleset.Reconcile.{reconcile_scale_set}
use incuse.Scaleset.Session.{open_session_with_retry}
use incuse.Scaleset.Bootstrap.{Api, new_scale_set, bootstrap, session_owner}
use incuse.Scaleset.Bootstrap.Endings.{Ends}
use incuse.Scaleset.Bootstrap.Laws.{bootstrap-Ends}

abbrev pub options : Options
options = record {
  spec = record {
    name = codes "incuse-a";
    runner_group = codes "Default";
    base_labels = codes "incuse-a" ∷ [];
    max_runners = pos 3;
    runner = record { vcpus = pos 2; memory_mb = pos 4096; disk_gb = pos 20; arch = codes "amd64" };
  };
  configure_url = codes "https://github.com/acme";
  pat = codes "token";
  app_client_id = [];
  app_private_key_pem = [];
  app_installation_id = pos 0;
  has_logger = true;
}

-- Clients are texts, and sessions numbers.
abbrev pub api : Api Text ℕ
api = record {
  new_client = λ call. ok (codes "client");
  get_runner_group_by_name = λ c name. ok (pos 1);
  get_runner_scale_set = λ c group name. ok none;
  create_runner_scale_set = λ c r. ok (record {
    id = pos 42;
    name = r.name;
    runner_group_id = r.runner_group_id;
    labels = r.labels;
  });
  update_runner_scale_set = λ c id r. err (codes "404");
  hostname = ok [];
  open_session = λ c id owner attempt. ok 9;
  is_over = λ attempt. false;
}

bootstrap-Ends_example :
    Ends ℕ api
      (codes "v1")
      options
      (bootstrap api (codes "v1") (new_scale_set options)).0
      (bootstrap {Listener = ℕ} api (codes "v1") (new_scale_set options)).1
bootstrap-Ends_example = bootstrap-Ends ℕ api (codes "v1") options

bootstrap_test :
    (bootstrap {Listener = ℕ} api (codes "v1") (new_scale_set options)).0.scale_set_id ≡ pos 42
unfolding bootstrap new_scale_set reconcile_scale_set open_session_with_retry
bootstrap_test = refl

owner_test : session_owner (ok []) ≡ ok (codes "incuse")
unfolding session_owner
owner_test = refl
