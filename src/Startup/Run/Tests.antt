-- ===== src/Startup/Run/Tests.antt =====
-- Runs of cmd/incuse/main.go from a concrete file, with a GitHub that knows nothing yet.
use incuse.Base.{ℕ, Text, text_eq, codes, some, ok, inl}
use incuse.Config.Defaults.{apply_defaults}
use incuse.Config.Tests.{https_url, raw, raw-passes}
use incuse.Startup.Tests.{read_file, raw-Fits, raw-creds}
use incuse.Scaleset.Bootstrap.Tests.{api}
use incuse.Startup.Run.{World, run}
use incuse.Startup.Run.Monitor.{Follows, nothing_yet}
use incuse.Startup.Run.Laws.{run-Follows}
use incuse.Startup.Run.Validated.{IsOutside, run-IsOutside}

abbrev pub world : World Text Text ℕ
world = record {
  read_file = read_file;
  dial = λ d. ok (codes "connection");
  api = λ spec. api;
  version = codes "v1";
  wait = some (codes "session expired");
}

run-Follows_example : Follows nothing_yet (run world (apply_defaults raw)).0
run-Follows_example = run-Follows world (apply_defaults raw)

run-IsOutside_example : IsOutside (run world (apply_defaults raw)).1
run-IsOutside_example =
    run-IsOutside https_url world raw raw-passes raw-Fits (λ pat key q. inl (λ e. cc raw-creds))
