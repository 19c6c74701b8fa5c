-- ===== src/Startup/Tests.antt =====
-- Files and credentials of a concrete configuration, for the tests of cmd/incuse/main.go.
use incuse.Base.{Text, codes, text_eq, Result, ok, [], ◌∷◌, ◌++◌, ◌≡◌, refl, All, inr, arith}
use incuse.Config.Defaults.{apply_defaults, scale_sets_defaults}
use incuse.Config.Tests.{raw}
use incuse.Startup.{read_auth_creds, trim_newlines}
use incuse.Startup.Classes.{Fits}

-- A token file with a newline at its end.
abbrev pub read_file : Text → Result Text
read_file path = ok (codes "token" ++ b'\n' ∷ [])

pub raw-Fits : All Fits (apply_defaults raw).scale_sets.classes
unfolding apply_defaults scale_sets_defaults
raw-Fits = (omega arith, (omega arith, tt))

pub raw-creds : read_auth_creds read_file (apply_defaults raw).github.auth ≡ inr (codes "token", [])
unfolding apply_defaults read_auth_creds trim_newlines text_eq
raw-creds = refl
