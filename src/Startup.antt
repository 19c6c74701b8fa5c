-- ===== src/Startup.antt =====
-- cmd/incuse/main.go: what `run` reads and builds for each scale set.
pub mod Classes
pub mod Laws
pub mod Connection
pub mod Run
pub mod Main
pub mod Tests
use incuse.Base.{
  ◌≡◌, refl, ℕ, nat_eqb, ℤ, pos, Text, text_eq, ◌==◌, is_empty, Bool, true, ◌&&◌, ◌||◌, Option,
  some, none, Result, ok, err, [], ◌∷◌, ◌⊎◌, inl, inr, if◌then◌else◌,
}
use incuse.Config.{Config, AuthConfig, ScaleSetConfig, auth_mode_pat, auth_mode_app}
use incuse.Scaleset.{Options}
use incuse.Orchestrator.Setup.{Setup}

-- The loop drops newlines, carriage returns and blanks at the end.
abbrev is_trailing : ℕ → Bool
is_trailing c = nat_eqb c b'\n' || nat_eqb c b'\r' || nat_eqb c b' '

unfoldable pub trim_newlines : Text → Text
trim_newlines [] = []
trim_newlines (c ∷ b) =
    let rest = trim_newlines b in if is_empty rest && is_trailing c then [] else c ∷ rest

-- The path and the error of `os.ReadFile`, or a mode that is none of the two.
pub data CredsError : Type 0 where
  unreadable_pat_file unreadable_key_file : Text → Text → CredsError
  unknown_mode : Text → CredsError

unfoldable pub pat_creds : Text → Result Text → CredsError ⊎ (Text × Text)
unfolding trim_newlines
pat_creds path (err e) = inl (unreadable_pat_file path e)
pat_creds path (ok b) = inr (trim_newlines b, [])

unfoldable pub app_creds : Text → Result Text → CredsError ⊎ (Text × Text)
app_creds path (err e) = inl (unreadable_key_file path e)
app_creds path (ok b) = inr ([], b)

-- The token and the app's private key. `os.ReadFile` is a parameter.
unfoldable pub read_auth_creds : (Text → Result Text) → AuthConfig → CredsError ⊎ (Text × Text)
unfolding pat_creds app_creds
read_auth_creds read_file a =
    if a.mode == auth_mode_pat
    then pat_creds a.pat_file (read_file a.pat_file)
    else if a.mode == auth_mode_app
    then app_creds a.app.private_key_file (read_file a.app.private_key_file)
    else inl (unknown_mode a.mode)

-- `ssOpts`
unfoldable pub scale_set_options : Config → Text → Text → ScaleSetConfig → Options
scale_set_options c pat app_key spec = record {
  spec = spec;
  configure_url = c.github.config_url;
  pat = pat;
  app_client_id = c.github.auth.app.client_id;
  app_private_key_pem = app_key;
  app_installation_id = c.github.auth.app.installation_id;
  has_logger = true;
}

-- `orchCfg`, with the limiters that all the scale sets share
unfoldable pub orchestrator_setup : Config → ScaleSetConfig → Setup
orchestrator_setup c spec = record {
  has_incus_client = true;
  has_scale_set = true;
  has_release_resolver = true;
  has_logger = true;
  spec = spec;
  incus_cfg = c.incus;
  runner_cfg = c.runner;
  reap_interval = pos 0;
  mint_limiter = some c.runner.max_parallel_mints;
  launch_limiter = some c.runner.max_parallel_launches;
}

trim_test : trim_newlines (b'a' ∷ b' ' ∷ b'b' ∷ b'\r' ∷ b'\n' ∷ []) ≡ b'a' ∷ b' ' ∷ b'b' ∷ []
unfolding trim_newlines
trim_test = refl
