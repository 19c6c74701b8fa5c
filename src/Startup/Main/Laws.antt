-- ===== src/Startup/Main/Laws.antt =====
-- When cmd/incuse/main.go starts anything, and with which configuration.
use mathlib.Core.List.{cons≢nil}
use incuse.Base.{Text, false, ok, List, [], ◌∷◌, ◌⊎◌, inl, inr, ◌≡◌, refl, sym, ◌∙◌, if◌then◌else◌}
use incuse.Config.{Config}
use incuse.Config.Defaults.{apply_defaults}
use incuse.Config.Load.{accepted, decoded, parse, parse_read, load, invalid}
use incuse.Config.Preflight.{FileProblem, preflight}
use incuse.Config.Preflight.Laws.{FilesAreGuarded, preflight_lem}
use incuse.Config.Validate.{Problem, validate}
use incuse.Config.Validity.{IsValid}
use incuse.Config.Validity.Sections.{validate_lem}
use incuse.Startup.Run.{Event, run}
use incuse.Startup.Main.{
  Flags, Ended, Outside, config_ok, exited, load_failed, preflight_failed, after_run,
  after_preflight, after_load, main,
}

-- The configuration was refused, for what is in it or for the files that it names.
abbrev pub IsRefusal : Ended → Type 0
IsRefusal (exited (load_failed (invalid ps))) = Unit
IsRefusal (exited (preflight_failed ps)) = Unit
IsRefusal _ = ⊥

module _ {Conn Client Session : Type 0} (o : Outside Conn Client Session) (flags : Flags)
    (raw : Config) where
  abbrev c : Config
  c = apply_defaults raw

  -- Valid after the defaults, and the files of the credentials and of the client are as they should be.
  abbrev pub IsUsable : Type 0
  IsUsable = IsValid o.parse_url c × FilesAreGuarded o.stat c

  abbrev Guarded : List (Event Session) × Ended → Type 0
  Guarded r =
      (IsUsable
        × (r ≡ (if flags.validate then ([], config_ok) else after_run o flags (run o.world c))))
      ⊎ ((IsUsable → ⊥) × (r.0 ≡ []) × IsRefusal r.1)

  preflight-Guarded :
      (ps : List FileProblem)
      → preflight o.stat c ≡ ps
      → IsValid o.parse_url c
      → Guarded (after_preflight o flags c ps)
  unfolding after_preflight
  preflight-Guarded [] e valid = inl ((valid, (preflight_lem o.stat c).0 e), refl)
  preflight-Guarded (p ∷ ps) e valid =
      inr (
        (λ (v, all). cons≢nil {x = p} {xs = ps} (sym e ∙ (preflight_lem o.stat c).1 all)),
        refl,
        tt,
      )

  accepted-Guarded :
      (ps : List Problem)
      → validate o.parse_url c ≡ ps
      → Guarded (after_load o flags (accepted c ps))
  unfolding after_load accepted
  accepted-Guarded [] e = preflight-Guarded _ refl ((validate_lem o.parse_url c).0 e)
  accepted-Guarded (p ∷ ps) e = inr (
    (λ (v, all). cons≢nil {x = p} {xs = ps} (sym e ∙ (validate_lem o.parse_url c).1 v)),
    refl,
    tt,
  )

  -- Without -version, from a file that is read and decoded: either the configuration is valid after
  -- the defaults and the files of its credentials are as they should be, and main says so with
  -- -validate and otherwise does what run does with this configuration; or one of the two does not
  -- hold, and main refuses the configuration, and nothing is connected, opened or started.
  pub main_lem :
      (text : Text)
      → flags.show_version ≡ false
      → o.world.read_file flags.config_path ≡ ok text
      → o.decode text ≡ ok raw
      → (IsUsable
          × (main o flags
              ≡ (if flags.validate then ([], config_ok) else after_run o flags (run o.world c))))
        ⊎ ((IsUsable → ⊥) × ((main o flags).0 ≡ []) × IsRefusal (main o flags).1)
  unfolding main load parse_read parse decoded
  main_lem text shown read decodes =
      rw (shown, read, decodes) (accepted-Guarded (validate o.parse_url c) refl)
