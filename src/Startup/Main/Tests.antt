-- ===== src/Startup/Main/Tests.antt =====
-- The theorem about `main` of cmd/incuse/main.go at a concrete file, and runs of the program.
use incuse.Base.{ℕ, Text, text_eq, codes, true, false, ok, err, [], ◌≡◌, ◌⊎◌, refl}
use incuse.Config.Load.{load, parse_read, read_failed}
use incuse.Config.Tests.{https_url, raw}
use incuse.Startup.Run.Tests.{world}
use incuse.Startup.Main.{
  Flags, Outside, config_ok, version_printed, exited, load_failed, after_load, main,
}
use incuse.Startup.Main.Laws.{IsUsable, IsRefusal, main_lem}

abbrev outside : Outside Text Text ℕ
outside = record {
  world = world;
  parse_url = https_url;
  decode = λ text. ok raw;
  stat = λ path. ok (record { is_dir = false; perm = 0x180 });
  is_canceled = λ e. false;
}

abbrev flags : Flags
flags = record {
  config_path = codes "/etc/incuse/config.yaml";
  show_version = false;
  validate = true;
}

main_lem_example :
    (IsUsable outside flags raw × (main outside flags ≡ ([], config_ok)))
    ⊎ ((IsUsable outside flags raw → ⊥)
        × ((main outside flags).0 ≡ [])
        × IsRefusal (main outside flags).1)
main_lem_example = main_lem outside flags raw (codes "token\n") refl refl refl

version_test : main outside (record flags { show_version = true }) ≡ ([], version_printed)
unfolding main
version_test = refl

no_file_test :
    let without = record outside {
      world = record world { read_file = λ path. err (codes "ENOENT") };
    } in
    main without flags ≡ ([], exited (load_failed (read_failed (codes "ENOENT"))))
unfolding main after_load load parse_read
no_file_test = refl
