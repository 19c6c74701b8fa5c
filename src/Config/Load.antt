-- ===== src/Config/Load.antt =====
-- internal/config/config.go: `Load` and `Parse` over what the file and the YAML decoder answer.
use incuse.Base.{Text, Option, Result, ok, err, List, [], ◌∷◌, ◌⊎◌, inl, inr}
use incuse.Config.{Config}
use incuse.Config.Defaults.{apply_defaults}
use incuse.Config.Validate.{Problem, validate}

pub data LoadError : Type 0 where
  read_failed decode_failed : Text → LoadError
  invalid : List Problem → LoadError

unfoldable pub accepted : Config → List Problem → LoadError ⊎ Config
accepted c [] = inr c
accepted c (p ∷ ps) = inl (invalid (p ∷ ps))

module _ (parse_url : Text → Option (Text × Text)) (decode : Text → Result Config) where
  -- From the decoder's answer on.
  unfoldable pub decoded : Result Config → LoadError ⊎ Config
  unfolding accepted
  decoded (err e) = inl (decode_failed e)
  decoded (ok raw) = let c = apply_defaults raw in accepted c (validate parse_url c)

  unfoldable pub parse : Text → LoadError ⊎ Config
  unfolding decoded
  parse text = decoded (decode text)

  unfoldable pub parse_read : Result Text → LoadError ⊎ Config
  unfolding parse
  parse_read (err e) = inl (read_failed e)
  parse_read (ok text) = parse text

  unfoldable pub load : (Text → Result Text) → Text → LoadError ⊎ Config
  unfolding parse_read
  load read_file path = parse_read (read_file path)
