-- ===== src/Base/Results.antt =====
-- A Go pair of a value and an `error`: an error keeps its text.
use incuse.Base.Strings.{Text}

pub data Result {ℓ} (A : Type ℓ) : Type ℓ where
  ok : A → Result A
  err : Text → Result A
