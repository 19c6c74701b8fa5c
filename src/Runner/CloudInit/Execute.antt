-- ===== src/Runner/CloudInit/Execute.antt =====
-- What `template.Execute` writes for the templates of internal/runner/cloudinit.go.
use incuse.Base.{Text, Result, ok, List, [], ◌∷◌, ◌++◌, if◌then◌else◌}
use incuse.Runner.{CloudInitSpec}
use incuse.Runner.CloudInit.Template.{
  Field, field_runner_name, field_jit_config, field_work_folder, field_download_url, field_sha256,
  Piece, literal, field, unless_container, Line, line, line_unless_container,
}

abbrev pub field_text : CloudInitSpec → Field → Text
field_text s field_runner_name = s.runner_name
field_text s field_jit_config = s.jit_config
field_text s field_work_folder = s.work_folder
field_text s field_download_url = s.release.download_url
field_text s field_sha256 = s.release.sha256

unfoldable pub pieces_text : CloudInitSpec → List Piece → Text
pieces_text s [] = []
pieces_text s (literal t ∷ ps) = t ++ pieces_text s ps
pieces_text s (field f ∷ ps) = field_text s f ++ pieces_text s ps
pieces_text s (unless_container t ∷ ps) =
    let rest = pieces_text s ps in if s.container then rest else t ++ rest

unfoldable pub lines_text : CloudInitSpec → List Line → Text
unfolding pieces_text
lines_text s [] = []
lines_text s (line ps ∷ ls) = pieces_text s ps ++ b'\n' ∷ lines_text s ls
lines_text s (line_unless_container t ∷ ls) =
    let rest = lines_text s ls in if s.container then rest else t ++ b'\n' ∷ rest

-- No field is missing and a buffer takes all writes, so there is no error.
unfoldable pub execute : List Line → CloudInitSpec → Result Text
unfolding lines_text
execute template s = ok (lines_text s template)
