-- ===== src/Orchestrator/Names.antt =====
-- internal/orchestrator/orchestrator.go: the names of runners, `sanitizeNamePart` and
-- `makeRunnerName`.
pub mod Laws
pub mod Bounds
pub mod Whole
pub mod Suffix
use mathlib.Core.Option
use incuse.Base.{
  ℕ, ℤ, pos, negsuc, sub_ℕ, ltb_ℤ, Option, none, some, ◌+◌, Text, to_lower, trim, trim_right,
  byte_len, length, take, drop, Bool, true, false, List, [], ◌∷◌, ◌++◌, ◌&&◌, ◌||◌, ltb, leb,
  if◌then◌else◌,
}

abbrev pub dash : ℕ
dash = b'-'

-- `r >= 'a' && r <= 'z' || r >= '0' && r <= '9'`
unfoldable pub is_name_rune : ℕ → Bool
is_name_rune r = leb b'a' r && leb r b'z' || leb b'0' r && leb r b'9'

-- The loop: a run of other runes becomes one dash.
unfoldable pub squeeze : Bool → Text → Text
squeeze last_dash [] = []
squeeze last_dash (r ∷ value) =
    let valid = r ∷ squeeze false value in
    let other = squeeze true value in
    if is_name_rune r then valid else if last_dash then other else dash ∷ other

unfoldable pub sanitize_name_part : Text → Text
unfolding squeeze is_name_rune
sanitize_name_part value = trim dash (squeeze false (to_lower value))

abbrev pub max_name_len : ℕ
max_name_len = 63

-- `s[:n]` and `s[n:]` of an ASCII text; `none` is the panic of an index out of range.
abbrev pub slice_to : ℤ → Text → Option Text
slice_to (pos n) s = if leb n (length s) then some (take n s) else none
slice_to (negsuc n) s = none

abbrev pub slice_from : ℤ → Text → Option Text
slice_from (pos n) s = if leb n (length s) then some (drop n s) else none
slice_from (negsuc n) s = none

-- The branch for a name that is too long, over sanitized parts.
unfoldable pub shorten_to : ℤ → Text → Text → Option Text
shorten_to prefix_len scale_set suffix =
    if ltb_ℤ prefix_len (pos 1)
    then slice_from (sub_ℕ (byte_len suffix) max_name_len) suffix
    else Option.map (λ prefix. trim_right dash prefix ++ dash ∷ suffix)
        (slice_to prefix_len scale_set)

-- `prefixLen := 63 - len(suffix) - 1`
unfoldable pub shorten_name : Text → Text → Option Text
shorten_name scale_set suffix =
    shorten_to (sub_ℕ max_name_len (byte_len suffix + 1)) scale_set suffix

-- `none` is a panic.
unfoldable pub make_runner_name : Text → Text → Option Text
make_runner_name scale_set suffix =
    let scale_set' = sanitize_name_part scale_set in
    let suffix' = sanitize_name_part suffix in
    let name = trim dash (scale_set' ++ dash ∷ suffix') in
    if ltb max_name_len (byte_len name) then shorten_name scale_set' suffix' else some name
