-- ===== src/Orchestrator/Names/Whole.antt =====
-- The runner names of a scale set whose name `Validate` of internal/config/config.go accepts:
-- internal/orchestrator/orchestrator.go cuts nothing off.
use incuse.Base.{
  lower_rune, ◌+◌, ◌≤◌, ltb, ◌≡◌, ◌∙◌, Text, to_lower, byte_len, is_empty, length, length-map,
  trim_left, Bool, true, false, some, [], ◌∷◌, ◌++◌, arith,
}
use incuse.Orchestrator.Names.{dash, squeeze, max_name_len, sanitize_name_part, make_runner_name}
use incuse.Orchestrator.Names.Laws.{length-trim_left-le, length-trim_right-le}
use incuse.Orchestrator.Names.Bounds.{make-eq}

length-squeeze-le : (last : Bool) (s : Text) → length (squeeze last s) ≤ length s
unfolding squeeze
length-squeeze-le last [] = omega arith
length-squeeze-le last (c ∷ s) = ground (arith, length-squeeze-le false s, length-squeeze-le true s)

length-byte_len-le : (s : Text) → length s ≤ byte_len s
length-byte_len-le [] = omega arith
length-byte_len-le (c ∷ s) = ground (arith, length-byte_len-le s)

length-sanitize-le : (s : Text) → length (sanitize_name_part s) ≤ byte_len s
unfolding sanitize_name_part
length-sanitize-le s =
    let low : Text = to_lower s in
    omega (
      arith,
      length-trim_right-le dash (trim_left dash (squeeze false low)),
      length-trim_left-le dash (squeeze false low),
      length-squeeze-le false low,
      length-map s lower_rune,
      length-byte_len-le s,
    )

-- For a scale set whose name has at most 54 bytes and a suffix of at most 8, both not empty once
-- sanitized, the name of a runner is the two sanitized parts in full, with a dash between them.
pub runner_name_whole :
    (scale_set suffix : Text)
    → byte_len scale_set ≤ 54
    → byte_len suffix ≤ 8
    → is_empty (sanitize_name_part scale_set) ≡ false
    → is_empty (sanitize_name_part suffix) ≡ false
    → make_runner_name scale_set suffix
      ≡ some (sanitize_name_part scale_set ++ dash ∷ sanitize_name_part suffix)
runner_name_whole scale_set suffix short small full_a full_b =
    let la = length-sanitize-le scale_set in
    let lb = length-sanitize-le suffix in
    make-eq scale_set suffix (omega arith) full_a full_b ∙ rw (fits la lb)
  where
    fits :
        length (sanitize_name_part scale_set) ≤ byte_len scale_set
        → length (sanitize_name_part suffix) ≤ byte_len suffix
        → ltb max_name_len
            (length (sanitize_name_part scale_set) + 1 + length (sanitize_name_part suffix))
          ≡ false
    fits la lb = ground arith
